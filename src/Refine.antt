-- ===== src/Refine.antt =====
-- server/refine.go: the messages of the coordinator and its starting state, as TLA values.
use Prim.Native.String.{◌++◌}
use committer.Prelude.{ℕ, ◌+◌, [], ◌∷◌}
use committer.Tla.{Tla, str, rec}
use committer.Tla.Ops.{record_of}
use committer.Tla.Print.{decimal_ℕ}
use committer.Monitor.{State}
use committer.Monitor.Clauses.{empty, coordinator, message}

unfoldable pub refine_party : ℕ → Tla
unfolding decimal_ℕ
refine_party pid = str ("r" ++ decimal_ℕ (pid + 1))

-- The request itself is not looked at.
unfoldable pub refine_propose_msg : ℕ → Tla
unfolding message refine_party
refine_propose_msg pid = message "Prepare" coordinator (refine_party pid)

unfoldable pub refine_propose_reply : ℕ → Tla
unfolding message refine_party
refine_propose_reply pid = message "Prepared" (refine_party pid) coordinator

unfoldable pub refine_aborted_msg : ℕ → Tla
unfolding message refine_party
refine_aborted_msg pid = message "Aborted" (refine_party pid) coordinator

unfoldable pub refine_commit_msg : ℕ → Tla
unfolding message refine_party
refine_commit_msg pid = message "Commit" coordinator (refine_party pid)

unfoldable pub refine_committed_msg : ℕ → Tla
unfolding message refine_party
refine_committed_msg pid = message "Committed" (refine_party pid) coordinator

unfoldable pub starting : State
unfolding record_of
starting = record {
  who = str "none";
  actions = empty;
  inflight = empty;
  inbox = boxes;
  outbox = boxes;
  tm_committed = empty;
  tm_prepared = empty;
  tm_aborted = empty;
  tm_decision = str "none";
  rm_state = rec (record_of (("r1", str "working") ∷ ("r2", str "working") ∷ []));
}
  where
    boxes : Tla
    boxes = rec (record_of (("coordinator", empty) ∷ ("r1", empty) ∷ ("r2", empty) ∷ []))
