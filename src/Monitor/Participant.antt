-- ===== src/Monitor/Participant.antt =====
-- The checks of a participant's actions (server/TwoPhaseCommitFull.go).
use committer.Prelude.{Bool, ◌&&◌, String, [], ◌∷◌}
use committer.Go.{Go, ok, require, ◌>>=◌, ◌>>◌}
use committer.Tla.{Tla, str, rec, items}
use committer.Tla.Ops.{as_record, as_string, eq, to_set, set_in, index_into, except}
use committer.Monitor.{State}
use committer.Monitor.Clauses.{coordinator, message, replies, logs, unchanged_tm}

-- `rmState' = [rmState EXCEPT ![r] = s]`
unfoldable pub moves_to : String → Tla → State → State → Go Bool
unfolding as_record as_string except eq
moves_to s r prev this = do
  m ← as_record prev.rm_state
  k ← as_string r
  ok (eq this.rm_state (rec (except m k (str s))))

-- One of the two answers to `Prepare`.
unfoldable pub answers : String → String → Tla → State → State → Go Bool
unfolding moves_to message replies
answers s reply r prev this = do
  moved ← moves_to s r prev this
  replied ← replies (message reply r coordinator) (message "Prepare" coordinator r) prev this
  ok (moved && replied)

-- The second answer is looked at only if the first one does not fit.
unfoldable pub check_p_handle_prepare : Tla → State → State → Go (Unit {0})
unfolding index_into eq answers unchanged_tm logs
check_p_handle_prepare r prev this = do
  mine ← index_into prev.rm_state r
  require (eq mine (str "working")) "PHandlePrepare: rmState[r] = working"
  yes_vote ← answers "prepared" "Prepared" r prev this
  elim yes_vote [
    | Bool.true ↦ ok tt
    | Bool.false ↦ do
      no_vote ← answers "aborted" "Aborted" r prev this
      require no_vote "PHandlePrepare: Reply(Prepared) or Reply(Aborted)"
  ]
  require (unchanged_tm prev this)
      "PHandlePrepare: UNCHANGED(<<tmPrepared, tmCommitted, tmAborted, tmDecision>>)"
  now ← index_into this.rm_state r
  logged ← logs (str "PHandlePrepare" ∷ r ∷ now ∷ []) prev this
  require logged "PHandlePrepare: LogAction(<<PHandlePrepare, r, rmState'[r]>>)"
  require (eq this.who r) "PHandlePrepare: LogActor(r)"

unfoldable pub check_p_handle_commit : Tla → State → State → Go (Unit {0})
unfolding index_into eq moves_to message replies unchanged_tm logs
check_p_handle_commit r prev this = do
  mine ← index_into prev.rm_state r
  require (eq mine (str "prepared")) "PHandleCommit: rmState[r] = prepared"
  moved ← moves_to "committed" r prev this
  require moved "PHandleCommit: rmState' = [rmState EXCEPT ![r] = committed]"
  replied ← replies (message "Committed" r coordinator) (message "Commit" coordinator r) prev this
  require replied "PHandleCommit: Reply(Committed, Commit)"
  require (unchanged_tm prev this)
      "PHandleCommit: UNCHANGED(<<tmPrepared, tmCommitted, tmAborted, tmDecision>>)"
  logged ← logs (str "PHandleCommit" ∷ r ∷ []) prev this
  require logged "PHandleCommit: LogAction(<<PHandleCommit, r>>)"
  require (eq this.who r) "PHandleCommit: LogActor(r)"

unfoldable pub check_p_handle_abort : Tla → State → State → Go (Unit {0})
unfolding index_into to_set set_in eq moves_to message replies unchanged_tm logs
check_p_handle_abort r prev this = do
  mine ← index_into prev.rm_state r
  undecided ← to_set (items (str "working" ∷ str "prepared" ∷ []))
  found ← set_in mine undecided
  require found "PHandleAbort: rmState[r] \\in {working, prepared}"
  moved ← moves_to "aborted" r prev this
  require moved "PHandleAbort: rmState' = [rmState EXCEPT ![r] = aborted]"
  replied ← replies (message "Aborted" r coordinator) (message "Abort" coordinator r) prev this
  require replied "PHandleAbort: Reply(Aborted, Abort)"
  require (unchanged_tm prev this)
      "PHandleAbort: UNCHANGED(<<tmPrepared, tmCommitted, tmAborted, tmDecision>>)"
  logged ← logs (str "PHandleAbort" ∷ r ∷ []) prev this
  require logged "PHandleAbort: LogAction(<<PHandleAbort, r>>)"
  require (eq this.who r) "PHandleAbort: LogActor(r)"
