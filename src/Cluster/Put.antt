-- ===== src/Cluster/Put.antt =====
-- `Put` of the coordinator (server/server.go), without its tracing, logging and timing.
use committer.Prelude.{ℕ, none, some, List, [], u64_succ}
use committer.Go.{Go, ok, panic, ◌>>=◌}
use committer.Proto.{Entry, ack, nack, answer, fails, not_in_cache, failed_to_save}
use committer.Cache.{Msg}
use committer.Cache
use committer.Database.{Database, Result, err}
use committer.Monitor.{initial, reset}
use committer.Monitor.Clauses.{coordinator}
use committer.Monitor.Trace.{check_trace}
use committer.Refine.{starting}
use committer.Server.Handlers.{Node}
use committer.Cluster.{Session, continue, exit, crash}
use committer.Cluster.Notes.{Log, capture}
use committer.Cluster.Stages.{
  Loop, log, with_log, propose_turn, precommit_turn, commit_turn, for_followers,
}

-- The monitor starts from `Starting()` with the event `Initial`.
unfoldable pub begin : Log → Go Log
unfolding capture starting
begin l = do
  l' ← capture initial [] (record l { gs = starting })
  ok (record l' { gs = record (l'.gs) { who = coordinator } })

module _ (database : Database) where
  -- The next part of `Put`, unless the part before it has ended it.
  unfoldable pub chain :
      Loop database → (Session database → List (Node database) → Loop database) → Loop database
  chain (continue, s, fs) k = k s fs
  chain (c, s, fs) k = (c, s, fs)

  unfoldable pub persist_result :
      Result database.State → Session database → List (Node database) → Loop database
  persist_result (Result.ok d) s fs = (continue, record s { self = record (s.self) { db = d } }, fs)
  persist_result (err _) s fs =
      (exit (record (answer nack 0) { error = some failed_to_save }), s, fs)

  -- The coordinator saves the message before it sends the commits.
  unfoldable pub persist : Session database → List (Node database) → Loop database
  unfolding persist_result Cache.get
  persist s fs = elim (Cache.get s.self.node_cache s.self.height) [
    | none ↦ (exit (fails not_in_cache), s, fs)
    | some m ↦ persist_result (database.put s.self.db m.key m.value) s fs
  ]

  -- The height rises, the trace is checked and forgotten.
  unfoldable pub finish : Session database → List (Node database) → Loop database
  unfolding check_trace reset
  finish s fs =
      let raised = record s { self = record (s.self) { height = u64_succ s.self.height } } in
      elim (check_trace s.self.monitor) [
        | panic p ↦ (crash p, raised, fs)
        | ok _ ↦ (
          exit (answer ack 0),
          record raised { self = record (raised.self) { monitor = reset s.self.monitor } },
          fs,
        )
      ]

  -- What follows the proposals.
  unfoldable pub rest_of_put : Session database → List (Node database) → Loop database
  unfolding chain for_followers precommit_turn commit_turn persist finish
  rest_of_put s₁ fs₁ = chain (for_followers database (precommit_turn database) 0 s₁ fs₁) λ s₂ fs₂.
      chain (persist s₂ fs₂)
        λ s₃ fs₃. chain (for_followers database (commit_turn database) 0 s₃ fs₃) finish

  unfoldable pub put : ℕ → Entry → Session database → List (Node database) → Loop database
  unfolding begin chain for_followers propose_turn rest_of_put
  put fuel e s fs = elim (begin (log database s)) [
    | panic p ↦ (crash p, s, fs)
    | ok l ↦
        chain (for_followers database (propose_turn database fuel e) 0 (with_log database l s) fs)
          rest_of_put
  ]
