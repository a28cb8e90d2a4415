-- ===== src/Cluster/Overlap/Rejected/Turns.antt =====
-- Turns of `Put` at a coordinator whose monitor's trace is rejected (server/server.go).
use committer.Prelude.{
  ℕ, zero, suc, refl, sym, subst, Bool, true, false, Option, none, some, inl, inr, ltb, Bool-cases,
}
use committer.Go.{Go, Panic, panic}
use committer.Proto.{Entry, Response, Error, answer, nack}
use committer.Monitor.Rejected.{Rejects, Okay}
use committer.Database.{Database}
use committer.Server.Handlers.{Node, is_ack}
use committer.Cluster.{Session, continue, exit, Called, Handler, call}
use committer.Cluster.Calls.{call-Transmits}
use committer.Cluster.Notes.{
  Log, note_propose, note_prepared, note_aborted, note_commit, note_committed,
}
use committer.Cluster.Notes.Rejected.{
  Fails, note_propose-Fails, note_prepared-Fails, note_aborted-Fails, note_commit-Fails,
  note_committed-Fails,
}
use committer.Cluster.Rounds.{asks, choose, round, propose_turn-suc, propose_turn-zero}
use committer.Cluster.Stages.{
  Turn, noted, log, with_log, catch_up, cache_entry, confirm, vote, propose_call, propose_turn,
  answered, precommit_turn, commit_turn,
}
use committer.Cluster.Loops.{answered-any}
use committer.Cluster.Commits.{commits, precommits, note_end}

module _ (database : Database) (p : Panic) where
  abbrev pub Bad : Session database → Type 0
  Bad s = Rejects p s.self.monitor

  abbrev BadTurn : Turn database → Type 0
  BadTurn w = Bad w.1

  noted-Bad :
      (g : Go Log) (s : Session database) (f : Node database) (k : Session database → Turn database)
      → Bad s
      → Okay (Fails p) g
      → ((t : Session database) → Bad t → BadTurn (k t))
      → BadTurn (noted database g s f k)
  noted-Bad (Go.ok l) s f k h o rest = rest (with_log database l s) (o.result l refl)
  noted-Bad (panic q) s f k h o rest = h

  call-Bad :
      (s : Session database) (f : Node database) (handler : Handler database)
      → Bad s
      → Bad (call database s f handler).1
  call-Bad s f handler h =
      let t = call-Transmits database s f handler in
      subst (λ (n : Node database). Rejects p n.monitor) (sym t.same_self) h

  catch_up-Bad : (r : Option Response) (s : Session database) → Bad s → Bad (catch_up database r s)
  unfolding catch_up
  catch_up-Bad none s h = h
  catch_up-Bad (some r) s h = elim (Bool-cases (ltb s.self.height r.index)) [
    | inl higher ↦ rw higher h
    | inr level ↦ rw level h
  ]

  confirm-Bad :
      (pid : ℕ) (b : Bool) (s : Session database) (f : Node database)
      → Bad s
      → BadTurn (confirm database pid b s f)
  unfolding confirm
  confirm-Bad pid false s f h = h
  confirm-Bad pid true s f h =
      noted-Bad (note_prepared pid (log database s)) s f (λ t. (continue, t, f)) h
        (note_prepared-Fails p pid (log database s) h) (λ t h'. h')

  vote-Bad :
      (pid : ℕ) (e : Entry) (x : Option Error) (r : Option Response) (s : Session database)
      (f : Node database)
      → Bad s
      → BadTurn (vote database pid e x r s f)
  unfolding vote
  vote-Bad pid e (some x) r s f h =
      noted-Bad (note_aborted pid (log database s)) s f (λ t. (exit (answer nack 0), t, f)) h
        (note_aborted-Fails p pid (log database s) h) (λ t h'. h')
  vote-Bad pid e none r s f h = confirm-Bad pid (is_ack r) (cache_entry database e s) f h

  propose_call-Bad :
      (e : Entry) (s : Session database) (f : Node database)
      → Bad s
      → Bad (propose_call database e s f).1
  unfolding propose_call
  propose_call-Bad e s f h =
      let c = call database s f (asks database e s) in
      catch_up-Bad c.0.response c.1 (call-Bad s f (asks database e s) h)

  choose-Bad :
      (pid fuel : ℕ) (e : Entry) (c : Called database) (b : Bool)
      → ((t : Session database) (g : Node database)
          → Bad t
          → BadTurn (propose_turn database fuel e pid t g))
      → Bad c.1
      → BadTurn (choose database pid fuel e c b)
  unfolding choose
  choose-Bad pid fuel e c true rest h = vote-Bad pid e c.0.error c.0.response c.1 c.2 h
  choose-Bad pid fuel e c false rest h = rest c.1 c.2 h

  pub propose_turn-Bad :
      (fuel pid : ℕ) (e : Entry) (s : Session database) (f : Node database)
      → Bad s
      → BadTurn (propose_turn database fuel e pid s f)
  unfolding round
  propose_turn-Bad zero pid e s f h = rw (propose_turn-zero database pid e s f) h
  propose_turn-Bad (suc fuel) pid e s f h = rw (propose_turn-suc database fuel pid e s f) (
      noted-Bad (note_propose pid (log database s)) s f (round database pid fuel e f) h
        (note_propose-Fails p pid (log database s) h)
        (λ t h'.
          let c = propose_call database e t f in
          choose-Bad pid fuel e c (is_ack c.0.response) (propose_turn-Bad fuel pid e)
            (propose_call-Bad e t f h')))

  pub precommit_turn-Bad :
      (pid : ℕ) (s : Session database) (f : Node database)
      → Bad s
      → BadTurn (precommit_turn database pid s f)
  unfolding precommit_turn
  precommit_turn-Bad pid s f h =
      let c = call database s f (precommits database s) in
      let h' = call-Bad s f (precommits database s) h in
      answered-any database BadTurn c.0.error c.0.response c.1 c.2 (λ t g. (continue, t, g))
        (λ _. h') h'

  commit_answered-Bad :
      (pid : ℕ) (c : Called database)
      → Bad c.1
      → BadTurn (answered database c.0.error c.0.response c.1 c.2 (note_end database pid))
  unfolding note_end
  commit_answered-Bad pid c h =
      answered-any database BadTurn c.0.error c.0.response c.1 c.2 (note_end database pid) (λ _. h)
        (noted-Bad (note_committed pid (log database c.1)) c.1 c.2 (λ v. (continue, v, c.2)) h
          (note_committed-Fails p pid (log database c.1) h) (λ v h'. h'))

  pub commit_turn-Bad :
      (pid : ℕ) (s : Session database) (f : Node database)
      → Bad s
      → BadTurn (commit_turn database pid s f)
  unfolding commit_turn note_end
  commit_turn-Bad pid s f h =
      noted-Bad (note_commit pid (log database s)) s f
        (λ t.
          let c = call database t f (commits database t) in
          answered database c.0.error c.0.response c.1 c.2 (note_end database pid))
        h (note_commit-Fails p pid (log database s) h)
        (λ t h'.
          commit_answered-Bad pid (call database t f (commits database t))
            (call-Bad t f (commits database t) h'))
