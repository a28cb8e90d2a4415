-- ===== src/Cluster/Exits.antt =====
-- How the stages of `Put` end (server/server.go).
use committer.Prelude.{
  ℕ, zero, suc, ◌≡◌, ◌≢◌, ◌⊎◌, inl, inr, refl, Bool, true, false, Option, none, some, List,
  Option-cases,
}
use committer.Go.{Go}
use committer.Proto.{
  Answer, Entry, Reply, Response, Error, ack, answer, fails, not_acknowledged, failed_to_save,
  not_in_cache, nack,
}
use committer.Database.{Database, Result, ok, err}
use committer.Server.Handlers.{Node, is_ack, acknowledges, precommit}
use committer.Cluster.{Session, Control, continue, exit, crash, out_of_fuel, Called, call}
use committer.Cluster.Notes.{Log, note_propose, note_prepared, note_commit, note_committed}
use committer.Cluster.Rounds.{
  choose, round, propose_turn-suc, propose_turn-zero, propose_call-exclusive,
}
use committer.Cluster.Stages.{
  Turn, noted, log, with_log, propose_call, propose_turn, vote, confirm, cache_entry, answered,
  precommit_turn, commit_turn, Loop,
}
use committer.Cluster.Put.{chain, persist, persist_result}
use committer.Cluster.Commits.{commits, note_end}
use committer.Cache

module _ (database : Database) (r : Reply) where
  noted-ne-exit :
      (g : Go Log) (s : Session database) (f : Node database) (k : Session database → Turn database)
      → ((t : Session database) → (k t).0 ≢ exit r)
      → (noted database g s f k).0 ≢ exit r
  noted-ne-exit (Go.ok l) s f k h = h (with_log database l s)
  noted-ne-exit (Go.panic p) s f k h = λ e. cc e

  confirm-true-ne-exit :
      (pid : ℕ) (b : Bool) (s : Session database) (f : Node database)
      → b ≡ true
      → (confirm database pid b s f).0 ≢ exit r
  unfolding confirm
  confirm-true-ne-exit pid true s f h =
      noted-ne-exit (note_prepared pid (log database s)) s f (λ t. (continue, t, f)) (λ t e. cc e)
  confirm-true-ne-exit pid false s f h = cc

  -- An error and an acknowledgement do not come together.
  vote-ne-exit :
      (pid : ℕ) (e : Entry) (x : Option Error) (resp : Option Response) (s : Session database)
      (f : Node database)
      → is_ack resp ≡ true
      → (x ≡ none) ⊎ (resp ≡ none)
      → (vote database pid e x resp s f).0 ≢ exit r
  unfolding vote
  vote-ne-exit pid e none resp s f acked h =
      confirm-true-ne-exit pid (is_ack resp) (cache_entry database e s) f acked
  vote-ne-exit pid e (some x) resp s f acked (inl fine) = cc fine
  vote-ne-exit pid e (some x) resp s f acked (inr no_response) =
      absurd (unfold is_ack in cc (rw no_response at acked))

  choose-ne-exit :
      (pid fuel : ℕ) (e : Entry) (c : Called database) (b : Bool)
      → ((t : Session database) (g : Node database)
          → (propose_turn database fuel e pid t g).0 ≢ exit r)
      → is_ack c.0.response ≡ b
      → (c.0.error ≡ none) ⊎ (c.0.response ≡ none)
      → (choose database pid fuel e c b).0 ≢ exit r
  unfolding choose
  choose-ne-exit pid fuel e c false ih same h = ih c.1 c.2
  choose-ne-exit pid fuel e c true ih same h =
      vote-ne-exit pid e c.0.error c.0.response c.1 c.2 same h

  -- The propose stage never makes `Put` return: whatever the network and the follower do, and
  -- however many rounds are given, the turn of a follower ends in no reply.
  pub propose_turn-ne-exit :
      (fuel pid : ℕ) (e : Entry) (s : Session database) (f : Node database)
      → (propose_turn database fuel e pid s f).0 ≢ exit r
  unfolding round
  propose_turn-ne-exit zero pid e s f = λ h. cc (propose_turn-zero database pid e s f, h)
  propose_turn-ne-exit (suc fuel) pid e s f = rw (propose_turn-suc database fuel pid e s f) (
      noted-ne-exit (note_propose pid (log database s)) s f (round database pid fuel e f) (λ t.
        let c = propose_call database e t f in
        choose-ne-exit pid fuel e c (is_ack c.0.response)
          (λ u g. propose_turn-ne-exit fuel pid e u g) refl
          (propose_call-exclusive database e t f)))

-- Only the end of `Put` returns an acknowledgement.
module _ (database : Database) (r : Reply) (good : acknowledges r ≡ true) where
  -- Replies that are no acknowledgement.
  nack-ne : (i : ℕ) → exit (answer nack i) ≢ exit r
  unfolding acknowledges is_ack
  nack-ne i same = cc (good, same)

  error-ne : (q : Reply) (x : Error) → q.error ≡ some x → exit q ≢ exit r
  unfolding acknowledges
  error-ne q x bad same =
      let refused : acknowledges q ≡ false = rw (bad, acknowledges) refl in cc (good, refused, same)

  answered-ne :
      (x : Option Error) (resp : Option Response) (s : Session database) (f : Node database)
      (k : Session database → Node database → Turn database)
      → ((k s f).0 ≢ exit r)
      → (answered database x resp s f k).0 ≢ exit r
  unfolding answered
  answered-ne (some x) resp s f k h = nack-ne 0
  answered-ne none none s f k h = λ e. cc e
  answered-ne none (some a) s f k h = go a.typ
    where
      go :
          (t : Answer)
          → (elim t as (λ _. Turn database) [
            | Answer.ack ↦ k s f
            | Answer.nack ↦ (exit (fails not_acknowledged), s, f)
          ]).0
            ≢ exit r
      go Answer.ack = h
      go Answer.nack = error-ne (fails not_acknowledged) not_acknowledged refl

  pub precommit_turn-ne :
      (pid : ℕ) (s : Session database) (f : Node database)
      → (precommit_turn database pid s f).0 ≢ exit r
  unfolding precommit_turn
  precommit_turn-ne pid s f =
      let c = call database s f (λ n. precommit database n (record { index = s.self.height })) in
      answered-ne c.0.error c.0.response c.1 c.2 (λ t g. (continue, t, g)) (λ e. cc e)

  commit_answered-ne :
      (pid : ℕ) (c : Called database)
      → (answered database c.0.error c.0.response c.1 c.2 (note_end database pid)).0 ≢ exit r
  unfolding note_end
  commit_answered-ne pid c = answered-ne c.0.error c.0.response c.1 c.2 (note_end database pid) (
      noted-ne-exit database r (note_committed pid (log database c.1)) c.1 c.2
        (λ v. (continue, v, c.2)) (λ v e. cc e))

  pub commit_turn-ne :
      (pid : ℕ) (s : Session database) (f : Node database)
      → (commit_turn database pid s f).0 ≢ exit r
  unfolding commit_turn note_end
  commit_turn-ne pid s f =
      noted-ne-exit database r (note_commit pid (log database s)) s f
        (λ t.
          let c = call database t f (commits database t) in
          answered database c.0.error c.0.response c.1 c.2 (note_end database pid))
        (λ t. commit_answered-ne pid (call database t f (commits database t)))

  persist_result-ne :
      (w : Result database.State) (s : Session database) (fs : List (Node database))
      → (persist_result database w s fs).0 ≢ exit r
  unfolding persist_result
  persist_result-ne (ok d) s fs = λ e. cc e
  persist_result-ne (err x) s fs =
      error-ne (record (answer nack 0) { error = some failed_to_save }) failed_to_save refl

  pub persist-ne :
      (s : Session database) (fs : List (Node database)) → (persist database s fs).0 ≢ exit r
  unfolding persist
  persist-ne s fs = elim (Option-cases (Cache.get s.self.node_cache s.self.height)) [
    | inl missing ↦ rw (missing, persist) (error-ne (fails not_in_cache) not_in_cache refl)
    | inr (m, found) ↦
        rw (found, persist) (persist_result-ne (database.put s.self.db m.key m.value) s fs)
  ]

module _ (database : Database) where
  abbrev pub acknowledged : Control
  acknowledged = exit (answer ack 0)

  good : acknowledges (answer ack 0) ≡ true
  unfolding acknowledges is_ack
  good = refl

  pub precommit_turn-ne-ack :
      (pid : ℕ) (s : Session database) (f : Node database)
      → (precommit_turn database pid s f).0 ≢ acknowledged
  precommit_turn-ne-ack = precommit_turn-ne database (answer ack 0) good

  pub commit_turn-ne-ack :
      (pid : ℕ) (s : Session database) (f : Node database)
      → (commit_turn database pid s f).0 ≢ acknowledged
  commit_turn-ne-ack = commit_turn-ne database (answer ack 0) good

  pub persist-ne-ack :
      (s : Session database) (fs : List (Node database)) → (persist database s fs).0 ≢ acknowledged
  persist-ne-ack = persist-ne database (answer ack 0) good

  pub chain-exit :
      (w : Loop database) (k : Session database → List (Node database) → Loop database) (r : Reply)
      → w.0 ≢ exit r
      → (chain database w k).0 ≡ exit r
      → (w.0 ≡ continue) × (chain database w k ≡ k w.1 w.2)
  unfolding chain
  chain-exit (continue, s, fs) k r n h = (refl, refl)
  chain-exit (exit x, s, fs) k r n h = absurd (n h)
  chain-exit (crash p, s, fs) k r n h = cc
  chain-exit (out_of_fuel, s, fs) k r n h = cc
