-- ===== src/Cluster/Watched/Turns.antt =====
-- The rules at the turns of `Put`'s three loops (server/server.go).
use committer.Prelude.{
  ℕ, zero, suc, ◌≡◌, ◌≢◌, ◌⊎◌, inl, inr, refl, sym, subst, ◌∙◌, Bool, true, false, Option, none,
  some, [], arith, ltb, Bool-cases,
}
use committer.Proto.{Entry, Reply, Response, Error, CommitRequest}
use committer.Database.{Database}
use committer.Server.Handlers.{Node, is_ack, precommit, commit}
use committer.Cluster.{Session, continue, Called, call, Handler}
use committer.Cluster.Calls.{call-Transmits}
use committer.Cluster.Notes.{Log, note_propose, note_prepared, note_commit, note_committed}
use committer.Cluster.Rounds.{
  asks, choose, round, propose_turn-suc, propose_turn-zero, propose_call-exclusive,
}
use committer.Cluster.Stages.{
  log, with_log, catch_up, propose_call, propose_turn, vote, confirm, cache_entry, answered,
  precommit_turn, commit_turn, commit_request,
}
use committer.Cluster.Commits.{commits, note_end, precommits}
use committer.Cluster.Watched.{Keeps, Fine, Stops, noted-Fine, answered-Fine}

module _ (database : Database) where
  catch_up-log :
      (r : Option Response) (s : Session database)
      → log database (catch_up database r s) ≡ log database s
  unfolding catch_up
  catch_up-log none s = refl
  catch_up-log (some r) s = elim (Bool-cases (ltb s.self.height r.index)) [
    | inl higher ↦ rw higher
    | inr same ↦ rw same
  ]

  call-log :
      (s : Session database) (f : Node database) (handler : Handler database)
      → log database (call database s f handler).1 ≡ log database s
  call-log s f handler = let t = call-Transmits database s f handler in cc (t.same_self, t.same_gs)

  propose_call-log :
      (e : Entry) (s : Session database) (f : Node database)
      → log database (propose_call database e s f).1 ≡ log database s
  unfolding propose_call
  propose_call-log e s f =
      catch_up-log _ (call database s f (asks database e s)).1 ∙ call-log s f (asks database e s)

  -- A reply with no error has a response.
  abbrev Responds : Reply → Type 0
  Responds r = r.error ≡ none → r.response ≢ none

  call-Responds :
      (s : Session database) (f : Node database) (handler : Handler database)
      → Responds (handler f).0
      → Responds (call database s f handler).0
  call-Responds s f handler h fine = elim (call-Transmits database s f handler).reply_side [
    | inl (_, same, _) ↦ rw same (h (rw (← same) fine))
    | inr (x, bad) ↦ cc (bad, fine)
  ]

  precommit-Responds :
      (s : Session database) (f : Node database) → Responds (precommits database s f).0
  unfolding precommit
  precommit-Responds s f = λ fine missing. cc missing

  commit-Responds :
      (f : Node database) (req : CommitRequest) → Responds (commit database (some []) f req).0
  unfolding commit
  commit-Responds f req fine missing = ground arith

  module _ (Stop : Reply → Log → Type 0) (Fault : Type 0) where
    module _ (pid : ℕ) (P Q : Log → Type 0) where
      confirm-Fine :
          (b : Bool) (s : Session database) (f : Node database)
          → Keeps (note_prepared pid) P Q
          → b ≡ true
          → P (log database s)
          → Fine database Stop Fault Q (confirm database pid b s f)
      unfolding confirm
      confirm-Fine false s f keeps h p = cc
      confirm-Fine true s f keeps h p =
          noted-Fine database Stop Fault P Q Q (note_prepared pid) s f (λ u. (continue, u, f)) keeps
            p (λ l q. q)

      vote-Fine :
          (e : Entry) (x : Option Error) (resp : Option Response) (s : Session database)
          (f : Node database)
          → Keeps (note_prepared pid) P Q
          → is_ack resp ≡ true
          → (x ≡ none) ⊎ (resp ≡ none)
          → P (log database s)
          → Fine database Stop Fault Q (vote database pid e x resp s f)
      unfolding vote
      vote-Fine e none resp s f keeps acked h p =
          confirm-Fine (is_ack resp) (cache_entry database e s) f keeps acked p
      vote-Fine e (some x) resp s f keeps acked (inl fine) p = cc fine
      vote-Fine e (some x) resp s f keeps acked (inr no_response) p =
          absurd (unfold is_ack in cc (rw no_response at acked))

      choose-Fine :
          (fuel : ℕ) (e : Entry) (c : Called database) (b : Bool)
          → Keeps (note_prepared pid) P Q
          → ((s : Session database) (f : Node database)
              → P (log database s)
              → Fine database Stop Fault Q (propose_turn database fuel e pid s f))
          → is_ack c.0.response ≡ b
          → (c.0.error ≡ none) ⊎ (c.0.response ≡ none)
          → P (log database c.1)
          → Fine database Stop Fault Q (choose database pid fuel e c b)
      unfolding choose
      choose-Fine fuel e c false keeps ih same h p = ih c.1 c.2 p
      choose-Fine fuel e c true keeps ih same h p =
          vote-Fine e c.0.error c.0.response c.1 c.2 keeps same h p

      -- The first note may start from another fact `O`.
      pub propose_turn-Fine :
          (O : Log → Type 0) (fuel : ℕ) (e : Entry) (s : Session database) (f : Node database)
          → Keeps (note_propose pid) O P
          → Keeps (note_propose pid) P P
          → Keeps (note_prepared pid) P Q
          → O (log database s)
          → Fine database Stop Fault Q (propose_turn database fuel e pid s f)
      unfolding round
      propose_turn-Fine O zero e s f starts proposes prepares o =
          rw (propose_turn-zero database pid e s f) tt
      propose_turn-Fine O (suc fuel) e s f starts proposes prepares o =
          rw (propose_turn-suc database fuel pid e s f) (
            noted-Fine database Stop Fault O P Q (note_propose pid) s f
              (round database pid fuel e f) starts o
              (λ l p.
                let v = with_log database l s in
                let c = propose_call database e v f in
                choose-Fine fuel e c (is_ack c.0.response) prepares
                  (λ s' f' p'. propose_turn-Fine P fuel e s' f' proposes proposes prepares p') refl
                  (propose_call-exclusive database e v f)
                  (subst P (sym (propose_call-log e v f)) p)))

      pub commit_turn-Fine :
          (R : Log → Type 0) (s : Session database) (f : Node database)
          → Stops database Stop Fault Q
          → Keeps (note_commit pid) P Q
          → Keeps (note_committed pid) Q R
          → P (log database s)
          → Fine database Stop Fault R (commit_turn database pid s f)
      unfolding commit_turn note_end
      commit_turn-Fine R s f stops sends receives p =
          noted-Fine database Stop Fault P Q R (note_commit pid) s f
            (λ v.
              let w = call database v f (commits database v) in
              answered database w.0.error w.0.response w.1 w.2 (note_end database pid))
            sends p
            (λ l q.
              let v = with_log database l s in
              let w = call database v f (commits database v) in
              let q' = subst Q (sym (call-log v f (commits database v))) q in
              answered-Fine database Stop Fault Q R w.0.error w.0.response w.1 w.2
                (note_end database pid) stops q'
                (call-Responds v f (commits database v)
                  (commit-Responds f (commit_request database v)))
                (noted-Fine database Stop Fault Q R R (note_committed pid) w.1 w.2
                  (λ x. (continue, x, w.2)) receives q' (λ l' x. x)))

    pub precommit_turn-Fine :
        (P : Log → Type 0) (pid : ℕ) (s : Session database) (f : Node database)
        → Stops database Stop Fault P
        → P (log database s)
        → Fine database Stop Fault P (precommit_turn database pid s f)
    unfolding precommit_turn
    precommit_turn-Fine P pid s f stops p =
        let w = call database s f (precommits database s) in
        let p' = subst P (sym (call-log s f (precommits database s))) p in
        answered-Fine database Stop Fault P P w.0.error w.0.response w.1 w.2
          (λ u g. (continue, u, g)) stops p'
          (call-Responds s f (precommits database s) (precommit-Responds s f)) p'
