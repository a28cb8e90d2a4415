-- ===== src/Cluster/Refusal.antt =====
-- `Put` with a follower whose hook refuses, and with a context that has expired
-- (server/server.go).
use committer.Prelude.{ℕ, ◌≡◌, ◌≢◌, inl, inr, refl, true, false, List, ◌∷◌, arith}
use committer.Proto.{Entry, Reply, ProposeRequest}
use committer.Database.{Database}
use committer.Server.Node.{set_progress}
use committer.Server.Handlers.{Node, is_ack, propose, propose_handler}
use committer.Cluster.{Session, exit, call}
use committer.Cluster.Calls.{call-Transmits}
use committer.Cluster.Rounds.{asks}
use committer.Cluster.Stages.{propose_call, catch_up}
use committer.Cluster.Put.{put}
use committer.Cluster.Divergence.{put_never_returns}

module _ (database : Database) where
  abbrev Refuses : Session database → Node database → Type 0
  Refuses s f = (req : ProposeRequest) → f.propose_hook req ≡ false

  propose-refused :
      (f : Node database) (req : ProposeRequest)
      → f.propose_hook req ≡ false
      → (is_ack (propose database f req).0.response ≡ false)
        × ((propose database f req).1.propose_hook ≡ f.propose_hook)
  unfolding propose propose_handler set_progress is_ack
  propose-refused f req h = ground arith

  Refuses-call :
      (e : Entry) (s : Session database) (f : Node database)
      → Refuses s f
      → let c = propose_call database e s f in (is_ack c.0.response ≡ false) × Refuses c.1 c.2
  unfolding propose_call is_ack
  Refuses-call e s f h =
      let (no_ack, kept) = propose-refused f _ (h _) in
      let t = call-Transmits database s f (asks database e s) in
      (
        elim t.reply_side [ inl (_, same, _) ↦ rw same no_ack | inr (_, failed) ↦ rw failed refl ],
        elim t.far_side [
          | inl same ↦ λ req. rw same (h req)
          | inr ran ↦ λ req. rw (ran, kept) (h req)
        ],
      )

  -- If the hook of the first follower refuses every proposal, then `Put` never returns: no number
  -- of rounds makes it return a reply, whatever the network does.
  pub put-refused :
      (fuel : ℕ) (e : Entry) (s : Session database) (f : Node database) (fs : List (Node database))
      (r : Reply)
      → ((req : ProposeRequest) → f.propose_hook req ≡ false)
      → (put database fuel e s (f ∷ fs)).0 ≢ exit r
  put-refused fuel e s f fs r h =
      put_never_returns database Refuses (λ l t g refuses. refuses) Refuses-call fuel e s f fs r h

  expired_call :
      (e : Entry) (s : Session database) (f : Node database)
      → s.expired ≡ true
      → let c = propose_call database e s f in (is_ack c.0.response ≡ false) × (c.1.expired ≡ true)
  unfolding propose_call call is_ack catch_up
  expired_call e s f h = rw h (refl, refl)

  -- Once the context has expired, `Put` with a follower never returns: no number of rounds makes
  -- it return a reply.
  pub put-expired :
      (fuel : ℕ) (e : Entry) (s : Session database) (f : Node database) (fs : List (Node database))
      (r : Reply)
      → s.expired ≡ true
      → (put database fuel e s (f ∷ fs)).0 ≢ exit r
  put-expired fuel e s f fs r h =
      put_never_returns database (λ t g. t.expired ≡ true) (λ l t g same. same) expired_call fuel e
        s f fs r h
