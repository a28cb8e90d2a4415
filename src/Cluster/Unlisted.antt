-- ===== src/Cluster/Unlisted.antt =====
-- A coordinator that a follower's whitelist does not hold (server/interceptors.go,
-- server/server.go).
use committer.Prelude.{ℕ, String, ◌≡◌, ◌≢◌, refl, false, none, Bool, true, List, ◌∷◌}
use committer.Proto.{Entry, Reply, fails, deadline_exceeded}
use committer.Config.{includes}
use committer.Database.{Database}
use committer.Server.Handlers.{Node, is_ack}
use committer.Server.Interceptor.{white_list_checker, host, Peer}
use committer.Cluster.{
  Session, exit, call, deliver, Fate, Handler, Called, delivered, request_lost, reply_lost,
  deadline, client_side, next_fate, later_fates,
}
use committer.Cluster.Rounds.{asks}
use committer.Cluster.Stages.{propose_call, catch_up}
use committer.Cluster.Put.{put}
use committer.Cluster.Divergence.{put_never_returns}

module _ (database : Database) where
  abbrev Unlisted : Session database → Node database → Type 0
  Unlisted s f = (h : String) × (s.seen_as ≡ host h) × (includes f.config.whitelist h ≡ false)

  white_list_checker-Unlisted :
      (p : Peer) (f : Node database) (handler : Handler database) (h : String)
      → p ≡ host h
      → includes f.config.whitelist h ≡ false
      → ((client_side (white_list_checker database p f handler).0).response ≡ none)
        × ((white_list_checker database p f handler).1 ≡ f)
  unfolding white_list_checker client_side
  white_list_checker-Unlisted p f handler h same unlisted = rw (same, unlisted) (refl, refl)

  deliver-Unlisted :
      (x : Fate) (s : Session database) (f : Node database) (handler : Handler database)
      → Unlisted s f
      → let c = deliver database x s f handler in
        (c.0.response ≡ none) × (c.1.seen_as ≡ s.seen_as) × (c.2 ≡ f)
  unfolding deliver
  deliver-Unlisted delivered s f handler (h, same, unlisted) =
      let w = white_list_checker-Unlisted s.seen_as f handler h same unlisted in (w.0, refl, w.1)
  deliver-Unlisted request_lost s f handler u = (refl, refl, refl)
  deliver-Unlisted reply_lost s f handler (h, same, unlisted) =
      let w = white_list_checker-Unlisted s.seen_as f handler h same unlisted in (refl, refl, w.1)
  deliver-Unlisted deadline s f handler u = (refl, refl, refl)

  -- A call from a host that the follower's whitelist does not hold gets no response and leaves the
  -- follower as it was, whatever handler it asks for and whatever the network does.
  call-Unlisted :
      (s : Session database) (f : Node database) (handler : Handler database) (h : String)
      → s.seen_as ≡ host h
      → includes f.config.whitelist h ≡ false
      → ((call database s f handler).0.response ≡ none)
        × ((call database s f handler).1.seen_as ≡ s.seen_as)
        × ((call database s f handler).2 ≡ f)
  unfolding call
  call-Unlisted s f handler h same unlisted = go s.expired
    where
      refused : Called database
      refused = (fails deadline_exceeded, s, f)

      sent : Called database
      sent = deliver database (next_fate s.net) (record s { net = later_fates s.net }) f handler

      go :
          (b : Bool)
          → let c : Called database = elim b [ Bool.true ↦ refused | Bool.false ↦ sent ] in
            (c.0.response ≡ none) × (c.1.seen_as ≡ s.seen_as) × (c.2 ≡ f)
      go true = (refl, refl, refl)
      go false =
          deliver-Unlisted (next_fate s.net) (record s { net = later_fates s.net }) f handler
            (h, same, unlisted)

  Unlisted-call :
      (e : Entry) (s : Session database) (f : Node database)
      → Unlisted s f
      → let c = propose_call database e s f in (is_ack c.0.response ≡ false) × Unlisted c.1 c.2
  unfolding propose_call is_ack catch_up
  Unlisted-call e s f (h, same, unlisted) =
      let (no_response, seen, kept) = call-Unlisted s f (asks database e s) h same unlisted in
      rw (no_response, kept) (refl, (h, cc (seen, same), unlisted))

  -- If the whitelist of the first follower does not hold the coordinator's host, then `Put` never
  -- returns: no number of rounds makes it return a reply, whatever the network does.
  pub put-Unlisted :
      (fuel : ℕ) (e : Entry) (s : Session database) (f : Node database) (fs : List (Node database))
      (r : Reply) (h : String)
      → s.seen_as ≡ host h
      → includes f.config.whitelist h ≡ false
      → (put database fuel e s (f ∷ fs)).0 ≢ exit r
  put-Unlisted fuel e s f fs r h same unlisted =
      put_never_returns database Unlisted (λ l t g u. u) Unlisted-call fuel e s f fs r
        (h, same, unlisted)
