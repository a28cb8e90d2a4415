-- ===== src/Cluster/Calls.antt =====
-- What one call leaves on both sides, whatever the network does (server/server.go, peer/peer.go).
use committer.Prelude.{◌≡◌, ◌⊎◌, inl, inr, refl, Bool, true, false, none, Bool-cases, Option-cases}
use committer.Proto.{Reply, Error, fails, permission_denied, deadline_exceeded}
use committer.Database.{Database}
use committer.Server.Handlers.{Node}
use committer.Server.Interceptor.{white_list_checker, Peer, unknown, bad_address, host}
use committer.Config.{includes}
use committer.Cluster.{
  Session, Handler, Called, call, deliver, Fate, delivered, request_lost, reply_lost, deadline,
  client_side, next_fate, later_fates,
}

module _ (database : Database) where
  -- The caller's node and its monitor's view do not change. The follower is as it was, or as its
  -- handler left it; it is as the handler left it if the caller gets a reply without an error, and
  -- then the reply is the handler's.
  pub record Transmits (s : Session database) (f : Node database) (handler : Handler database)
      (c : Called database) : Type 0 where
    pub same_self : c.1.self ≡ s.self
    pub same_gs : c.1.gs ≡ s.gs
    pub far_side : (c.2 ≡ f) ⊎ (c.2 ≡ (handler f).1)
    pub reply_side :
        ((c.0.error ≡ none) × (c.0 ≡ (handler f).0) × (c.2 ≡ (handler f).1))
        ⊎ ((e : Error) × (c.0 ≡ fails e))

  -- The interceptor runs the handler, or refuses the call and leaves the node alone.
  pub white_list_checker-cases :
      (p : Peer) (f : Node database) (handler : Handler database)
      → (white_list_checker database p f handler ≡ handler f)
        ⊎ ((e : Error) × (white_list_checker database p f handler ≡ (fails e, f)))
  unfolding white_list_checker
  white_list_checker-cases unknown f handler = inr (_, refl)
  white_list_checker-cases (bad_address e) f handler = inr (e, refl)
  white_list_checker-cases (host h) f handler = elim (Bool-cases (includes f.config.whitelist h)) [
    | inl listed ↦ inl (rw listed)
    | inr other ↦ inr (permission_denied, rw other)
  ]

  far_side_cases :
      (p : Peer) (f : Node database) (handler : Handler database)
      → ((white_list_checker database p f handler).1 ≡ f)
        ⊎ ((white_list_checker database p f handler).1 ≡ (handler f).1)
  far_side_cases p f handler = elim (white_list_checker-cases p f handler) [
    | inl ran ↦ inr (rw ran)
    | inr (e, refused) ↦ inl (rw refused)
  ]

  client_side-cases :
      (w : Reply × Node database)
      → ((w.0.error ≡ none) × (client_side w.0 ≡ w.0)) ⊎ ((e : Error) × (client_side w.0 ≡ fails e))
  unfolding client_side
  client_side-cases w = elim (Option-cases w.0.error) [
    | inl fine ↦ inl (fine, rw fine)
    | inr (e, bad) ↦ inr (e, rw bad)
  ]

  reply_side_cases :
      (p : Peer) (f : Node database) (handler : Handler database)
      → let w = white_list_checker database p f handler in
        (((client_side w.0).error ≡ none)
          × (client_side w.0 ≡ (handler f).0)
          × (w.1 ≡ (handler f).1))
        ⊎ ((e : Error) × (client_side w.0 ≡ fails e))
  unfolding client_side
  reply_side_cases p f handler = elim (white_list_checker-cases p f handler) [
    | inr (e, refused) ↦ rw refused (inr (e, refl))
    | inl ran ↦ rw ran (elim (client_side-cases (handler f)) [
      | inl (fine, same) ↦ inl (rw same fine, same, refl)
      | inr (e, bad) ↦ inr (e, bad)
    ])
  ]

  deliver-Transmits :
      (x : Fate) (s : Session database) (f : Node database) (handler : Handler database)
      → Transmits s f handler (deliver database x s f handler)
  unfolding deliver
  deliver-Transmits delivered s f handler = record {
    same_self = refl;
    same_gs = refl;
    far_side = far_side_cases s.seen_as f handler;
    reply_side = reply_side_cases s.seen_as f handler;
  }
  deliver-Transmits request_lost s f handler = record {
    same_self = refl;
    same_gs = refl;
    far_side = inl refl;
    reply_side = inr (_, refl);
  }
  deliver-Transmits reply_lost s f handler = record {
    same_self = refl;
    same_gs = refl;
    far_side = far_side_cases s.seen_as f handler;
    reply_side = inr (_, refl);
  }
  deliver-Transmits deadline s f handler = record {
    same_self = refl;
    same_gs = refl;
    far_side = inl refl;
    reply_side = inr (_, refl);
  }

  pub call-Transmits :
      (s : Session database) (f : Node database) (handler : Handler database)
      → Transmits s f handler (call database s f handler)
  unfolding call
  call-Transmits s f handler = go s.expired
    where
      refused : Called database
      refused = (fails deadline_exceeded, s, f)

      sent : Called database
      sent = deliver database (next_fate s.net) (record s { net = later_fates s.net }) f handler

      go : (b : Bool) → Transmits s f handler (elim b [ Bool.true ↦ refused | Bool.false ↦ sent ])
      go true = record {
        same_self = refl;
        same_gs = refl;
        far_side = inl refl;
        reply_side = inr (_, refl);
      }
      go false =
          let d =
            deliver-Transmits (next_fate s.net) (record s { net = later_fates s.net }) f handler in
          record {
            same_self = d.same_self;
            same_gs = d.same_gs;
            far_side = d.far_side;
            reply_side = d.reply_side;
          }
