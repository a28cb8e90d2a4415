-- ===== src/Cluster/Lossy/Calls.antt =====
-- Calls between a coordinator and followers that consent, over a network that loses some of them
-- (server/server.go, peer/peer.go).
use committer.Prelude.{
  ℕ, ◌≡◌, ◌⊎◌, inl, inr, ◌≤◌, refl, sym, ap, subst, true, false, String, some, List, [], ◌∷◌,
  Bool-cases,
}
use committer.Config.{includes}
use committer.Proto.{
  Entry, ProposeRequest, CommitRequest, PrecommitRequest, ack, answer, fails, unavailable,
}
use committer.Cache.{Msg, get-set}
use committer.Cache
use committer.Database.{Database}
use committer.Server.Node.{set_progress, is_three_phase}
use committer.Server.Handlers.{Node, propose, precommit}
use committer.Server.Propose.{cached, propose_acks, get-cached}
use committer.Server.Interceptor.{host, white_list_checker}
use committer.Cluster.{
  Session, Fate, delivered, request_lost, reply_lost, next_fate, later_fates, Handler, call,
  deliver, client_side,
}

-- A call that fails, whether or not its handler ran.
abbrev pub IsLost : Fate → Type 0
IsLost x = (x ≡ request_lost) ⊎ (x ≡ reply_lost)

module _ (database : Database) where
  -- A coordinator at the height `h`, seen under the host `a`, whose context does not expire and whose
  -- calls go as `net` says.
  pub record Calm (a : String) (h : ℕ) (net : List Fate) (s : Session database) : Type 0 where
    pub in_time : s.expired ≡ false
    pub seen : s.seen_as ≡ host a
    pub level : s.self.height ≡ h
    pub coming : s.net ≡ net

  -- A follower that consents, lists the host `a` and is not above the height `h`.
  pub record Willing (a : String) (h : ℕ) (n : Node database) : Type 0 where
    pub proposes : (req : ProposeRequest) → n.propose_hook req ≡ true
    pub commits : (req : CommitRequest) → n.commit_hook req ≡ true
    pub listed : includes n.config.whitelist a ≡ true
    pub low : n.height ≤ h

  -- The entry is cached at the height `h`.
  abbrev pub Holds : ℕ → Entry → Node database → Type 0
  Holds h e n = Cache.get n.node_cache h ≡ some (record { key = e.key; value = e.value })

  abbrev pub later : Session database → Session database
  later s = record s { net = later_fates s.net }

  pub later-Calm :
      (a : String) (h : ℕ) (x : Fate) (net : List Fate) (s : Session database)
      → Calm a h (x ∷ net) s
      → Calm a h net (later s)
  later-Calm a h x net s c = record {
    in_time = c.in_time;
    seen = c.seen;
    level = c.level;
    coming = ap later_fates c.coming;
  }

  pub later-Calm_nil :
      (a : String) (h : ℕ) (s : Session database) → Calm a h [] s → Calm a h [] (later s)
  later-Calm_nil a h s c = record {
    in_time = c.in_time;
    seen = c.seen;
    level = c.level;
    coming = ap later_fates c.coming;
  }

  -- A call that is delivered and one that is lost.
  pub call-delivered :
      (a : String) (h : ℕ) (net : List Fate) (s : Session database) (f : Node database)
      (handler : Handler database)
      → Calm a h net s
      → Willing a h f
      → next_fate net ≡ delivered
      → call database s f handler ≡ (client_side (handler f).0, later s, (handler f).1)
  unfolding call deliver white_list_checker
  call-delivered a h net s f handler c w next =
      rw (c.in_time, c.coming, next, c.seen, w.listed) refl

  pub call-lost :
      (a : String) (h : ℕ) (x : Fate) (net : List Fate) (s : Session database) (f : Node database)
      (handler : Handler database)
      → Calm a h (x ∷ net) s
      → Willing a h f
      → IsLost x
      → (call database s f handler ≡ (fails unavailable, later s, f))
        ⊎ (call database s f handler ≡ (fails unavailable, later s, (handler f).1))
  unfolding call deliver white_list_checker
  call-lost a h x net s f handler c w (inl lost) = inl (rw (c.in_time, c.coming, lost) refl)
  call-lost a h x net s f handler c w (inr lost) =
      inr (rw (c.in_time, c.coming, lost, c.seen, w.listed) refl)

  -- What a proposal at the height does to a willing follower.
  pub propose-Willing :
      (a : String) (h : ℕ) (n : Node database) (req : ProposeRequest)
      → Willing a h n
      → req.index ≡ h
      → let p = propose database n req in
        (p.0 ≡ answer ack h)
        × Willing a h p.1
        × Holds h (record { key = req.key; value = req.value }) p.1
  unfolding set_progress
  propose-Willing a h n req w at =
      let run =
        propose_acks database n req (w.proposes req) (subst (λ i. n.height ≤ i) (sym at) w.low) in
      let t = cached database req (set_progress req.index false n) in
      let kept = get-cached database (set_progress req.index false n) req in
      rw run (
        ap (answer ack) at,
        record { proposes = w.proposes; commits = w.commits; listed = w.listed; low = w.low },
        subst (λ i. Cache.get t.node_cache i ≡ some (record { key = req.key; value = req.value }))
            at kept,
      )

  pub precommit-Willing :
      (a : String) (h : ℕ) (e : Entry) (n : Node database) (req : PrecommitRequest)
      → Willing a h n
      → Holds h e n
      → let p = precommit database n req in (p.0 ≡ answer ack 0) × Willing a h p.1 × Holds h e p.1
  unfolding precommit
  precommit-Willing a h e n req w held = elim (Bool-cases (is_three_phase n.config)) [
    | inr two ↦ rw (two, precommit) (refl, w, held)
    | inl three ↦
        rw (three, precommit)
          (
            refl,
            record { proposes = w.proposes; commits = w.commits; listed = w.listed; low = w.low },
            held,
          )
  ]
