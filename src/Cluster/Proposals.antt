-- ===== src/Cluster/Proposals.antt =====
-- The propose stage of `Put` (server/server.go), by a coordinator that is not behind a follower,
-- whatever the network does.
use committer.Prelude.{
  ℕ, zero, suc, ◌≡◌, ◌⊎◌, ◌≤◌, inl, inr, refl, sym, ◌∙◌, ap, subst, Bool, true, false, Option, none,
  some, arith, Bool-cases,
}
use committer.Go.{Go, ok, panic}
use committer.Proto.{Answer, Entry, Response, Error, ProposeRequest, ack, nack, answer}
use committer.Cache.{Msg, get-set}
use committer.Cache
use committer.Database.{Database}
use committer.Server.Node.{set_progress}
use committer.Server.Handlers.{Node, is_ack, propose, propose_handler}
use committer.Cluster.{Session, continue, Called}
use committer.Cluster.Calls.{Transmits, call-Transmits}
use committer.Cluster.Notes.{Log, note_propose, note_prepared}
use committer.Cluster.Rounds.{asks, choose, round, propose_turn-suc, propose_turn-zero}
use committer.Cluster.Stages.{
  Turn, noted, log, with_log, propose_request, propose_call, propose_turn, vote, confirm, catch_up,
  cache_entry,
}

module _ (database : Database) where
  abbrev pub msg_of : Entry → Msg
  msg_of e = record { key = e.key; value = e.value }

  -- A follower has the message of `e` in its cache at the height `h`.
  abbrev pub Holds : ℕ → Entry → Node database → Type 0
  Holds h e f = Cache.get f.node_cache h ≡ some (msg_of e)

  -- What an answer to a proposal at an index that is not below the follower's height may be.
  propose-answer :
      (f : Node database) (req : ProposeRequest)
      → f.height ≤ req.index
      → ((propose database f req).1.height ≡ f.height)
        × (((propose database f req).0 ≡ answer nack req.index)
            ⊎ (((propose database f req).0 ≡ answer ack req.index)
                × (Cache.get (propose database f req).1.node_cache req.index
                    ≡ some (record { key = req.key; value = req.value }))))
  unfolding propose propose_handler set_progress
  propose-answer f req le = elim (Bool-cases (f.propose_hook req)) [
    | inl vote ↦ rw (vote, propose_handler) (refl, inr (ground arith, rw get-set (ground arith)))
    | inr veto ↦ rw (veto, propose_handler) (refl, inl (ground arith))
  ]

  catch_up_same :
      (t : Answer) (i : ℕ) (s : Session database)
      → s.self.height ≡ i
      → catch_up database (some (record { typ = t; index = i })) s ≡ s
  unfolding catch_up
  catch_up_same t i s h = ground arith

  abbrev pub Keeps : Entry → Session database → Node database → Called database → Type 0
  Keeps e s f c =
      (c.1.self ≡ s.self)
      × (c.2.height ≡ f.height)
      × ((is_ack c.0.response ≡ false) ⊎ ((c.0.error ≡ none) × Holds s.self.height e c.2))

  far_height :
      (e : Entry) (s : Session database) (f : Node database) (c : Called database)
      → f.height ≤ s.self.height
      → Transmits database s f (asks database e s) c
      → c.2.height ≡ f.height
  unfolding propose_request
  far_height e s f c le t = elim t.far_side [
    | inl same ↦ rw same
    | inr ran ↦ rw ran (propose-answer f (propose_request database s e) le).0
  ]

  Keeps-of_Transmits :
      (e : Entry) (s : Session database) (f : Node database) (c : Called database)
      → f.height ≤ s.self.height
      → Transmits database s f (asks database e s) c
      → Keeps e s f (c.0, catch_up database c.0.response c.1, c.2)
  unfolding propose_request is_ack
  Keeps-of_Transmits e s f c le t = elim t.reply_side [
    | inr (x, bad) ↦
        (rw bad (unfold catch_up in t.same_self), far_height e s f c le t, inl (rw bad))
    | inl (fine, same, ran) ↦ elim (propose-answer f (propose_request database s e) le).1 [
      | inl refused ↦ (
        rw (same, refused) (rw (catch_up_same nack _ c.1 level) t.same_self),
        far_height e s f c le t,
        inl (rw (same, refused)),
      )
      | inr (acked, holds) ↦ (
        rw (same, acked) (rw (catch_up_same ack _ c.1 level) t.same_self),
        far_height e s f c le t,
        inr (fine, rw ran holds),
      )
    ]
  ]
    where
      level : c.1.self.height ≡ s.self.height
      level = ap (λ (n : Node database). n.height) t.same_self

  -- A proposal sent by a coordinator that is not behind the follower changes no height, and if it
  -- is acknowledged there is no error and the follower holds the message.
  pub propose_call-Keeps :
      (e : Entry) (s : Session database) (f : Node database)
      → f.height ≤ s.self.height
      → Keeps e s f (propose_call database e s f)
  unfolding propose_call
  propose_call-Keeps e s f le =
      Keeps-of_Transmits e s f _ le (call-Transmits database s f (asks database e s))

  -- What the stage has reached: the coordinator is at height `h`, and has the message cached.
  abbrev pub IsAt : ℕ → Session database → Type 0
  IsAt h s = s.self.height ≡ h

  abbrev pub Cached : ℕ → Entry → Session database → Type 0
  Cached h e s = (s.self.height ≡ h) × Holds h e (s.self)

  pub noted-eq_continue :
      (g : Go Log) (s : Session database) (f : Node database) (k : Session database → Turn database)
      → (noted database g s f k).0 ≡ continue
      → (l : Log) × (noted database g s f k ≡ k (with_log database l s))
  noted-eq_continue (ok l) s f k h = (l, refl)
  noted-eq_continue (panic p) s f k h = cc

  cache_entry-Cached :
      (h : ℕ) (e : Entry) (s : Session database) → IsAt h s → Cached h e (cache_entry database e s)
  cache_entry-Cached h e s at = (at, rw get-set (ground arith))

  confirm_ends :
      (pid h : ℕ) (e : Entry) (b : Bool) (s : Session database) (f : Node database)
      → Cached h e s
      → (confirm database pid b s f).0 ≡ continue
      → Cached h e (confirm database pid b s f).1 × ((confirm database pid b s f).2 ≡ f)
  unfolding confirm
  confirm_ends pid h e true s f c went =
      let (l, same) = noted-eq_continue (note_prepared pid (log database s)) s f _ went in
      rw same (c, refl)
  confirm_ends pid h e false s f c went = cc

  vote_ends :
      (pid h : ℕ) (e : Entry) (x : Option Error) (resp : Option Response) (s : Session database)
      (f : Node database)
      → x ≡ none
      → IsAt h s
      → (vote database pid e x resp s f).0 ≡ continue
      → Cached h e (vote database pid e x resp s f).1 × ((vote database pid e x resp s f).2 ≡ f)
  unfolding vote
  vote_ends pid h e (some x) resp s f fine at went = cc fine
  vote_ends pid h e none resp s f fine at went =
      confirm_ends pid h e (is_ack resp) (cache_entry database e s) f (cache_entry-Cached h e s at)
        went

  -- Both sides have the message at the height `h`.
  abbrev Ends : ℕ → Entry → Turn database → Type 0
  Ends h e w = Cached h e w.1 × Holds h e w.2

  choose-Ends :
      (pid fuel h : ℕ) (e : Entry) (c : Called database) (b : Bool)
      → ((t : Session database) (g : Node database)
          → IsAt h t
          → g.height ≤ h
          → (propose_turn database fuel e pid t g).0 ≡ continue
          → Ends h e (propose_turn database fuel e pid t g))
      → is_ack c.0.response ≡ b
      → IsAt h c.1
      → c.2.height ≤ h
      → (is_ack c.0.response ≡ false) ⊎ ((c.0.error ≡ none) × Holds h e c.2)
      → (choose database pid fuel e c b).0 ≡ continue
      → Ends h e (choose database pid fuel e c b)
  unfolding choose
  choose-Ends pid fuel h e c true ih same at le (inl refused) went = cc
  choose-Ends pid fuel h e c true ih same at le (inr (fine, holds)) went =
      let (cached, kept) = vote_ends pid h e c.0.error c.0.response c.1 c.2 fine at went in
      (cached, rw kept holds)
  choose-Ends pid fuel h e c false ih same at le outcome went = ih c.1 c.2 at le went

  outcome_at :
      (h : ℕ) (e : Entry) (t : Session database) (c : Called database)
      → IsAt h t
      → (is_ack c.0.response ≡ false) ⊎ ((c.0.error ≡ none) × Holds t.self.height e c.2)
      → (is_ack c.0.response ≡ false) ⊎ ((c.0.error ≡ none) × Holds h e c.2)
  outcome_at h e t c at (inl refused) = inl refused
  outcome_at h e t c at (inr (fine, holds)) = inr (fine, subst (λ n. Holds n e c.2) at holds)

  round-Ends :
      (pid fuel h : ℕ) (e : Entry) (f : Node database) (t : Session database)
      → ((u : Session database) (g : Node database)
          → IsAt h u
          → g.height ≤ h
          → (propose_turn database fuel e pid u g).0 ≡ continue
          → Ends h e (propose_turn database fuel e pid u g))
      → IsAt h t
      → f.height ≤ h
      → (round database pid fuel e f t).0 ≡ continue
      → Ends h e (round database pid fuel e f t)
  unfolding round
  round-Ends pid fuel h e f t ih at le went =
      let c = propose_call database e t f in
      let (still, level, outcome) =
        propose_call-Keeps e t f (subst (λ n. f.height ≤ n) (sym at) le) in
      choose-Ends pid fuel h e c (is_ack c.0.response) ih refl
        (ap (λ (n : Node database). n.height) still ∙ at) (subst (λ n. n ≤ h) (sym level) le)
        (outcome_at h e t c at outcome) went

  noted-Ends :
      (g : Go Log) (h : ℕ) (e : Entry) (s : Session database) (f : Node database)
      (k : Session database → Turn database)
      → IsAt h s
      → ((t : Session database) → IsAt h t → (k t).0 ≡ continue → Ends h e (k t))
      → (noted database g s f k).0 ≡ continue
      → Ends h e (noted database g s f k)
  noted-Ends (ok l) h e s f k at after went = after (with_log database l s) at went
  noted-Ends (panic p) h e s f k at after went = cc

  -- A follower at most at the coordinator's height has the message once its turn is over, and the
  -- coordinator has it too, at the height that it had.
  pub propose_turn-Ends :
      (fuel pid h : ℕ) (e : Entry) (s : Session database) (f : Node database)
      → IsAt h s
      → f.height ≤ h
      → (propose_turn database fuel e pid s f).0 ≡ continue
      → Ends h e (propose_turn database fuel e pid s f)
  propose_turn-Ends zero pid h e s f at le went = cc (propose_turn-zero database pid e s f)
  propose_turn-Ends (suc fuel) pid h e s f at le went =
      rw (propose_turn-suc database fuel pid e s f) (
        noted-Ends (note_propose pid (log database s)) h e s f (round database pid fuel e f) at
          (λ t at' went'.
            round-Ends pid fuel h e f t (λ u g. propose_turn-Ends fuel pid h e u g) at' le went')
          (rw (propose_turn-suc database fuel pid e s f) at went))
