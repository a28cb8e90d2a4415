-- ===== src/Cluster/CatchUp.antt =====
-- The heights in the retry loop of `Put` (server/server.go): a coordinator that is behind a follower
-- takes over its height.
use committer.Prelude.{
  ℕ, zero, suc, ◌≡◌, ◌⊎◌, ◌≤◌, inl, inr, refl, sym, ◌∙◌, ap, subst, Bool, true, false, Option, none,
  some, arith, Bool-cases, ltb, if◌then◌else◌,
}
use committer.Go.{Go, ok, panic}
use committer.Proto.{Answer, Entry, Response, Error, ProposeRequest, nack, answer}
use committer.Database.{Database}
use committer.Server.Node.{set_progress}
use committer.Server.Handlers.{Node, is_ack, propose, propose_handler}
use committer.Cluster.{Session, continue, exit, Called}
use committer.Cluster.Calls.{Transmits, call-Transmits}
use committer.Cluster.Notes.{Log, note_propose, note_prepared, note_aborted}
use committer.Cluster.Rounds.{asks, choose, round, propose_turn-suc, propose_turn-zero}
use committer.Cluster.Stages.{
  Turn, noted, log, with_log, propose_request, propose_call, propose_turn, vote, confirm, catch_up,
  cache_entry,
}

abbrev pub highest : ℕ → ℕ → ℕ
highest m n = if ltb m n then n else m

highest_self : (m : ℕ) → highest m m ≡ m
highest_self m = ground arith

pub highest_of_le : (m n : ℕ) → n ≤ m → highest m n ≡ m
highest_of_le m n le = ground (arith, le)

highest_again : (m n : ℕ) → highest (highest m n) n ≡ highest m n
highest_again m n = ground arith

ltb-false : (m n : ℕ) → ltb m n ≡ false → n ≤ m
ltb-false m n h = ground (arith, h)

module _ (database : Database) where
  -- The answers to a proposal.
  propose-answers :
      (f : Node database) (req : ProposeRequest)
      → ((propose database f req).1.height ≡ f.height)
        × (((propose database f req).0 ≡ answer nack f.height)
            ⊎ ((t : Answer) × ((propose database f req).0 ≡ answer t req.index)
                × (f.height ≤ req.index)))
  unfolding propose propose_handler set_progress
  propose-answers f req = elim (Bool-cases (f.propose_hook req)) [
    | inl vote ↦
        rw (vote, propose_handler)
          (
            refl,
            elim (Bool-cases (ltb req.index f.height)) [
              | inl behind ↦ inl (ground arith)
              | inr level ↦ inr (Answer.ack, ground arith, ltb-false req.index f.height level)
            ],
          )
    | inr veto ↦
        rw (veto, propose_handler)
          (
            refl,
            elim (Bool-cases (ltb req.index f.height)) [
              | inl behind ↦ inl (ground arith)
              | inr level ↦ inr (Answer.nack, ground arith, ltb-false req.index f.height level)
            ],
          )
  ]

  catch_up-height :
      (t : Answer) (i : ℕ) (s : Session database)
      → (catch_up database (some (record { typ = t; index = i })) s).self.height
        ≡ highest s.self.height i
  unfolding catch_up
  catch_up-height t i s = ground arith

  -- What a round leaves of the heights `m` of the coordinator and `n` of the follower.
  Levels : ℕ → ℕ → Called database → Type 0
  Levels m n c =
      (c.2.height ≡ n)
      × (highest c.1.self.height n ≡ highest m n)
      × (is_ack c.0.response ≡ true → c.1.self.height ≡ highest m n)

  Levels-of_Transmits :
      (e : Entry) (s : Session database) (f : Node database) (c : Called database)
      → Transmits database s f (asks database e s) c
      → Levels s.self.height f.height (c.0, catch_up database c.0.response c.1, c.2)
  unfolding propose_request is_ack Levels catch_up
  Levels-of_Transmits e s f c t = elim t.reply_side [
    | inr (x, bad) ↦ rw bad (far, ap (λ m. highest m f.height) level, λ h. cc h)
    | inl (fine, same, ran) ↦ elim (propose-answers f (propose_request database s e)).1 [
      | inl refused ↦
          let raised = catch_up-height nack f.height c.1 ∙ ap (λ m. highest m f.height) level in
          rw (same, refused)
            (
              far,
              ap (λ m. highest m f.height) raised ∙ highest_again s.self.height f.height,
              λ h. raised,
            )
      | inr (a, answered, le) ↦
          let kept =
            catch_up-height a s.self.height c.1
            ∙ ap (λ m. highest m s.self.height) level
            ∙ highest_self s.self.height in
          rw (same, answered)
            (
              far,
              ap (λ m. highest m f.height) kept,
              λ h. kept ∙ sym (highest_of_le s.self.height f.height le),
            )
    ]
  ]
    where
      level : c.1.self.height ≡ s.self.height
      level = ap (λ (n : Node database). n.height) t.same_self

      far : c.2.height ≡ f.height
      far = elim t.far_side [
        | inl same ↦ rw same
        | inr ran ↦ rw ran (propose-answers f (propose_request database s e)).0
      ]

  confirm-height :
      (pid : ℕ) (b : Bool) (s : Session database) (f : Node database)
      → (confirm database pid b s f).0 ≡ continue
      → ((confirm database pid b s f).1.self.height ≡ s.self.height)
        × ((confirm database pid b s f).2 ≡ f)
  unfolding confirm
  confirm-height pid false s f h = cc
  confirm-height pid true s f h = prepared (note_prepared pid (log database s)) h
    where
      prepared :
          (l : Go Log)
          → (noted database l s f λ t. (continue, t, f)).0 ≡ continue
          → ((noted database l s f λ t. (continue, t, f)).1.self.height ≡ s.self.height)
            × ((noted database l s f λ t. (continue, t, f)).2 ≡ f)
      prepared (ok l) g = (refl, refl)
      prepared (panic p) g = cc

  vote-height :
      (pid : ℕ) (e : Entry) (bad : Option Error) (r : Option Response) (s : Session database)
      (f : Node database)
      → (vote database pid e bad r s f).0 ≡ continue
      → ((vote database pid e bad r s f).1.self.height ≡ s.self.height)
        × ((vote database pid e bad r s f).2 ≡ f)
  unfolding vote confirm
  vote-height pid e (some x) r s f h = aborted (note_aborted pid (log database s)) h
    where
      aborted :
          (l : Go Log)
          → (noted database l s f λ t. (exit (answer nack 0), t, f)).0 ≡ continue
          → ((noted database l s f λ t. (exit (answer nack 0), t, f)).1.self.height ≡ s.self.height)
            × ((noted database l s f λ t. (exit (answer nack 0), t, f)).2 ≡ f)
      aborted (ok l) g = cc
      aborted (panic p) g = cc
  vote-height pid e none r s f h = confirm-height pid (is_ack r) (cache_entry database e s) f h

  -- The turn has ended with both sides at the higher of the heights.
  Level : ℕ → ℕ → Turn database → Type 0
  Level m n w = w.0 ≡ continue → (w.1.self.height ≡ highest m n) × (w.2.height ≡ n)

  choose-Level :
      (pid fuel m n : ℕ) (e : Entry) (c : Called database) (b : Bool)
      → is_ack c.0.response ≡ b
      → Levels m n c
      → Level c.1.self.height c.2.height (propose_turn database fuel e pid c.1 c.2)
      → Level m n (choose database pid fuel e c b)
  unfolding choose Levels Level
  choose-Level pid fuel m n e c true is (far, up, top) rest = λ h.
      let (same, same') = vote-height pid e c.0.error c.0.response c.1 c.2 h in
      (same ∙ top is, ap (λ (g : Node database). g.height) same' ∙ far)
  choose-Level pid fuel m n e c false is (far, up, top) rest = λ h.
      let (level, level') = rest h in (level ∙ ap (highest c.1.self.height) far ∙ up, level' ∙ far)

  propose_call-Levels :
      (e : Entry) (s : Session database) (f : Node database)
      → Levels s.self.height f.height (propose_call database e s f)
  unfolding propose_call
  propose_call-Levels e s f =
      Levels-of_Transmits e s f _ (call-Transmits database s f (asks database e s))

  noted-Level :
      (fuel pid : ℕ) (e : Entry) (s : Session database) (f : Node database) (l : Go Log)
      → ((t : Session database) (g : Node database)
          → Level t.self.height g.height (propose_turn database fuel e pid t g))
      → Level s.self.height f.height (noted database l s f (round database pid fuel e f))
  unfolding Level round
  noted-Level fuel pid e s f (panic p) rest = λ h. cc
  noted-Level fuel pid e s f (ok l) rest =
      let c = propose_call database e (with_log database l s) f in
      choose-Level pid fuel s.self.height f.height e c (is_ack c.0.response) refl
        (propose_call-Levels e (with_log database l s) f) (rest c.1 c.2)

  propose_turn-Level :
      (fuel pid : ℕ) (e : Entry) (s : Session database) (f : Node database)
      → Level s.self.height f.height (propose_turn database fuel e pid s f)
  unfolding Level
  propose_turn-Level zero pid e s f =
      subst (Level s.self.height f.height) (sym (propose_turn-zero database pid e s f)) (λ h. cc)
  propose_turn-Level (suc fuel) pid e s f =
      subst (Level s.self.height f.height) (sym (propose_turn-suc database fuel pid e s f)) (
        noted-Level fuel pid e s f (note_propose pid (log database s))
          (λ t g. propose_turn-Level fuel pid e t g))

  -- The retry loop ends level with the follower. If it lets `Put` go on, in however many rounds and
  -- whatever the network does, then the coordinator is at the higher of the two heights that it and
  -- the follower had at the start, and the follower is at the height that it had.
  pub propose_turn-height :
      (fuel pid : ℕ) (e : Entry) (s : Session database) (f : Node database)
      → (propose_turn database fuel e pid s f).0 ≡ continue
      → let w = propose_turn database fuel e pid s f in
        (w.1.self.height ≡ highest s.self.height f.height) × (w.2.height ≡ f.height)
  unfolding Level
  propose_turn-height fuel pid e s f h = propose_turn-Level fuel pid e s f h
