-- ===== src/Cluster/Overlap/Alone/Parts.antt =====
-- The parts of a call of `Put` that runs alone, turn by turn (server/server.go).
use committer.Prelude.{
  ℕ, zero, suc, ◌+◌, ◌≡◌, ◌≢◌, ◌⊎◌, inl, inr, refl, sym, ap, subst, List, [], ◌∷◌, ◌++◌, length,
  Bool, true, false,
}
use committer.Go.{Go, panic}
use committer.Proto.{Entry}
use committer.Database.{Database}
use committer.Server.Handlers.{Node, is_ack}
use committer.Cluster.{Session, continue, exit, crash, out_of_fuel, Called}
use committer.Cluster.Notes.{Log, note_propose}
use committer.Cluster.Rounds.{choose, round, propose_turn-zero, propose_turn-suc}
use committer.Cluster.Stages.{
  Turn, Loop, noted, log, with_log, propose_call, for_followers, propose_turn, precommit_turn,
  commit_turn,
}
use committer.Cluster.Put.{begin, chain, persist, finish, rest_of_put, put}
use committer.Cluster.Loops.{finish-cases}
use committer.Cluster.Overlap.{
  Point, called, proposing, precommitting, persisting, committing, finishing, done, after_turn,
  turn_at, Moved, loop_turn, advance,
}
use committer.Cluster.Overlap.Alone.Loops.{
  leads, after_turn-eq-leads, Runs, Runs-refl, Runs-step, Runs-trans, step-Runs, for_followers-Runs,
}

module _ (database : Database) (e : Entry) where
  -- More rounds are one round, and the rest of them if that one is not the last.
  propose_turn-cases :
      (fuel pid : ℕ) (s : Session database) (f : Node database)
      → let w = propose_turn database 1 e pid s f in
        (propose_turn database (suc fuel) e pid s f ≡ w)
        ⊎ ((w.0 ≡ out_of_fuel)
            × (propose_turn database (suc fuel) e pid s f
                ≡ propose_turn database fuel e pid w.1 w.2))
  unfolding round choose
  propose_turn-cases fuel pid s f =
      rw (propose_turn-suc database fuel pid e s f, propose_turn-suc database 0 pid e s f)
        (by_note (note_propose pid (log database s)))
    where
      by_answer :
          (c : Called database) (b : Bool)
          → let w = choose database pid 0 e c b in
            (choose database pid fuel e c b ≡ w)
            ⊎ ((w.0 ≡ out_of_fuel)
                × (choose database pid fuel e c b ≡ propose_turn database fuel e pid w.1 w.2))
      by_answer c true = inl refl
      by_answer c false = inr (rw (propose_turn-zero database pid e c.1 c.2) (refl, refl))

      by_note :
          (g : Go Log)
          → let w = noted database g s f (round database pid 0 e f) in
            (noted database g s f (round database pid fuel e f) ≡ w)
            ⊎ ((w.0 ≡ out_of_fuel)
                × (noted database g s f (round database pid fuel e f)
                    ≡ propose_turn database fuel e pid w.1 w.2))
      by_note (panic p) = inl refl
      by_note (Go.ok l) =
          let c = propose_call database e (with_log database l s) f in
          by_answer c (is_ack c.0.response)

  propose_turn-Runs :
      (fuel : ℕ) (s : Session database) (f : Node database) (before after : List (Node database))
      → let i = length before in
        let w = propose_turn database fuel e i s f in
        w.0 ≢ out_of_fuel
        → Runs database e
            (proposing i, s, before ++ f ∷ after)
            (leads (proposing (i + 1)) w.0, w.1, before ++ w.2 ∷ after)
  unfolding advance
  propose_turn-Runs zero s f before after = λ some_fuel. absurd (
      some_fuel
        (ap (λ (w : Turn database). w.0) (propose_turn-zero database (length before) e s f)))
  propose_turn-Runs (suc fuel) s f before after =
      let i = length before in
      let w = propose_turn database 1 e i s f in
      let once : Runs database e (proposing i, s, before ++ f ∷ after)
          (after_turn (proposing i) (proposing (i + 1)) w.0, w.1, before ++ w.2 ∷ after) =
        step-Runs database e (proposing i) (proposing (i + 1)) (precommitting 0)
          (propose_turn database 1 e i) s f before after (proposing i) refl in
      elim (propose_turn-cases fuel i s f) [
        | inl same ↦ rw same (λ some_fuel.
            subst
              (λ p.
                Runs database e (proposing i, s, before ++ f ∷ after)
                  (p, w.1, before ++ w.2 ∷ after))
              (after_turn-eq-leads (proposing i) (proposing (i + 1)) w.0 some_fuel) once)
        | inr (again, same) ↦ rw same (λ some_fuel.
            Runs-trans database e _ _ _
              (subst
                (λ c.
                  Runs database e (proposing i, s, before ++ f ∷ after)
                    (after_turn (proposing i) (proposing (i + 1)) c, w.1, before ++ w.2 ∷ after))
                again once)
              (propose_turn-Runs fuel w.1 w.2 before after some_fuel))
      ]

  -- A part of `Put` and what follows it.
  chain-Runs :
      (x : Moved database) (next : Point) (w : Loop database)
      (k : Session database → List (Node database) → Loop database)
      → (w.0 ≢ out_of_fuel → Runs database e x (leads next w.0, w.1, w.2))
      → ((t : Session database) (gs : List (Node database))
          → let v = k t gs in
            v.0 ≢ out_of_fuel → Runs database e (next, t, gs) (done v.0, v.1, v.2))
      → let v = chain database w k in v.0 ≢ out_of_fuel → Runs database e x (done v.0, v.1, v.2)
  unfolding chain
  chain-Runs x next (continue, t, gs) k part rest some_fuel =
      Runs-trans database e _ _ _ (part (λ y. cc y)) (rest t gs some_fuel)
  chain-Runs x next (exit r, t, gs) k part rest some_fuel = part (λ y. cc y)
  chain-Runs x next (crash p, t, gs) k part rest some_fuel = part (λ y. cc y)
  chain-Runs x next (out_of_fuel, t, gs) k part rest some_fuel = absurd (some_fuel refl)

  -- A turn that is the whole of its part.
  one-Runs : (x y : Moved database) → advance database e x.0 x.1 x.2 ≡ y → Runs database e x y
  one-Runs x y h =
      Runs-step database e x y (subst (λ u. Runs database e u y) (sym h) (Runs-refl database e y))

  finish-Runs :
      (s : Session database) (fs : List (Node database))
      → let w = finish database s fs in Runs database e (finishing, s, fs) (done w.0, w.1, w.2)
  unfolding advance
  finish-Runs s fs =
      let w = finish database s fs in
      let ended : after_turn finishing finishing w.0 ≡ done w.0 =
        elim (finish-cases database s fs) [
          | inl (p, stopped) ↦ rw stopped refl
          | inr acked ↦ rw acked refl
        ] in
      one-Runs (finishing, s, fs) (done w.0, w.1, w.2) (ap (λ p. (p, w.1, w.2)) ended)

  commit_part : Session database → List (Node database) → Loop database
  commit_part s fs =
      chain database (for_followers database (commit_turn database) 0 s fs) (finish database)

  -- A loop whose turns are single steps.
  short_loop-Runs :
      (at : ℕ → Point) (over : Point) (turn : ℕ → Session database → Node database → Turn database)
      → ((i : ℕ) (s : Session database) (fs : List (Node database))
          → advance database e (at i) s fs
            ≡ loop_turn database (at i) (at (i + 1)) over s fs (turn_at database (turn i) i s fs))
      → (s : Session database) (fs : List (Node database))
      → let w = for_followers database turn 0 s fs in
        w.0 ≢ out_of_fuel → Runs database e (at 0, s, fs) (leads over w.0, w.1, w.2)
  short_loop-Runs at over turn steps s fs =
      for_followers-Runs database e at over turn turn steps
        (λ t f before after some_fuel.
          let i = length before in
          let w = turn i t f in
          subst
            (λ p. Runs database e (at i, t, before ++ f ∷ after) (p, w.1, before ++ w.2 ∷ after))
            (after_turn-eq-leads (at i) (at (i + 1)) w.0 some_fuel)
            (step-Runs database e (at i) (at (i + 1)) over (turn i) t f before after (at i)
              (steps i t (before ++ f ∷ after))))
        s [] fs

  commit_part-Runs :
      (s : Session database) (fs : List (Node database))
      → let w = commit_part s fs in
        w.0 ≢ out_of_fuel → Runs database e (committing 0, s, fs) (done w.0, w.1, w.2)
  unfolding commit_part advance
  commit_part-Runs s fs =
      chain-Runs (committing 0, s, fs) finishing
        (for_followers database (commit_turn database) 0 s fs) (finish database)
        (short_loop-Runs committing finishing (commit_turn database) (λ i t gs. refl) s fs)
        (λ t gs some_fuel. finish-Runs t gs)

  persist_part : Session database → List (Node database) → Loop database
  unfolding commit_part
  persist_part s fs = chain database (persist database s fs) commit_part

  persist_part-Runs :
      (s : Session database) (fs : List (Node database))
      → let w = persist_part s fs in
        w.0 ≢ out_of_fuel → Runs database e (persisting, s, fs) (done w.0, w.1, w.2)
  unfolding persist_part advance
  persist_part-Runs s fs =
      let w = persist database s fs in
      chain-Runs (persisting, s, fs) (committing 0) w commit_part
        (λ some_fuel.
          one-Runs (persisting, s, fs) (leads (committing 0) w.0, w.1, w.2)
            (ap (λ p. (p, w.1, w.2)) (after_turn-eq-leads persisting (committing 0) w.0 some_fuel)))
        commit_part-Runs

  rest_of_put-Runs :
      (s : Session database) (fs : List (Node database))
      → let w = rest_of_put database s fs in
        w.0 ≢ out_of_fuel → Runs database e (precommitting 0, s, fs) (done w.0, w.1, w.2)
  unfolding rest_of_put advance persist_part commit_part
  rest_of_put-Runs s fs =
      chain-Runs (precommitting 0, s, fs) persisting
        (for_followers database (precommit_turn database) 0 s fs) persist_part
        (short_loop-Runs precommitting persisting (precommit_turn database) (λ i t gs. refl) s fs)
        persist_part-Runs

  pub put-Runs :
      (fuel : ℕ) (s : Session database) (fs : List (Node database))
      → let w = put database fuel e s fs in
        w.0 ≢ out_of_fuel → Runs database e (called, s, fs) (done w.0, w.1, w.2)
  unfolding put advance
  put-Runs fuel s fs = begun (begin (log database s)) refl
    where
      proposals : Log → Loop database
      proposals l =
          for_followers database (propose_turn database fuel e) 0 (with_log database l s) fs

      whole : Go Log → Loop database
      whole g = elim g [
        | panic p ↦ (crash p, s, fs)
        | Go.ok l ↦ chain database (proposals l) (rest_of_put database)
      ]

      first : Go Log → Moved database
      first g = elim g [
        | panic p ↦ (done (crash p), s, fs)
        | Go.ok l ↦ (proposing 0, with_log database l s, fs)
      ]

      begun :
          (g : Go Log)
          → begin (log database s) ≡ g
          → (whole g).0 ≢ out_of_fuel
          → Runs database e (called, s, fs) (done (whole g).0, (whole g).1, (whole g).2)
      begun (panic p) same some_fuel =
          one-Runs (called, s, fs) (done (crash p), s, fs) (ap first same)
      begun (Go.ok l) same some_fuel =
          let t = with_log database l s in
          Runs-trans database e (called, s, fs) (proposing 0, t, fs) _
            (one-Runs (called, s, fs) (proposing 0, t, fs) (ap first same))
            (chain-Runs (proposing 0, t, fs) (precommitting 0) (proposals l) (rest_of_put database)
              (for_followers-Runs database e proposing (precommitting 0)
                (λ i. propose_turn database 1 e i) (propose_turn database fuel e) (λ i u gs. refl)
                (propose_turn-Runs fuel) t [] fs)
              rest_of_put-Runs some_fuel)
