-- ===== src/Cluster/Overlap/Alone/Loops.antt =====
-- The loops of a call of `Put` that runs alone, turn by turn (server/server.go).
use mathlib.Core.List.{append-nil, append_assoc}
use committer.Prelude.{
  ℕ, zero, suc, ◌+◌, ◌≡◌, ◌≢◌, refl, sym, ◌∙◌, subst, List, [], ◌∷◌, ◌++◌, length, length-append,
  none, some,
}
use committer.Proto.{Entry}
use committer.Database.{Database}
use committer.Server.Handlers.{Node}
use committer.Cluster.{Session, Control, continue, exit, crash, out_of_fuel}
use committer.Cluster.Stages.{Turn, Loop, onwards, for_followers}
use committer.Cluster.Overlap.{Point, done, after_turn, turn_at, Moved, loop_turn, advance}

-- The point after a turn or a loop that did not run out of rounds.
abbrev pub leads : Point → Control → Point
leads next continue = next
leads next out_of_fuel = next
leads next (exit r) = done (exit r)
leads next (crash p) = done (crash p)

pub after_turn-eq-leads :
    (again next : Point) (c : Control) → c ≢ out_of_fuel → after_turn again next c ≡ leads next c
after_turn-eq-leads again next continue some_fuel = refl
after_turn-eq-leads again next (exit r) some_fuel = refl
after_turn-eq-leads again next (crash p) some_fuel = refl
after_turn-eq-leads again next out_of_fuel some_fuel = absurd (some_fuel refl)

module _ (database : Database) (e : Entry) where
  -- So many turns of one call.
  unfoldable pub go : ℕ → Moved database → Moved database
  unfolding advance
  go zero x = x
  go (suc n) x = go n (advance database e x.0 x.1 x.2)

  -- The call gets from one state to the other.
  abbrev pub Runs : Moved database → Moved database → Type 0
  Runs x y = (n : ℕ) × (go n x ≡ y)

  pub Runs-refl : (x : Moved database) → Runs x x
  unfolding go
  Runs-refl x = (0, refl)

  pub Runs-step : (x y : Moved database) → Runs (advance database e x.0 x.1 x.2) y → Runs x y
  unfolding go
  Runs-step x y (n, h) = (suc n, h)

  go_trans : (n : ℕ) (x y z : Moved database) → go n x ≡ y → Runs y z → Runs x z
  unfolding go
  go_trans zero x y z h r = subst (λ u. Runs u z) (sym h) r
  go_trans (suc n) x y z h r = Runs-step x z (go_trans n (advance database e x.0 x.1 x.2) y z h r)

  pub Runs-trans : (x y z : Moved database) → Runs x y → Runs y z → Runs x z
  Runs-trans x y z (n, h) r = go_trans n x y z h r

  -- The follower behind as many others as the number of the turn.
  pub turn_at-append :
      (body : Session database → Node database → Turn database) (s : Session database)
      (f : Node database) (before after : List (Node database))
      → let w = body s f in
        turn_at database body (length before) s (before ++ f ∷ after)
        ≡ some (w.0, w.1, before ++ w.2 ∷ after)
  unfolding turn_at
  turn_at-append body s f [] after = refl
  turn_at-append body s f (g ∷ before) after = rw (turn_at-append body s f before after) refl

  turn_at-end :
      (body : Session database → Node database → Turn database) (s : Session database)
      (fs : List (Node database))
      → turn_at database body (length fs) s fs ≡ none
  unfolding turn_at
  turn_at-end body s [] = refl
  turn_at-end body s (f ∷ fs) = rw (turn_at-end body s fs) refl

  -- A step at a follower that takes a turn.
  pub step-Runs :
      (again next over : Point) (turn : Session database → Node database → Turn database)
      (s : Session database) (f : Node database) (before after : List (Node database))
      → (p : Point)
      → advance database e p s (before ++ f ∷ after)
        ≡ loop_turn database again next over s
            (before ++ f ∷ after)
            (turn_at database turn (length before) s (before ++ f ∷ after))
      → let w = turn s f in
        Runs (p, s, before ++ f ∷ after) (after_turn again next w.0, w.1, before ++ w.2 ∷ after)
  unfolding loop_turn
  step-Runs again next over turn s f before after p steps =
      let w = turn s f in
      let end : advance database e p s (before ++ f ∷ after)
          ≡ (after_turn again next w.0, w.1, before ++ w.2 ∷ after) =
        steps ∙ rw (turn_at-append turn s f before after) refl in
      Runs-step (p, s, before ++ f ∷ after) _
        (subst (λ x. Runs x (after_turn again next w.0, w.1, before ++ w.2 ∷ after)) (sym end)
          (Runs-refl _))

  -- A loop of `Put`: the point of each follower, the point after it, the turn that a step takes, and
  -- the body of the loop, which may take several steps.
  module _ (at : ℕ → Point) (over : Point)
      (turn body : ℕ → Session database → Node database → Turn database)
      (steps : (i : ℕ) (s : Session database) (fs : List (Node database))
        → advance database e (at i) s fs
          ≡ loop_turn database (at i) (at (i + 1)) over s fs (turn_at database (turn i) i s fs))
      (turn-Runs : (s : Session database) (f : Node database) (before after : List (Node database))
        → let i = length before in
          let w = body i s f in
          w.0 ≢ out_of_fuel
          → Runs
              (at i, s, before ++ f ∷ after)
              (leads (at (i + 1)) w.0, w.1, before ++ w.2 ∷ after)) where
    pub for_followers-Runs :
        (s : Session database) (before fs : List (Node database))
        → let i = length before in
          let w = for_followers database body i s fs in
          w.0 ≢ out_of_fuel → Runs (at i, s, before ++ fs) (leads over w.0, w.1, before ++ w.2)
    unfolding for_followers loop_turn onwards
    for_followers-Runs s before [] some_fuel =
        let i = length before in
        let end : advance database e (at i) s (before ++ []) ≡ (over, s, before ++ []) =
          steps i s (before ++ [])
          ∙ rw (append-nil before) (rw (turn_at-end (turn i) s before) refl) in
        Runs-step (at i, s, before ++ []) (over, s, before ++ [])
          (subst (λ x. Runs x (over, s, before ++ [])) (sym end)
            (Runs-refl (over, s, before ++ [])))
    for_followers-Runs s before (f ∷ fs) some_fuel =
        first (body (length before) s f) (turn-Runs s f before fs)
          (λ t g. behind t g (for_followers-Runs t (before ++ g ∷ []) fs)) some_fuel
      where
        rest : ℕ → Session database → Loop database
        rest i t = for_followers database body i t fs

        -- What is to be shown of the followers after the first.
        Rest : ℕ → List (Node database) → Session database → Node database → Type 0
        Rest i ahead t g =
            (rest i t).0 ≢ out_of_fuel
            → Runs (at i, t, ahead ++ fs)
                (leads over (rest i t).0, (rest i t).1, ahead ++ (rest i t).2)

        behind :
            (t : Session database) (g : Node database)
            → Rest (length (before ++ g ∷ [])) (before ++ g ∷ []) t g
            → (rest (length before + 1) t).0 ≢ out_of_fuel
            → Runs
                (at (length before + 1), t, before ++ g ∷ fs)
                (
                  leads over (rest (length before + 1) t).0,
                  (rest (length before + 1) t).1,
                  before ++ g ∷ (rest (length before + 1) t).2,
                )
        behind t g runs some_fuel' =
            let count : length (before ++ g ∷ []) ≡ length before + 1 =
              length-append before (g ∷ []) in
            let r = subst (λ i. Rest i (before ++ g ∷ []) t g) count runs some_fuel' in
            let v = rest (length before + 1) t in
            subst (λ x. Runs (at (length before + 1), t, before ++ g ∷ fs) (leads over v.0, v.1, x))
              (append_assoc before (g ∷ []) v.2)
              (subst
                (λ x.
                  Runs (at (length before + 1), t, x)
                    (leads over v.0, v.1, (before ++ g ∷ []) ++ v.2))
                (append_assoc before (g ∷ []) fs) r)

        first :
            (w : Turn database)
            → (w.0 ≢ out_of_fuel
                → Runs
                    (at (length before), s, before ++ f ∷ fs)
                    (leads (at (length before + 1)) w.0, w.1, before ++ w.2 ∷ fs))
            → ((t : Session database) (g : Node database)
                → (rest (length before + 1) t).0 ≢ out_of_fuel
                → Runs
                    (at (length before + 1), t, before ++ g ∷ fs)
                    (
                      leads over (rest (length before + 1) t).0,
                      (rest (length before + 1) t).1,
                      before ++ g ∷ (rest (length before + 1) t).2,
                    ))
            → let l = onwards database w fs (rest (length before + 1)) in
              l.0 ≢ out_of_fuel
              → Runs (at (length before), s, before ++ f ∷ fs) (leads over l.0, l.1, before ++ l.2)
        first (continue, t, g) turned later some_fuel' =
            Runs-trans _ _ _ (turned (λ x. cc x)) (later t g some_fuel')
        first (exit r, t, g) turned later some_fuel' = turned (λ x. cc x)
        first (crash p, t, g) turned later some_fuel' = turned (λ x. cc x)
        first (out_of_fuel, t, g) turned later some_fuel' = absurd (some_fuel' refl)
