-- ===== src/Cluster/Behind/Proposals.antt =====
-- The proposals of a coordinator that catches up with a follower in the middle of them
-- (server/server.go): what the followers asked before hold, and the height afterwards.
use committer.Prelude.{
  ℕ, zero, suc, ◌≡◌, ◌≤◌, ◌<◌, inl, inr, refl, sym, ◌∙◌, ap, subst, Bool, true, false, Option, none,
  some, List, [], ◌∷◌, All, arith, Bool-cases,
}
use committer.Go.{Go, ok, panic}
use committer.Proto.{Entry, Response, Error, ProposeRequest, nack, answer}
use committer.Cache.{get-set}
use committer.Cache
use committer.Database.{Database}
use committer.Server.Node.{set_progress}
use committer.Server.Handlers.{Node, is_ack, propose, propose_handler}
use committer.Cluster.{Session, continue, exit, Called}
use committer.Cluster.Calls.{call-Transmits}
use committer.Cluster.Notes.{Log, note_propose, note_prepared, note_aborted}
use committer.Cluster.Rounds.{asks, choose, round, propose_turn-suc, propose_turn-zero}
use committer.Cluster.Stages.{
  Turn, noted, log, with_log, propose_request, propose_call, propose_turn, vote, confirm,
  cache_entry, for_followers,
}
use committer.Cluster.Loops.{for_followers-All, onwards-eq_continue}
use committer.Cluster.Proposals.{IsAt, propose_call-Keeps}
use committer.Cluster.CatchUp.{highest, propose_turn-height}

module _ (database : Database) where
  -- A follower that has no message cached above the height `h`.
  abbrev pub NothingAbove : ℕ → Node database → Type 0
  NothingAbove h n = (i : ℕ) → h < i → Cache.get n.node_cache i ≡ none

  propose-NothingAbove :
      (h : ℕ) (n : Node database) (req : ProposeRequest)
      → req.index ≡ h
      → NothingAbove h n
      → NothingAbove h (propose database n req).1
  unfolding propose propose_handler set_progress
  propose-NothingAbove h n req at empty i above = elim (Bool-cases (n.propose_hook req)) [
    | inl vote ↦ rw (vote, propose_handler) (rw get-set (ground (arith, empty i above)))
    | inr veto ↦ rw (veto, propose_handler) (empty i above)
  ]

  noted_far :
      (g : Go Log) (s : Session database) (f : Node database) (k : Session database → Turn database)
      → ((t : Session database) → (k t).2 ≡ f)
      → (noted database g s f k).2 ≡ f
  noted_far (ok l) s f k same = same (with_log database l s)
  noted_far (panic p) s f k same = refl

  confirm_far :
      (pid : ℕ) (b : Bool) (s : Session database) (f : Node database)
      → (confirm database pid b s f).2 ≡ f
  unfolding confirm
  confirm_far pid true s f =
      noted_far (note_prepared pid (log database s)) s f (λ t. (continue, t, f)) (λ t. refl)
  confirm_far pid false s f = refl

  vote_far :
      (pid : ℕ) (e : Entry) (x : Option Error) (r : Option Response) (s : Session database)
      (f : Node database)
      → (vote database pid e x r s f).2 ≡ f
  unfolding vote
  vote_far pid e (some x) r s f =
      noted_far (note_aborted pid (log database s)) s f (λ t. (exit (answer nack 0), t, f))
        (λ t. refl)
  vote_far pid e none r s f = confirm_far pid (is_ack r) (cache_entry database e s) f

  call_far :
      (h : ℕ) (e : Entry) (s : Session database) (f : Node database)
      → IsAt database h s
      → NothingAbove h f
      → NothingAbove h (propose_call database e s f).2
  unfolding propose_call propose_request
  call_far h e s f at empty = elim (call-Transmits database s f (asks database e s)).far_side [
    | inl same ↦ subst (NothingAbove h) (sym same) empty
    | inr ran ↦
        subst (NothingAbove h) (sym ran)
          (propose-NothingAbove h f (propose_request database s e) at empty)
  ]

  -- The turns of one follower that is not ahead, from a coordinator at the height `h`.
  abbrev Rounds : ℕ → ℕ → ℕ → Entry → Type 0
  Rounds fuel pid h e =
      (t : Session database) (g : Node database)
      → IsAt database h t
      → g.height ≤ h
      → NothingAbove h g
      → NothingAbove h (propose_turn database fuel e pid t g).2

  choose-NothingAbove :
      (fuel pid h : ℕ) (e : Entry) (c : Called database) (b : Bool)
      → Rounds fuel pid h e
      → IsAt database h c.1
      → c.2.height ≤ h
      → NothingAbove h c.2
      → NothingAbove h (choose database pid fuel e c b).2
  unfolding choose
  choose-NothingAbove fuel pid h e c true rest at le empty =
      subst (NothingAbove h) (sym (vote_far pid e c.0.error c.0.response c.1 c.2)) empty
  choose-NothingAbove fuel pid h e c false rest at le empty = rest c.1 c.2 at le empty

  noted-NothingAbove :
      (fuel pid h : ℕ) (e : Entry) (s : Session database) (f : Node database) (g : Go Log)
      → Rounds fuel pid h e
      → IsAt database h s
      → f.height ≤ h
      → NothingAbove h f
      → NothingAbove h (noted database g s f (round database pid fuel e f)).2
  unfolding round
  noted-NothingAbove fuel pid h e s f (panic p) rest at le empty = empty
  noted-NothingAbove fuel pid h e s f (ok l) rest at le empty =
      let t = with_log database l s in
      let c = propose_call database e t f in
      let (same, level, _) =
        propose_call-Keeps database e t f (subst (λ n. f.height ≤ n) (sym at) le) in
      choose-NothingAbove fuel pid h e c (is_ack c.0.response) rest
        (ap (λ (n : Node database). n.height) same ∙ at) (subst (λ n. n ≤ h) (sym level) le)
        (call_far h e t f at empty)

  propose_turn-NothingAbove : (fuel pid h : ℕ) (e : Entry) → Rounds fuel pid h e
  propose_turn-NothingAbove zero pid h e = λ s f at le empty.
      subst (λ (w : Turn database). NothingAbove h w.2) (sym (propose_turn-zero database pid e s f))
        empty
  propose_turn-NothingAbove (suc fuel) pid h e = λ s f at le empty.
      subst (λ (w : Turn database). NothingAbove h w.2)
        (sym (propose_turn-suc database fuel pid e s f))
        (noted-NothingAbove fuel pid h e s f (note_propose pid (log database s))
          (propose_turn-NothingAbove fuel pid h e) at le empty)

  -- What holds of the first follower.
  abbrev pub First : (Node database → Type 0) → List (Node database) → Type 0
  First Q [] = ⊥
  First Q (f ∷ fs) = Q f

  -- The coordinator is above the height `h`.
  abbrev pub Above : ℕ → Session database → Type 0
  Above h s = h < s.self.height

  le_highest : (m n h : ℕ) → h < m → h < highest m n
  le_highest m n h lt = ground (arith, lt)

  lt_highest_right : (m n h : ℕ) → h < n → h < highest m n
  lt_highest_right m n h lt = ground (arith, lt)

  still-Above :
      (fuel pid h : ℕ) (e : Entry) (t : Session database) (n : Node database)
      → (propose_turn database fuel e pid t n).0 ≡ continue
      → Above h t
      → Above h (propose_turn database fuel e pid t n).1
  still-Above fuel pid h e t n went higher =
      subst (λ i. h < i) (sym (propose_turn-height database fuel pid e t n went).0)
        (le_highest t.self.height n.height h higher)

  pub All-unit : (fs : List (Node database)) → All (λ _. Unit {0}) fs
  All-unit [] = tt
  All-unit (f ∷ fs) = (tt, All-unit fs)

  pub propose_loop-Above :
      (fuel h : ℕ) (e : Entry) (s : Session database) (f g : Node database)
      (fs : List (Node database))
      → IsAt database h s
      → f.height ≤ h
      → NothingAbove h f
      → h < g.height
      → (for_followers database (propose_turn database fuel e) 0 s (f ∷ g ∷ fs)).0 ≡ continue
      → let w = for_followers database (propose_turn database fuel e) 0 s (f ∷ g ∷ fs) in
        Above h w.1 × First (NothingAbove h) w.2
  unfolding for_followers
  propose_loop-Above fuel h e s f g fs at le empty ahead went =
      let body = propose_turn database fuel e in
      let w = body 0 s f in
      let (first, rest, same) =
        onwards-eq_continue database w (g ∷ fs) (λ t. for_followers database body 1 t (g ∷ fs))
          went in
      let w' = body 1 w.1 g in
      let (second, rest', same') =
        onwards-eq_continue database w' fs (λ t. for_followers database body 2 t fs) rest in
      let (level, _) = propose_turn-height database fuel 1 e w.1 g second in
      let above : Above h w'.1 =
        subst (λ n. h < n) (sym level) (lt_highest_right w.1.self.height g.height h ahead) in
      let (above', _) =
        for_followers-All database body (Above h) (λ _. Unit {0}) (λ _. Unit {0})
          (λ pid t n went' higher _. (still-Above fuel pid h e t n went' higher, tt)) 2 w'.1 fs
          rest' above (All-unit fs) in
      rw same (rw same' (above', propose_turn-NothingAbove fuel 0 h e s f at le empty))
