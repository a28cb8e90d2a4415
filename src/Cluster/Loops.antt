-- ===== src/Cluster/Loops.antt =====
-- Rules for the loops of `Put` over the followers (server/server.go).
use committer.Prelude.{
  Option, none, some, u64_succ, ℕ, ◌+◌, ◌≡◌, ◌≢◌, refl, sym, List, [], ◌∷◌, All, inl, inr, ◌⊎◌,
}
use committer.Go.{Go, Panic, ok, panic, nil_dereference}
use committer.Proto.{Answer, Response, Error, ack, nack, answer, fails, not_acknowledged}
use committer.Monitor.{reset}
use committer.Monitor.Trace.{check_trace}
use committer.Database.{Database}
use committer.Server.Handlers.{Node}
use committer.Cluster.{Session, Control, continue, exit, crash, out_of_fuel}
use committer.Cluster.Stages.{Turn, Loop, for_followers, onwards, answered}
use committer.Cluster.Put.{chain, finish}

module _ (database : Database) where
  -- A call that is answered ends its turn, or the turn goes on.
  pub answered-any {ℓ} :
      (P : Turn database → Type ℓ) (x : Option Error) (resp : Option Response)
      (s : Session database) (f : Node database)
      (k : Session database → Node database → Turn database)
      → ((c : Control) → P (c, s, f))
      → P (k s f)
      → P (answered database x resp s f k)
  unfolding answered
  answered-any P (some x) resp s f k ends goes_on = ends (exit (answer nack 0))
  answered-any P none none s f k ends goes_on = ends (crash nil_dereference)
  answered-any P none (some r) s f k ends goes_on = by_type r.typ
    where
      by_type :
          (t : Answer)
          → P (elim t as (λ _. Turn database) [
            | Answer.ack ↦ k s f
            | Answer.nack ↦ (exit (fails not_acknowledged), s, f)
          ])
      by_type Answer.ack = goes_on
      by_type Answer.nack = ends (exit (fails not_acknowledged))

  pub onwards-eq_continue :
      (w : Turn database) (fs : List (Node database)) (k : Session database → Loop database)
      → (onwards database w fs k).0 ≡ continue
      → (w.0 ≡ continue)
        × ((k w.1).0 ≡ continue)
        × (onwards database w fs k ≡ ((k w.1).0, (k w.1).1, w.2 ∷ (k w.1).2))
  unfolding onwards
  onwards-eq_continue (continue, s, f) fs k h = (refl, h, refl)
  onwards-eq_continue (exit r, s, f) fs k h = cc
  onwards-eq_continue (crash p, s, f) fs k h = cc
  onwards-eq_continue (out_of_fuel, s, f) fs k h = cc

  pub chain-cases :
      (w : Loop database) (k : Session database → List (Node database) → Loop database)
      → ((w.0 ≡ continue) × (chain database w k ≡ k w.1 w.2))
        ⊎ ((w.0 ≢ continue) × (chain database w k ≡ w))
  unfolding chain
  chain-cases (continue, s, fs) k = inl (refl, refl)
  chain-cases (exit r, s, fs) k = inr (λ p. cc p, refl)
  chain-cases (crash p, s, fs) k = inr (λ p. cc p, refl)
  chain-cases (out_of_fuel, s, fs) k = inr (λ p. cc p, refl)

module _ (database : Database) (body : ℕ → Session database → Node database → Turn database) where
  -- A fact that each turn keeps while it goes on, and what each turn makes of its follower.
  module _ {ℓ κ} (P : Session database → Type ℓ) (Q R : Node database → Type κ)
      (turn : (pid : ℕ) (s : Session database) (f : Node database)
        → (body pid s f).0 ≡ continue
        → P s
        → Q f
        → P (body pid s f).1 × R (body pid s f).2) where
    pub for_followers-All :
        (pid : ℕ) (s : Session database) (fs : List (Node database))
        → (for_followers database body pid s fs).0 ≡ continue
        → P s
        → All Q fs
        → P (for_followers database body pid s fs).1
          × All R (for_followers database body pid s fs).2
    unfolding for_followers
    for_followers-All pid s [] h p q = (p, tt)
    for_followers-All pid s (f ∷ fs) h p q =
        let (went, rest, e) = onwards-eq_continue database (body pid s f) fs _ h in
        let (p', r) = turn pid s f went p q.0 in
        let (p'', rs) = for_followers-All (pid + 1) (body pid s f).1 fs rest p' q.1 in
        rw e (p'', (r, rs))

  -- A way for a turn not to end: no turn ends so, and the loop does not.
  module _ (c : Control) (other : c ≢ continue)
      (turn : (pid : ℕ) (s : Session database) (f : Node database) → (body pid s f).0 ≢ c) where
    pub for_followers-ne :
        (pid : ℕ) (s : Session database) (fs : List (Node database))
        → (for_followers database body pid s fs).0 ≢ c
    unfolding for_followers
    for_followers-ne pid s [] = λ h. other (sym h)
    for_followers-ne pid s (f ∷ fs) =
        keep (body pid s f) (turn pid s f) (λ t. for_followers-ne (pid + 1) t fs)
      where
        keep :
            (w : Turn database)
            → w.0 ≢ c
            → ((t : Session database) → (for_followers database body (pid + 1) t fs).0 ≢ c)
            → (onwards database w fs (λ t. for_followers database body (pid + 1) t fs)).0 ≢ c
        keep (continue, t, g) n rest = rest t
        keep (exit r, t, g) n rest = n
        keep (crash p, t, g) n rest = n
        keep (out_of_fuel, t, g) n rest = n

module _ (database : Database) where
  abbrev pub raised : Session database → Session database
  raised s = record s { self = record (s.self) { height = u64_succ s.self.height } }

  -- The coordinator after a trace that was accepted.
  abbrev pub settled_session : Session database → Session database
  settled_session s = record (raised s) {
    self = record ((raised s).self) { monitor = reset s.self.monitor };
  }

  -- The two ends of a `Put` that gets to its end.
  pub finish-cases :
      (s : Session database) (fs : List (Node database))
      → ((p : Panic) × (finish database s fs ≡ (crash p, raised s, fs)))
        ⊎ (finish database s fs ≡ (exit (answer ack 0), settled_session s, fs))
  unfolding finish
  finish-cases s fs = checked (check_trace s.self.monitor)
    where
      ending : Go (Unit {0}) → Loop database
      ending g = elim g [
        | panic p ↦ (crash p, raised s, fs)
        | ok _ ↦ (exit (answer ack 0), settled_session s, fs)
      ]

      checked :
          (g : Go (Unit {0}))
          → ((p : Panic) × (ending g ≡ (crash p, raised s, fs)))
            ⊎ (ending g ≡ (exit (answer ack 0), settled_session s, fs))
      checked (panic p) = inl (p, refl)
      checked (ok _) = inr refl
