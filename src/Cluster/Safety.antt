-- ===== src/Cluster/Safety.antt =====
-- `Put` with two followers and its monitor (server/server.go, server/TwoPhaseCommitFull.go).
use committer.Prelude.{ℕ, ◌≡◌, ◌≢◌, refl, List, [], ◌∷◌, length}
use committer.Go.{Panic}
use committer.Tla.{Tla, Items, str, no_items}
use committer.Proto.{Entry, Reply}
use committer.Database.{Database}
use committer.Monitor.Accepted.{IsAccepted}
use committer.Server.Handlers.{Node}
use committer.Cluster.{Session, continue, exit, crash, out_of_fuel}
use committer.Cluster.Notes.{Log}
use committer.Cluster.Stages.{
  Turn, Loop, log, with_log, propose_turn, precommit_turn, commit_turn, for_followers,
}
use committer.Cluster.Put.{chain, persist, finish, rest_of_put, put}
use committer.Cluster.Watched.{Fine, FineLoop, Stops, onwards-FineLoop, chain-FineLoop}
use committer.Cluster.Watched.Turns.{propose_turn-Fine, precommit_turn-Fine, commit_turn-Fine}
use committer.Cluster.Watched.Loops.{for_followers-FineLoop, persist-FineLoop}
use committer.Cluster.Phases.Checks.{Party, one, two, before, after, decided}
use committer.Cluster.Phases.Tracked.{
  Tracked, Tracked-IsAccepted, note_propose-Tracked, note_prepared-Tracked, note_commit-Tracked,
  note_committed-Tracked, begin-Tracked,
}

-- `Put` stops with a trace that is accepted, whatever it returns.
abbrev pub Stop : Reply → Log → Type 0
Stop r l = IsAccepted l.monitor

-- Before and after a follower's proposal; after a commit.
abbrev pub Proposing : Party → Log → Type 0
Proposing q = Tracked (before q) no_items (str "none")

abbrev pub Proposed : Party → Log → Type 0
Proposed q = Tracked (after q) no_items (str "none")

abbrev pub Committing : Party → Log → Type 0
Committing q = Tracked (after two) (before q) (decided q)

abbrev pub Sent : Party → Log → Type 0
Sent q = Tracked (after two) (before q) (str "commit")

abbrev pub Committed : Log → Type 0
Committed = Tracked (after two) (after two) (str "commit")

module _ (database : Database) where
  stops : (p c : Items) (d : Tla) → Stops database Stop ⊥ (Tracked p c d)
  stops p c d r l _ t = Tracked-IsAccepted p c d l t

  -- The two turns of a loop over two followers.
  two_turns :
      (P : Party → Log → Type 0) (Q : Log → Type 0)
      (body : ℕ → Session database → Node database → Turn database)
      → ((s : Session database) (f : Node database)
          → P one (log database s)
          → Fine database Stop ⊥ (P two) (body 0 s f))
      → ((s : Session database) (f : Node database)
          → P two (log database s)
          → Fine database Stop ⊥ Q (body 1 s f))
      → (s : Session database) (fs : List (Node database)) → P one (log database s)
      → length fs ≡ 2
      → FineLoop database Stop ⊥ Q 2 (for_followers database body 0 s fs)
  unfolding for_followers
  two_turns P Q body first second s (f ∷ g ∷ []) p l =
      onwards-FineLoop database Stop ⊥ (P two) Q 1 (body 0 s f) (g ∷ [])
        (λ t. for_followers database body 1 t (g ∷ [])) refl (first s f p)
        (λ t p'.
          onwards-FineLoop database Stop ⊥ Q Q 0 (body 1 t g) []
            (λ u. for_followers database body 2 u []) refl (second t g p') (λ u q. (q, refl)))
  two_turns P Q body first second s [] p l = cc
  two_turns P Q body first second s (f ∷ []) p l = cc
  two_turns P Q body first second s (f ∷ g ∷ x ∷ fs) p l = cc

  finish-FineLoop :
      (s : Session database) (fs : List (Node database))
      → Committed (log database s)
      → length fs ≡ 2
      → FineLoop database Stop ⊥ (λ _. ⊥) 2 (finish database s fs)
  unfolding finish
  finish-FineLoop s fs t l =
      let m = Tracked-IsAccepted (after two) (after two) (str "commit") (log database s) t in
      rw (m.checked, finish) (record { no_extra = m.no_extra; checked = refl }, l)

  commit_stage-FineLoop :
      (s : Session database) (fs : List (Node database))
      → Proposed two (log database s)
      → length fs ≡ 2
      → FineLoop database Stop ⊥
          (λ _. ⊥)
          2
          (chain database (for_followers database (commit_turn database) 0 s fs) (finish database))
  commit_stage-FineLoop s fs t l =
      chain-FineLoop database Stop ⊥ Committed (λ _. ⊥) 2
        (for_followers database (commit_turn database) 0 s fs) (finish database)
        (two_turns Committing Committed (commit_turn database)
          (λ s' f.
            commit_turn-Fine database Stop ⊥ 0 (Committing one) (Sent one) (Committing two) s' f
              (stops (after two) (before one) (str "commit")) (note_commit-Tracked one)
              (note_committed-Tracked one))
          (λ s' f.
            commit_turn-Fine database Stop ⊥ 1 (Committing two) (Sent two) Committed s' f
              (stops (after two) (before two) (str "commit")) (note_commit-Tracked two)
              (note_committed-Tracked two))
          s fs t l)
        finish-FineLoop

  rest_of_put-FineLoop :
      (s : Session database) (fs : List (Node database))
      → Proposed two (log database s)
      → length fs ≡ 2
      → FineLoop database Stop ⊥ (λ _. ⊥) 2 (rest_of_put database s fs)
  unfolding rest_of_put
  rest_of_put-FineLoop s fs t l =
      let P = Proposed two in
      let stop = stops (after two) no_items (str "none") in
      chain-FineLoop database Stop ⊥ P (λ _. ⊥) 2
        (for_followers database (precommit_turn database) 0 s fs) _
        (for_followers-FineLoop database Stop ⊥ P (precommit_turn database)
          (λ pid s' f t'. precommit_turn-Fine database Stop ⊥ P pid s' f stop t') 0 2 s fs t l)
        (λ s₁ fs₁ t₁ l₁.
          chain-FineLoop database Stop ⊥ P (λ _. ⊥) 2 (persist database s₁ fs₁) _
            (persist-FineLoop database Stop ⊥ P 2 s₁ fs₁ stop t₁ l₁) commit_stage-FineLoop)

  pub put-FineLoop :
      (fuel : ℕ) (e : Entry) (s : Session database) (fs : List (Node database))
      → IsAccepted s.self.monitor
      → length fs ≡ 2
      → FineLoop database Stop ⊥ (λ _. ⊥) 2 (put database fuel e s fs)
  unfolding put
  put-FineLoop fuel e s fs m l =
      let (b, ran, t) = begin-Tracked (log database s) m in
      rw (ran, put)
        (chain-FineLoop database Stop ⊥ (Proposed two) (λ _. ⊥) 2
          (for_followers database (propose_turn database fuel e) 0 (with_log database b s) fs)
          (rest_of_put database)
          (two_turns Proposing (Proposed two) (propose_turn database fuel e)
            (λ s' f p.
              propose_turn-Fine database Stop ⊥ 0 (Proposing one) (Proposing two) (Proposing one)
                fuel e s' f (note_propose-Tracked one) (note_propose-Tracked one)
                (note_prepared-Tracked one) p)
            (λ s' f p.
              propose_turn-Fine database Stop ⊥ 1 (Proposing two) (Proposed two) (Proposing two)
                fuel e s' f (note_propose-Tracked two) (note_propose-Tracked two)
                (note_prepared-Tracked two) p)
            (with_log database b s) fs t l)
          rest_of_put-FineLoop)

  -- `Put` with two followers never panics. If the monitor's trace is accepted before a `Put`, then,
  -- whatever the network, the hooks and the database do, `Put` does not panic, and if it returns
  -- then the monitor's trace is accepted again, so that the next `Put` may begin with it.
  pub put-IsAccepted :
      (fuel : ℕ) (e : Entry) (s : Session database) (f g : Node database)
      → IsAccepted s.self.monitor
      → let w = put database fuel e s (f ∷ g ∷ []) in
        ((p : Panic) → w.0 ≢ crash p) × ((r : Reply) → w.0 ≡ exit r → IsAccepted w.1.self.monitor)
  put-IsAccepted fuel e s f g m =
      read (put database fuel e s (f ∷ g ∷ [])) (put-FineLoop fuel e s (f ∷ g ∷ []) m refl)
    where
      read :
          (w : Loop database)
          → FineLoop database Stop ⊥ (λ _. ⊥) 2 w
          → ((p : Panic) → w.0 ≢ crash p)
            × ((r : Reply) → w.0 ≡ exit r → IsAccepted w.1.self.monitor)
      read (continue, t, fs) u = absurd u.0
      read (exit x, t, fs) u = (λ p e. cc e, λ r e. u.0)
      read (out_of_fuel, t, fs) u = (λ p e. cc e, λ r e. cc e)
      read (crash x, t, fs) u = absurd u
