-- ===== src/Cluster/Followers.antt =====
-- `Put` with any number of followers and its monitor (server/server.go,
-- server/TwoPhaseCommitFull.go).
use committer.Prelude.{u64_succ, ℕ, suc, ◌≡◌, ◌≢◌, refl, List, [], ◌∷◌, length}
use committer.Go.{Go, ok, panic}
use committer.Tla.{str, no_items}
use committer.Proto.{Entry, Reply, ack, answer}
use committer.Database.{Database}
use committer.Monitor.{reset}
use committer.Monitor.Accepted.{IsAccepted}
use committer.Monitor.Trace.{check_trace}
use committer.Server.Handlers.{Node}
use committer.Cluster.{Session, continue, exit, crash, out_of_fuel}
use committer.Cluster.Notes.{Log, note_propose}
use committer.Cluster.Stages.{
  Loop, log, with_log, propose_turn, precommit_turn, commit_turn, for_followers,
}
use committer.Cluster.Put.{persist, finish, rest_of_put, put}
use committer.Cluster.Watched.{Fine, FineLoop, Stops, Keeps, onwards-FineLoop, chain-FineLoop}
use committer.Cluster.Watched.Turns.{propose_turn-Fine, precommit_turn-Fine, commit_turn-Fine}
use committer.Cluster.Watched.Loops.{for_followers-FineLoop, persist-FineLoop}
use committer.Cluster.Phases.Checks.{Party, one, two, before, after}
use committer.Cluster.Phases.Tracked.{
  Tracked, note_propose-Tracked, note_prepared-Tracked, begin-Tracked,
}
use committer.Cluster.Phases.Doomed.{
  Doomed, Doomed-rejected, note_propose-Doomed, note_prepared-Doomed, note_commit-Doomed,
  note_committed-Doomed, third_propose-Doomed, early_commit-Doomed,
}

-- `Put` stops with no acknowledgement.
abbrev Refusal : Reply → Log → Type 0
Refusal r l = r ≢ answer ack 0

abbrev Proposing : Party → Log → Type 0
Proposing q = Tracked (before q) no_items (str "none")

abbrev Proposed : Party → Log → Type 0
Proposed q = Tracked (after q) no_items (str "none")

module _ (database : Database) where
  abbrev Ends : (Log → Type 0) → ℕ → Loop database → Type 0
  Ends = FineLoop database Refusal Unit

  stops : (P : Log → Type 0) → Stops database Refusal Unit P
  stops P r l n _ = n

  -- A trace that is rejected makes the end of `Put` panic.
  finish-Doomed :
      (n : ℕ) (s : Session database) (fs : List (Node database))
      → Doomed (log database s)
      → Ends (λ _. ⊥) n (finish database s fs)
  unfolding finish
  finish-Doomed n s fs t = go (check_trace s.self.monitor) (Doomed-rejected (log database s) t)
    where
      raised : Session database
      raised = record s { self = record (s.self) { height = u64_succ s.self.height } }

      go :
          (g : Go (Unit {0}))
          → g ≢ ok tt
          → Ends
              (λ _. ⊥)
              n
              (elim g as (λ _. Loop database) [
                | panic p ↦ (crash p, raised, fs)
                | ok _ ↦ (
                  exit (answer ack 0),
                  record raised { self = record (raised.self) { monitor = reset s.self.monitor } },
                  fs,
                )
              ])
      go (panic p) h = tt
      go (ok tt) h = absurd (h refl)

  -- The rest of `Put`, where the commits make the log doomed, or find it so.
  rest-Doomed :
      (P : Log → Type 0) (n : ℕ)
      → ((s : Session database) (fs : List (Node database))
          → P (log database s)
          → length fs ≡ n
          → Ends Doomed n (for_followers database (commit_turn database) 0 s fs))
      → (s : Session database) (fs : List (Node database)) → P (log database s)
      → length fs ≡ n
      → Ends (λ _. ⊥) n (rest_of_put database s fs)
  unfolding rest_of_put
  rest-Doomed P n commits s fs p l =
      chain-FineLoop database Refusal Unit P (λ _. ⊥) n
        (for_followers database (precommit_turn database) 0 s fs) _
        (for_followers-FineLoop database Refusal Unit P (precommit_turn database)
          (λ pid s' f p'. precommit_turn-Fine database Refusal Unit P pid s' f (stops P) p') 0 n s
          fs p l)
        (λ s₁ fs₁ p₁ l₁.
          chain-FineLoop database Refusal Unit P (λ _. ⊥) n (persist database s₁ fs₁) _
            (persist-FineLoop database Refusal Unit P n s₁ fs₁ (stops P) p₁ l₁)
            (λ s₂ fs₂ p₂ l₂.
              chain-FineLoop database Refusal Unit Doomed (λ _. ⊥) n
                (for_followers database (commit_turn database) 0 s₂ fs₂) (finish database)
                (commits s₂ fs₂ p₂ l₂) (λ s₃ fs₃ t l₃. finish-Doomed n s₃ fs₃ t)))

  commits-Doomed :
      (n : ℕ) (s : Session database) (fs : List (Node database))
      → Doomed (log database s)
      → length fs ≡ n
      → Ends Doomed n (for_followers database (commit_turn database) 0 s fs)
  commits-Doomed n s fs t l =
      for_followers-FineLoop database Refusal Unit Doomed (commit_turn database)
        (λ pid s' f t'.
          commit_turn-Fine database Refusal Unit pid Doomed Doomed Doomed s' f (stops Doomed)
            (note_commit-Doomed pid) (note_committed-Doomed pid) t')
        0 n s fs t l

  -- The only follower's commit comes too early for the monitor.
  early_commit :
      (s : Session database) (fs : List (Node database))
      → Proposed one (log database s)
      → length fs ≡ 1
      → Ends Doomed 1 (for_followers database (commit_turn database) 0 s fs)
  unfolding for_followers
  early_commit s [] t l = cc
  early_commit s (f ∷ g ∷ fs) t l = cc
  early_commit s (f ∷ []) t l =
      onwards-FineLoop database Refusal Unit Doomed Doomed 0 (commit_turn database 0 s f) []
        (λ u. for_followers database (commit_turn database) 1 u []) refl
        (commit_turn-Fine database Refusal Unit 0 (Proposed one) Doomed Doomed s f (stops Doomed)
          early_commit-Doomed (note_committed-Doomed 0) t)
        (λ u d. (d, refl))

  first_proposal :
      (fuel : ℕ) (e : Entry) (s : Session database) (f : Node database)
      → Proposing one (log database s)
      → Fine database Refusal Unit (Proposed one) (propose_turn database fuel e 0 s f)
  first_proposal fuel e s f t =
      propose_turn-Fine database Refusal Unit 0 (Proposing one) (Proposed one) (Proposing one) fuel
        e s f (note_propose-Tracked one) (note_propose-Tracked one) (note_prepared-Tracked one) t

  second_proposal :
      (fuel : ℕ) (e : Entry) (s : Session database) (f : Node database)
      → Proposing two (log database s)
      → Fine database Refusal Unit (Proposed two) (propose_turn database fuel e 1 s f)
  second_proposal fuel e s f t =
      propose_turn-Fine database Refusal Unit 1 (Proposing two) (Proposed two) (Proposing two) fuel
        e s f (note_propose-Tracked two) (note_propose-Tracked two) (note_prepared-Tracked two) t

  -- From the third follower on the log is doomed.
  late_proposal :
      (P : Log → Type 0) (fuel : ℕ) (e : Entry) (pid : ℕ) (s : Session database) (f : Node database)
      → Keeps (note_propose pid) P Doomed
      → P (log database s)
      → Fine database Refusal Unit Doomed (propose_turn database fuel e pid s f)
  late_proposal P fuel e pid s f starts t =
      propose_turn-Fine database Refusal Unit pid Doomed Doomed P fuel e s f starts
        (note_propose-Doomed pid) (note_prepared-Doomed pid) t

  one_proposal :
      (fuel : ℕ) (e : Entry) (s : Session database) (f : Node database)
      → Proposing one (log database s)
      → Ends (Proposed one) 1 (for_followers database (propose_turn database fuel e) 0 s (f ∷ []))
  unfolding for_followers
  one_proposal fuel e s f t =
      onwards-FineLoop database Refusal Unit (Proposed one) (Proposed one) 0
        (propose_turn database fuel e 0 s f) []
        (λ u. for_followers database (propose_turn database fuel e) 1 u []) refl
        (first_proposal fuel e s f t) (λ u d. (d, refl))

  many_proposals :
      (fuel : ℕ) (e : Entry) (s : Session database) (f g x : Node database)
      (fs : List (Node database))
      → Proposing one (log database s)
      → Ends Doomed
          (suc (suc (suc (length fs))))
          (for_followers database (propose_turn database fuel e) 0 s (f ∷ g ∷ x ∷ fs))
  unfolding for_followers
  many_proposals fuel e s f g x fs t =
      let body = propose_turn database fuel e in
      onwards-FineLoop database Refusal Unit (Proposed one) Doomed (suc (suc (length fs)))
        (body 0 s f) (g ∷ x ∷ fs) (λ u. for_followers database body 1 u (g ∷ x ∷ fs)) refl
        (first_proposal fuel e s f t)
        (λ u t₁.
          onwards-FineLoop database Refusal Unit (Proposed two) Doomed (suc (length fs))
            (body 1 u g) (x ∷ fs) (λ v. for_followers database body 2 v (x ∷ fs)) refl
            (second_proposal fuel e u g t₁)
            (λ v t₂.
              onwards-FineLoop database Refusal Unit Doomed Doomed (length fs) (body 2 v x) fs
                (λ w. for_followers database body 3 w fs) refl
                (late_proposal (Proposed two) fuel e 2 v x third_propose-Doomed t₂)
                (λ w d.
                  for_followers-FineLoop database Refusal Unit Doomed body
                    (λ pid y h d'. late_proposal Doomed fuel e pid y h (note_propose-Doomed pid) d')
                    3 (length fs) w fs d refl)))

  -- `Put` from the end of the proposals.
  begun :
      (P : Log → Type 0) (n fuel : ℕ) (e : Entry) (s : Session database) (fs : List (Node database))
      → IsAccepted s.self.monitor
      → ((t : Session database)
          → Proposing one (log database t)
          → Ends P n (for_followers database (propose_turn database fuel e) 0 t fs))
      → ((t : Session database) (gs : List (Node database))
          → P (log database t)
          → length gs ≡ n
          → Ends (λ _. ⊥) n (rest_of_put database t gs))
      → Ends (λ _. ⊥) n (put database fuel e s fs)
  unfolding put
  begun P n fuel e s fs m proposals rest =
      let (b, ran, t) = begin-Tracked (log database s) m in
      rw (ran, put)
        (chain-FineLoop database Refusal Unit P (λ _. ⊥) n
          (for_followers database (propose_turn database fuel e) 0 (with_log database b s) fs)
          (rest_of_put database) (proposals (with_log database b s) t) rest)

  one_follower :
      (fuel : ℕ) (e : Entry) (s : Session database) (f : Node database)
      → IsAccepted s.self.monitor
      → Ends (λ _. ⊥) 1 (put database fuel e s (f ∷ []))
  one_follower fuel e s f m =
      begun (Proposed one) 1 fuel e s (f ∷ []) m (λ t p. one_proposal fuel e t f p)
        (rest-Doomed (Proposed one) 1 early_commit)

  many_followers :
      (fuel : ℕ) (e : Entry) (s : Session database) (f g x : Node database)
      (fs : List (Node database))
      → IsAccepted s.self.monitor
      → Ends (λ _. ⊥) (suc (suc (suc (length fs)))) (put database fuel e s (f ∷ g ∷ x ∷ fs))
  many_followers fuel e s f g x fs m =
      let n = suc (suc (suc (length fs))) in
      begun Doomed n fuel e s (f ∷ g ∷ x ∷ fs) m (λ t p. many_proposals fuel e t f g x fs p)
        (rest-Doomed Doomed n (commits-Doomed n))

  Ends-ne_ack : (n : ℕ) (w : Loop database) → Ends (λ _. ⊥) n w → w.0 ≢ exit (answer ack 0)
  Ends-ne_ack n (continue, s, fs) h = λ e. cc e
  Ends-ne_ack n (exit r, s, fs) h = λ e. h.0 (exit_injective e)
    where
      exit_injective : exit r ≡ exit (answer ack 0) → r ≡ answer ack 0
      exit_injective e = cc e
  Ends-ne_ack n (out_of_fuel, s, fs) h = λ e. cc e
  Ends-ne_ack n (crash p, s, fs) h = λ e. cc e

  -- The monitor knows two participants. For a coordinator with at least one follower and an accepted
  -- trace: if `Put` returns ACK, then there are exactly two followers, whatever the network, the
  -- hooks and the database do.
  pub put-length :
      (fuel : ℕ) (e : Entry) (s : Session database) (f : Node database) (fs : List (Node database))
      → IsAccepted s.self.monitor
      → (put database fuel e s (f ∷ fs)).0 ≡ exit (answer ack 0)
      → length (f ∷ fs) ≡ 2
  put-length fuel e s f [] m acked =
      absurd (Ends-ne_ack 1 (put database fuel e s (f ∷ [])) (one_follower fuel e s f m) acked)
  put-length fuel e s f (g ∷ []) m acked = refl
  put-length fuel e s f (g ∷ x ∷ fs) m acked = absurd (
      Ends-ne_ack _ (put database fuel e s (f ∷ g ∷ x ∷ fs)) (many_followers fuel e s f g x fs m)
        acked)
