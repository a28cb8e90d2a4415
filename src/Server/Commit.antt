-- ===== src/Server/Commit.antt =====
-- What `Commit` and `CommitHandler` of a node do (server/server.go, server/committer.go), over any
-- database.
use committer.Prelude.{
  ℕ, ◌≡◌, ◌⊎◌, refl, true, false, none, some, [], ◌∷◌, arith, Bool-cases, Option-cases, inl, inr,
  u64_succ, if◌then◌else◌,
}
use committer.Proto.{ack, nack, CommitRequest, Reply, answer, no_value_on}
use committer.Cache.{Msg}
use committer.Cache
use committer.Database.{Database, Result, ok, err}
use committer.Server.Node.{is_three_phase, set_progress, has_progress, rollback}
use committer.Server.Handlers.{
  Node, Metadata, acknowledges, commit_handler, commit, settle, drop_response, commit_three_phase,
  store, autocommit, remove_first,
}

module _ (database : Database) where
  -- A commit that is done as a whole.
  abbrev pub Committed : Node database → CommitRequest → Reply × Node database → Type 0
  Committed s req p =
      (m : Msg) × (s.commit_hook req ≡ true)
      × (Cache.get s.node_cache req.index ≡ some m)
      × (database.put s.db m.key m.value ≡ ok p.1.db)
      × (p.1.height ≡ u64_succ s.height)
      × (p.0 ≡ answer ack 0)

  -- A commit that left the database and the height as they were, and says so.
  abbrev pub NotCommitted : Node database → Reply × Node database → Type 0
  NotCommitted s p = (acknowledges p.0 ≡ false) × (p.1.db ≡ s.db) × (p.1.height ≡ s.height)

  settle-store :
      (s : Node database) (req : CommitRequest) (m : Msg)
      → s.commit_hook req ≡ true
      → Cache.get s.node_cache req.index ≡ some m
      → (w : Result database.State) → database.put s.db m.key m.value ≡ w
      → Committed s req (settle database (store database s w))
        ⊎ NotCommitted s (settle database (store database s w))
  unfolding settle store acknowledges
  settle-store s req m h c (ok d) e = inl (m, h, c, e, refl, refl)
  settle-store s req m h c (err x) e = inr (refl, refl, refl)

  abbrev dropped : Node database → ℕ → Node database
  dropped s i = record s { node_cache = Cache.delete s.node_cache i }

  pub commit_handler-found :
      (s : Node database) (req : CommitRequest) (m : Msg)
      → s.commit_hook req ≡ true
      → Cache.get s.node_cache req.index ≡ some m
      → commit_handler database s req ≡ store database s (database.put s.db m.key m.value)
  unfolding commit_handler
  commit_handler-found s req m vote found = rw (vote, found, commit_handler)

  commit_handler-missing :
      (s : Node database) (req : CommitRequest)
      → s.commit_hook req ≡ true
      → Cache.get s.node_cache req.index ≡ none
      → commit_handler database s req
        ≡ (record (answer nack 0) { error = some (no_value_on req.index) }, dropped s req.index)
  unfolding commit_handler
  commit_handler-missing s req vote missing = rw (vote, missing, commit_handler)

  commit_handler-refused :
      (s : Node database) (req : CommitRequest)
      → s.commit_hook req ≡ false
      → commit_handler database s req ≡ (answer nack 0, dropped s req.index)
  unfolding commit_handler
  commit_handler-refused s req veto = rw (veto, commit_handler)

  settle-commit_handler :
      (s : Node database) (req : CommitRequest)
      → Committed s req (settle database (commit_handler database s req))
        ⊎ NotCommitted s (settle database (commit_handler database s req))
  unfolding settle acknowledges
  settle-commit_handler s req = elim (Bool-cases (s.commit_hook req)) [
    | inr veto ↦ rw (commit_handler-refused s req veto) (inr (refl, refl, refl))
    | inl vote ↦ elim (Option-cases (Cache.get s.node_cache req.index)) [
      | inl missing ↦ rw (commit_handler-missing s req vote missing) (inr (refl, refl, refl))
      | inr (m, found) ↦
          rw (commit_handler-found s req m vote found)
            (settle-store s req m vote found (database.put s.db m.key m.value) refl)
    ]
  ]

  drop_response_outcome :
      (s : Node database) (req : CommitRequest) (p : Reply × Node database)
      → Committed s req p ⊎ NotCommitted s p
      → Committed s req (drop_response database p) ⊎ NotCommitted s (drop_response database p)
  unfolding drop_response acknowledges
  drop_response_outcome s req p h = ground arith

  commit_three_phase_outcome :
      (md : Metadata) (s : Node database) (req : CommitRequest)
      → Committed s req (commit_three_phase database md s req)
        ⊎ NotCommitted s (commit_three_phase database md s req)
  unfolding commit_three_phase set_progress rollback acknowledges
  commit_three_phase_outcome none s req = inr (refl, refl, refl)
  commit_three_phase_outcome (some []) s req =
      drop_response_outcome s req _ (settle-commit_handler (set_progress s.height true s) req)
  commit_three_phase_outcome (some (mode ∷ modes)) s req = inr (refl, ground arith, ground arith)

  -- A commit either stores the message cached at its index, raises the height by one (mod 2^64) and
  -- is acknowledged, which needs the hook's consent; or it is not acknowledged and neither the
  -- database nor the height has changed. This holds in both modes, whatever the metadata.
  pub commit_outcome :
      (md : Metadata) (s : Node database) (req : CommitRequest)
      → Committed s req (commit database md s req) ⊎ NotCommitted s (commit database md s req)
  unfolding commit
  commit_outcome md s req = elim (Bool-cases (is_three_phase s.config)) [
    | inl three ↦ rw three (commit_three_phase_outcome md s req)
    | inr two ↦ rw two (settle-commit_handler s req)
  ]

  -- The goroutine of `Precommit`, at the end of its timeout, leaves a node in the three-phase
  -- mode as it was, but for its own timer.
  pub autocommit-eq_self :
      (i : ℕ) (s : Node database)
      → is_three_phase s.config ≡ true
      → autocommit database i s ≡ record s { timers = remove_first database i s.timers }
  unfolding autocommit
  autocommit-eq_self i s three = ground arith

  abbrev pub without_timer : ℕ → Node database → Node database
  without_timer i s = record s { timers = remove_first database i s.timers }

  abbrev pub at_height : Node database → CommitRequest
  at_height s = record { index = s.height; is_rollback = false }

  pub autocommit_lem :
      (i : ℕ) (s : Node database)
      → autocommit database i s ≡ (
          if has_progress i s
          then without_timer i s
          else (commit database none (without_timer i s) (at_height s)).1)
  unfolding autocommit
  autocommit_lem i s = refl

  -- What an acknowledged commit leaves.
  pub record Stored (s : Node database) (d : database.State) (p : Reply × Node database)
      : Type 0 where
    pub acked : p.0 ≡ answer ack 0
    pub stored : p.1.db ≡ d
    pub raised : p.1.height ≡ u64_succ s.height
    pub same_cache : p.1.node_cache ≡ s.node_cache
    pub same_hook : p.1.commit_hook ≡ s.commit_hook

  pub commit-Stored :
      (s : Node database) (req : CommitRequest) (m : Msg) (d : database.State)
      → s.commit_hook req ≡ true
      → Cache.get s.node_cache req.index ≡ some m
      → database.put s.db m.key m.value ≡ ok d
      → Stored s d (commit database (some []) s req)
  unfolding commit commit_three_phase settle drop_response store set_progress
  commit-Stored s req m d vote found put = ground (
    arith,
    commit_handler-found s req m vote found,
    commit_handler-found (set_progress s.height true s) req m vote found,
  )

  -- Two commits at one index, where a message is cached, by a hook that consents and a database
  -- that writes both times: the second is carried out like the first, is acknowledged, and the
  -- two raise the height by two (mod 2^64).
  pub commit-commit :
      (s : Node database) (req : CommitRequest) (m : Msg) (d d' : database.State)
      → s.commit_hook req ≡ true
      → Cache.get s.node_cache req.index ≡ some m
      → database.put s.db m.key m.value ≡ ok d
      → database.put d m.key m.value ≡ ok d'
      → let again = commit database (some []) (commit database (some []) s req).1 req in
        (again.0 ≡ answer ack 0)
        × (again.1.db ≡ d')
        × (again.1.height ≡ u64_succ (u64_succ s.height))
  commit-commit s req m d d' vote found put put' =
      let once = commit-Stored s req m d vote found put in
      let t = (commit database (some []) s req).1 in
      let twice =
        commit-Stored t req m d' (rw once.same_hook vote) (rw once.same_cache found)
          (rw once.stored put') in
      (twice.acked, twice.stored, rw (← once.raised) twice.raised)
