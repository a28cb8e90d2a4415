-- ===== src/Server/Integrity.antt =====
-- What a node holds after any sequence of calls and timeouts (server/server.go).
use committer.Prelude.{
  ℕ, ◌≡◌, ◌≢◌, ◌⊎◌, inl, inr, sym, ◌∙◌, String, none, some, List, [], ◌∷◌, arith, str_eq, eq_iff,
  Bool-cases,
}
use committer.Proto.{Bytes, CommitRequest}
use committer.Cache.{Msg}
use committer.Cache
use committer.Database.{Database, DatabaseLaws, ok}
use committer.Server.Handlers.{Node, Metadata, commit, autocommit, get}
use committer.Server.Commit.{commit_outcome, autocommit_lem, without_timer, at_height}
use committer.Server.Node.{has_progress}
use committer.Server.Events.{
  Call, proposes, precommits, commits, timeout, step, run, waiting, Proposed,
}

module _ (database : Database) where
  -- What `t` has cached was cached in `s` or proposed by `es`.
  abbrev Caches : Node database → List Call → Node database → Type 0
  Caches s es t =
      (i : ℕ) (m : Msg)
      → Cache.get t.node_cache i ≡ some m
      → (Cache.get s.node_cache i ≡ some m) ⊎ Proposed es i m

  pub step-Caches : (s : Node database) (e : Call) → Caches s (e ∷ []) (step database s e)
  unfolding step Cache.get Cache.set Cache.delete
  step-Caches s (proposes req) i m h = ground arith
  step-Caches s (precommits req) i m h = ground arith
  step-Caches s (commits md req) i m h = ground arith
  step-Caches s (timeout j) i m h = ground arith

  Proposed-cons :
      (e : Call) (es : List Call) (i : ℕ) (m : Msg)
      → Proposed (e ∷ []) i m ⊎ Proposed es i m
      → Proposed (e ∷ es) i m
  Proposed-cons (proposes req) es i m h = ground arith
  Proposed-cons (precommits req) es i m h = ground arith
  Proposed-cons (commits md req) es i m h = ground arith
  Proposed-cons (timeout j) es i m h = ground arith

  pub run-Caches : (s : Node database) (es : List Call) → Caches s es (run database s es)
  unfolding run
  run-Caches s [] i m h = inl h
  run-Caches s (e ∷ es) i m h = elim (run-Caches (step database s e) es i m h) [
    | inr later ↦ inr (Proposed-cons e es i m (inr later))
    | inl before ↦ elim (step-Caches s e i m before) [
      | inl first ↦ inl first
      | inr now ↦ inr (Proposed-cons e es i m (inl now))
    ]
  ]

  -- A message with this key and value, cached in `s` or proposed by `es`.
  abbrev pub Origin : Node database → List Call → String → Bytes → Type 0
  Origin s es k v =
      (i : ℕ) × (m : Msg) × (m.key ≡ k)
      × (m.value ≡ v)
      × ((Cache.get s.node_cache i ≡ some m) ⊎ Proposed es i m)

  pub put-get :
      (laws : DatabaseLaws database) (d d' : database.State) (m : Msg) (k : String) (v : Bytes)
      → database.put d m.key m.value ≡ ok d'
      → database.get d' k ≡ ok v
      → (database.get d k ≡ ok v) ⊎ ((m.key ≡ k) × (m.value ≡ v))
  put-get laws d d' m k v put h = elim (Bool-cases (str_eq k m.key)) [
    | inl same ↦
        let e = (eq_iff k m.key).0 same in
        inr (sym e, cc (laws.get-put d d' m.key m.value put, h, e))
    | inr other ↦
        let ne : k ≢ m.key = λ e. cc (other, (eq_iff k m.key).1 e) in
        inl (sym (laws.get-put_ne d d' m.key k m.value put ne) ∙ h)
  ]

  commit-get :
      (laws : DatabaseLaws database) (md : Metadata) (s : Node database) (req : CommitRequest)
      (k : String) (v : Bytes)
      → database.get (commit database md s req).1.db k ≡ ok v
      → (database.get s.db k ≡ ok v) ⊎ Origin s [] k v
  commit-get laws md s req k v h = elim (commit_outcome database md s req) [
    | inr (_, same, _) ↦ inl (rw (← same) h)
    | inl (m, _, found, put, _, _) ↦ elim (put-get laws s.db _ m k v put h) [
      | inl old ↦ inl old
      | inr (key, value) ↦ inr (req.index, m, key, value, inl found)
    ]
  ]

  autocommit-get :
      (laws : DatabaseLaws database) (i : ℕ) (s : Node database) (k : String) (v : Bytes)
      → database.get (autocommit database i s).db k ≡ ok v
      → (database.get s.db k ≡ ok v) ⊎ Origin s [] k v
  autocommit-get laws i s k v h = elim (Bool-cases (has_progress i s)) [
    | inl late ↦ inl (rw (autocommit_lem database i s, late) at h)
    | inr free ↦
        commit-get laws none (without_timer database i s) (at_height database s) k v
          (rw (autocommit_lem database i s, free) at h)
  ]

  pub step-get :
      (laws : DatabaseLaws database) (s : Node database) (e : Call) (k : String) (v : Bytes)
      → database.get (step database s e).db k ≡ ok v
      → (database.get s.db k ≡ ok v) ⊎ Origin s [] k v
  unfolding step
  step-get laws s (proposes req) k v h = inl (ground arith)
  step-get laws s (precommits req) k v h = inl (ground arith)
  step-get laws s (commits md req) k v h = commit-get laws md s req k v h
  step-get laws s (timeout i) k v h = elim (Bool-cases (waiting i s.timers)) [
    | inl there ↦ autocommit-get laws i s k v (rw there at h)
    | inr gone ↦ inl (rw gone at h)
  ]

  Origin-cons :
      (s : Node database) (e : Call) (es : List Call) (k : String) (v : Bytes)
      → Origin (step database s e) es k v
      → Origin s (e ∷ es) k v
  Origin-cons s e es k v (i, m, key, value, inr later) =
      (i, m, key, value, inr (Proposed-cons e es i m (inr later)))
  Origin-cons s e es k v (i, m, key, value, inl kept) = elim (step-Caches s e i m kept) [
    | inl first ↦ (i, m, key, value, inl first)
    | inr now ↦ (i, m, key, value, inr (Proposed-cons e es i m (inl now)))
  ]

  -- Integrity. Over a database that reads back what it wrote: whatever sequence of proposals,
  -- precommits, commits and timeouts a node goes through, in either mode, a value that can be read
  -- from it under a key could be read before, or belongs to a message with this key that was cached
  -- before or was proposed in the sequence.
  pub get-run :
      (laws : DatabaseLaws database) (s : Node database) (es : List Call) (k : String) (v : Bytes)
      → get database (run database s es) k ≡ ok v
      → (get database s k ≡ ok v) ⊎ Origin s es k v
  unfolding get run
  get-run laws s [] k v h = inl h
  get-run laws s (e ∷ es) k v h = elim (get-run laws (step database s e) es k v h) [
    | inr origin ↦ inr (Origin-cons s e es k v origin)
    | inl before ↦ elim (step-get laws s e k v before) [
      | inl old ↦ inl old
      | inr (i, m, key, value, from) ↦ elim from [
        | inl cached ↦ inr (i, m, key, value, inl cached)
        | inr none_proposed ↦ absurd none_proposed
      ]
    ]
  ]
