-- ===== src/Cluster/Overlap/Clean/Turns.antt =====
-- What the turns of `Put` leave at both sides of a predicate on keys and values (server/server.go).
use committer.Prelude.{
  ℕ, zero, suc, ◌≡◌, inl, inr, sym, subst, Bool, true, false, String, Option, none, some, [], ◌∷◌,
  Bool-cases, ltb, ◌==◌,
}
use committer.Go.{Go, ok, panic}
use committer.Proto.{Bytes, Entry, Response, Error, nack, answer}
use committer.Cache.{Msg, get-set}
use committer.Cache
use committer.Database
use committer.Database.{Database, DatabaseLaws, Result, err}
use committer.Server.Handlers.{Node, is_ack}
use committer.Server.Events.{Call, proposes, precommits, commits, timeout, step, Proposed}
use committer.Server.Integrity.{step-get, step-Caches}
use committer.Cluster.{Session, continue, exit, Called, Handler, call}
use committer.Cluster.Calls.{call-Transmits}
use committer.Cluster.Notes.{
  Log, note_propose, note_prepared, note_aborted, note_commit, note_committed,
}
use committer.Cluster.Rounds.{asks, choose, round, propose_turn-suc, propose_turn-zero}
use committer.Cluster.Stages.{
  Turn, noted, log, with_log, propose_request, catch_up, cache_entry, confirm, vote, propose_call,
  propose_turn, answered, precommit_turn, commit_turn, commit_request,
}
use committer.Cluster.Loops.{answered-any}
use committer.Cluster.Commits.{commits as commits_call, precommits as precommits_call, note_end}

module _ (database : Database) (Known : String → Bytes → Type 0) where
  -- A node that reads and has cached only known pairs.
  pub record Clean (n : Node database) : Type 0 where
    pub reads : (k : String) (v : Bytes) → database.get n.db k ≡ Database.ok v → Known k v
    pub cached : (i : ℕ) (m : Msg) → Cache.get n.node_cache i ≡ some m → Known m.key m.value

  -- What a call proposes is known.
  abbrev pub Proposes : Call → Type 0
  Proposes (proposes req) = Known req.key req.value
  Proposes (precommits req) = Unit
  Proposes (commits md req) = Unit
  Proposes (timeout i) = Unit

  pub step-Clean :
      (laws : DatabaseLaws database) (n : Node database) (c : Call)
      → Proposes c
      → Clean n
      → Clean (step database n c)
  step-Clean laws n c known clean = record {
    reads = λ k v h. elim (step-get database laws n c k v h) [
      | inl old ↦ clean.reads k v old
      | inr (i, m, key, value, inl there) ↦
          subst (λ x. Known x v) key (subst (Known m.key) value (clean.cached i m there))
      | inr (i, m, key, value, inr never) ↦ absurd never
    ];
    cached = λ i m h. elim (step-Caches database n c i m h) [
      | inl old ↦ clean.cached i m old
      | inr new ↦ from c known i m new
    ];
  }
    where
      from :
          (c : Call) → Proposes c → (i : ℕ) (m : Msg) → Proposed (c ∷ []) i m → Known m.key m.value
      from (proposes req) known i m (inl (at, same)) = rw same known
      from (proposes req) known i m (inr never) = absurd never
      from (precommits req) known i m never = absurd never
      from (commits md req) known i m never = absurd never
      from (timeout j) known i m never = absurd never

  abbrev pub Both : Session database → Node database → Type 0
  Both s f = Clean s.self × Clean f

  abbrev BothTurn : Turn database → Type 0
  BothTurn w = Both w.1 w.2

  -- The node with another monitor or another height.
  with_log-Clean :
      (l : Log) (s : Session database) → Clean s.self → Clean (with_log database l s).self
  with_log-Clean l s c = record { reads = c.reads; cached = c.cached }

  noted-Both :
      (g : Go Log) (s : Session database) (f : Node database) (k : Session database → Turn database)
      → Both s f
      → ((t : Session database) → Both t f → BothTurn (k t))
      → BothTurn (noted database g s f k)
  noted-Both (ok l) s f k b rest = rest (with_log database l s) (with_log-Clean l s b.0, b.1)
  noted-Both (panic p) s f k b rest = b

  call-Both :
      (s : Session database) (f : Node database) (handler : Handler database)
      → (Clean f → Clean (handler f).1)
      → Both s f
      → let c = call database s f handler in Both c.1 c.2
  call-Both s f handler keeps (near, far) =
      let t = call-Transmits database s f handler in
      (
        subst Clean (sym t.same_self) near,
        elim t.far_side [
          | inl same ↦ subst Clean (sym same) far
          | inr ran ↦ subst Clean (sym ran) (keeps far)
        ],
      )

  catch_up-Clean :
      (r : Option Response) (s : Session database)
      → Clean s.self
      → Clean (catch_up database r s).self
  unfolding catch_up
  catch_up-Clean none s c = c
  catch_up-Clean (some r) s c = elim (Bool-cases (ltb s.self.height r.index)) [
    | inl higher ↦ rw higher (record { reads = c.reads; cached = c.cached })
    | inr level ↦ rw level c
  ]

  cache_entry-Clean :
      (e : Entry) (s : Session database)
      → Known e.key e.value
      → Clean s.self
      → Clean (cache_entry database e s).self
  cache_entry-Clean e s known c = record {
    reads = c.reads;
    cached = λ i m h. elim (Bool-cases (i == s.self.height)) [
      | inl here ↦
          let same : some (record { key = e.key; value = e.value }) ≡ some m =
            rw (get-set, here) at h in
          let msg : record { key = e.key; value = e.value } ≡ m = cc same in
          subst (λ (x : Msg). Known x.key x.value) msg known
      | inr other ↦ c.cached i m (rw (get-set, other) at h)
    ];
  }

  confirm-Both :
      (pid : ℕ) (b : Bool) (s : Session database) (f : Node database)
      → Both s f
      → BothTurn (confirm database pid b s f)
  unfolding confirm
  confirm-Both pid false s f b = b
  confirm-Both pid true s f b =
      noted-Both (note_prepared pid (log database s)) s f (λ t. (continue, t, f)) b (λ t b'. b')

  vote-Both :
      (pid : ℕ) (e : Entry) (x : Option Error) (r : Option Response) (s : Session database)
      (f : Node database)
      → Known e.key e.value
      → Both s f
      → BothTurn (vote database pid e x r s f)
  unfolding vote
  vote-Both pid e (some x) r s f known b =
      noted-Both (note_aborted pid (log database s)) s f (λ t. (exit (answer nack 0), t, f)) b
        (λ t b'. b')
  vote-Both pid e none r s f known (near, far) =
      confirm-Both pid (is_ack r) (cache_entry database e s) f
        (cache_entry-Clean e s known near, far)

  module _ (laws : DatabaseLaws database) where
    propose_call-Both :
        (e : Entry) (s : Session database) (f : Node database)
        → Known e.key e.value
        → Both s f
        → let c = propose_call database e s f in Both c.1 c.2
    unfolding propose_call propose_request step
    propose_call-Both e s f known b =
        let c = call database s f (asks database e s) in
        let (near, far) =
          call-Both s f (asks database e s)
            (λ clean. step-Clean laws f (proposes (propose_request database s e)) known clean) b in
        (catch_up-Clean c.0.response c.1 near, far)

    choose-Both :
        (pid fuel : ℕ) (e : Entry) (c : Called database) (b : Bool)
        → Known e.key e.value
        → ((t : Session database) (g : Node database)
            → Both t g
            → BothTurn (propose_turn database fuel e pid t g))
        → Both c.1 c.2
        → BothTurn (choose database pid fuel e c b)
    unfolding choose
    choose-Both pid fuel e c true known rest both =
        vote-Both pid e c.0.error c.0.response c.1 c.2 known both
    choose-Both pid fuel e c false known rest both = rest c.1 c.2 both

    pub propose_turn-Both :
        (fuel pid : ℕ) (e : Entry) (s : Session database) (f : Node database)
        → Known e.key e.value
        → Both s f
        → BothTurn (propose_turn database fuel e pid s f)
    unfolding round
    propose_turn-Both zero pid e s f known b = rw (propose_turn-zero database pid e s f) b
    propose_turn-Both (suc fuel) pid e s f known b = rw (propose_turn-suc database fuel pid e s f) (
        noted-Both (note_propose pid (log database s)) s f (round database pid fuel e f) b (λ t b'.
          let c = propose_call database e t f in
          choose-Both pid fuel e c (is_ack c.0.response) known
            (λ u g b''. propose_turn-Both fuel pid e u g known b'')
            (propose_call-Both e t f known b')))

    pub precommit_turn-Both :
        (pid : ℕ) (s : Session database) (f : Node database)
        → Both s f
        → BothTurn (precommit_turn database pid s f)
    unfolding precommit_turn step
    precommit_turn-Both pid s f b =
        let c = call database s f (precommits_call database s) in
        let b' =
          call-Both s f (precommits_call database s)
            (λ clean. step-Clean laws f (precommits (record { index = s.self.height })) tt clean)
            b in
        answered-any database BothTurn c.0.error c.0.response c.1 c.2 (λ t g. (continue, t, g))
          (λ _. b') b'

    pub commit_turn-Both :
        (pid : ℕ) (s : Session database) (f : Node database)
        → Both s f
        → BothTurn (commit_turn database pid s f)
    unfolding commit_turn note_end step
    commit_turn-Both pid s f b =
        noted-Both (note_commit pid (log database s)) s f
          (λ t.
            let c = call database t f (commits_call database t) in
            answered database c.0.error c.0.response c.1 c.2 (note_end database pid))
          b
          (λ t b'.
            let c = call database t f (commits_call database t) in
            let b'' =
              call-Both t f (commits_call database t)
                (λ clean.
                  step-Clean laws f (commits (some []) (commit_request database t)) tt clean)
                b' in
            answered-any database BothTurn c.0.error c.0.response c.1 c.2 (note_end database pid)
              (λ _. b'')
              (noted-Both (note_committed pid (log database c.1)) c.1 c.2 (λ v. (continue, v, c.2))
                b'' (λ v b'''. b''')))
