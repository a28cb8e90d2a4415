-- ===== src/Server/Heights.antt =====
-- The height of a node through any sequence of calls and timeouts (server/server.go).
use committer.Prelude.{
  ℕ, ◌+◌, ◌%◌, ◌^◌, ◌<◌, ◌≡◌, inl, inr, refl, true, false, List, [], ◌∷◌, arith, Bool-cases,
  if◌then◌else◌,
}
use committer.Database.{Database}
use committer.Server.Handlers.{Node, Metadata, acknowledges, commit}
use committer.Server.Commit.{commit_outcome, autocommit-eq_self}
use committer.Server.Node.{is_three_phase}
use committer.Server.Events.{Call, proposes, precommits, commits, timeout, step, run, waiting}
use committer.Proto.{CommitRequest}

module _ (database : Database) where
  -- The height is a uint64, and goroutines wait only in the three-phase mode.
  pub record IsValid (s : Node database) : Type 0 where
    pub bounded : s.height < 2 ^ 64
    pub quiet : is_three_phase s.config ≡ false → s.timers ≡ []

  -- Whether a call is a commit that the node acknowledges.
  unfoldable pub acks : Node database → Call → ℕ
  unfolding commit acknowledges
  acks s (commits md req) = if acknowledges (commit database md s req).0 then 1 else 0
  acks s (proposes req) = 0
  acks s (precommits req) = 0
  acks s (timeout i) = 0

  -- The commits that a node acknowledges in a sequence of calls.
  unfoldable pub acked : Node database → List Call → ℕ
  unfolding step acks
  acked s [] = 0
  acked s (e ∷ es) = acks s e + acked (step database s e) es

  commit-config :
      (md : Metadata) (s : Node database) (req : CommitRequest)
      → ((commit database md s req).1.config ≡ s.config)
        × ((commit database md s req).1.timers ≡ s.timers)
  unfolding commit
  commit-config md s req = ground arith

  commit-height :
      (md : Metadata) (s : Node database) (req : CommitRequest)
      → s.height < 2 ^ 64
      → (commit database md s req).1.height
        ≡ (s.height + (if acknowledges (commit database md s req).0 then 1 else 0)) % 2 ^ 64
  unfolding acknowledges
  commit-height md s req h = elim (commit_outcome database md s req) [
    | inr (refused, _, same) ↦ rw (same, refused) (omega arith)
    | inl (m, _, _, _, raised, reply) ↦ rw (reply, raised) refl
  ]

  timeout-eq_self :
      (i : ℕ) (s : Node database)
      → IsValid s
      → ((step database s (timeout i)).height ≡ s.height)
        × ((step database s (timeout i)).config ≡ s.config)
        × (is_three_phase s.config ≡ false → (step database s (timeout i)).timers ≡ [])
  unfolding step
  timeout-eq_self i s v = elim (Bool-cases (waiting i s.timers)) [
    | inr gone ↦ rw gone (refl, refl, v.quiet)
    | inl there ↦ rw there (elim (Bool-cases (is_three_phase s.config)) [
      | inl three ↦ rw (autocommit-eq_self database i s three) (refl, refl, λ two. cc)
      | inr two ↦ absurd (idle (v.quiet two) there)
    ])
  ]
    where
      idle : s.timers ≡ [] → waiting i s.timers ≡ true → ⊥
      idle empty there = cc (rw empty at there)

  step-height :
      (s : Node database) (e : Call)
      → IsValid s
      → (step database s e).height ≡ (s.height + acks s e) % 2 ^ 64
  unfolding step acks
  step-height s (proposes req) v = ground (arith, v.bounded)
  step-height s (precommits req) v = ground (arith, v.bounded)
  step-height s (commits md req) v = commit-height md s req v.bounded
  step-height s (timeout i) v =
      let (same, _, _) = timeout-eq_self i s v in let b = v.bounded in rw same (omega arith)

  step-IsValid : (s : Node database) (e : Call) → IsValid s → IsValid (step database s e)
  unfolding step
  step-IsValid s (proposes req) v = ground arith
  step-IsValid s (precommits req) v = ground arith
  step-IsValid s (commits md req) v =
      let (config, timers) = commit-config md s req in
      record {
        bounded = rw (commit-height md s req v.bounded) (omega arith);
        quiet = λ two. rw timers (v.quiet (rw config at two));
      }
  step-IsValid s (timeout i) v =
      let (height, config, timers) = timeout-eq_self i s v in
      record { bounded = rw height v.bounded; quiet = λ two. timers (rw config at two) }

  -- The height counts the commits. From a valid node (a height below 2^64, no goroutine waiting in
  -- the two-phase mode), any sequence of proposals, precommits, commits and timeouts leads to a
  -- valid node, whose height is the old one plus the number of commits that the node has
  -- acknowledged, mod 2^64. `Put`, with which a coordinator also raises its height, is not among the
  -- calls.
  pub run-IsValid :
      (s : Node database) (es : List Call)
      → IsValid s
      → IsValid (run database s es)
        × ((run database s es).height ≡ (s.height + acked s es) % 2 ^ 64)
  unfolding run acked
  run-IsValid s [] v = (v, (let b = v.bounded in omega arith))
  run-IsValid s (e ∷ es) v =
      let (v', counted) = run-IsValid (step database s e) es (step-IsValid s e v) in
      (v', omega (arith, counted, step-height s e v))
