-- ===== src/Monitor/Log.antt =====
-- What the clauses of the checks say about the log and about the messages in flight
-- (server/TwoPhaseCommitFull.go).
pub mod Actions
pub mod Answers
pub mod Runs
use committer.Prelude.{
  ◌≡◌, refl, ap, ◌∙◌, Bool, true, false, ◌&&◌, String, List, [], ◌∷◌, arith, and-eq_true,
}
use committer.Go.{Go, ok, panic, require, ◌>>=◌, ◌>>◌}
use committer.Tla.{Tla}
use committer.Tla.Ops.{eq}
use committer.Monitor.{State}
use committer.Monitor.Clauses.{
  coordinator, message, sends, receives, consumes, posted, replies, logs,
}
use committer.Monitor.Participant.{answers, moves_to}

-- A computation that returned, and what followed it.
pub bound :
    {A B : Type 0} (m : Go A) {k : A → Go B} {b : B}
    → (m >>= k) ≡ ok b
    → (a : A) × (m ≡ ok a) × (k a ≡ ok b)
bound (ok a) h = (a, refl, h)
bound (panic p) h = cc

-- A clause that held, and the rest of the check.
pub held :
    (b : Bool) (s : String) {k : Go (Unit {0})}
    → (require b s >> k) ≡ ok tt
    → (b ≡ true) × (k ≡ ok tt)
held true s h = (refl, h)
held false s h = cc

-- The last clause of a check.
pub required : (b : Bool) (s : String) → require b s ≡ ok tt → b ≡ true
required true s e = refl
required false s e = cc

-- A step that puts one entry into the log and leaves the messages in flight alone.
pub record Logged (prev this : State) : Type 0 where
  pub entry : List Tla
  pub logged : logs entry prev this ≡ ok true
  pub still : eq this.inflight prev.inflight ≡ true

pub ok-injective : {A : Type 0} {a b : A} → ok a ≡ ok b → a ≡ b
ok-injective h = cc

middle : (a b c : Bool) → (a && b && c) ≡ true → b ≡ true
middle a b c h = ground arith

last_of : (a b c : Bool) → (a && b && c) ≡ true → c ≡ true
last_of a b c h = ground arith

pub sends-still :
    (msg : Tla) (prev this : State)
    → sends msg prev this ≡ ok true
    → eq this.inflight prev.inflight ≡ true
unfolding sends
sends-still msg prev this h =
    let (box, _, h₁) = bound (posted msg prev.outbox) h in
    middle (eq this.outbox box) (eq this.inflight prev.inflight) (eq this.inbox prev.inbox)
      (ok-injective h₁)

pub receives-still :
    (msg : Tla) (prev this : State)
    → receives msg prev this ≡ ok true
    → eq this.inflight prev.inflight ≡ true
unfolding receives
receives-still msg prev this h =
    let (consumed, _, h₁) = bound (consumes msg prev this) h in
    last_of consumed (eq this.outbox prev.outbox) (eq this.inflight prev.inflight) (ok-injective h₁)

pub replies-still :
    (reply msg : Tla) (prev this : State)
    → replies reply msg prev this ≡ ok true
    → eq this.inflight prev.inflight ≡ true
unfolding replies
replies-still reply msg prev this h =
    let (consumed, _, h₁) = bound (consumes msg prev this) h in
    let (box, _, h₂) = bound (posted reply prev.outbox) h₁ in
    last_of consumed (eq this.outbox box) (eq this.inflight prev.inflight) (ok-injective h₂)

answers-still :
    (s reply : String) (r : Tla) (prev this : State)
    → answers s reply r prev this ≡ ok true
    → eq this.inflight prev.inflight ≡ true
unfolding answers
answers-still s reply r prev this h =
    let (moved, _, h₁) = bound (moves_to s r prev this) h in
    let (replied, is, h₂) =
      bound (replies (message reply r coordinator) (message "Prepare" coordinator r) prev this)
        h₁ in
    replies-still (message reply r coordinator) (message "Prepare" coordinator r) prev this
      (is ∙ ap ok (and-eq_true moved replied (ok-injective h₂)).1)

-- The clause of `CheckPHandlePrepare` about the two answers.
abbrev pub vote_clause : Bool → Tla → State → State → Go (Unit {0})
vote_clause yes_vote r prev this = elim yes_vote [
  | Bool.true ↦ ok tt
  | Bool.false ↦ answers "aborted" "Aborted" r prev this >>= λ no_vote.
      require no_vote "PHandlePrepare: Reply(Prepared) or Reply(Aborted)"
]

pub vote-still :
    (yes_vote : Bool) (r : Tla) (prev this : State)
    → answers "prepared" "Prepared" r prev this ≡ ok yes_vote
    → vote_clause yes_vote r prev this ≡ ok tt
    → eq this.inflight prev.inflight ≡ true
vote-still true r prev this is h = answers-still "prepared" "Prepared" r prev this is
vote-still false r prev this is h =
    let (no_vote, is', h₁) = bound (answers "aborted" "Aborted" r prev this) h in
    answers-still "aborted" "Aborted" r prev this (is' ∙ ap ok (required no_vote _ h₁))
