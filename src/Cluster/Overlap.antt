-- ===== src/Cluster/Overlap.antt =====
-- Calls of `Put` that overlap (server/server.go). gRPC serves each call in a goroutine of its own and
-- `Put` takes no lock, so the calls share the coordinator and its followers turn by turn. A step is
-- one turn of one call; what a turn does between two calls of followers is not divided further.
pub mod Clean
pub mod Alone
pub mod Lost
pub mod Forgotten
pub mod Rejected
pub mod Mixed
use committer.Prelude.{
  ℕ, zero, suc, ◌+◌, Bool, false, Option, none, some, List, [], ◌∷◌, ◌==◌, if◌then◌else◌,
}
use committer.Go.{Go, ok, panic}
use committer.Proto.{Entry}
use committer.Monitor.{State}
use committer.Refine.{starting}
use committer.Database.{Database}
use committer.Server.Handlers.{Node}
use committer.Server.Events
use committer.Server.Events.{timeout}
use committer.Server.Interceptor.{Peer}
use committer.Cluster.{Session, Fate, Control, continue, exit, crash, out_of_fuel}
use committer.Cluster.Stages.{Turn, Loop, log, with_log, propose_turn, precommit_turn, commit_turn}
use committer.Cluster.Put.{begin, persist, finish}

-- Where a call of `Put` stands; the number is that of the next follower.
pub data Point : Type 0 where
  called : Point
  proposing precommitting : ℕ → Point
  persisting : Point
  committing : ℕ → Point
  finishing : Point
  done : Control → Point

-- A call of `Put` and what is its own: the variable `gs` and the context.
pub record Flight : Type 0 where
  pub entry : Entry
  pub point : Point
  pub gs : State
  pub net : List Fate
  pub expired : Bool
  pub seen_as : Peer

abbrev pub after_turn : (again next : Point) → Control → Point
after_turn again next continue = next
after_turn again next out_of_fuel = again
after_turn again next (exit r) = done (exit r)
after_turn again next (crash p) = done (crash p)

-- What comes next: a turn of the call with a number, or the timeout of a follower's goroutine.
pub data Move : Type 0 where
  runs : ℕ → Move
  fires : (follower index : ℕ) → Move

module _ (database : Database) where
  -- A turn at the follower with the number `i`, if there is one.
  unfoldable pub turn_at :
      (Session database → Node database → Turn database)
      → ℕ
      → Session database
      → List (Node database)
      → Option (Loop database)
  turn_at body i s [] = none
  turn_at body zero s (f ∷ fs) = let (c, t, g) = body s f in some (c, t, g ∷ fs)
  turn_at body (suc i) s (f ∷ fs) = elim (turn_at body i s fs) [
    | none ↦ none
    | some (c, t, gs) ↦ some (c, t, f ∷ gs)
  ]

  abbrev pub Moved : Type 0
  Moved = Point × Session database × List (Node database)

  -- The loop goes on after the turn of the follower `i`, and is over if there is no such follower.
  unfoldable pub loop_turn :
      (again next over : Point)
      → Session database
      → List (Node database)
      → Option (Loop database)
      → Moved
  loop_turn again next over s fs none = (over, s, fs)
  loop_turn again next over s fs (some (c, t, gs)) = (after_turn again next c, t, gs)

  unfoldable pub advance : Entry → Point → Session database → List (Node database) → Moved
  unfolding begin turn_at loop_turn propose_turn precommit_turn persist commit_turn finish
  advance e called s fs = elim (begin (log database s)) [
    | panic p ↦ (done (crash p), s, fs)
    | ok l ↦ (proposing 0, with_log database l s, fs)
  ]
  advance e (proposing i) s fs =
      loop_turn (proposing i) (proposing (i + 1)) (precommitting 0) s fs
        (turn_at (propose_turn database 1 e i) i s fs)
  advance e (precommitting i) s fs =
      loop_turn (precommitting i) (precommitting (i + 1)) persisting s fs
        (turn_at (precommit_turn database i) i s fs)
  advance e persisting s fs =
      let (c, t, gs) = persist database s fs in (after_turn persisting (committing 0) c, t, gs)
  advance e (committing i) s fs =
      loop_turn (committing i) (committing (i + 1)) finishing s fs
        (turn_at (commit_turn database i) i s fs)
  advance e finishing s fs =
      let (c, t, gs) = finish database s fs in (after_turn finishing finishing c, t, gs)
  advance e (done c) s fs = (done c, s, fs)

  pub record System : Type 0 where
    pub self : Node database
    pub fs : List (Node database)
    pub flights : ℕ → Flight

  abbrev pub view : Node database → Flight → Session database
  view self x = record {
    self = self;
    gs = x.gs;
    net = x.net;
    expired = x.expired;
    seen_as = x.seen_as;
  }

  abbrev pub landed : Flight → Point → Session database → Flight
  landed x p t = record {
    entry = x.entry;
    point = p;
    gs = t.gs;
    net = t.net;
    expired = t.expired;
    seen_as = t.seen_as;
  }

  unfoldable pub modify :
      (Node database → Node database) → ℕ → List (Node database) → List (Node database)
  modify g i [] = []
  modify g zero (f ∷ fs) = g f ∷ fs
  modify g (suc i) (f ∷ fs) = f ∷ modify g i fs

  unfoldable pub move : System → Move → System
  unfolding advance modify Events.step
  move y (runs j) =
      let x = y.flights j in
      let (p, t, gs) = advance x.entry x.point (view y.self x) y.fs in
      record { self = t.self; fs = gs; flights = λ i. if i == j then landed x p t else y.flights i }
  move y (fires i t) = record y { fs = modify (λ f. Events.step database f (timeout t)) i y.fs }

  unfoldable pub overlap : System → List Move → System
  unfolding move
  overlap y [] = y
  overlap y (m ∷ ms) = overlap (move y m) ms

-- A call of `Put` that has not begun.
abbrev pub flight : Entry → Peer → List Fate → Flight
flight e p net = record {
  entry = e;
  point = called;
  gs = starting;
  net = net;
  expired = false;
  seen_as = p;
}

-- Turns of one call after another.
abbrev pub turns : ℕ → ℕ → List Move
turns j zero = []
turns j (suc n) = runs j ∷ turns j n
