-- ===== src/Cluster/Overlap/Clean/Guarded.antt =====
-- What nodes can hold when calls of `Put` overlap of which some have made all their proposals
-- (server/server.go).
use committer.Prelude.{
  ℕ, ◌+◌, String, Option, none, some, List, [], ◌∷◌, All, inl, inr, Bool-cases, ◌==◌,
}
use committer.Go.{Go, panic}
use committer.Proto.{Bytes, Entry}
use committer.Database.{Database, DatabaseLaws}
use committer.Server.Handlers.{Node}
use committer.Cluster.{Session, Control, continue, exit, crash, out_of_fuel}
use committer.Cluster.Notes.{Log}
use committer.Cluster.Stages.{Loop, log, with_log, propose_turn, precommit_turn, commit_turn}
use committer.Cluster.Put.{begin, persist, finish}
use committer.Cluster.Overlap.{
  Point, called, proposing, precommitting, persisting, committing, finishing, done, after_turn,
  Move, runs, fires, turn_at, Moved, loop_turn, advance, System, view, move, overlap,
}
use committer.Cluster.Overlap.Clean.{Guard, advance-Clean, modify-Clean}
use committer.Cluster.Overlap.Clean.Turns.{Clean}

module _ (database : Database) (Known : String → Bytes → Type 0)
    (laws : DatabaseLaws database) where
  abbrev Guards : Entry → Point → Type 0
  Guards e p = Guard database Known laws e p

  after_turn-Guard :
      (e : Entry) (again next : Point) (c : Control)
      → Guards e again
      → Guards e next
      → Guards e (after_turn again next c)
  after_turn-Guard e again next continue a n = n
  after_turn-Guard e again next out_of_fuel a n = a
  after_turn-Guard e again next (exit r) a n = tt
  after_turn-Guard e again next (crash q) a n = tt

  loop_turn-Guard :
      (e : Entry) (again next over : Point) (s : Session database) (fs : List (Node database))
      (o : Option (Loop database))
      → Guards e again
      → Guards e next
      → Guards e over
      → Guards e (loop_turn database again next over s fs o).0
  unfolding loop_turn
  loop_turn-Guard e again next over s fs none a n v = v
  loop_turn-Guard e again next over s fs (some w) a n v = after_turn-Guard e again next w.0 a n

  -- No turn brings a call back to its proposals.
  advance-Guard :
      (e : Entry) (p : Point) (s : Session database) (fs : List (Node database))
      → Guards e p
      → Guards e (advance database e p s fs).0
  unfolding advance
  advance-Guard e called s fs g = begun (begin (log database s))
    where
      begun :
          (b : Go Log)
          → Guards e
              (elim b as (λ _. Moved database) [
                | panic x ↦ (done (crash x), s, fs)
                | Go.ok l ↦ (proposing 0, with_log database l s, fs)
              ]).0
      begun (panic x) = tt
      begun (Go.ok l) = g
  advance-Guard e (proposing i) s fs g =
      loop_turn-Guard e (proposing i) (proposing (i + 1)) (precommitting 0) s fs
        (turn_at database (propose_turn database 1 e i) i s fs) g g tt
  advance-Guard e (precommitting i) s fs g =
      loop_turn-Guard e (precommitting i) (precommitting (i + 1)) persisting s fs
        (turn_at database (precommit_turn database i) i s fs) tt tt tt
  advance-Guard e persisting s fs g =
      after_turn-Guard e persisting (committing 0) (persist database s fs).0 tt tt
  advance-Guard e (committing i) s fs g =
      loop_turn-Guard e (committing i) (committing (i + 1)) finishing s fs
        (turn_at database (commit_turn database i) i s fs) tt tt tt
  advance-Guard e finishing s fs g =
      after_turn-Guard e finishing finishing (finish database s fs).0 tt tt
  advance-Guard e (done x) s fs g = tt

  -- A system whose nodes are clean, and whose calls that may still propose have known entries.
  pub record Guarded (y : System database) : Type 0 where
    pub near : Clean database Known y.self
    pub far : All (Clean database Known) y.fs
    pub guards : (j : ℕ) → Guard database Known laws (y.flights j).entry (y.flights j).point

  move-Guarded : (y : System database) (m : Move) → Guarded y → Guarded (move database y m)
  unfolding move
  move-Guarded y (fires i t) c = record {
    near = c.near;
    far = modify-Clean database Known laws i t y.fs c.far;
    guards = c.guards;
  }
  move-Guarded y (runs j) c =
      let x = y.flights j in
      let s = view database y.self x in
      let moved =
        advance-Clean database Known laws x.entry x.point s y.fs (c.guards j) (c.near, c.far) in
      record {
        near = moved.0;
        far = moved.1;
        guards = λ i. elim (Bool-cases (i == j)) [
          | inl same ↦ rw same (advance-Guard x.entry x.point s y.fs (c.guards j))
          | inr other ↦ rw other (c.guards i)
        ];
      }

  -- The relation is kept by any turns and timeouts.
  pub overlap-Guarded :
      (y : System database) (ms : List Move) → Guarded y → Guarded (overlap database y ms)
  unfolding overlap
  overlap-Guarded y [] c = c
  overlap-Guarded y (m ∷ ms) c = overlap-Guarded (move database y m) ms (move-Guarded y m c)
