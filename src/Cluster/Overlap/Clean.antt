-- ===== src/Cluster/Overlap/Clean.antt =====
-- What nodes can hold when calls of `Put` overlap (server/server.go).
pub mod Turns
pub mod Guarded
use committer.Prelude.{
  ℕ, zero, suc, ◌+◌, ◌≡◌, refl, sym, ap, subst, true, false, String, Option, none, some, List, [],
  ◌∷◌, All, inl, inr, arith, Option-cases, Bool-cases, ◌==◌, if◌then◌else◌,
}
use committer.Go.{Go, panic}
use committer.Go
use committer.Proto.{Bytes, Entry}
use committer.Monitor.{reset}
use committer.Monitor.Trace.{check_trace}
use committer.Cache.{Msg}
use committer.Cache
use committer.Database
use committer.Database.{Database, DatabaseLaws, Result, err}
use committer.Server.Handlers.{Node}
use committer.Server.Events.{timeout, step}
use committer.Server.Integrity.{put-get}
use committer.Cluster.{Session, exit, crash}
use committer.Cluster.Notes.{Log}
use committer.Cluster.Stages.{Turn, Loop, log, with_log, propose_turn, precommit_turn, commit_turn}
use committer.Cluster.Put.{begin, persist, persist_result, finish}
use committer.Cluster.Loops.{raised, finish-cases}
use committer.Cluster.Overlap.{
  Point, called, proposing, precommitting, persisting, committing, finishing, done, Flight, Move,
  runs, fires, turn_at, Moved, loop_turn, advance, System, view, landed, modify, move, overlap,
}
use committer.Cluster.Overlap.Clean.Turns.{
  Clean, Both, step-Clean, propose_turn-Both, precommit_turn-Both, commit_turn-Both,
}

module _ (database : Database) (Known : String → Bytes → Type 0)
    (laws : DatabaseLaws database) where
  abbrev AllClean : List (Node database) → Type 0
  AllClean fs = All (Clean database Known) fs

  -- The coordinator and the followers.
  abbrev Cleans : Session database → List (Node database) → Type 0
  Cleans s fs = Clean database Known s.self × AllClean fs

  abbrev CleanLoop : Option (Loop database) → Type 0
  CleanLoop none = Unit
  CleanLoop (some w) = Cleans w.1 w.2

  turn_at-Cleans :
      (body : Session database → Node database → Turn database) (i : ℕ) (s : Session database)
      (fs : List (Node database))
      → ((f : Node database)
          → Both database Known s f
          → Both database Known (body s f).1 (body s f).2)
      → Cleans s fs
      → CleanLoop (turn_at database body i s fs)
  unfolding turn_at
  turn_at-Cleans body i s [] turn c = tt
  turn_at-Cleans body zero s (f ∷ fs) turn (near, (far, rest)) =
      let b = turn f (near, far) in (b.0, (b.1, rest))
  turn_at-Cleans body (suc i) s (f ∷ fs) turn (near, (far, rest)) =
      put_back (turn_at database body i s fs) (turn_at-Cleans body i s fs turn (near, rest))
    where
      put_back :
          (o : Option (Loop database))
          → CleanLoop o
          → CleanLoop (elim o as (λ _. Option (Loop database)) [
            | none ↦ none
            | some (c, t, gs) ↦ some (c, t, f ∷ gs)
          ])
      put_back none c = tt
      put_back (some (c, t, gs)) (near', rest') = (near', (far, rest'))

  abbrev CleanMoved : Moved database → Type 0
  CleanMoved w = Cleans w.1 w.2

  loop_turn-Cleans :
      (again next over : Point) (s : Session database) (fs : List (Node database))
      (o : Option (Loop database))
      → Cleans s fs
      → CleanLoop o
      → CleanMoved (loop_turn database again next over s fs o)
  unfolding loop_turn
  loop_turn-Cleans again next over s fs none c c' = c
  loop_turn-Cleans again next over s fs (some w) c c' = c'

  persist_result-Clean :
      (s : Session database) (fs : List (Node database)) (m : Msg) (r : Result database.State)
      → Known m.key m.value
      → database.put s.self.db m.key m.value ≡ r
      → Cleans s fs
      → let w = persist_result database r s fs in Cleans w.1 w.2
  unfolding persist_result
  persist_result-Clean s fs m (err x) known wrote c = c
  persist_result-Clean s fs m (Database.ok d) known wrote (near, far) = (
    record {
      reads = λ k v h. elim (put-get database laws s.self.db d m k v wrote h) [
        | inl old ↦ near.reads k v old
        | inr (key, value) ↦ subst (λ x. Known x v) key (subst (Known m.key) value known)
      ];
      cached = near.cached;
    },
    far,
  )

  persist-Clean :
      (s : Session database) (fs : List (Node database))
      → Cleans s fs
      → let w = persist database s fs in Cleans w.1 w.2
  unfolding persist
  persist-Clean s fs c = elim (Option-cases (Cache.get s.self.node_cache s.self.height)) [
    | inl missing ↦ rw (missing, persist) c
    | inr (m, found) ↦
        rw (found, persist)
          (persist_result-Clean s fs m (database.put s.self.db m.key m.value)
            (c.0.cached s.self.height m found) refl c)
  ]

  finish-Clean :
      (s : Session database) (fs : List (Node database))
      → Cleans s fs
      → let w = finish database s fs in Cleans w.1 w.2
  finish-Clean s fs c =
      let near : Clean database Known (raised database s).self = record {
        reads = c.0.reads;
        cached = c.0.cached;
      } in
      elim (finish-cases database s fs) [
        | inl (p, stopped) ↦ rw stopped (near, c.1)
        | inr acked ↦ rw acked (record { reads = c.0.reads; cached = c.0.cached }, c.1)
      ]

  -- A call that may still propose its entry has a known one.
  abbrev pub Guard : Entry → Point → Type 0
  Guard e called = Known e.key e.value
  Guard e (proposing i) = Known e.key e.value
  Guard e _ = Unit

  Known-Guard : (e : Entry) (p : Point) → Known e.key e.value → Guard e p
  Known-Guard e called known = known
  Known-Guard e (proposing i) known = known
  Known-Guard e (precommitting i) known = tt
  Known-Guard e persisting known = tt
  Known-Guard e (committing i) known = tt
  Known-Guard e finishing known = tt
  Known-Guard e (done c) known = tt

  advance-Clean :
      (e : Entry) (p : Point) (s : Session database) (fs : List (Node database))
      → Guard e p
      → Cleans s fs
      → CleanMoved (advance database e p s fs)
  unfolding advance
  advance-Clean e called s fs known c = begun (begin (log database s))
    where
      begun :
          (g : Go Log)
          → CleanMoved (elim g as (λ _. Moved database) [
            | panic p ↦ (done (crash p), s, fs)
            | Go.ok l ↦ (proposing 0, with_log database l s, fs)
          ])
      begun (panic p) = c
      begun (Go.ok l) = (record { reads = c.0.reads; cached = c.0.cached }, c.1)
  advance-Clean e (proposing i) s fs known c =
      loop_turn-Cleans _ _ _ s fs (turn_at database (propose_turn database 1 e i) i s fs) c (
        turn_at-Cleans (propose_turn database 1 e i) i s fs
          (λ f b. propose_turn-Both database Known laws 1 i e s f known b) c)
  advance-Clean e (precommitting i) s fs known c =
      loop_turn-Cleans _ _ _ s fs (turn_at database (precommit_turn database i) i s fs) c (
        turn_at-Cleans (precommit_turn database i) i s fs
          (λ f b. precommit_turn-Both database Known laws i s f b) c)
  advance-Clean e persisting s fs known c = persist-Clean s fs c
  advance-Clean e (committing i) s fs known c =
      loop_turn-Cleans _ _ _ s fs (turn_at database (commit_turn database i) i s fs) c (
        turn_at-Cleans (commit_turn database i) i s fs
          (λ f b. commit_turn-Both database Known laws i s f b) c)
  advance-Clean e finishing s fs known c = finish-Clean s fs c
  advance-Clean e (done x) s fs known c = c

  modify-Clean :
      (i t : ℕ) (fs : List (Node database))
      → AllClean fs
      → AllClean (modify database (λ f. step database f (timeout t)) i fs)
  unfolding modify
  modify-Clean i t [] c = c
  modify-Clean zero t (f ∷ fs) (far, rest) =
      (step-Clean database Known laws f (timeout t) tt far, rest)
  modify-Clean (suc i) t (f ∷ fs) (far, rest) = (far, modify-Clean i t fs rest)

  -- A system whose nodes are clean and whose calls have known entries.
  pub record CleanSystem (y : System database) : Type 0 where
    pub near : Clean database Known y.self
    pub far : All (Clean database Known) y.fs
    pub known : (j : ℕ) → Known (y.flights j).entry.key (y.flights j).entry.value

  move-CleanSystem :
      (y : System database) (m : Move) → CleanSystem y → CleanSystem (move database y m)
  unfolding move
  move-CleanSystem y (fires i t) c = record {
    near = c.near;
    far = modify-Clean i t y.fs c.far;
    known = c.known;
  }
  move-CleanSystem y (runs j) c =
      let x = y.flights j in
      let w = advance database x.entry x.point (view database y.self x) y.fs in
      let moved =
        advance-Clean x.entry x.point (view database y.self x) y.fs
          (Known-Guard x.entry x.point (c.known j)) (c.near, c.far) in
      record {
        near = moved.0;
        far = moved.1;
        known = λ i. elim (Bool-cases (i == j)) [
          | inl same ↦ rw same (c.known j)
          | inr other ↦ rw other (c.known i)
        ];
      }

  -- Integrity where calls overlap. Over a database that reads back what it wrote and leaves other keys
  -- alone, and for any relation between keys and values: if it holds for everything that the nodes
  -- read and have cached and for the entries of all calls of `Put`, then it holds for everything that
  -- they read and have cached after any number of turns of any of these calls and of timeouts of the
  -- followers, in any order and whatever the network does. So no overlap makes a node read a value
  -- under a key for which it was not put.
  pub overlap-CleanSystem :
      (y : System database) (ms : List Move) → CleanSystem y → CleanSystem (overlap database y ms)
  unfolding overlap
  overlap-CleanSystem y [] c = c
  overlap-CleanSystem y (m ∷ ms) c =
      overlap-CleanSystem (move database y m) ms (move-CleanSystem y m c)
