-- ===== src/Cluster/Overlap/Rejected.antt =====
-- Calls of `Put` that overlap at a coordinator whose monitor's trace is rejected (server/server.go).
pub mod Turns
use committer.Prelude.{
  ℕ, zero, suc, ◌+◌, ◌≡◌, ◌≢◌, ◌⊎◌, refl, String, Option, none, some, List, [], ◌∷◌, ◌++◌, ◌==◌,
  inl, inr, false, arith, Bool-cases, Option-cases, if◌then◌else◌,
}
use committer.Go.{Go, Panic, panic, violated}
use committer.Go
use committer.Proto.{Entry, ack, answer}
use committer.Cache.{Msg, Cache, new}
use committer.Cache
use committer.Monitor.{new_monitor, initial}
use committer.Refine.{starting}
use committer.Monitor.Trace.{check_trace}
use committer.Monitor.Rejected.{Rejects, Okay, Okay-bind, Okay-ok}
use committer.Database.{Database, Result, ok, err, in_memory}
use committer.Server.Handlers.{Node}
use committer.Cluster.{Session, Control, continue, exit, crash, out_of_fuel}
use committer.Cluster.Notes.{Log, capture}
use committer.Cluster.Notes.Rejected.{Fails, capture-Fails}
use committer.Cluster.Stages.{Turn, Loop, log, with_log, propose_turn, precommit_turn, commit_turn}
use committer.Cluster.Put.{begin, persist, persist_result, finish}
use committer.Cluster.Exits.{
  acknowledged, propose_turn-ne-exit, precommit_turn-ne-ack, commit_turn-ne-ack, persist-ne-ack,
}
use committer.Cluster.Loops.{raised}
use committer.Cluster.Overlap.{
  Point, called, proposing, precommitting, persisting, committing, finishing, done, after_turn,
  Move, runs, fires, turn_at, Moved, loop_turn, advance, System, view, move, overlap, turns,
}
use committer.Cluster.Overlap.Rejected.Turns.{
  Bad, propose_turn-Bad, precommit_turn-Bad, commit_turn-Bad,
}

begin-Fails : (p : Panic) (l : Log) → Fails p l → Okay (Fails p) (begin l)
unfolding begin
begin-Fails p l h =
    let k = record l { gs = starting } in
    Okay-bind (Fails p) (Fails p) (capture initial [] k) _ (capture-Fails p initial [] k h)
      (λ l' h'. Okay-ok (Fails p) _ h')

module _ (database : Database) (p : Panic) where
  abbrev Unacked : Point → Type 0
  Unacked q = q ≢ done (acknowledged database)

  -- A turn, or a loop, that leaves the trace rejected and does not acknowledge.
  abbrev BadLoop : Option (Loop database) → Type 0
  BadLoop none = Unit
  BadLoop (some w) = Bad database p w.1 × (w.0 ≢ acknowledged database)

  turn_at-BadLoop :
      (body : Session database → Node database → Turn database) (i : ℕ) (s : Session database)
      (fs : List (Node database))
      → ((f : Node database) → Bad database p (body s f).1 × ((body s f).0 ≢ acknowledged database))
      → BadLoop (turn_at database body i s fs)
  unfolding turn_at
  turn_at-BadLoop body i s [] h = tt
  turn_at-BadLoop body zero s (f ∷ fs) h = h f
  turn_at-BadLoop body (suc i) s (f ∷ fs) h =
      put_back (turn_at database body i s fs) (turn_at-BadLoop body i s fs h)
    where
      put_back :
          (o : Option (Loop database))
          → BadLoop o
          → BadLoop (elim o as (λ _. Option (Loop database)) [
            | none ↦ none
            | some (c, t, gs) ↦ some (c, t, f ∷ gs)
          ])
      put_back none c = tt
      put_back (some (c, t, gs)) h = h

  after_turn-Unacked :
      (again next : Point) (c : Control)
      → Unacked again
      → Unacked next
      → c ≢ acknowledged database
      → Unacked (after_turn again next c)
  after_turn-Unacked again next continue a n h = n
  after_turn-Unacked again next out_of_fuel a n h = a
  after_turn-Unacked again next (exit r) a n h = λ same. h (cc same)
  after_turn-Unacked again next (crash q) a n h = λ same. cc same

  abbrev BadMoved : Moved database → Type 0
  BadMoved w = Bad database p w.1 × Unacked w.0

  loop_turn-BadMoved :
      (again next over : Point) (s : Session database) (fs : List (Node database))
      (o : Option (Loop database))
      → Unacked again
      → Unacked next
      → Unacked over
      → Bad database p s
      → BadLoop o
      → BadMoved (loop_turn database again next over s fs o)
  unfolding loop_turn
  loop_turn-BadMoved again next over s fs none a n v h b = (h, v)
  loop_turn-BadMoved again next over s fs (some w) a n v h (h', c) =
      (h', after_turn-Unacked again next w.0 a n c)

  persist_result-Bad :
      (r : Result database.State) (s : Session database) (fs : List (Node database))
      → Bad database p s
      → Bad database p (persist_result database r s fs).1
  unfolding persist_result
  persist_result-Bad (ok d) s fs h = h
  persist_result-Bad (err x) s fs h = h

  persist-Bad :
      (s : Session database) (fs : List (Node database))
      → Bad database p s
      → Bad database p (persist database s fs).1
  unfolding persist
  persist-Bad s fs h = elim (Option-cases (Cache.get s.self.node_cache s.self.height)) [
    | inl missing ↦ rw (missing, persist) h
    | inr (m, found) ↦
        rw (found, persist) (persist_result-Bad (database.put s.self.db m.key m.value) s fs h)
  ]

  finish-panic :
      (s : Session database) (fs : List (Node database))
      → Bad database p s
      → finish database s fs ≡ (crash p, raised database s, fs)
  unfolding finish
  finish-panic s fs h = rw (h, finish) refl

  advance-BadMoved :
      (e : Entry) (q : Point) (s : Session database) (fs : List (Node database))
      → Bad database p s
      → Unacked q
      → BadMoved (advance database e q s fs)
  unfolding advance
  advance-BadMoved e called s fs h u =
      begun (begin (log database s)) (begin-Fails p (log database s) h)
    where
      begun :
          (g : Go Log)
          → Okay (Fails p) g
          → BadMoved (elim g as (λ _. Moved database) [
            | panic x ↦ (done (crash x), s, fs)
            | Go.ok l ↦ (proposing 0, with_log database l s, fs)
          ])
      begun (panic x) o = (h, λ same. cc same)
      begun (Go.ok l) o = (o.result l refl, λ same. cc same)
  advance-BadMoved e (proposing i) s fs h u =
      loop_turn-BadMoved (proposing i) (proposing (i + 1)) (precommitting 0) s fs _
        (λ same. cc same) (λ same. cc same) (λ same. cc same) h
        (turn_at-BadLoop (propose_turn database 1 e i) i s fs (λ f. (
          propose_turn-Bad database p 1 i e s f h,
          propose_turn-ne-exit database (answer ack 0) 1 i e s f,
        )))
  advance-BadMoved e (precommitting i) s fs h u =
      loop_turn-BadMoved (precommitting i) (precommitting (i + 1)) persisting s fs _
        (λ same. cc same) (λ same. cc same) (λ same. cc same) h
        (turn_at-BadLoop (precommit_turn database i) i s fs
          (λ f. (precommit_turn-Bad database p i s f h, precommit_turn-ne-ack database i s f)))
  advance-BadMoved e persisting s fs h u = (
    persist-Bad s fs h,
    after_turn-Unacked persisting (committing 0) (persist database s fs).0 (λ same. cc same)
        (λ same. cc same) (persist-ne-ack database s fs),
  )
  advance-BadMoved e (committing i) s fs h u =
      loop_turn-BadMoved (committing i) (committing (i + 1)) finishing s fs _ (λ same. cc same)
        (λ same. cc same) (λ same. cc same) h
        (turn_at-BadLoop (commit_turn database i) i s fs
          (λ f. (commit_turn-Bad database p i s f h, commit_turn-ne-ack database i s f)))
  advance-BadMoved e finishing s fs h u = rw (finish-panic s fs h) (h, λ same. cc same)
  advance-BadMoved e (done x) s fs h u = (h, u)

  -- A rejected trace, and calls none of which is acknowledged.
  pub record Stuck (y : System database) : Type 0 where
    pub rejects : Rejects p y.self.monitor
    pub unacked : (j : ℕ) → (y.flights j).point ≢ done (exit (answer ack 0))

  move-Stuck : (y : System database) (m : Move) → Stuck y → Stuck (move database y m)
  unfolding move
  move-Stuck y (fires i t) h = record { rejects = h.rejects; unacked = h.unacked }
  move-Stuck y (runs j) h =
      let x = y.flights j in
      let w =
        advance-BadMoved x.entry x.point (view database y.self x) y.fs h.rejects (h.unacked j) in
      record {
        rejects = w.0;
        unacked = λ i. elim (Bool-cases (i == j)) [
          | inl same ↦ rw same w.1
          | inr other ↦ rw other (h.unacked i)
        ];
      }

  -- A rejected trace ends all acknowledgements. If the check of the coordinator's trace panics and
  -- no call of `Put` is acknowledged, then after any number of turns of any calls and of timeouts of
  -- the followers, in any order and whatever the network does, the check panics with the same text
  -- and still no call is acknowledged.
  pub overlap-Stuck :
      (y : System database) (ms : List Move) → Stuck y → Stuck (overlap database y ms)
  unfolding overlap
  overlap-Stuck y [] h = h
  overlap-Stuck y (m ∷ ms) h = overlap-Stuck (move database y m) ms (move-Stuck y m h)
