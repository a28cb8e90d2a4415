-- ===== src/Cluster/Overlap/Alone.antt =====
-- A call of `Put` that runs alone, turn by turn and as a whole (server/server.go).
pub mod Loops
pub mod Parts
use committer.Prelude.{
  ℕ, zero, suc, ◌+◌, ◌≡◌, ◌≢◌, ◌⊎◌, inl, inr, refl, sym, ap, ◌∙◌, subst, List, [], ◌∷◌, ◌++◌,
  length, Bool, true, false, ◌==◌, if◌then◌else◌, arith,
}
use committer.Go.{Go, panic}
use committer.Go
use committer.Proto.{Entry}
use committer.Database.{Database}
use committer.Server.Handlers.{Node, is_ack}
use committer.Cluster.{Session, Control, continue, exit, crash, out_of_fuel, Called}
use committer.Cluster.Notes.{Log, note_propose}
use committer.Cluster.Rounds.{choose, round, propose_turn-zero, propose_turn-suc}
use committer.Cluster.Stages.{
  Turn, Loop, noted, log, with_log, propose_call, for_followers, propose_turn, precommit_turn,
  commit_turn,
}
use committer.Cluster.Put.{begin, chain, persist, finish, rest_of_put, put}
use committer.Cluster.Loops.{finish-cases, raised, settled_session}
use committer.Cluster.Overlap.{
  Point, called, proposing, precommitting, persisting, committing, finishing, done, after_turn,
  turn_at, Moved, loop_turn, advance, System, view, move, runs, overlap, turns,
}
use committer.Cluster.Overlap.Alone.Loops.{
  leads, after_turn-eq-leads, go, Runs, Runs-refl, Runs-step, Runs-trans, step-Runs,
  for_followers-Runs,
}
use committer.Cluster.Overlap.Alone.Parts.{put-Runs}

module _ (database : Database) where
  -- The call with the number `j` of a system, as it stands.
  record Shows (y : System database) (j : ℕ) (e : Entry) (x : Moved database) : Type 0 where
    entry : (y.flights j).entry ≡ e
    point : (y.flights j).point ≡ x.0
    session : view database y.self (y.flights j) ≡ x.1
    followers : y.fs ≡ x.2

  move-Shows :
      (y : System database) (j : ℕ) (e : Entry) (x : Moved database)
      → Shows y j e x
      → Shows (move database y (runs j)) j e (advance database e x.0 x.1 x.2)
  unfolding move
  move-Shows y j e x sh =
      let z = y.flights j in
      let same : advance database z.entry z.point (view database y.self z) y.fs
          ≡ advance database e x.0 x.1 x.2 =
        rw (sh.entry, sh.point, sh.session, sh.followers) refl in
      let own : (j == j) ≡ true = ground arith in
      record {
        entry = rw own sh.entry;
        point = rw own (ap (λ (w : Moved database). w.0) same);
        session = rw own (ap (λ (w : Moved database). w.1) same);
        followers = ap (λ (w : Moved database). w.2) same;
      }

  overlap-Shows :
      (n j : ℕ) (y : System database) (e : Entry) (x : Moved database)
      → Shows y j e x
      → Shows (overlap database y (turns j n)) j e (go database e n x)
  unfolding overlap go
  overlap-Shows zero j y e x sh = sh
  overlap-Shows (suc n) j y e x sh =
      overlap-Shows n j (move database y (runs j)) e (advance database e x.0 x.1 x.2)
        (move-Shows y j e x sh)

  -- A call of `Put` that runs alone is `Put`. Among any calls that are at any point, if one that has
  -- not begun takes all the turns, leads after some number of them it has ended as `Put` ends, with
  -- the coordinator and the followers as `Put` leaves them, whatever `Put` does within a number of
  -- rounds that does not run out.
  overlap-put :
      (fuel j : ℕ) (y : System database)
      → let x = y.flights j in
        let w = put database fuel x.entry (view database y.self x) y.fs in
        x.point ≡ called
        → w.0 ≢ out_of_fuel
        → (n : ℕ) × let z = overlap database y (turns j n) in
            ((z.flights j).point ≡ done w.0) × (z.self ≡ w.1.self) × (z.fs ≡ w.2)
  overlap-put fuel j y new some_fuel =
      let x = y.flights j in
      let s = view database y.self x in
      let (n, ended) = put-Runs database x.entry fuel s y.fs some_fuel in
      let sh =
        overlap-Shows n j y x.entry (called, s, y.fs)
          (record { entry = refl; point = new; session = refl; followers = refl }) in
      (
        n,
        (
          sh.point ∙ ap (λ (v : Moved database). v.0) ended,
          ap (λ (t : Session database). t.self)
              (sh.session ∙ ap (λ (v : Moved database). v.1) ended),
          sh.followers ∙ ap (λ (v : Moved database). v.2) ended,
        ),
      )
