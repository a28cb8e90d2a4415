-- ===== src/Cluster/Agreement.antt =====
-- Where the value of an acknowledged `Put` can be read (server/server.go).
use committer.Prelude.{ℕ, ◌≡◌, ◌≤◌, List, [], ◌∷◌, All, u64_succ}
use committer.Proto.{Entry, ack, answer}
use committer.Database.{Database, DatabaseLaws, ok}
use committer.Server.Handlers.{Node, get}
use committer.Cluster.{Session, exit}
use committer.Cluster.Stages.{Loop}
use committer.Cluster.Put.{put}
use committer.Cluster.Commits.{Fact}
use committer.Cluster.Stored.{Holding, put-Stored}

module _ (database : Database) where
  -- The value of `e` can be read back.
  abbrev pub Has : Entry → Node database → Type 0
  Has e n = get database n e.key ≡ ok e.value

  -- The value is readable everywhere, and the coordinator is one height above `h`.
  abbrev pub Done : ℕ → Entry → Loop database → Type 0
  Done h e w = Has e (w.1.self) × All (Has e) w.2 × (w.1.self.height ≡ u64_succ h)

  abbrev Anything : Fact database
  Anything n d = Unit {0}

  abbrev Readable : Entry → Fact database
  Readable e n d = database.get d e.key ≡ ok e.value

  with_anything :
      (h : ℕ) (fs : List (Node database))
      → All (λ n. n.height ≤ h) fs
      → All (λ n. (n.height ≤ h) × Holding database Anything n) fs
  with_anything h [] all = tt
  with_anything h (f ∷ fs) (le, all) = ((le, tt), with_anything h fs all)

  All-Has :
      (e : Entry) (fs : List (Node database))
      → All (Holding database (Readable e)) fs
      → All (Has e) fs
  unfolding get
  All-Has e [] all = tt
  All-Has e (f ∷ fs) (has, all) = (has, All-Has e fs all)

  -- Agreement. Over a database that reads back what it wrote, and for a coordinator with at least
  -- one follower, none of them ahead of it: whatever the network does to the calls, if `Put`
  -- returns ACK then the value can be read under its key at the coordinator and at every follower,
  -- and the coordinator's height is one more (mod 2^64).
  pub put-Done :
      (laws : DatabaseLaws database) (fuel : ℕ) (e : Entry) (s : Session database)
      (f : Node database) (fs : List (Node database))
      → All (λ n. n.height ≤ s.self.height) (f ∷ fs)
      → (put database fuel e s (f ∷ fs)).0 ≡ exit (answer ack 0)
      → Done s.self.height e (put database fuel e s (f ∷ fs))
  unfolding get
  put-Done laws fuel e s f fs le acked =
      let w = put database fuel e s (f ∷ fs) in
      let (raised, has, all) =
        put-Stored database Anything (Readable e) fuel e s f fs
          (λ n d d' _ put'. laws.get-put d d' e.key e.value put') tt
          (with_anything s.self.height (f ∷ fs) le) acked in
      (has, All-Has e w.2 all, raised)
