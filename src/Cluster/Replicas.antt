-- ===== src/Cluster/Replicas.antt =====
-- A cluster as one store (server/server.go): what its nodes answer, next to a function from keys to
-- values that each `Put` changes at one key.
pub mod Lengths
use committer.Prelude.{
  ℕ, suc, ◌≡◌, ◌≢◌, ◌≤◌, ◌<◌, refl, sym, ap, subst, ◌∙◌, String, List, [], ◌∷◌, All, inl, inr,
  Bool-cases, str_eq, eq_iff, if◌then◌else◌, u64_succ, arith, length,
}
use committer.Proto.{Bytes, Entry, ack, answer}
use committer.Database.{Database, DatabaseLaws, Result, ok}
use committer.Server.Handlers.{Node, get}
use committer.Cluster.{Session, Control, continue, exit, crash, out_of_fuel}
use committer.Cluster.Put.{put}
use committer.Cluster.Stages.{Loop}
use committer.Cluster.Commits.{Fact}
use committer.Cluster.History.{Request, session_of, serve}
use committer.Cluster.Stored.{Holding, put-Stored}
use committer.Cluster.Replicas.Lengths.{put-length_same}

-- The abstract store: what is read under each key.
abbrev pub View : Type 0
View = String → Result Bytes

abbrev pub write : Entry → View → View
write e v k = if str_eq k e.key then ok e.value else v k

abbrev pub replay : List Request → View → View
replay [] v = v
replay (q ∷ qs) v = replay qs (write q.entry v)

-- The height after as many commits.
abbrev pub height_after : List Request → ℕ → ℕ
height_after [] h = h
height_after (q ∷ qs) h = height_after qs (u64_succ h)

pub none_below : 0 < 0 → ⊥
none_below h = omega (arith, h)

module _ (database : Database) where
  -- A node at the height `h` that answers every read as the abstract store.
  pub record InSync (h : ℕ) (v : View) (n : Node database) : Type 0 where
    pub level : n.height ≡ h
    pub reads : (k : String) → get database n k ≡ v k

  abbrev Shows : ℕ → View → Fact database
  Shows h v n d = (n ≡ h) × ((k : String) → database.get d k ≡ v k)

  Shows-InSync : (h : ℕ) (v : View) (n : Node database) → Shows h v n.height n.db → InSync h v n
  unfolding get
  Shows-InSync h v n (level, reads) = record { level = level; reads = reads }

  InSync-Shows : (h : ℕ) (v : View) (n : Node database) → InSync h v n → Shows h v n.height n.db
  unfolding get
  InSync-Shows h v n s = (s.level, s.reads)

  All-Shows :
      (h : ℕ) (v : View) (fs : List (Node database))
      → All (InSync h v) fs
      → All (λ n. (n.height ≤ h) × Holding database (Shows h v) n) fs
  All-Shows h v [] all = tt
  All-Shows h v (f ∷ fs) (s, all) =
      ((subst (λ n. n ≤ h) (sym s.level) (omega arith), InSync-Shows h v f s), All-Shows h v fs all)

  All-InSync :
      (h : ℕ) (v : View) (fs : List (Node database))
      → All (Holding database (Shows h v)) fs
      → All (InSync h v) fs
  All-InSync h v [] all = tt
  All-InSync h v (f ∷ fs) (s, all) = (Shows-InSync h v f s, All-InSync h v fs all)

  -- Writing an entry changes what is read at its key only.
  writes-Shows :
      (laws : DatabaseLaws database) (h : ℕ) (v : View) (e : Entry) (n : ℕ) (d d' : database.State)
      → Shows h v n d
      → database.put d e.key e.value ≡ ok d'
      → Shows (u64_succ h) (write e v) (u64_succ n) d'
  writes-Shows laws h v e n d d' (level, reads) put' = (
    ap u64_succ level,
    λ k. elim (Bool-cases (str_eq k e.key)) [
      | inl same ↦ rw same (
          subst (λ j. database.get d' j ≡ ok e.value) (sym ((eq_iff k e.key).0 same))
            (laws.get-put d d' e.key e.value put'))
      | inr other ↦ rw other (
          laws.get-put_ne d d' e.key k e.value put' (λ same. cc (other, (eq_iff k e.key).1 same))
          ∙ reads k)
    ],
  )

  -- One acknowledged `Put` at a cluster that is one store.
  pub put-InSync :
      (laws : DatabaseLaws database) (fuel h : ℕ) (v : View) (e : Entry) (s : Session database)
      (f : Node database) (fs : List (Node database))
      → InSync h v s.self
      → All (InSync h v) (f ∷ fs)
      → (put database fuel e s (f ∷ fs)).0 ≡ exit (answer ack 0)
      → let w = put database fuel e s (f ∷ fs) in
        InSync (u64_succ h) (write e v) w.1.self × All (InSync (u64_succ h) (write e v)) w.2
  put-InSync laws fuel h v e s f fs self all acked =
      let w = put database fuel e s (f ∷ fs) in
      let at : h ≡ s.self.height = sym self.level in
      let (raised, here, there) =
        put-Stored database (Shows h v) (Shows (u64_succ h) (write e v)) fuel e s f fs
          (λ n d d' before put'. writes-Shows laws h v e n d d' before put')
          (InSync-Shows h v s.self self)
          (subst (λ m. All (λ n. (n.height ≤ m) × Holding database (Shows h v) n) (f ∷ fs)) at
            (All-Shows h v (f ∷ fs) all))
          acked in
      (
        Shows-InSync (u64_succ h) (write e v) w.1.self (raised ∙ ap u64_succ self.level, here.1),
        All-InSync (u64_succ h) (write e v) w.2 there,
      )

  -- The nodes once the calls of `Put` have been served, up to the first that does not return.
  unfoldable pub settled :
      ℕ → List Request → Node database → List (Node database) → Node database × List (Node database)
  unfolding put
  settled fuel [] self fs = (self, fs)
  settled fuel (q ∷ qs) self fs =
      let w = put database fuel q.entry (session_of database q self) fs in
      elim w.0 [ exit r ↦ settled fuel qs w.1.self w.2 | _ ↦ (w.1.self, w.2) ]

  abbrev pub Acked : Control → Type 0
  Acked c = c ≡ exit (answer ack 0)

  -- A cluster implements one store. Over a database that reads back what it wrote and leaves other
  -- keys alone: if the coordinator and its followers, of which there is at least one, are at one
  -- height and answer every read as one abstract store, then after any sequence of calls of `Put`
  -- that are all acknowledged, whatever the network did, they are at one height again, one up for
  -- each call (mod 2^64), and answer every read as the abstract store in which the calls have
  -- written their entries one after another.
  pub serve-InSync :
      (laws : DatabaseLaws database) (fuel h : ℕ) (v : View) (qs : List Request)
      (self : Node database) (fs : List (Node database))
      → 0 < length fs
      → InSync h v self
      → All (InSync h v) fs
      → All Acked (serve database fuel qs self fs)
      → let nodes = settled fuel qs self fs in
        InSync (height_after qs h) (replay qs v) nodes.0
        × All (InSync (height_after qs h) (replay qs v)) nodes.1
  unfolding serve settled
  serve-InSync laws fuel h v [] self fs some_follower here there acked = (here, there)
  serve-InSync laws fuel h v (q ∷ qs) self [] some_follower here there acked =
      absurd (none_below some_follower)
  serve-InSync laws fuel h v (q ∷ qs) self (f ∷ fs) some_follower here there acked =
      let s = session_of database q self in
      let w = put database fuel q.entry s (f ∷ fs) in
      let (here', there') = put-InSync laws fuel h v q.entry s f fs here there acked.0 in
      next w acked.0 acked.1 (λ more.
        serve-InSync laws fuel (u64_succ h) (write q.entry v) qs w.1.self w.2
          (subst (λ n. 0 < n) (sym (put-length_same database fuel q.entry s (f ∷ fs)))
            some_follower)
          here' there' more)
    where
      next :
          (w : Loop database)
          → w.0 ≡ exit (answer ack 0)
          → All Acked (elim w.0 as (λ _. List Control) [
            | exit r ↦ serve database fuel qs w.1.self w.2
            | _ ↦ []
          ])
          → (All Acked (serve database fuel qs w.1.self w.2)
              → let nodes = settled fuel qs w.1.self w.2 in
                InSync (height_after qs (u64_succ h)) (replay qs (write q.entry v)) nodes.0
                × All (InSync (height_after qs (u64_succ h)) (replay qs (write q.entry v))) nodes.1)
          → let nodes : Node database × List (Node database) = elim w.0 [
            | exit r ↦ settled fuel qs w.1.self w.2
            | _ ↦ (w.1.self, w.2)
          ] in
            InSync (height_after qs (u64_succ h)) (replay qs (write q.entry v)) nodes.0
            × All (InSync (height_after qs (u64_succ h)) (replay qs (write q.entry v))) nodes.1
      next (exit r, t, gs) e more rest = rest more
      next (continue, t, gs) e more rest = cc e
      next (crash p, t, gs) e more rest = cc e
      next (out_of_fuel, t, gs) e more rest = cc e
