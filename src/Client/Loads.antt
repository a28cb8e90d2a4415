-- ===== src/Client/Loads.antt =====
-- What a cluster holds once the client has finished (examples/client/client.go).
use committer.Prelude.{
  ℕ, zero, suc, ◌+◌, ◌%◌, ◌^◌, ◌≡◌, ◌≢◌, ◌<◌, refl, sym, ap, subst, ◌∙◌, true, String, Option, none,
  some, List, [], ◌∷◌, All, u64_succ, arith, length,
}
use committer.Proto.{Reply, Entry, Error, ack, answer, fails, unavailable}
use committer.Tla.{ℤ}
use committer.Database.{Database, DatabaseLaws, Result, ok, err}
use committer.Server.Handlers.{Node, get, acknowledges}
use committer.Cluster.{Session, exit}
use committer.Cluster.Put.{put}
use committer.Cluster.History.{session_of}
use committer.Cluster.Replies.{put-exit}
use committer.Cluster.Replicas.{View, write, InSync, put-InSync}
use committer.Cluster.Replicas.Lengths.{put-length_same}
use committer.Setup.{World, CommitClient, tracer, new_client}
use committer.Client.{
  Line, carried, call_lost, answer_lost, Round, request, End, finished, failed, heard, judge,
  not_acknowledged, waiting, rounds_of, nth_entry, Served, refusal, guarded_put, client_put,
  client_loop, client_main,
}
use committer.Client.Reads.{
  written, written-nth_entry, written-ne, heard-finished, heard-lost, below_zero,
}

module _ (database : Database) where
  -- The nodes as one store, at a height.
  abbrev Agree : ℕ → View → ℕ → Node database → List (Node database) → Type 0
  Agree h v n self fs = InSync database h v self × All (InSync database h v) fs × (length fs ≡ n)

  put-Agree :
      (laws : DatabaseLaws database) (fuel h n : ℕ) (v : View) (e : Entry) (s : Session database)
      (fs : List (Node database))
      → 0 < n
      → Agree h v n s.self fs
      → (put database fuel e s fs).0 ≡ exit (answer ack 0)
      → let w = put database fuel e s fs in Agree (u64_succ h) (write e v) n w.1.self w.2
  put-Agree laws fuel h n v e s [] some_follower (here, there, count) acked =
      absurd (below_zero 0 (subst (λ k. 0 < k) (sym count) some_follower))
  put-Agree laws fuel h n v e s (f ∷ fs) some_follower (here, there, count) acked =
      let (here', there') = put-InSync database laws fuel h v e s f fs here there acked in
      (here', there', put-length_same database fuel e s (f ∷ fs) ∙ count)

  guarded_put-Agree :
      (laws : DatabaseLaws database) (fuel h n : ℕ) (v : View) (e : Entry) (r : Round)
      (self : Node database) (fs : List (Node database)) (q : Reply)
      → 0 < n
      → Agree h v n self fs
      → (guarded_put database fuel e r self fs).0 ≡ exit q
      → acknowledges q ≡ true
      → let w = guarded_put database fuel e r self fs in Agree (u64_succ h) (write e v) n w.1 w.2
  unfolding guarded_put acknowledges
  guarded_put-Agree laws fuel h n v e r self fs q some_follower agree =
      checked (refusal database r.client self)
    where
      checked :
          (x : Option Error)
          → let w = put database fuel e (session_of database (request r e) self) fs in
            let u = elim x as (λ _. Served database) [
              | some refused ↦ (exit (fails refused), self, fs)
              | none ↦ (w.0, w.1.self, w.2)
            ] in
            u.0 ≡ exit q → acknowledges q ≡ true → Agree (u64_succ h) (write e v) n u.1 u.2
      checked (some refused) = λ same good. cc (same, good)
      checked none = λ same good.
          let s = session_of database (request r e) self in
          put-Agree laws fuel h n v e s fs some_follower agree
            (same ∙ ap exit (put-exit database q good fuel e s fs same))

  client_put-Agree :
      (laws : DatabaseLaws database) (fuel h n : ℕ) (v : View) (e : Entry) (r : Round)
      (self : Node database) (fs : List (Node database))
      → 0 < n
      → Agree h v n self fs
      → judge (client_put database fuel e r self fs).0 ≡ finished
      → let w = client_put database fuel e r self fs in Agree (u64_succ h) (write e v) n w.1 w.2
  unfolding client_put judge
  client_put-Agree laws fuel h n v e r self fs some_follower agree = over r.line
    where
      over :
          (l : Line)
          → let w = guarded_put database fuel e r self fs in
            let u = elim l as (λ _. Served database) [
              | Line.call_lost ↦ (exit (fails unavailable), self, fs)
              | Line.carried ↦ (heard carried w.0, w.1, w.2)
              | Line.answer_lost ↦ (heard answer_lost w.0, w.1, w.2)
            ] in
            judge u.0 ≡ finished → Agree (u64_succ h) (write e v) n u.1 u.2
      over call_lost = λ went. cc went
      over answer_lost = λ went. absurd (heard-lost (guarded_put database fuel e r self fs).0 went)
      over carried = λ went.
          let (q, same, good) = heard-finished (guarded_put database fuel e r self fs).0 went in
          guarded_put-Agree laws fuel h n v e r self fs q some_follower agree same good

  client_loop-Agree :
      (laws : DatabaseLaws database) (fuel h n : ℕ) (v : View) (rounds : ℕ → Round) (left i : ℕ)
      (self : Node database) (fs : List (Node database))
      → 0 < n
      → Agree ((h + i) % 2 ^ 64) (written i v) n self fs
      → (client_loop database fuel rounds left i self fs).0 ≡ finished
      → let w = client_loop database fuel rounds left i self fs in
        Agree ((h + (i + left)) % 2 ^ 64) (written (i + left) v) n w.1 w.2
  unfolding client_loop
  client_loop-Agree laws fuel h n v rounds zero i self fs some_follower agree went =
      let total : i ≡ i + 0 = omega arith in
      subst (λ j. Agree ((h + j) % 2 ^ 64) (written j v) n self fs) total agree
  client_loop-Agree laws fuel h n v rounds (suc left) i self fs some_follower agree went =
      let w = client_put database fuel (nth_entry i) (rounds i) self fs in
      let onward =
        client_put-Agree laws fuel ((h + i) % 2 ^ 64) n (written i v) (nth_entry i) (rounds i) self
          fs some_follower agree in
      judged w (judge w.0) onward refl
        (λ agree' went'.
          client_loop-Agree laws fuel h n v rounds left (i + 1) w.1 w.2 some_follower agree' went')
        went
    where
      judged :
          (w : Served database) (d : End)
          → (judge w.0 ≡ finished
              → Agree (u64_succ ((h + i) % 2 ^ 64)) (written (suc i) v) n w.1 w.2)
          → judge w.0 ≡ d
          → (let rest = client_loop database fuel rounds left (i + 1) w.1 w.2 in
              Agree ((h + (i + 1)) % 2 ^ 64) (written (i + 1) v) n w.1 w.2
              → rest.0 ≡ finished
              → Agree ((h + (i + 1 + left)) % 2 ^ 64) (written (i + 1 + left) v) n rest.1 rest.2)
          → let rest = client_loop database fuel rounds left (i + 1) w.1 w.2 in
            let u = elim d as (λ _. End × Node database × List (Node database)) [
              | finished ↦ rest
              | e ↦ (e, w.1, w.2)
            ] in
            u.0 ≡ finished
            → Agree ((h + (i + suc left)) % 2 ^ 64) (written (i + suc left) v) n u.1 u.2
      judged w finished now same later went =
          let rest = client_loop database fuel rounds left (i + 1) w.1 w.2 in
          let level : u64_succ ((h + i) % 2 ^ 64) ≡ (h + (i + 1)) % 2 ^ 64 = omega arith in
          let round : suc i ≡ i + 1 = omega arith in
          let total : i + 1 + left ≡ i + suc left = omega arith in
          subst (λ j. Agree ((h + j) % 2 ^ 64) (written j v) n rest.1 rest.2) total
            (later
              (subst (λ k. Agree k (written (i + 1) v) n w.1 w.2) level
                (subst (λ j. Agree (u64_succ ((h + i) % 2 ^ 64)) (written j v) n w.1 w.2) round
                  (now same)))
              went)
      judged w not_acknowledged now same later went = cc went
      judged w waiting now same later went = cc went
      judged w (failed x) now same later went = cc went

  -- What the client leaves at a node: the height, the value of each round under the round's key, and
  -- under every other key what was read there before.
  pub record Loaded (h n : ℕ) (v : View) (node : Node database) : Type 0 where
    pub level : node.height ≡ (h + n) % 2 ^ 64
    pub stored : (i : ℕ) → i < n → get database node (nth_entry i).key ≡ ok (nth_entry i).value
    pub kept : (k : String) → ((i : ℕ) → i < n → k ≢ (nth_entry i).key) → get database node k ≡ v k

  InSync-Loaded :
      (h n : ℕ) (v : View) (node : Node database)
      → InSync database ((h + n) % 2 ^ 64) (written n v) node
      → Loaded h n v node
  InSync-Loaded h n v node s = record {
    level = s.level;
    stored = λ i lt. s.reads (nth_entry i).key ∙ written-nth_entry n i v lt;
    kept = λ k other. s.reads k ∙ written-ne n k v other;
  }

  All-Loaded :
      (h n : ℕ) (v : View) (fs : List (Node database))
      → All (InSync database ((h + n) % 2 ^ 64) (written n v)) fs
      → All (Loaded h n v) fs
  All-Loaded h n v [] all = tt
  All-Loaded h n v (f ∷ fs) (s, all) = (InSync-Loaded h n v f s, All-Loaded h n v fs all)

  -- The client loads the whole cluster. Over a database that reads back what it wrote and leaves
  -- other keys alone: if the coordinator and its followers, of which there is at least one, are at
  -- one height below 2^64 and answer every read as one store, and the client prints its time, then
  -- whatever the network did every node is up by one height for each round (mod 2^64), reads the
  -- value "req<i>" under "key<i>" for each round i, and reads under every other key what it read
  -- before.
  pub client_main-Loaded :
      (laws : DatabaseLaws database) (world : World database) (fuel h : ℕ) (v : View)
      (rounds : ℕ → Round) (requests : ℤ) (self : Node database) (fs : List (Node database))
      → 0 < length fs
      → h < 2 ^ 64
      → InSync database h v self
      → All (InSync database h v) fs
      → (client_main database world fuel rounds requests self fs).0 ≡ finished
      → let w = client_main database world fuel rounds requests self fs in
        Loaded h (rounds_of requests) v w.1 × All (Loaded h (rounds_of requests) v) w.2
  unfolding client_main
  client_main-Loaded laws world fuel h v rounds requests self fs some_follower bounded here there =
      traced (tracer database world "client" "localhost:3000")
    where
      n : ℕ
      n = rounds_of requests

      Final : End × Node database × List (Node database) → Type 0
      Final w = w.0 ≡ finished → Loaded h n v w.1 × All (Loaded h n v) w.2

      looped : Final (client_loop database fuel rounds n 0 self fs)
      looped went =
          let start : h ≡ (h + 0) % 2 ^ 64 = omega (arith, bounded) in
          let (here', there', _) =
            client_loop-Agree laws fuel h (length fs) v rounds n 0 self fs some_follower
              (subst (λ k. Agree k v (length fs) self fs) start (here, there, refl)) went in
          let w = client_loop database fuel rounds n 0 self fs in
          let total : 0 + n ≡ n = omega arith in
          (
            InSync-Loaded h n v w.1
                (subst (λ j. InSync database ((h + j) % 2 ^ 64) (written j v) w.1) total here'),
            All-Loaded h n v w.2 (
                subst (λ j. All (InSync database ((h + j) % 2 ^ 64) (written j v)) w.2) total
                  there'),
          )

      connected :
          (c : Result (CommitClient database world))
          → Final (elim c as (λ _. End × Node database × List (Node database)) [
            | err x ↦ (failed x, self, fs)
            | ok cli ↦ client_loop database fuel rounds n 0 self fs
          ])
      connected (err x) = λ went. cc went
      connected (ok cli) = looped

      traced :
          (t : Result world.Tracer)
          → Final (elim t as (λ _. End × Node database × List (Node database)) [
            | err x ↦ (failed x, self, fs)
            | ok t ↦ elim (new_client database world "localhost:3000" (some t)) [
              | err x ↦ (failed x, self, fs)
              | ok cli ↦ client_loop database fuel rounds n 0 self fs
            ]
          ])
      traced (err x) = λ went. cc went
      traced (ok t) = connected (new_client database world "localhost:3000" (some t))
