-- ===== src/Client/Gets.antt =====
-- What clients read from a cluster once the example client has finished (peer/peer.go,
-- examples/client/client.go).
use committer.Prelude.{
  ℕ, ◌+◌, ◌%◌, ◌^◌, ◌≡◌, ◌<◌, refl, sym, ap, subst, ◌∙◌, true, String, List, [], ◌∷◌, All, length,
}
use mathlib.Core.List.{Memᴰ}
use mathlib.Core.List.Memᴰ
use committer.Tla.{ℤ}
use committer.Config.{includes}
use committer.Database.{Database, DatabaseLaws, Result, ok}
use committer.Server.Handlers.{Node, get, node_info}
use committer.Server.Interceptor.{host, white_list_checker}
use committer.Cluster.Replicas.{View, InSync}
use committer.Setup.{World}
use committer.Client.{
  Round, carried, finished, rounds_of, nth_entry, refusal, ask, client_get, client_info,
  client_main,
}
use committer.Client.Loads.{Loaded, client_main-Loaded}

module _ (database : Database) where
  -- A call from a listed host, which the network carries, gets its answer.
  ask-listed :
      {A : Type 0} (a : String) (n : Node database) (answer : Result A)
      → includes n.config.whitelist a ≡ true
      → ask database carried (host a) n answer ≡ answer
  unfolding ask refusal white_list_checker
  ask-listed a n answer listed = rw (listed, ask, refusal, white_list_checker) refl

  mem_all :
      (P : Node database → Type 0) (ns : List (Node database)) (n : Node database)
      → Memᴰ n ns
      → All P ns
      → P n
  mem_all P (x ∷ xs) n (Memᴰ.head same) all = subst P (sym same) all.0
  mem_all P (x ∷ xs) n (Memᴰ.tail m) all = mem_all P xs n m all.1
  mem_all P [] n m all = absurd (Memᴰ.not-nil m)

  -- What the example client has put can be got back from every node. Over a database that reads back
  -- what it wrote and leaves other keys alone: if the coordinator and its followers, of which there
  -- is at least one, are at one height below 2^64 and answer every read as one store, and the
  -- example client prints its time, then a client whose host a node lists and whose calls are carried
  -- gets from that node, under the key of each round, the value of the round, and from `NodeInfo` the
  -- height that is up by the number of rounds (mod 2^64).
  pub client_get-client_main :
      (laws : DatabaseLaws database) (world : World database) (fuel h : ℕ) (v : View)
      (rounds : ℕ → Round) (requests : ℤ) (self : Node database) (fs : List (Node database))
      → 0 < length fs
      → h < 2 ^ 64
      → InSync database h v self
      → All (InSync database h v) fs
      → (client_main database world fuel rounds requests self fs).0 ≡ finished
      → let w = client_main database world fuel rounds requests self fs in
        (a : String) (n : Node database) (i : ℕ)
        → Memᴰ n (w.1 ∷ w.2)
        → includes n.config.whitelist a ≡ true
        → i < rounds_of requests
        → (client_get database carried (host a) n (nth_entry i).key ≡ ok (nth_entry i).value)
          × (client_info database carried (host a) n ≡ ok ((h + rounds_of requests) % 2 ^ 64))
  unfolding client_get client_info node_info
  client_get-client_main laws world fuel h v rounds requests self fs some_follower bounded here
        there went a n i member listed lt =
      let w = client_main database world fuel rounds requests self fs in
      let (mine, theirs) =
        client_main-Loaded database laws world fuel h v rounds requests self fs some_follower
          bounded here there went in
      let l =
        mem_all (Loaded database h (rounds_of requests) v) (w.1 ∷ w.2) n member (mine, theirs) in
      (
        ask-listed a n (get database n (nth_entry i).key) listed ∙ l.stored i lt,
        ask-listed a n (ok n.height) listed ∙ ap ok l.level,
      )
