-- ===== src/Examples/Replicas.antt =====
-- The theorems about a cluster as one store, at clusters in memory.
use mathlib.Core.List.Memᴰ
use committer.Config.{includes}
use committer.Prelude.{ℕ, ◌≡◌, ◌≢◌, refl, true, false, String, none, List, [], ◌∷◌, All, arith}
use committer.Proto.{ack, answer}
use committer.Tla.{pos}
use committer.Cache
use committer.Database.{ok, in_memory, in_memory-DatabaseLaws}
use committer.Server.Handlers.{Node, get}
use committer.Server.Interceptor.{host}
use committer.Cluster.{exit}
use committer.Cluster.Put.{put}
use committer.Cluster.History.{Request, serve}
use committer.Cluster.Replicas.{View, InSync, Acked, replay, settled, serve-InSync}
use committer.Cluster.Behind.{put-ne-ack}
use committer.Cluster.Behind.Proposals.{NothingAbove}
use committer.Setup.{World}
use committer.Client.{Round, carried, finished, nth_entry, client_get, client_info, client_main}
use committer.Client.Gets.{client_get-client_main}
use committer.Client.Loads.{Loaded, client_main-Loaded}
use committer.Examples.{node, session, entry}

abbrev fresh : Node in_memory
fresh = node "three-phase" true 0

abbrev pair : List (Node in_memory)
pair = fresh ∷ fresh ∷ []

-- What a store reads in which nothing has been written.
abbrev blank_view : View
blank_view k = in_memory.get (λ _. none) k

fresh-InSync : InSync in_memory 0 blank_view fresh
unfolding get
fresh-InSync = record { level = refl; reads = λ k. refl }

abbrev two_requests : List Request
two_requests =
    record { entry = entry; net = []; expired = false; seen_as = host "127.0.0.1" }
    ∷ record {
      entry = record { key = "key2"; value = [] };
      net = [];
      expired = false;
      seen_as = host "127.0.0.1";
    }
    ∷ []

both-Acked : All (Acked in_memory) (serve in_memory 1 two_requests fresh pair)
unfolding serve
both-Acked = (refl, (refl, tt))

serve-InSync_example :
    let nodes = settled in_memory 1 two_requests fresh pair in
    InSync in_memory 2 (replay two_requests blank_view) nodes.0
    × All (InSync in_memory 2 (replay two_requests blank_view)) nodes.1
serve-InSync_example =
    serve-InSync in_memory in_memory-DatabaseLaws 1 0 blank_view two_requests fresh pair
      (omega arith) fresh-InSync (fresh-InSync, (fresh-InSync, tt)) both-Acked

-- The second follower is two heights ahead.
abbrev ahead_pair : List (Node in_memory)
ahead_pair = fresh ∷ node "three-phase" true 2 ∷ []

fresh-NothingAbove : NothingAbove in_memory 0 fresh
unfolding Cache.get
fresh-NothingAbove i above = refl

put-ne-ack_example :
    (put in_memory 2 entry (session "three-phase" 0 []) ahead_pair).0 ≢ exit (answer ack 0)
put-ne-ack_example =
    put-ne-ack in_memory 2 entry (session "three-phase" 0 []) fresh (node "three-phase" true 2) []
      (omega arith) fresh-NothingAbove (omega arith)

-- Libraries for which everything succeeds.
abbrev linked : World in_memory
linked = record {
  Endpoint = String;
  Tracer = String;
  Connection = String;
  new_endpoint = λ name at. ok at;
  new_tracer = λ e. ok e;
  grpc_dial = λ addr t. ok addr;
  badger_open = λ path. ok (λ _. none);
}

abbrev calm : ℕ → Round
calm i = record { line = carried; client = host "127.0.0.1"; net = []; seen_as = host "127.0.0.1" }

client_finished : (client_main in_memory linked 1 calm (pos 2) fresh pair).0 ≡ finished
unfolding client_main
client_finished = refl

client_main-Loaded_example :
    let w = client_main in_memory linked 1 calm (pos 2) fresh pair in
    Loaded in_memory 0 2 blank_view w.1 × All (Loaded in_memory 0 2 blank_view) w.2
client_main-Loaded_example =
    client_main-Loaded in_memory in_memory-DatabaseLaws linked 1 0 blank_view calm (pos 2) fresh
      pair (omega arith) (omega arith) fresh-InSync (fresh-InSync, (fresh-InSync, tt))
      client_finished

-- The second round's value, read from the coordinator.
abbrev loaded : Node in_memory
loaded = (client_main in_memory linked 1 calm (pos 2) fresh pair).1

listed_there : includes loaded.config.whitelist "127.0.0.1" ≡ true
unfolding client_main includes
listed_there = refl

client_get-client_main_example :
    (client_get in_memory carried (host "127.0.0.1") loaded (nth_entry 1).key
      ≡ ok (nth_entry 1).value)
    × (client_info in_memory carried (host "127.0.0.1") loaded ≡ ok 2)
client_get-client_main_example =
    client_get-client_main in_memory in_memory-DatabaseLaws linked 1 0 blank_view calm (pos 2) fresh
      pair (omega arith) (omega arith) fresh-InSync (fresh-InSync, (fresh-InSync, tt))
      client_finished "127.0.0.1" loaded 1 (Memᴰ.head refl) listed_there (omega arith)
