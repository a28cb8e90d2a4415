-- ===== src/Examples/Startup.antt =====
-- The theorems about what `main` makes, at a coordinator of two followers.
use committer.Prelude.{◌≡◌, ◌≢◌, List, refl, true, false, String, none, some, [], ◌∷◌, All, length}
use committer.Cache.{new}
use committer.Config.{Flags, default_flags, get}
use committer.Database.{ok, in_memory}
use committer.Monitor.{new_monitor}
use committer.Server.Handlers.{Node}
use committer.Server.Interceptor.{host}
use committer.Cluster.History.{Request, serve, NoPanic}
use committer.Setup.{
  World, Draft, main_server, node_of, new_commit_server, with_badger_db, src_propose, src_commit,
}
use committer.Setup.Built.{Ready, main_server-Ready, new_commit_server-db}
use committer.Go.{nil_dereference}
use committer.Setup.Lifetime.Puts.{outcome, puts_served, main_program-ne-crashed}
use committer.Setup.Lifetime.{Host, Ends, stopped, crashed, main_program, main_program-Ends}
use committer.Setup.Service.{main_server-NoPanic}
use committer.Examples.{node, entry}

-- Libraries for which everything succeeds.
abbrev world : World in_memory
world = record {
  Endpoint = String;
  Tracer = String;
  Connection = String;
  new_endpoint = λ name at. ok at;
  new_tracer = λ e. ok e;
  grpc_dial = λ addr t. ok addr;
  badger_open = λ path. ok (λ _. none);
}

abbrev flags : Flags
flags = record default_flags {
  role = "coordinator";
  nodeaddr = "localhost:3000";
  followers = "localhost:3001,localhost:3002";
  withtrace = true;
}

abbrev made : Draft in_memory world
made = record {
  addr = "localhost:3000";
  db_path = "./badger";
  config = some (record (get flags) { coordinator = "localhost:3000" });
  db = some (λ _. none);
  propose_hook = some src_propose;
  commit_hook = some src_commit;
  tracer = some "localhost:3000";
  followers =
      record { connection = "localhost:3001"; tracer = some "localhost:3000" }
      ∷ record { connection = "localhost:3002"; tracer = some "localhost:3000" }
      ∷ [];
  m_parts = 0 ∷ 1 ∷ [];
  node_cache = some new;
  monitor = some new_monitor;
}

abbrev made_node : Node in_memory
made_node = record {
  addr = "localhost:3000";
  config = record (get flags) { coordinator = "localhost:3000" };
  db = λ _. none;
  propose_hook = src_propose;
  commit_hook = src_commit;
  node_cache = new;
  height = 0;
  cancel_commit_on_height = λ _. none;
  monitor = new_monitor;
  timers = [];
}

made_by_main : main_server in_memory world flags ≡ ok made
unfolding main_server
made_by_main = refl

node_of_made : node_of in_memory world made ≡ some made_node
unfolding node_of
node_of_made = refl

two_configured : length (get flags).followers ≡ 2
unfolding get
two_configured = refl

main_server-Ready_example : Ready in_memory world (get flags) made
main_server-Ready_example = main_server-Ready in_memory world flags made made_by_main

abbrev first_put : Request
first_put = record { entry = entry; net = []; expired = false; seen_as = host "127.0.0.1" }

main_server-NoPanic_example : All (NoPanic in_memory) (
    serve in_memory 1
      (first_put ∷ first_put ∷ [])
      made_node
      (node "three-phase" true 0 ∷ node "three-phase" true 0 ∷ []))
main_server-NoPanic_example =
    main_server-NoPanic in_memory world flags made made_node made_by_main node_of_made
      two_configured (node "three-phase" true 0 ∷ node "three-phase" true 0 ∷ []) refl 1
      (first_put ∷ first_put ∷ [])

abbrev elsewhere : Draft in_memory world
elsewhere = record made { propose_hook = none; commit_hook = none }

made_elsewhere :
    new_commit_server in_memory world (get flags) (with_badger_db in_memory world "/data" ∷ [])
    ≡ ok elsewhere
unfolding new_commit_server with_badger_db get
made_elsewhere = refl

new_commit_server-db_example :
    (state : in_memory.State) × (world.badger_open "./badger" ≡ ok state)
    × (elsewhere.db ≡ some state)
new_commit_server-db_example =
    new_commit_server-db in_memory world (get flags) (with_badger_db in_memory world "/data" ∷ [])
      elsewhere made_elsewhere

abbrev two_nodes : List (Node in_memory)
two_nodes = node "three-phase" true 0 ∷ node "three-phase" true 0 ∷ []

-- A host that listens on every address and serves two calls of `Put`, and whose database closes
-- without an error.
abbrev quiet_host : Host in_memory
quiet_host = record {
  Listener = String;
  listen = λ addr. ok addr;
  badger_close = λ d. none;
  served = λ l n. puts_served in_memory world 1 (first_put ∷ first_put ∷ []) two_nodes n;
}

main_program-Ends_example :
    Ends in_memory world quiet_host flags (main_program in_memory world quiet_host flags)
main_program-Ends_example = main_program-Ends in_memory world quiet_host flags

main_program-ne-crashed_example :
    main_program in_memory world quiet_host flags ≢ crashed nil_dereference
main_program-ne-crashed_example =
    main_program-ne-crashed in_memory world quiet_host flags 1 (first_put ∷ first_put ∷ [])
      two_nodes nil_dereference two_configured refl (λ l n. refl)

main_program_stops : main_program in_memory world quiet_host flags ≡ stopped none
unfolding main_program outcome get new_monitor serve
main_program_stops = refl
