-- ===== src/Examples.antt =====
-- Runs of the model on small clusters, and the theorems at them.
mod Protocol
mod Nodes
mod Startup
mod Histories
mod Replicas
mod Losses
mod Values
mod Slices
mod Overlaps
use committer.Prelude.{ℕ, Bool, true, false, String, none, some, List, [], ◌∷◌}
use committer.Proto.{Entry, ProposeRequest, CommitRequest}
use committer.Cache.{new}
use committer.Config.{Config, Flags, default_flags, get}
use committer.Database.{in_memory}
use committer.Monitor.{new_monitor}
use committer.Refine.{starting}
use committer.Server.{Server}
use committer.Server.Handlers.{Node}
use committer.Server.Interceptor.{host}
use committer.Cluster.{Session, Fate}

-- A node at a height, in a commit mode, with the answer of its propose hook.
abbrev pub node : String → Bool → ℕ → Node in_memory
node mode vote height = record {
  addr = "localhost:3001";
  config = record {
    role = "follower";
    nodeaddr = "localhost:3001";
    coordinator = "localhost:3000";
    followers = "localhost:3001" ∷ [];
    whitelist = "127.0.0.1" ∷ [];
    commit_type = mode;
    timeout = 1000;
    db_path = "/tmp/badger";
    with_trace = false;
  };
  db = λ _. none;
  propose_hook = λ _. vote;
  commit_hook = λ _. true;
  node_cache = record { store = λ _. none };
  height = height;
  cancel_commit_on_height = λ _. none;
  monitor = record { extra = []; events = [] };
  timers = [];
}

abbrev pub session : String → ℕ → List Fate → Session in_memory
session mode height net = record {
  self = node mode true height;
  gs = starting;
  net = net;
  expired = false;
  seen_as = host "127.0.0.1";
}

abbrev pub entry : Entry
entry = record { key = "key1"; value = 118 ∷ 49 ∷ [] }
