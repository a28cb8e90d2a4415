-- ===== src/Server.antt =====
-- The node (server/server.go, server/committer.go): its state and its handlers. A handler takes the
-- node and gives its reply beside the node after it; locks make each handler one step. Tracing and
-- logging are left out.
pub mod Node
pub mod Handlers
pub mod Timing
pub mod JsonLog
pub mod Interceptor
pub mod Commit
pub mod Propose
pub mod Events
pub mod Heights
pub mod Integrity
use committer.Prelude.{ℕ, Bool, String, Option, List}
use committer.Config.{Config}
use committer.Proto.{ProposeRequest, CommitRequest}
use committer.Cache.{Cache}
use committer.Monitor.{Monitor}

-- `timers` holds the index of each goroutine of `Precommit` that still waits for its timeout.
-- The connections to the followers are the list of followers in committer.Cluster.
pub record Server (D : Type 0) : Type 0 where
  pub addr : String
  pub config : Config
  pub db : D
  pub propose_hook : ProposeRequest → Bool
  pub commit_hook : CommitRequest → Bool
  pub node_cache : Cache
  pub height : ℕ
  pub cancel_commit_on_height : ℕ → Option Bool
  pub monitor : Monitor
  pub timers : List ℕ
