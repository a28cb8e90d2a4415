-- ===== src/Server/Interceptor.antt =====
-- `WhiteListChecker` (server/interceptors.go), which stands before every handler of a node.
use committer.Prelude.{ℕ, ◌+◌, Bool, true, false, String, if◌then◌else◌, str_eq}
use committer.Config.{includes}
use committer.Proto.{Reply, Error, no_peer, permission_denied, fails, other}
use committer.Database.{Database}
use committer.Server.Handlers.{Node}

-- What `peer.FromContext` and `net.SplitHostPort` find in the context of a call.
pub data Peer : Type 0 where
  unknown : Peer
  bad_address : Error → Peer
  host : String → Peer

module _ (database : Database) where
  unfoldable pub white_list_checker :
      Peer → Node database → (Node database → Reply × Node database) → Reply × Node database
  unfolding includes
  white_list_checker unknown s handler = (fails no_peer, s)
  white_list_checker (bad_address e) s handler = (fails e, s)
  white_list_checker (host h) s handler =
      if includes s.config.whitelist h then handler s else (fails permission_denied, s)

-- A handler that starts after so many milliseconds, with what it then does to the node as it is.
module _ (database : Database) where
  abbrev pub Delayed : Type 0
  Delayed = ℕ × (Node database → Reply × Node database)

  -- The two interceptors of the tests, which hold a Precommit back for ten seconds: at every node,
  -- and at the coordinator. `registered` says whether the interceptor is installed at a `Server`.
  unfoldable pub precommit_block_all : String → Delayed → Delayed
  precommit_block_all full_method (wait, handler) =
      (if str_eq full_method "/schema.Commit/Precommit" then wait + 10000 else wait, handler)

  unfoldable pub precommit_block_coordinator :
      (registered : Bool) → String → String → Delayed → Delayed
  unfolding precommit_block_all
  precommit_block_coordinator false role full_method (wait, handler) =
      (wait, λ n. (fails (other "failed to assert interface to Server type"), n))
  precommit_block_coordinator true role full_method d =
      if str_eq role "coordinator" then precommit_block_all full_method d else d
