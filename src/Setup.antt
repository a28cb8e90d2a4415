-- ===== src/Setup.antt =====
-- How a node is made: `NewCommitServer` and its options (server/server.go), the hooks (hooks/), the
-- clients of the followers (peer/peer.go) and the tracer (trace/trace.go). What zipkin, gRPC and
-- Badger answer is a parameter.
pub mod Built
pub mod Service
pub mod Lifetime
use committer.Prelude.{
  ℕ, zero, suc, ◌+◌, Bool, true, String, Option, none, some, List, [], ◌∷◌, ◌++◌, str_eq,
  if◌then◌else◌,
}
use Prim.Native.String.{◌++◌ as ◌<>◌}
use committer.Proto.{Error, ProposeRequest, CommitRequest, no_database, wrap}
use committer.Config.{Config, Flags}
use committer.Config
use committer.Cache.{Cache, new}
use committer.Database.{Database, Result, ok, err}
use committer.Monitor.{Monitor, new_monitor}
use committer.Server.{Server}

infixl 5 ◌>>=◌
abbrev pub ◌>>=◌ : {A B : Type 0} → Result A → (A → Result B) → Result B
err reason >>= next = err reason
ok result >>= next = next result

-- `errors.Wrap(err, text)` of an error that is there.
abbrev pub or_wrap : {A : Type 0} → String → Result A → Result A
or_wrap text (ok a) = ok a
or_wrap text (err e) = err (wrap text e)

-- The libraries that a node is made with.
pub record World (database : Database) : Type 1 where
  pub Endpoint : Type 0
  pub Tracer : Type 0
  pub Connection : Type 0
  pub new_endpoint : String → String → Result Endpoint
  pub new_tracer : Endpoint → Result Tracer
  pub grpc_dial : String → Option Tracer → Result Connection
  pub badger_open : String → Result (database.State)

-- The hooks of hooks/src/hooks.go, which log and consent.
unfoldable pub src_propose : ProposeRequest → Bool
src_propose req = true

unfoldable pub src_commit : CommitRequest → Bool
src_commit req = true

-- A coordinator's configuration names its own address.
unfoldable pub own_config : Config → String → Config
own_config conf addr =
    if str_eq conf.role "coordinator" then record conf { coordinator = addr } else conf

module _ (database : Database) (world : World database) where
  open world use {Tracer, Connection, new_endpoint, new_tracer, grpc_dial, badger_open}

  -- `trace.Tracer`
  unfoldable pub tracer : String → String → Result Tracer
  tracer service_name host_port = do
    endpoint ← or_wrap "unable to create local endpoint" (new_endpoint service_name host_port)
    or_wrap "unable to create tracer" (new_tracer endpoint)

  pub record CommitClient : Type 0 where
    pub connection : Connection
    pub tracer : Option Tracer

  -- `peer.New`
  unfoldable pub new_client : String → Option Tracer → Result CommitClient
  new_client addr t = do
    conn ← or_wrap "failed to connect" (grpc_dial addr t)
    ok (record { connection = conn; tracer = t })

  -- `db.New`
  unfoldable pub new_db : String → Result (database.State)
  new_db path = badger_open path

  -- A server that is being made; a field that is nil is `none`.
  pub record Draft : Type 0 where
    pub addr : String
    pub db_path : String
    pub config : Option Config
    pub db : Option (database.State)
    pub propose_hook : Option (ProposeRequest → Bool)
    pub commit_hook : Option (CommitRequest → Bool)
    pub tracer : Option Tracer
    pub followers : List CommitClient
    pub m_parts : List ℕ
    pub node_cache : Option Cache
    pub monitor : Option Monitor

  -- `Option` of the source.
  abbrev pub Setting : Type 0
  Setting = Draft → Result Draft

  -- The two options that `hooks.Get` returns.
  unfoldable pub propose_setting : (ProposeRequest → Bool) → Setting
  propose_setting f d = ok (record d { propose_hook = some f })

  unfoldable pub commit_setting : (CommitRequest → Bool) → Setting
  commit_setting f d = ok (record d { commit_hook = some f })

  unfoldable pub hooks_get : List Setting
  unfolding propose_setting commit_setting src_propose src_commit
  hooks_get = propose_setting src_propose ∷ commit_setting src_commit ∷ []

  unfoldable pub with_badger_db : String → Setting
  unfolding new_db
  with_badger_db path d = do state ← new_db path; ok (record d { db = some state })

  unfoldable pub apply_settings : List Setting → Draft → Result Draft
  apply_settings [] d = ok d
  apply_settings (option ∷ opts) d = option d >>= λ d'. apply_settings opts d'

  unfoldable pub trace_setting : Config → Setting
  unfolding tracer
  trace_setting conf d = elim conf.with_trace [
    | Bool.true ↦ do
      t ← tracer (conf.role <> ":" <> conf.nodeaddr) conf.nodeaddr
      ok (record d { tracer = some t })
    | Bool.false ↦ ok d
  ]

  -- `for pid, node := range conf.Followers`
  unfoldable pub connect : ℕ → List String → Draft → Result Draft
  unfolding new_client
  connect pid [] d = ok d
  connect pid (node ∷ nodes) d = new_client node d.tracer >>= λ cli.
      connect (pid + 1) nodes
        (record d { m_parts = d.m_parts ++ pid ∷ []; followers = d.followers ++ cli ∷ [] })

  unfoldable pub check_server_fields : Draft → Result (Unit {0})
  check_server_fields d = elim d.db [ none ↦ err no_database | some _ ↦ ok tt ]

  abbrev pub blank : Config → Draft
  blank conf = record {
    addr = conf.nodeaddr;
    db_path = conf.db_path;
    config = none;
    db = none;
    propose_hook = none;
    commit_hook = none;
    tracer = none;
    followers = [];
    m_parts = [];
    node_cache = none;
    monitor = none;
  }

  -- The last lines of `NewCommitServer`, from the database that it has opened.
  unfoldable pub finish_server : Config → Draft → database.State → Result Draft
  unfolding own_config check_server_fields new_monitor new
  finish_server conf d state = do
    let server : Draft = record d {
      config = some (own_config conf d.addr);
      monitor = some new_monitor;
      db = some state;
      node_cache = some new;
    }
    checked ← check_server_fields server
    ok server

  unfoldable pub open_server : Config → Draft → Result Draft
  unfolding new_db finish_server
  open_server conf connected = new_db conf.db_path >>= finish_server conf connected

  unfoldable pub connect_server : Config → Draft → Result Draft
  unfolding connect open_server
  connect_server conf traced = connect 0 conf.followers traced >>= open_server conf

  unfoldable pub trace_server : Config → Draft → Result Draft
  unfolding trace_setting connect_server
  trace_server conf drafted = trace_setting conf drafted >>= connect_server conf

  unfoldable pub new_commit_server : Config → List Setting → Result Draft
  unfolding apply_settings trace_server
  new_commit_server conf opts = apply_settings opts (blank conf) >>= trace_server conf

  -- The server that `main` makes of the command line.
  unfoldable pub main_server : Flags → Result Draft
  unfolding new_commit_server hooks_get Config.get
  main_server flags = new_commit_server (Config.get flags) hooks_get

  abbrev finished :
      String
      → Option Config
      → Option (database.State)
      → Option (ProposeRequest → Bool)
      → Option (CommitRequest → Bool)
      → Option Cache
      → Option Monitor
      → Option (Server (database.State))
  finished addr (some conf) (some state) (some proposes) (some commits) (some store) (some m) =
      some (record {
        addr = addr;
        config = conf;
        db = state;
        propose_hook = proposes;
        commit_hook = commits;
        node_cache = store;
        height = 0;
        cancel_commit_on_height = λ _. none;
        monitor = m;
        timers = [];
      })
  finished _ _ _ _ _ _ _ = none

  -- The node of a finished server; a field that is nil would panic when it is used.
  unfoldable pub node_of : Draft → Option (Server (database.State))
  node_of d = finished d.addr d.config d.db d.propose_hook d.commit_hook d.node_cache d.monitor
