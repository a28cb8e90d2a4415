-- ===== src/Setup/Built.antt =====
-- What `NewCommitServer` makes (server/server.go, hooks/).
pub mod Clients
use mathlib.Core.List.{append-nil, append_assoc}
use committer.Prelude.{
  ℕ, ◌+◌, ◌≡◌, refl, sym, ap, subst, ◌++◌, ◌∙◌, true, String, Option, none, some, List, [], ◌∷◌,
  arith, length, length-append,
}
use committer.Config.{Config, Flags, get}
use committer.Monitor.{new_monitor}
use committer.Cache.{new}
use committer.Proto.{ProposeRequest, CommitRequest}
use committer.Database.{Database, Result, ok, err}
use committer.Monitor.Accepted.{IsAccepted}
use committer.Monitor.Trace.{check_trace}
use committer.Server.Handlers.{Node}
use committer.Server.Heights.{IsValid}
use committer.Setup.Built.Clients.{>>=-eq_ok, Dialled, new_client-ok}
use committer.Setup.{
  World, src_propose, src_commit, propose_setting, commit_setting, Draft, Setting, ◌>>=◌, hooks_get,
  apply_settings, trace_setting, connect, own_config, finish_server, open_server, connect_server,
  trace_server, new_commit_server, check_server_fields, main_server, node_of, blank, new_client,
  CommitClient, or_wrap,
}

new_monitor-IsAccepted : IsAccepted new_monitor
unfolding new_monitor check_trace
new_monitor-IsAccepted = record { no_extra = refl; checked = refl }

module _ (database : Database) (world : World database) where
  open_server-ok :
      (conf : Config) (d s : Draft database world)
      → open_server database world conf d ≡ ok s
      → (state : database.State) × (world.badger_open conf.db_path ≡ ok state)
        × (finish_server database world conf d state ≡ ok s)
  unfolding open_server
  open_server-ok conf d s h =
      >>=-eq_ok (world.badger_open conf.db_path) (finish_server database world conf d) s h

  -- What the steps before the database's opening leave alone.
  record Same (d d' : Draft database world) : Type 0 where
    addr : d'.addr ≡ d.addr
    propose_hook : d'.propose_hook ≡ d.propose_hook
    commit_hook : d'.commit_hook ≡ d.commit_hook

  trace_setting-Same :
      (conf : Config) (d d' : Draft database world)
      → trace_setting database world conf d ≡ ok d'
      → Same d d' × (d'.followers ≡ d.followers)
  unfolding trace_setting
  trace_setting-Same conf d d' h = ground arith

  connect-Same :
      (pid : ℕ) (nodes : List String) (d d' : Draft database world)
      → connect database world pid nodes d ≡ ok d'
      → Same d d'
        × (d'.tracer ≡ d.tracer)
        × ((cs : List (CommitClient database world)) × (d'.followers ≡ d.followers ++ cs)
            × Dialled database world d.tracer nodes cs)
  unfolding connect
  connect-Same pid [] d d' h =
      let same : d ≡ d' = cc h in
      (
        record { addr = rw same refl; propose_hook = rw same refl; commit_hook = rw same refl },
        rw same refl,
        ([], rw same (sym (append-nil d'.followers)), tt),
      )
  connect-Same pid (node ∷ nodes) d d' h =
      let (cli, client, rest) = >>=-eq_ok (new_client database world node d.tracer) _ d' h in
      let (dialled, keeps) = new_client-ok database world node d.tracer cli client in
      let (same, tracer, (cs, l, more)) = connect-Same (pid + 1) nodes _ d' rest in
      (
        record {
          addr = same.addr;
          propose_hook = same.propose_hook;
          commit_hook = same.commit_hook;
        },
        tracer,
        (cli ∷ cs, l ∙ append_assoc d.followers (cli ∷ []) cs, (dialled, keeps, more)),
      )

  abbrev completed : Config → Draft database world → database.State → Draft database world
  completed conf d state = record d {
    config = some (own_config conf d.addr);
    monitor = some new_monitor;
    db = some state;
    node_cache = some new;
  }

  finish_server-eq :
      (conf : Config) (d s : Draft database world) (state : database.State)
      → finish_server database world conf d state ≡ ok s
      → s ≡ completed conf d state
  unfolding finish_server check_server_fields
  finish_server-eq conf d s state h = cc

  -- The steps of a construction that succeeds.
  record Steps (conf : Config) (opts : List (Setting database world)) (s : Draft database world)
      : Type 0 where
    drafted : Draft database world
    traced : Draft database world
    connected : Draft database world
    state : database.State
    apply : apply_settings database world opts (blank database world conf) ≡ ok drafted
    trace : trace_setting database world conf drafted ≡ ok traced
    dial : connect database world 0 conf.followers traced ≡ ok connected
    opening : world.badger_open conf.db_path ≡ ok state
    made : s ≡ completed conf connected state

  new_commit_server-Steps :
      (conf : Config) (opts : List (Setting database world)) (s : Draft database world)
      → new_commit_server database world conf opts ≡ ok s
      → Steps conf opts s
  unfolding new_commit_server trace_server connect_server
  new_commit_server-Steps conf opts s h =
      let (d, apply, h₁) =
        >>=-eq_ok (apply_settings database world opts (blank database world conf))
          (trace_server database world conf) s h in
      let (d', trace, h₂) =
        >>=-eq_ok (trace_setting database world conf d) (connect_server database world conf) s h₁ in
      let (c, dial, h₃) =
        >>=-eq_ok (connect database world 0 conf.followers d') (open_server database world conf) s
          h₂ in
      let (state, opening, h₄) = open_server-ok conf c s h₃ in
      record {
        drafted = d;
        traced = d';
        connected = c;
        state = state;
        apply = apply;
        trace = trace;
        dial = dial;
        opening = opening;
        made = finish_server-eq conf c s state h₄;
      }

  -- The database is always the one at the configured path. Whatever the options do (`WithBadgerDB`
  -- included), a server that `NewCommitServer` returns has the database that was opened at
  -- `conf.DBPath`.
  pub new_commit_server-db :
      (conf : Config) (opts : List (Setting database world)) (s : Draft database world)
      → new_commit_server database world conf opts ≡ ok s
      → (state : database.State) × (world.badger_open conf.db_path ≡ ok state) × (s.db ≡ some state)
  new_commit_server-db conf opts s h =
      let made = new_commit_server-Steps conf opts s h in
      (made.state, made.opening, ap (Draft.db) made.made)

  -- A node that is ready to serve.
  pub record Ready (conf : Config) (s : Draft database world) : Type 0 where
    pub node : Node database
    pub usable : node_of database world s ≡ some node
    pub address : s.addr ≡ conf.nodeaddr
    pub opened : world.badger_open conf.db_path ≡ ok node.db
    pub configured : node.config ≡ own_config conf conf.nodeaddr
    pub dialled : Dialled database world s.tracer conf.followers s.followers
    pub valid : IsValid database node
    pub accepted : IsAccepted node.monitor
    pub consenting : (req : ProposeRequest) → node.propose_hook req ≡ true
    pub committing : (req : CommitRequest) → node.commit_hook req ≡ true

  Ready-made :
      (conf : Config) (s c : Draft database world) (state : database.State)
      → world.badger_open conf.db_path ≡ ok state
      → c.addr ≡ conf.nodeaddr
      → c.propose_hook ≡ some src_propose
      → c.commit_hook ≡ some src_commit
      → Dialled database world c.tracer conf.followers c.followers
      → s ≡ completed conf c state
      → Ready conf s
  unfolding node_of src_propose src_commit
  Ready-made conf s c state opening addr proposes commits dialled made = record {
    node = record {
      addr = c.addr;
      config = own_config conf c.addr;
      db = state;
      propose_hook = src_propose;
      commit_hook = src_commit;
      node_cache = new;
      height = 0;
      cancel_commit_on_height = λ _. none;
      monitor = new_monitor;
      timers = [];
    };
    usable = rw (made, proposes, commits) refl;
    address = rw made addr;
    opened = opening;
    configured = rw addr refl;
    dialled = rw made dialled;
    valid = record { bounded = omega arith; quiet = λ two. refl };
    accepted = new_monitor-IsAccepted;
    consenting = λ req. refl;
    committing = λ req. refl;
  }

  -- The draft that the options of `hooks.Get` make.
  Hooked : Config → Draft database world → Type 0
  Hooked conf d =
      (d.addr ≡ conf.nodeaddr)
      × (d.propose_hook ≡ some src_propose)
      × (d.commit_hook ≡ some src_commit)
      × (d.followers ≡ [])

  apply_settings-Hooked :
      (conf : Config) (d : Draft database world)
      → apply_settings database world (hooks_get database world) (blank database world conf) ≡ ok d
      → Hooked conf d
  unfolding apply_settings hooks_get Hooked propose_setting commit_setting
  apply_settings-Hooked conf d h = ground arith

  -- What the program makes at its start can serve. If the configuration of the command line and the
  -- libraries let `main` make a server, then every field that a handler uses is there: the address is
  -- the flags' own, the database
  -- is the one at `conf.DBPath`, there is one client for each configured follower, in their order,
  -- with the connection that dialling its address gave, with the server's tracer, a coordinator's
  -- configuration names the node's own address, the hooks consent to everything, the height is
  -- valid with no goroutine waiting, and the monitor's trace is accepted.
  pub main_server-Ready :
      (flags : Flags) (s : Draft database world)
      → main_server database world flags ≡ ok s
      → Ready (get flags) s
  unfolding main_server Hooked
  main_server-Ready flags s h =
      let steps = new_commit_server-Steps (get flags) (hooks_get database world) s h in
      let (addr, proposes, commits, none_yet) =
        apply_settings-Hooked (get flags) steps.drafted steps.apply in
      let (same, kept) = trace_setting-Same (get flags) steps.drafted steps.traced steps.trace in
      let (same', tracer, (cs, l, dialled)) =
        connect-Same 0 (get flags).followers steps.traced steps.connected steps.dial in
      let clients : steps.connected.followers ≡ cs = l ∙ ap (λ fs. fs ++ cs) (kept ∙ none_yet) in
      Ready-made (get flags) s steps.connected steps.state steps.opening
        (same'.addr ∙ same.addr ∙ addr) (same'.propose_hook ∙ same.propose_hook ∙ proposes)
        (same'.commit_hook ∙ same.commit_hook ∙ commits)
        (subst (λ x. Dialled database world x (get flags).followers steps.connected.followers)
          (sym tracer)
          (subst (Dialled database world steps.traced.tracer (get flags).followers) (sym clients)
            dialled))
        steps.made
