-- ===== src/Setup/Lifetime.antt =====
-- The program from its start to its end (main.go, `Run` and `Stop` of server/server.go, `Close` of
-- db/badger.go): the server is made, listens, serves until a signal comes, waits for the calls that
-- are under way, and closes its database.
pub mod Puts
use committer.Prelude.{
  ℕ, ◌≡◌, ◌≢◌, ◌⊎◌, inl, inr, refl, sym, ap, subst, ◌∙◌, String, Option, some, none, List, [], ◌∷◌,
  All, length,
}
use committer.Go.{Panic, nil_dereference}
use committer.Proto.{Error}
use committer.Config.{Flags, get}
use committer.Database.{Database, Result, ok, err}
use committer.Server.Handlers.{Node}
use committer.Cluster.{Control, continue, exit, crash, out_of_fuel}
use committer.Cluster.History.{Request, serve, NoPanic}
use committer.Cluster.Replicas.{settled}
use committer.Setup.{World, Draft, main_server, node_of, hooks_get}
use committer.Setup.Built.{Ready, main_server-Ready, new_commit_server-db}
use committer.Setup.Built.Clients.{Dialled-length}
use committer.Setup.Service.{main_server-NoPanic}

-- What becomes of the calls that are served until the signal comes: all of them return and leave the
-- database as it is then; one panics, which ends the process; or one never returns.
pub data CallsEnd (State : Type 0) : Type 0 where
  drained : State → CallsEnd State
  broken : Panic → CallsEnd State
  pending : CallsEnd State

-- `net.Listen`, Badger's `Close`, and the calls that are served.
pub record Host (database : Database) : Type 1 where
  pub Listener : Type 0
  pub listen : String → Result Listener
  pub badger_close : database.State → Option Error
  pub served : Listener → Node database → CallsEnd database.State

-- How the process ends: by a panic of `main`, by `log.Fatalf`, by a panic of a call, or with what
-- `Close` answered, which is only logged. `waiting`: it does not end, since `Stop` waits for a call.
pub data Ending : Type 0 where
  panicked : Error → Ending
  fatal : Error → Ending
  crashed : Panic → Ending
  waiting : Ending
  stopped : Option Error → Ending

module _ (database : Database) (world : World database) (process : Host database) where
  open process use {Listener, listen, badger_close, served}

  -- `Run`
  unfoldable pub run_server : Draft database world → Result Listener
  run_server s = listen s.addr

  -- A field of the server that is nil would panic when a call uses it.
  unfoldable pub serve_calls : Listener → Option (Node database) → CallsEnd database.State
  serve_calls l none = broken nil_dereference
  serve_calls l (some n) = served l n

  -- `BadgerDB.Close`
  unfoldable pub close_db : database.State → Option Error
  close_db d = badger_close d

  -- `Stop`: `GracefulStop` returns when all calls have. A server without a database would panic.
  unfoldable pub stop_server : Option database.State → CallsEnd database.State → Ending
  unfolding close_db
  stop_server db (broken p) = crashed p
  stop_server db pending = waiting
  stop_server none (drained d) = crashed nil_dereference
  stop_server (some _) (drained d) = stopped (close_db d)

  unfoldable pub main_program : Flags → Ending
  unfolding main_server run_server serve_calls node_of stop_server
  main_program flags = elim (main_server database world flags) [
    | err x ↦ panicked x
    | ok s ↦ elim (run_server s) [
      | err x ↦ fatal x
      | ok l ↦ stop_server s.db (serve_calls l (node_of database world s))
    ]
  ]

  -- The end that the calls bring.
  abbrev pub Brings : CallsEnd database.State → Ending → Type 0
  Brings (broken p) end = end ≡ crashed p
  Brings pending end = end ≡ waiting
  Brings (drained d) end = end ≡ stopped (badger_close d)

  -- The end of a process whose server is the node `n`.
  abbrev pub Lives : Flags → Node database → Ending → Type 0
  Lives flags n end =
      ((x : Error) × (listen (get flags).nodeaddr ≡ err x) × (end ≡ fatal x))
      ⊎ ((l : Listener) × (listen (get flags).nodeaddr ≡ ok l) × Brings (served l n) end)

  abbrev pub Ends : Flags → Ending → Type 0
  Ends flags end =
      ((x : Error) × (main_server database world flags ≡ err x) × (end ≡ panicked x))
      ⊎ ((s : Draft database world) × (n : Node database) × (main_server database world flags
            ≡ ok s)
          × (node_of database world s ≡ some n)
          × (world.badger_open (get flags).db_path ≡ ok n.db)
          × Lives flags n end)

  stops :
      (db : Option database.State) (d : database.State) (w : CallsEnd database.State)
      → db ≡ some d
      → Brings w (stop_server db w)
  unfolding stop_server close_db
  stops db d (broken p) there = refl
  stops db d pending there = refl
  stops none d (drained d') there = cc there
  stops (some _) d (drained d') there = refl

  -- The end of the program, whatever the libraries answer and whatever becomes of the calls. If
  -- `main` makes no server, it panics with that error. Otherwise the server is a node with every
  -- field that a handler uses and the database that was opened at the path of the flags; if the
  -- address of the flags cannot be listened at, the process ends with that error; if it can, and a
  -- call panics, the process ends by that panic; if a call never returns, the process does not end;
  -- and if all calls return, it ends with what closing the database, as they have left it, answers.
  pub main_program-Ends : (flags : Flags) → Ends flags (main_program flags)
  unfolding main_program main_server run_server serve_calls
  main_program-Ends flags = made (main_server database world flags) refl
    where
      end_of : Result (Draft database world) → Ending
      end_of r = elim r [
        | err x ↦ panicked x
        | ok s ↦ elim (run_server s) [
          | err x ↦ fatal x
          | ok l ↦ stop_server s.db (serve_calls l (node_of database world s))
        ]
      ]

      listening :
          (s : Draft database world) (n : Node database) (d : database.State)
          → node_of database world s ≡ some n
          → s.db ≡ some d
          → (r : Result Listener) → listen (get flags).nodeaddr ≡ r
          → Lives flags n (elim r [
            | err x ↦ fatal x
            | ok l ↦ stop_server s.db (serve_calls l (node_of database world s))
          ])
      listening s n d usable there (err x) at = inl (x, at, refl)
      listening s n d usable there (ok l) at =
          inr (l, at, rw usable (stops s.db d (served l n) there))

      made :
          (r : Result (Draft database world))
          → main_server database world flags ≡ r
          → Ends flags (end_of r)
      made (err x) same = inl (x, same, refl)
      made (ok s) same =
          let ready = main_server-Ready database world flags s same in
          let (d, opened, there) =
            new_commit_server-db database world (get flags) (hooks_get database world) s same in
          inr (
            s,
            ready.node,
            same,
            ready.usable,
            ready.opened,
            listening s ready.node d ready.usable there (run_server s)
                (ap listen (sym ready.address)),
          )
