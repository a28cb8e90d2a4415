-- ===== src/Server/Propose.antt =====
-- What `Propose` of a node does (server/server.go, server/committer.go), alone and before `Commit`.
use committer.Prelude.{String, ◌≡◌, true, false, some, [], arith, ◌<◌, ◌≤◌, u64_succ}
use committer.Proto.{ack, nack, ProposeRequest, CommitRequest, Reply, answer, Bytes}
use committer.Cache.{Msg, get-set}
use committer.Cache
use committer.Database.{Database, DatabaseLaws, ok}
use committer.Server.Node.{set_progress}
use committer.Server.Handlers.{Node, propose_handler, propose, commit, get}
use committer.Server.Commit.{Stored, commit-Stored}

module _ (database : Database) where
  abbrev pub cached : ProposeRequest → Node database → Node database
  cached req s = record s { node_cache = Cache.set s.node_cache req.index req.key req.value }

  -- An acknowledgement says that the hook consents, that the index is not below the height, and
  -- that the message is cached; nothing else of the node has changed but the progress flag.
  pub propose-acked :
      (s : Node database) (req : ProposeRequest)
      → (propose database s req).0 ≡ answer ack req.index
      → (s.propose_hook req ≡ true)
        × (s.height ≤ req.index)
        × ((propose database s req).1 ≡ cached req (set_progress req.index false s))
  unfolding propose propose_handler
  propose-acked s req h = ground arith

  pub propose_acks :
      (s : Node database) (req : ProposeRequest)
      → s.propose_hook req ≡ true
      → s.height ≤ req.index
      → propose database s req ≡ (answer ack req.index, cached req (set_progress req.index false s))
  unfolding propose propose_handler set_progress
  propose_acks s req h le = ground arith

  -- Below the height of the node a proposal is refused, with that height.
  pub propose_stale :
      (s : Node database) (req : ProposeRequest)
      → req.index < s.height
      → (propose database s req).0 ≡ answer nack s.height
  unfolding propose propose_handler set_progress
  propose_stale s req h = ground arith

  pub propose_refused :
      (s : Node database) (req : ProposeRequest)
      → s.propose_hook req ≡ false
      → s.height ≤ req.index
      → propose database s req ≡ (answer nack req.index, set_progress req.index false s)
  unfolding propose propose_handler set_progress
  propose_refused s req h le = ground arith

  pub get-cached :
      (s : Node database) (req : ProposeRequest)
      → Cache.get (cached req s).node_cache req.index
        ≡ some (record { key = req.key; value = req.value })
  get-cached s req = rw get-set (ground arith)

  pub get-Stored :
      (laws : DatabaseLaws database) (s : Node database) (k : String) (v : Bytes)
      (d : database.State) (p : Reply × Node database)
      → Stored database s d p
      → database.put s.db k v ≡ ok d
      → get database p.1 k ≡ ok v
  unfolding get
  get-Stored laws s k v d p done put = rw done.stored (laws.get-put s.db d k v put)

  -- Over a database that reads back what it wrote: a proposal that is acknowledged and then
  -- committed at its index, by a hook that consents and a write that succeeds, can be read back:
  -- under its key stands its value. The height has risen by one (mod 2^64).
  pub get-commit-propose :
      (laws : DatabaseLaws database) (s : Node database) (req : ProposeRequest) (c : CommitRequest)
      (d : database.State)
      → (propose database s req).0 ≡ answer ack req.index
      → c.index ≡ req.index
      → s.commit_hook c ≡ true
      → database.put s.db req.key req.value ≡ ok d
      → let t = (commit database (some []) (propose database s req).1 c).1 in
        (get database t req.key ≡ ok req.value) × (t.height ≡ u64_succ s.height)
  unfolding set_progress
  get-commit-propose laws s req c d acked same vote put =
      let state = (propose-acked s req acked).2 in
      let t = cached req (set_progress req.index false s) in
      let done =
        commit-Stored database t c (record { key = req.key; value = req.value }) d vote
          (rw same (get-cached (set_progress req.index false s) req)) put in
      rw state (get-Stored laws t req.key req.value d _ done put, done.raised)
