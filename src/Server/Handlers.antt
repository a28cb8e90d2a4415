-- ===== src/Server/Handlers.antt =====
-- The handlers of a node (server/committer.go, server/server.go), over any database.
use committer.Prelude.{
  ℕ, Bool, true, false, String, Option, none, some, List, [], ◌∷◌, ◌++◌, ltb, ◌==◌, u64_succ,
  if◌then◌else◌,
}
use committer.Proto.{
  Bytes, Answer, ack, nack, ProposeRequest, PrecommitRequest, CommitRequest, Response, no_metadata,
  no_value_on, Reply, answer, fails,
}
use committer.Cache.{Cache, Msg}
use committer.Cache
use committer.Database.{Database, Result, ok, err}
use committer.Server.{Server}
use committer.Server.Node.{is_three_phase, set_progress, has_progress, rollback}

-- What is read of the incoming metadata: whether there is any, and the values of "mode".
abbrev pub Metadata : Type 0
Metadata = Option (List String)

-- `resp.Type == pb.Type_ACK`, for a response that is there.
unfoldable pub is_ack : Option Response → Bool
is_ack none = false
is_ack (some r) = elim r.typ [ Answer.ack ↦ true | Answer.nack ↦ false ]

-- A reply with no error and the answer ACK.
unfoldable pub acknowledges : Reply → Bool
unfolding is_ack
acknowledges r = elim r.error [ none ↦ is_ack r.response | some _ ↦ false ]

module _ (database : Database) where
  abbrev pub Node : Type 0
  Node = Server database.State

  -- The request is answered by the hook, and refused all the same below the node's height.
  unfoldable pub propose_handler : Node → ProposeRequest → Reply × Node
  unfolding Cache.set
  propose_handler s req =
      let voted : Reply × Node =
        if s.propose_hook req
        then (
          answer ack req.index,
          record s { node_cache = Cache.set s.node_cache req.index req.key req.value },
        )
        else (answer nack req.index, s) in
      (if ltb req.index s.height then answer nack s.height else voted.0, voted.1)

  unfoldable pub propose : Node → ProposeRequest → Reply × Node
  unfolding propose_handler set_progress
  propose s req = propose_handler (set_progress req.index false s) req

  unfoldable pub precommit_handler : Node → PrecommitRequest → Reply
  precommit_handler s req = answer ack 0

  -- In the three-phase mode a goroutine starts that waits for the timeout.
  unfoldable pub precommit : Node → PrecommitRequest → Reply × Node
  unfolding precommit_handler is_three_phase
  precommit s req = (
    precommit_handler s req,
    if is_three_phase s.config then record s { timers = s.timers ++ req.index ∷ [] } else s,
  )

  unfoldable pub store : Node → Result database.State → Reply × Node
  store s (ok d) = (answer ack 0, record s { db = d })
  store s (err e) = (fails e, s)

  -- What was proposed at the index goes to the database. A missing message gives a response and
  -- an error.
  unfoldable pub commit_handler : Node → CommitRequest → Reply × Node
  unfolding store Cache.get Cache.delete
  commit_handler s req =
      let dropped = record s { node_cache = Cache.delete s.node_cache req.index } in
      if s.commit_hook req
      then elim (Cache.get s.node_cache req.index) [
        | none ↦ (record (answer nack 0) { error = some (no_value_on req.index) }, dropped)
        | some m ↦ store s (database.put s.db m.key m.value)
      ]
      else (answer nack 0, dropped)

  -- After `CommitHandler`: an acknowledged commit raises the height.
  unfoldable pub settle : Reply × Node → Reply × Node
  unfolding is_ack
  settle (r, s) = elim r.error [
    | none ↦ (r, if is_ack r.response then record s { height = u64_succ s.height } else s)
    | some e ↦ (r, s)
  ]

  -- `if err != nil { return nil, err }`
  unfoldable pub drop_response : Reply × Node → Reply × Node
  drop_response (r, s) = elim r.error [ none ↦ (r, s) | some e ↦ (fails e, s) ]

  unfoldable pub commit_three_phase : Metadata → Node → CommitRequest → Reply × Node
  unfolding commit_handler settle drop_response set_progress rollback
  commit_three_phase none s req = (fails no_metadata, s)
  commit_three_phase (some []) s req =
      drop_response (settle (commit_handler (set_progress s.height true s) req))
  commit_three_phase (some (mode ∷ _)) s req =
      (record { response = none; error = none }, if req.is_rollback then rollback s else s)

  unfoldable pub commit : Metadata → Node → CommitRequest → Reply × Node
  unfolding commit_three_phase is_three_phase settle commit_handler
  commit md s req =
      if is_three_phase s.config then commit_three_phase md s req else settle (commit_handler s req)

  unfoldable pub remove_first : ℕ → List ℕ → List ℕ
  remove_first i [] = []
  remove_first i (j ∷ js) = if j == i then js else j ∷ remove_first i js

  -- The goroutine of `Precommit` once its timeout has passed. Its context carries outgoing
  -- metadata only, so `Commit` finds no incoming metadata; the reply is dropped.
  unfoldable pub autocommit : ℕ → Node → Node
  unfolding remove_first has_progress commit
  autocommit i s =
      let t = record s { timers = remove_first i s.timers } in
      if has_progress i s
      then t
      else (commit none t (record { index = s.height; is_rollback = false })).1

  unfoldable pub get : Node → String → Result Bytes
  get s key = database.get s.db key

  unfoldable pub node_info : Node → ℕ
  node_info s = s.height
