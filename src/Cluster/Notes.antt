-- ===== src/Cluster/Notes.antt =====
-- What `Put` tells the monitor around each message (server/server.go, the blocks between
-- `MonitorStart` and `MonitorEnd`). The errors of `CaptureState` are ignored there.
pub mod Rejected
use committer.Prelude.{ℕ, String, List, [], ◌∷◌}
use committer.Go.{Go, ok, ◌>>=◌}
use committer.Tla.{Tla, str, seq, rec, items}
use committer.Tla.Ops.{as_record, except}
use committer.Monitor.{
  State, Monitor, EventType, capture_state, c_send_prepare, c_receive_prepare, c_receive_abort,
  c_send_commit, c_receive_commit, network_take_message, network_deliver_message,
}
use committer.Monitor.Clauses.{coordinator, append_to}
use committer.Refine.{
  refine_party, refine_propose_msg, refine_propose_reply, refine_aborted_msg, refine_commit_msg,
  refine_committed_msg,
}

-- The local `gs` of `Put` and the monitor of the node.
pub record Log : Type 0 where
  pub gs : State
  pub monitor : Monitor

unfoldable pub capture : EventType → List Tla → Log → Go Log
unfolding capture_state
capture typ args l = do
  (m, _) ← capture_state l.gs typ args l.monitor
  ok (record l { monitor = m })

-- `Except(box, "coordinator", seq(msgs...))`
holds : Tla → List Tla → Go Tla
unfolding as_record except items
holds box msgs = do m ← as_record box; ok (rec (except m "coordinator" (seq (items msgs))))

entry : String → Tla → Tla
unfolding items
entry action v = seq (items (str action ∷ v ∷ []))

-- A message goes to the coordinator's outbox, and the network takes it.
note_sent : EventType → String → Tla → Tla → Log → Go Log
unfolding holds entry append_to capture
note_sent typ action r msg l = do
  full ← holds l.gs.outbox (msg ∷ [])
  acts ← append_to l.gs.actions (entry action r)
  let sent = record (l.gs) { outbox = full; actions = acts; who = coordinator }
  l' ← capture typ (r ∷ []) (record l { gs = sent })
  empty ← holds l'.gs.outbox []
  acts' ← append_to l'.gs.actions (entry "NetworkTakeMessage" msg)
  let taken = record (l'.gs) { outbox = empty; actions = acts'; who = str "Network" }
  capture network_take_message (msg ∷ []) (record l' { gs = taken })

-- The network delivers a message to the coordinator's inbox.
note_delivered : Tla → Log → Go Log
unfolding holds entry append_to capture
note_delivered msg l = do
  full ← holds l.gs.inbox (msg ∷ [])
  acts ← append_to l.gs.actions (entry "NetworkDeliverMessage" msg)
  let arrived = record (l.gs) { inbox = full; actions = acts; who = str "Network" }
  capture network_deliver_message (msg ∷ []) (record l { gs = arrived })

-- The coordinator reads it.
note_read : String → Tla → Log → Go Log
unfolding holds entry append_to
note_read action r l = do
  empty ← holds l.gs.inbox []
  acts ← append_to l.gs.actions (entry action r)
  ok (record l { gs = record (l.gs) { inbox = empty; actions = acts; who = coordinator } })

note_prepared_by : Tla → Log → Go Log
unfolding append_to
note_prepared_by r l = do
  more ← append_to l.gs.tm_prepared r
  ok (record l { gs = record (l.gs) { tm_prepared = more } })

note_committed_by : Tla → Log → Go Log
unfolding append_to
note_committed_by r l = do
  more ← append_to l.gs.tm_committed r
  ok (record l { gs = record (l.gs) { tm_committed = more } })

unfoldable pub note_propose : ℕ → Log → Go Log
unfolding note_sent refine_party refine_propose_msg
note_propose pid l =
    note_sent c_send_prepare "CSendPrepare" (refine_party pid) (refine_propose_msg pid) l

unfoldable pub note_prepared : ℕ → Log → Go Log
unfolding note_delivered note_read note_prepared_by refine_party refine_propose_reply capture
note_prepared pid l = do
  l₁ ← note_delivered (refine_propose_reply pid) l
  l₂ ← note_read "CReceivePrepare" (refine_party pid) l₁
  l₃ ← note_prepared_by (refine_party pid) l₂
  capture c_receive_prepare (refine_party pid ∷ []) l₃

-- The party goes to `tmPrepared` here too.
unfoldable pub note_aborted : ℕ → Log → Go Log
unfolding note_delivered note_read note_prepared_by refine_party refine_aborted_msg capture
note_aborted pid l = do
  l₁ ← note_delivered (refine_aborted_msg pid) l
  l₂ ← note_read "CReceiveAbort" (refine_party pid) l₁
  l₃ ← note_prepared_by (refine_party pid) l₂
  capture c_receive_abort (refine_party pid ∷ []) l₃

unfoldable pub note_commit : ℕ → Log → Go Log
unfolding note_sent refine_party refine_commit_msg
note_commit pid l =
    note_sent c_send_commit "CSendCommit" (refine_party pid) (refine_commit_msg pid)
      (record l { gs = record (l.gs) { tm_decision = str "commit" } })

unfoldable pub note_committed : ℕ → Log → Go Log
unfolding note_delivered note_read note_committed_by refine_party refine_committed_msg capture
note_committed pid l = do
  l₁ ← note_delivered (refine_committed_msg pid) l
  l₂ ← note_read "CReceiveCommit" (refine_party pid) l₁
  l₃ ← note_committed_by (refine_party pid) l₂
  capture c_receive_commit (refine_party pid ∷ []) l₃
