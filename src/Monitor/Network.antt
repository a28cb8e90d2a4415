-- ===== src/Monitor/Network.antt =====
-- The checks of the network's actions (server/TwoPhaseCommitFull.go). Neither looks at the
-- variables of the coordinator or of the participants.
use committer.Prelude.{[], ◌∷◌}
use committer.Go.{Go, require, ◌>>=◌, ◌>>◌}
use committer.Tla.{Tla, str}
use committer.Tla.Ops.{eq}
use committer.Monitor.{State}
use committer.Monitor.Clauses.{delivered_to, removed, among, logs}

unfoldable pub check_network_take_message : Tla → State → State → Go (Unit {0})
unfolding among removed eq logs
check_network_take_message msg prev this = do
  present ← among "msource" msg prev.outbox
  require present "NetworkTakeMessage: msg \\in ToSet(outbox[msg.msource])"
  require (eq this.inflight prev.inflight) "NetworkTakeMessage: UNCHANGED(inflight)"
  box ← removed "msource" msg prev.outbox
  require (eq this.outbox box)
      "NetworkTakeMessage: outbox' = [outbox EXCEPT ![msg.msource] = Remove(@, msg)]"
  logged ← logs (str "NetworkTakeMessage" ∷ msg ∷ []) prev this
  require logged "NetworkTakeMessage: LogAction(<<NetworkTakeMessage, msg>>)"
  require (eq this.who (str "Network")) "NetworkTakeMessage: LogActor(Network)"
  require (eq this.inbox prev.inbox) "NetworkTakeMessage: UNCHANGED(inbox)"

unfoldable pub check_network_deliver_message : Tla → State → State → Go (Unit {0})
unfolding delivered_to eq logs
check_network_deliver_message msg prev this = do
  require (eq this.inflight prev.inflight) "NetworkDeliverMessage: UNCHANGED(inflight)"
  box ← delivered_to msg prev.inbox
  require (eq this.inbox box)
      "NetworkDeliverMessage: inbox' = [inbox EXCEPT ![msg.mdest] = Append(@, msg)]"
  logged ← logs (str "NetworkDeliverMessage" ∷ msg ∷ []) prev this
  require logged "NetworkDeliverMessage: LogAction(<<NetworkDeliverMessage, msg>>)"
  require (eq this.who (str "Network")) "NetworkDeliverMessage: LogActor(Network)"
  require (eq this.outbox prev.outbox) "NetworkDeliverMessage: UNCHANGED(outbox)"
