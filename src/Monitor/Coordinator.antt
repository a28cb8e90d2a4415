-- ===== src/Monitor/Coordinator.antt =====
-- The checks of the coordinator's actions (server/TwoPhaseCommitFull.go): each panics at the first
-- clause that does not hold of the states before and after the action.
use committer.Prelude.{◌&&◌, not, ltb, [], ◌∷◌}
use committer.Go.{Go, require, ◌>>=◌, ◌>>◌}
use committer.Tla.{Tla, str, rec, set}
use committer.Tla.Ops.{as_seq, eq, record_of, to_set, set_not_in, len}
use committer.Monitor.{State}
use committer.Monitor.Clauses.{
  empty, coordinator, message, rm, append_to, sends, receives, logs, unchanged_tm,
}

-- `[r1 |-> <<>>, r2 |-> <<>>, coordinator |-> <<>>]`
unfoldable pub boxes : Tla
unfolding record_of
boxes = rec (record_of (("r1", empty) ∷ ("r2", empty) ∷ ("coordinator", empty) ∷ []))

unfoldable pub check_initial : State → Go (Unit {0})
unfolding eq record_of boxes
check_initial this = do
  require (eq this.tm_aborted empty) "initial: tmAborted = <<>>"
  require (eq this.tm_committed empty) "initial: tmCommitted = <<>>"
  require (eq this.tm_prepared empty) "initial: tmPrepared = <<>>"
  require (eq this.tm_decision (str "none")) "initial: tmDecision = none"
  require (eq this.rm_state (rec (record_of (("r1", str "working") ∷ ("r2", str "working") ∷ []))))
      "initial: rmState = [r1 |-> working, r2 |-> working]"
  require (eq this.actions empty) "initial: actions = <<>>"
  require (eq this.outbox boxes)
      "initial: outbox = [r1 |-> <<>>, r2 |-> <<>>, coordinator |-> <<>>]"
  require (eq this.inbox boxes) "initial: inbox = [r1 |-> <<>>, r2 |-> <<>>, coordinator |-> <<>>]"
  require (eq this.who (str "none")) "initial: who = none"
  require (eq this.inflight empty) "initial: inflight = <<>>"

unfoldable pub check_c_send_prepare : Tla → State → State → Go (Unit {0})
unfolding eq as_seq to_set rm message sends logs unchanged_tm
check_c_send_prepare r prev this = do
  require (eq prev.tm_decision (str "none")) "CSendPrepare: tmDecision = none"
  prepared ← as_seq prev.tm_prepared
  have ← to_set prepared
  all ← rm
  require (not (eq (set have) all)) "CSendPrepare: ToSet(tmPrepared) /= RM"
  sent ← sends (message "Prepare" coordinator r) prev this
  require sent "CSendPrepare: Send(Prepare)"
  require (eq this.rm_state prev.rm_state) "CSendPrepare: UNCHANGED(<<rmState>>)"
  require (unchanged_tm prev this)
      "CSendPrepare: UNCHANGED(<<tmPrepared, tmCommitted, tmAborted, tmDecision>>)"
  logged ← logs (str "CSendPrepare" ∷ r ∷ []) prev this
  require logged "CSendPrepare: LogAction(<<CSendPrepare, r>>)"
  require (eq this.who coordinator) "CSendPrepare: LogActor(coordinator)"

unfoldable pub check_c_receive_prepare : Tla → State → State → Go (Unit {0})
unfolding eq as_seq to_set set_not_in message receives append_to logs
check_c_receive_prepare r prev this = do
  prepared ← as_seq prev.tm_prepared
  have ← to_set prepared
  fresh ← set_not_in r have
  require fresh "CReceivePrepare: r \\notin ToSet(tmPrepared)"
  received ← receives (message "Prepared" r coordinator) prev this
  require received "CReceivePrepare: Receive(Prepared)"
  longer ← append_to prev.tm_prepared r
  require (eq this.tm_prepared longer) "CReceivePrepare: tmPrepared' = Append(tmPrepared, r)"
  require (eq this.rm_state prev.rm_state) "CReceivePrepare: UNCHANGED(<<rmState>>)"
  require
      (eq this.tm_committed prev.tm_committed
        && eq this.tm_aborted prev.tm_aborted
        && eq this.tm_decision prev.tm_decision)
      "CReceivePrepare: UNCHANGED(<<tmCommitted, tmAborted, tmDecision>>)"
  logged ← logs (str "CReceivePrepare" ∷ r ∷ []) prev this
  require logged "CReceivePrepare: LogAction(<<CReceivePrepare, r>>)"
  require (eq this.who coordinator) "CReceivePrepare: LogActor(coordinator)"

unfoldable pub check_c_receive_abort : Tla → State → State → Go (Unit {0})
unfolding eq as_seq to_set set_not_in message receives append_to logs
check_c_receive_abort r prev this = do
  received ← receives (message "Aborted" r coordinator) prev this
  require received "CReceiveAbort: Receive(Aborted)"
  aborted ← as_seq prev.tm_aborted
  have ← to_set aborted
  fresh ← set_not_in r have
  require fresh "CReceiveAbort: r \\notin ToSet(tmAborted)"
  longer ← append_to prev.tm_aborted r
  require (eq this.tm_aborted longer) "CReceiveAbort: tmAborted' = Append(tmAborted, r)"
  require (eq this.rm_state prev.rm_state) "CReceiveAbort: UNCHANGED(<<rmState>>)"
  require
      (eq this.tm_prepared prev.tm_prepared
        && eq this.tm_committed prev.tm_committed
        && eq this.tm_decision prev.tm_decision)
      "CReceiveAbort: UNCHANGED(<<tmPrepared, tmCommitted, tmDecision>>)"
  logged ← logs (str "CReceiveAbort" ∷ r ∷ []) prev this
  require logged "CReceiveAbort: LogAction(<<CReceiveAbort, r>>)"
  require (eq this.who coordinator) "CReceiveAbort: LogActor(coordinator)"

unfoldable pub check_c_send_commit : Tla → State → State → Go (Unit {0})
unfolding eq as_seq to_set rm message sends logs
check_c_send_commit r prev this = do
  prepared ← as_seq prev.tm_prepared
  have ← to_set prepared
  all ← rm
  require (eq (set have) all) "CSendCommit: ToSet(tmPrepared) = RM"
  require (not (eq prev.tm_decision (str "abort"))) "CSendCommit: tmDecision /= abort"
  require (eq this.tm_decision (str "commit")) "CSendCommit: tmDecision' = commit"
  sent ← sends (message "Commit" coordinator r) prev this
  require sent "CSendCommit: Send(Commit)"
  require (eq this.rm_state prev.rm_state) "CSendCommit: UNCHANGED(<<rmState>>)"
  require
      (eq this.tm_prepared prev.tm_prepared
        && eq this.tm_committed prev.tm_committed
        && eq this.tm_aborted prev.tm_aborted)
      "CSendCommit: UNCHANGED(<<tmPrepared, tmCommitted, tmAborted>>)"
  logged ← logs (str "CSendCommit" ∷ r ∷ []) prev this
  require logged "CSendCommit: LogAction(<<CSendCommit, r>>)"
  require (eq this.who coordinator) "CSendCommit: LogActor(coordinator)"

unfoldable pub check_c_send_abort : Tla → State → State → Go (Unit {0})
unfolding eq as_seq to_set set_not_in len message sends logs
check_c_send_abort r prev this = do
  aborted ← as_seq prev.tm_aborted
  require (ltb 0 (len aborted)) "CSendAbort: Len(tmAborted) > 0"
  require (not (eq prev.tm_decision (str "commit"))) "CSendAbort: tmDecision /= commit"
  require (eq this.tm_decision (str "abort")) "CSendAbort: tmDecision' = abort"
  have ← to_set aborted
  fresh ← set_not_in r have
  require fresh "CSendAbort: r \\notin ToSet(tmAborted)"
  sent ← sends (message "Abort" coordinator r) prev this
  require sent "CSendAbort: Send(Abort)"
  require (eq this.rm_state prev.rm_state) "CSendAbort: UNCHANGED(<<rmState>>)"
  require
      (eq this.tm_prepared prev.tm_prepared
        && eq this.tm_committed prev.tm_committed
        && eq this.tm_aborted prev.tm_aborted)
      "CSendAbort: UNCHANGED(<<tmPrepared, tmCommitted, tmAborted>>)"
  logged ← logs (str "CSendAbort" ∷ r ∷ []) prev this
  require logged "CSendAbort: LogAction(<<CSendAbort, r>>)"
  require (eq this.who coordinator) "CSendAbort: LogActor(coordinator)"

unfoldable pub check_c_receive_commit : Tla → State → State → Go (Unit {0})
unfolding eq as_seq to_set set_not_in message receives append_to logs
check_c_receive_commit r prev this = do
  received ← receives (message "Committed" r coordinator) prev this
  require received "CReceiveCommit: Receive(Committed)"
  committed ← as_seq prev.tm_committed
  have ← to_set committed
  fresh ← set_not_in r have
  require fresh "CReceiveCommit: r \\notin ToSet(tmCommitted)"
  longer ← append_to prev.tm_committed r
  require (eq this.tm_committed longer) "CReceiveCommit: tmCommitted' = Append(tmCommitted, r)"
  require (eq this.rm_state prev.rm_state) "CReceiveCommit: UNCHANGED(<<rmState>>)"
  require
      (eq this.tm_prepared prev.tm_prepared
        && eq this.tm_aborted prev.tm_aborted
        && eq this.tm_decision prev.tm_decision)
      "CReceiveCommit: UNCHANGED(<<tmPrepared, tmAborted, tmDecision>>)"
  logged ← logs (str "CReceiveCommit" ∷ r ∷ []) prev this
  require logged "CReceiveCommit: LogAction(<<CReceiveCommit, r>>)"
  require (eq this.who coordinator) "CReceiveCommit: LogActor(coordinator)"
