-- ===== src/Cluster/Phases/Checks.antt =====
-- The checks of the monitor on the notes about the first two followers
-- (server/TwoPhaseCommitFull.go).
use committer.Prelude.{ℕ, ◌≡◌, refl, [], ◌∷◌}
use committer.Go.{ok, panic, violated}
use committer.Tla.{Tla, Items, str, seq, item, items, no_items}
use committer.Tla.Ops.{record_of}
use committer.Tla.Equality.{eq_self}
use committer.Monitor.{
  c_send_prepare, c_receive_prepare, c_send_commit, c_receive_commit, network_take_message,
  network_deliver_message,
}
use committer.Monitor.Trace.{check_event}
use committer.Refine.{
  refine_party, refine_propose_msg, refine_propose_reply, refine_commit_msg, refine_committed_msg,
}
use committer.Cluster.Phases.{quiet, logged, sent_states, received_states}

-- The two followers, by their numbers.
pub data Party : Type 0 where
  one two : Party

abbrev pub pid_of : Party → ℕ
pid_of one = 0
pid_of two = 1

-- The followers that have answered before and after a follower's turn.
abbrev pub before : Party → Items
before one = no_items
before two = item (str "r1") no_items

abbrev pub after : Party → Items
after one = item (str "r1") no_items
after two = item (str "r1") (item (str "r2") no_items)

-- The decision before a follower's commit.
abbrev pub decided : Party → Tla
decided one = str "none"
decided two = str "commit"

pub propose_accepted :
    (q : Party) (log : Items) (who : Tla)
    → let r = refine_party (pid_of q) in
      let m = refine_propose_msg (pid_of q) in
      let (a, b) = sent_states "CSendPrepare" r m (before q) no_items (str "none") log in
      (check_event c_send_prepare (r ∷ []) (quiet (before q) no_items (str "none") log who) a
        ≡ ok tt)
      × (check_event network_take_message (m ∷ []) a b ≡ ok tt)
unfolding check_event refine_propose_msg refine_party record_of items
propose_accepted one log who = (
  rw (eq_self (seq (logged log "CSendPrepare" (refine_party 0)))),
  rw (
      eq_self (
        seq (
          logged (logged log "CSendPrepare" (refine_party 0)) "NetworkTakeMessage"
            (refine_propose_msg 0)))),
)
propose_accepted two log who = (
  rw (eq_self (seq (logged log "CSendPrepare" (refine_party 1)))),
  rw (
      eq_self (
        seq (
          logged (logged log "CSendPrepare" (refine_party 1)) "NetworkTakeMessage"
            (refine_propose_msg 1)))),
)

pub prepared_accepted :
    (q : Party) (log : Items) (who : Tla)
    → let r = refine_party (pid_of q) in
      let m = refine_propose_reply (pid_of q) in
      let (a, b) =
        received_states "CReceivePrepare" r m
          (before q)
          no_items
          (after q)
          no_items
          (str "none")
          log in
      (check_event network_deliver_message
          (m ∷ [])
          (quiet (before q) no_items (str "none") log who)
          a
        ≡ ok tt)
      × (check_event c_receive_prepare (r ∷ []) a b ≡ ok tt)
unfolding check_event refine_propose_reply refine_party record_of items
prepared_accepted one log who = (
  rw (eq_self (seq (logged log "NetworkDeliverMessage" (refine_propose_reply 0)))),
  rw (
      eq_self (
        seq (
          logged (logged log "NetworkDeliverMessage" (refine_propose_reply 0)) "CReceivePrepare"
            (refine_party 0)))),
)
prepared_accepted two log who = (
  rw (eq_self (seq (logged log "NetworkDeliverMessage" (refine_propose_reply 1)))),
  rw (
      eq_self (
        seq (
          logged (logged log "NetworkDeliverMessage" (refine_propose_reply 1)) "CReceivePrepare"
            (refine_party 1)))),
)

pub commit_accepted :
    (q : Party) (log : Items) (who : Tla)
    → let r = refine_party (pid_of q) in
      let m = refine_commit_msg (pid_of q) in
      let (a, b) = sent_states "CSendCommit" r m (after two) (before q) (str "commit") log in
      (check_event c_send_commit (r ∷ []) (quiet (after two) (before q) (decided q) log who) a
        ≡ ok tt)
      × (check_event network_take_message (m ∷ []) a b ≡ ok tt)
unfolding check_event refine_commit_msg refine_party record_of items
commit_accepted one log who = (
  rw (eq_self (seq (logged log "CSendCommit" (refine_party 0)))),
  rw (
      eq_self (
        seq (
          logged (logged log "CSendCommit" (refine_party 0)) "NetworkTakeMessage"
            (refine_commit_msg 0)))),
)
commit_accepted two log who = (
  rw (eq_self (seq (logged log "CSendCommit" (refine_party 1)))),
  rw (
      eq_self (
        seq (
          logged (logged log "CSendCommit" (refine_party 1)) "NetworkTakeMessage"
            (refine_commit_msg 1)))),
)

pub committed_accepted :
    (q : Party) (log : Items) (who : Tla)
    → let r = refine_party (pid_of q) in
      let m = refine_committed_msg (pid_of q) in
      let (a, b) =
        received_states "CReceiveCommit" r m
          (after two)
          (before q)
          (after two)
          (after q)
          (str "commit")
          log in
      (check_event network_deliver_message
          (m ∷ [])
          (quiet (after two) (before q) (str "commit") log who)
          a
        ≡ ok tt)
      × (check_event c_receive_commit (r ∷ []) a b ≡ ok tt)
unfolding check_event refine_committed_msg refine_party record_of items
committed_accepted one log who = (
  rw (eq_self (seq (logged log "NetworkDeliverMessage" (refine_committed_msg 0)))),
  rw (
      eq_self (
        seq (
          logged (logged log "NetworkDeliverMessage" (refine_committed_msg 0)) "CReceiveCommit"
            (refine_party 0)))),
)
committed_accepted two log who = (
  rw (eq_self (seq (logged log "NetworkDeliverMessage" (refine_committed_msg 1)))),
  rw (
      eq_self (
        seq (
          logged (logged log "NetworkDeliverMessage" (refine_committed_msg 1)) "CReceiveCommit"
            (refine_party 1)))),
)

-- A third follower is proposed to when both parties of the monitor have prepared.
pub third_propose_violated :
    (r : Tla) (log : Items) (who : Tla)
    → check_event c_send_prepare
        (r ∷ [])
        (quiet (after two) no_items (str "none") log who)
        (sent_states "CSendPrepare" r
          (refine_propose_msg 2)
          (after two)
          no_items
          (str "none")
          log).0
      ≡ panic (violated "CSendPrepare: ToSet(tmPrepared) /= RM")
unfolding check_event record_of items
third_propose_violated r log who = refl

-- A commit is sent when only one party has prepared.
pub early_commit_violated :
    (r : Tla) (log : Items) (who : Tla)
    → check_event c_send_commit
        (r ∷ [])
        (quiet (after one) no_items (str "none") log who)
        (sent_states "CSendCommit" r
          (refine_commit_msg 0)
          (after one)
          no_items
          (str "commit")
          log).0
      ≡ panic (violated "CSendCommit: ToSet(tmPrepared) = RM")
unfolding check_event record_of items
early_commit_violated r log who = refl
