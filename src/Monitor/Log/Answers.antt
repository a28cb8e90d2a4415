-- ===== src/Monitor/Log/Answers.antt =====
-- The checks of the participants and of the network ask for one entry in the log and leave the messages in
-- flight alone (server/TwoPhaseCommitFull.go).
use committer.Prelude.{◌≡◌, ap, ◌∙◌, [], ◌∷◌}
use committer.Go.{ok}
use committer.Tla.{Tla, str, items}
use committer.Tla.Ops.{eq, to_set, set_in, index_into}
use committer.Monitor.{State}
use committer.Monitor.Clauses.{
  coordinator, message, replies, logs, unchanged_tm, among, removed, delivered_to,
}
use committer.Monitor.Participant.{
  check_p_handle_prepare, check_p_handle_commit, check_p_handle_abort, answers, moves_to,
}
use committer.Monitor.Network.{check_network_take_message, check_network_deliver_message}
use committer.Monitor.Log.{Logged, bound, held, replies-still, vote_clause, vote-still}

pub p_handle_prepare-Logged :
    (r : Tla) (prev this : State) → check_p_handle_prepare r prev this ≡ ok tt → Logged prev this
unfolding check_p_handle_prepare
p_handle_prepare-Logged r prev this h =
    let (mine, _, h₁) = bound (index_into prev.rm_state r) h in
    let (_, h₂) = held (eq mine (str "working")) _ h₁ in
    let (yes_vote, yes_is, h₃) = bound (answers "prepared" "Prepared" r prev this) h₂ in
    let (checked, vote_is, h₄) = bound (vote_clause yes_vote r prev this) h₃ in
    let (_, h₅) = held (unchanged_tm prev this) _ h₄ in
    let (now, _, h₆) = bound (index_into this.rm_state r) h₅ in
    let (logged, is, last) = bound (logs (str "PHandlePrepare" ∷ r ∷ now ∷ []) prev this) h₆ in
    let (sure, _) = held logged _ last in
    record {
      entry = str "PHandlePrepare" ∷ r ∷ now ∷ [];
      logged = is ∙ ap ok sure;
      still = vote-still yes_vote r prev this yes_is vote_is;
    }

pub p_handle_commit-Logged :
    (r : Tla) (prev this : State) → check_p_handle_commit r prev this ≡ ok tt → Logged prev this
unfolding check_p_handle_commit
p_handle_commit-Logged r prev this h =
    let (mine, _, h₁) = bound (index_into prev.rm_state r) h in
    let (_, h₂) = held (eq mine (str "prepared")) _ h₁ in
    let (moved, _, h₃) = bound (moves_to "committed" r prev this) h₂ in
    let (_, h₄) = held (moved) _ h₃ in
    let (replied, replied_is, h₅) =
      bound (replies (message "Committed" r coordinator) (message "Commit" coordinator r) prev this)
        h₄ in
    let (replied_true, h₆) = held (replied) _ h₅ in
    let (_, h₇) = held (unchanged_tm prev this) _ h₆ in
    let (logged, is, last) = bound (logs (str "PHandleCommit" ∷ r ∷ []) prev this) h₇ in
    let (sure, _) = held logged _ last in
    record {
      entry = str "PHandleCommit" ∷ r ∷ [];
      logged = is ∙ ap ok sure;
      still =
          replies-still (message "Committed" r coordinator) (message "Commit" coordinator r) prev
            this (replied_is ∙ ap ok replied_true);
    }

pub p_handle_abort-Logged :
    (r : Tla) (prev this : State) → check_p_handle_abort r prev this ≡ ok tt → Logged prev this
unfolding check_p_handle_abort
p_handle_abort-Logged r prev this h =
    let (mine, _, h₁) = bound (index_into prev.rm_state r) h in
    let (undecided, _, h₂) = bound (to_set (items (str "working" ∷ str "prepared" ∷ []))) h₁ in
    let (found, _, h₃) = bound (set_in mine undecided) h₂ in
    let (_, h₄) = held (found) _ h₃ in
    let (moved, _, h₅) = bound (moves_to "aborted" r prev this) h₄ in
    let (_, h₆) = held (moved) _ h₅ in
    let (replied, replied_is, h₇) =
      bound (replies (message "Aborted" r coordinator) (message "Abort" coordinator r) prev this)
        h₆ in
    let (replied_true, h₈) = held (replied) _ h₇ in
    let (_, h₉) = held (unchanged_tm prev this) _ h₈ in
    let (logged, is, last) = bound (logs (str "PHandleAbort" ∷ r ∷ []) prev this) h₉ in
    let (sure, _) = held logged _ last in
    record {
      entry = str "PHandleAbort" ∷ r ∷ [];
      logged = is ∙ ap ok sure;
      still =
          replies-still (message "Aborted" r coordinator) (message "Abort" coordinator r) prev this
            (replied_is ∙ ap ok replied_true);
    }

pub network_take_message-Logged :
    (r : Tla) (prev this : State)
    → check_network_take_message r prev this ≡ ok tt
    → Logged prev this
unfolding check_network_take_message
network_take_message-Logged r prev this h =
    let (present, _, h₁) = bound (among "msource" r prev.outbox) h in
    let (_, h₂) = held (present) _ h₁ in
    let (same, h₃) = held (eq this.inflight prev.inflight) _ h₂ in
    let (box, _, h₄) = bound (removed "msource" r prev.outbox) h₃ in
    let (_, h₅) = held (eq this.outbox box) _ h₄ in
    let (logged, is, last) = bound (logs (str "NetworkTakeMessage" ∷ r ∷ []) prev this) h₅ in
    let (sure, _) = held logged _ last in
    record { entry = str "NetworkTakeMessage" ∷ r ∷ []; logged = is ∙ ap ok sure; still = same }

pub network_deliver_message-Logged :
    (r : Tla) (prev this : State)
    → check_network_deliver_message r prev this ≡ ok tt
    → Logged prev this
unfolding check_network_deliver_message
network_deliver_message-Logged r prev this h =
    let (same, h₁) = held (eq this.inflight prev.inflight) _ h in
    let (box, _, h₂) = bound (delivered_to r prev.inbox) h₁ in
    let (_, h₃) = held (eq this.inbox box) _ h₂ in
    let (logged, is, last) = bound (logs (str "NetworkDeliverMessage" ∷ r ∷ []) prev this) h₃ in
    let (sure, _) = held logged _ last in
    record { entry = str "NetworkDeliverMessage" ∷ r ∷ []; logged = is ∙ ap ok sure; still = same }
