-- ===== src/Monitor/Log/Actions.antt =====
-- The checks of the coordinator, but for its first state, ask for one entry in the log and leave the messages in
-- flight alone (server/TwoPhaseCommitFull.go).
use committer.Prelude.{◌≡◌, ap, ◌∙◌, not, ◌&&◌, ltb, [], ◌∷◌}
use committer.Go.{ok}
use committer.Tla.{Tla, str, set}
use committer.Tla.Ops.{eq, as_seq, to_set, set_not_in, len}
use committer.Monitor.{State}
use committer.Monitor.Clauses.{
  coordinator, message, rm, sends, receives, logs, append_to, unchanged_tm,
}
use committer.Monitor.Coordinator.{
  check_c_send_prepare, check_c_receive_prepare, check_c_receive_abort, check_c_send_commit,
  check_c_send_abort, check_c_receive_commit,
}
use committer.Monitor.Log.{Logged, bound, held, sends-still, receives-still}

pub c_send_prepare-Logged :
    (r : Tla) (prev this : State) → check_c_send_prepare r prev this ≡ ok tt → Logged prev this
unfolding check_c_send_prepare
c_send_prepare-Logged r prev this h =
    let (_, h₁) = held (eq prev.tm_decision (str "none")) _ h in
    let (prepared, _, h₂) = bound (as_seq prev.tm_prepared) h₁ in
    let (have, _, h₃) = bound (to_set prepared) h₂ in
    let (all, _, h₄) = bound (rm) h₃ in
    let (_, h₅) = held (not (eq (set have) all)) _ h₄ in
    let (sent, sends_is, h₆) = bound (sends (message "Prepare" coordinator r) prev this) h₅ in
    let (sent_true, h₇) = held (sent) _ h₆ in
    let (_, h₈) = held (eq this.rm_state prev.rm_state) _ h₇ in
    let (_, h₉) = held (unchanged_tm prev this) _ h₈ in
    let (logged, is, last) = bound (logs (str "CSendPrepare" ∷ r ∷ []) prev this) h₉ in
    let (sure, _) = held logged _ last in
    record {
      entry = str "CSendPrepare" ∷ r ∷ [];
      logged = is ∙ ap ok sure;
      still = sends-still (message "Prepare" coordinator r) prev this (sends_is ∙ ap ok sent_true);
    }

pub c_receive_prepare-Logged :
    (r : Tla) (prev this : State) → check_c_receive_prepare r prev this ≡ ok tt → Logged prev this
unfolding check_c_receive_prepare
c_receive_prepare-Logged r prev this h =
    let (prepared, _, h₁) = bound (as_seq prev.tm_prepared) h in
    let (have, _, h₂) = bound (to_set prepared) h₁ in
    let (fresh, _, h₃) = bound (set_not_in r have) h₂ in
    let (_, h₄) = held (fresh) _ h₃ in
    let (received, received_is, h₅) =
      bound (receives (message "Prepared" r coordinator) prev this) h₄ in
    let (received_true, h₆) = held (received) _ h₅ in
    let (longer, _, h₇) = bound (append_to prev.tm_prepared r) h₆ in
    let (_, h₈) = held (eq this.tm_prepared longer) _ h₇ in
    let (_, h₉) = held (eq this.rm_state prev.rm_state) _ h₈ in
    let (_, h₁₀) =
      held
        (eq this.tm_committed prev.tm_committed
          && eq this.tm_aborted prev.tm_aborted
          && eq this.tm_decision prev.tm_decision)
        _ h₉ in
    let (logged, is, last) = bound (logs (str "CReceivePrepare" ∷ r ∷ []) prev this) h₁₀ in
    let (sure, _) = held logged _ last in
    record {
      entry = str "CReceivePrepare" ∷ r ∷ [];
      logged = is ∙ ap ok sure;
      still =
          receives-still (message "Prepared" r coordinator) prev this
            (received_is ∙ ap ok received_true);
    }

pub c_receive_abort-Logged :
    (r : Tla) (prev this : State) → check_c_receive_abort r prev this ≡ ok tt → Logged prev this
unfolding check_c_receive_abort
c_receive_abort-Logged r prev this h =
    let (received, received_is, h₁) =
      bound (receives (message "Aborted" r coordinator) prev this) h in
    let (received_true, h₂) = held (received) _ h₁ in
    let (aborted, _, h₃) = bound (as_seq prev.tm_aborted) h₂ in
    let (have, _, h₄) = bound (to_set aborted) h₃ in
    let (fresh, _, h₅) = bound (set_not_in r have) h₄ in
    let (_, h₆) = held (fresh) _ h₅ in
    let (longer, _, h₇) = bound (append_to prev.tm_aborted r) h₆ in
    let (_, h₈) = held (eq this.tm_aborted longer) _ h₇ in
    let (_, h₉) = held (eq this.rm_state prev.rm_state) _ h₈ in
    let (_, h₁₀) =
      held
        (eq this.tm_prepared prev.tm_prepared
          && eq this.tm_committed prev.tm_committed
          && eq this.tm_decision prev.tm_decision)
        _ h₉ in
    let (logged, is, last) = bound (logs (str "CReceiveAbort" ∷ r ∷ []) prev this) h₁₀ in
    let (sure, _) = held logged _ last in
    record {
      entry = str "CReceiveAbort" ∷ r ∷ [];
      logged = is ∙ ap ok sure;
      still =
          receives-still (message "Aborted" r coordinator) prev this
            (received_is ∙ ap ok received_true);
    }

pub c_send_commit-Logged :
    (r : Tla) (prev this : State) → check_c_send_commit r prev this ≡ ok tt → Logged prev this
unfolding check_c_send_commit
c_send_commit-Logged r prev this h =
    let (prepared, _, h₁) = bound (as_seq prev.tm_prepared) h in
    let (have, _, h₂) = bound (to_set prepared) h₁ in
    let (all, _, h₃) = bound (rm) h₂ in
    let (_, h₄) = held (eq (set have) all) _ h₃ in
    let (_, h₅) = held (not (eq prev.tm_decision (str "abort"))) _ h₄ in
    let (_, h₆) = held (eq this.tm_decision (str "commit")) _ h₅ in
    let (sent, sends_is, h₇) = bound (sends (message "Commit" coordinator r) prev this) h₆ in
    let (sent_true, h₈) = held (sent) _ h₇ in
    let (_, h₉) = held (eq this.rm_state prev.rm_state) _ h₈ in
    let (_, h₁₀) =
      held
        (eq this.tm_prepared prev.tm_prepared
          && eq this.tm_committed prev.tm_committed
          && eq this.tm_aborted prev.tm_aborted)
        _ h₉ in
    let (logged, is, last) = bound (logs (str "CSendCommit" ∷ r ∷ []) prev this) h₁₀ in
    let (sure, _) = held logged _ last in
    record {
      entry = str "CSendCommit" ∷ r ∷ [];
      logged = is ∙ ap ok sure;
      still = sends-still (message "Commit" coordinator r) prev this (sends_is ∙ ap ok sent_true);
    }

pub c_send_abort-Logged :
    (r : Tla) (prev this : State) → check_c_send_abort r prev this ≡ ok tt → Logged prev this
unfolding check_c_send_abort
c_send_abort-Logged r prev this h =
    let (aborted, _, h₁) = bound (as_seq prev.tm_aborted) h in
    let (_, h₂) = held (ltb 0 (len aborted)) _ h₁ in
    let (_, h₃) = held (not (eq prev.tm_decision (str "commit"))) _ h₂ in
    let (_, h₄) = held (eq this.tm_decision (str "abort")) _ h₃ in
    let (have, _, h₅) = bound (to_set aborted) h₄ in
    let (fresh, _, h₆) = bound (set_not_in r have) h₅ in
    let (_, h₇) = held (fresh) _ h₆ in
    let (sent, sends_is, h₈) = bound (sends (message "Abort" coordinator r) prev this) h₇ in
    let (sent_true, h₉) = held (sent) _ h₈ in
    let (_, h₁₀) = held (eq this.rm_state prev.rm_state) _ h₉ in
    let (_, h₁₁) =
      held
        (eq this.tm_prepared prev.tm_prepared
          && eq this.tm_committed prev.tm_committed
          && eq this.tm_aborted prev.tm_aborted)
        _ h₁₀ in
    let (logged, is, last) = bound (logs (str "CSendAbort" ∷ r ∷ []) prev this) h₁₁ in
    let (sure, _) = held logged _ last in
    record {
      entry = str "CSendAbort" ∷ r ∷ [];
      logged = is ∙ ap ok sure;
      still = sends-still (message "Abort" coordinator r) prev this (sends_is ∙ ap ok sent_true);
    }

pub c_receive_commit-Logged :
    (r : Tla) (prev this : State) → check_c_receive_commit r prev this ≡ ok tt → Logged prev this
unfolding check_c_receive_commit
c_receive_commit-Logged r prev this h =
    let (received, received_is, h₁) =
      bound (receives (message "Committed" r coordinator) prev this) h in
    let (received_true, h₂) = held (received) _ h₁ in
    let (committed, _, h₃) = bound (as_seq prev.tm_committed) h₂ in
    let (have, _, h₄) = bound (to_set committed) h₃ in
    let (fresh, _, h₅) = bound (set_not_in r have) h₄ in
    let (_, h₆) = held (fresh) _ h₅ in
    let (longer, _, h₇) = bound (append_to prev.tm_committed r) h₆ in
    let (_, h₈) = held (eq this.tm_committed longer) _ h₇ in
    let (_, h₉) = held (eq this.rm_state prev.rm_state) _ h₈ in
    let (_, h₁₀) =
      held
        (eq this.tm_prepared prev.tm_prepared
          && eq this.tm_aborted prev.tm_aborted
          && eq this.tm_decision prev.tm_decision)
        _ h₉ in
    let (logged, is, last) = bound (logs (str "CReceiveCommit" ∷ r ∷ []) prev this) h₁₀ in
    let (sure, _) = held logged _ last in
    record {
      entry = str "CReceiveCommit" ∷ r ∷ [];
      logged = is ∙ ap ok sure;
      still =
          receives-still (message "Committed" r coordinator) prev this
            (received_is ∙ ap ok received_true);
    }
