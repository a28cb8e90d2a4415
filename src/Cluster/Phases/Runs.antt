-- ===== src/Cluster/Phases/Runs.antt =====
-- What each note of `Put` does to a log of the form that `Put` gives it (server/server.go).
use committer.Prelude.{ℕ, ◌≡◌, refl, List, [], ◌∷◌, ◌++◌}
use committer.Go.{ok}
use committer.Tla.{Tla, Items, str}
use committer.Tla.Ops.{record_of}
use committer.Monitor.{
  Event, initial, c_send_prepare, c_receive_prepare, c_send_commit, c_receive_commit,
  network_take_message, network_deliver_message,
}
use committer.Monitor.Clauses.{coordinator}
use committer.Refine.{
  starting, refine_party, refine_propose_msg, refine_propose_reply, refine_commit_msg,
  refine_committed_msg,
}
use committer.Cluster.Notes.{Log, note_propose, note_prepared, note_commit, note_committed}
use committer.Cluster.Put.{begin}
use committer.Tla.{no_items}
use committer.Cluster.Phases.{quiet, track, event, more, sent_states, received_states}

pub note_propose-track :
    (pid : ℕ) (es : List Event) (p c log : Items) (d who : Tla)
    → let (a, b) =
        sent_states "CSendPrepare" (refine_party pid) (refine_propose_msg pid) p c d log in
      note_propose pid (track es (quiet p c d log who))
      ≡ ok (
          track
            ((es ++ event c_send_prepare (refine_party pid) a ∷ [])
              ++ event network_take_message (refine_propose_msg pid) b ∷ [])
            b)
unfolding note_propose record_of
note_propose-track pid es p c log d who = refl

pub note_prepared-track :
    (pid : ℕ) (es : List Event) (p c log : Items) (d who : Tla)
    → let (a, b) =
        received_states "CReceivePrepare"
          (refine_party pid)
          (refine_propose_reply pid)
          p
          c
          (more p (refine_party pid))
          c
          d
          log in
      note_prepared pid (track es (quiet p c d log who))
      ≡ ok (
          track
            ((es ++ event network_deliver_message (refine_propose_reply pid) a ∷ [])
              ++ event c_receive_prepare (refine_party pid) b ∷ [])
            b)
unfolding note_prepared record_of
note_prepared-track pid es p c log d who = refl

pub note_commit-track :
    (pid : ℕ) (es : List Event) (p c log : Items) (d who : Tla)
    → let (a, b) =
        sent_states "CSendCommit"
          (refine_party pid)
          (refine_commit_msg pid)
          p
          c
          (str "commit")
          log in
      note_commit pid (track es (quiet p c d log who))
      ≡ ok (
          track
            ((es ++ event c_send_commit (refine_party pid) a ∷ [])
              ++ event network_take_message (refine_commit_msg pid) b ∷ [])
            b)
unfolding note_commit record_of
note_commit-track pid es p c log d who = refl

pub note_committed-track :
    (pid : ℕ) (es : List Event) (p c log : Items) (d who : Tla)
    → let (a, b) =
        received_states "CReceiveCommit"
          (refine_party pid)
          (refine_committed_msg pid)
          p
          c
          p
          (more c (refine_party pid))
          d
          log in
      note_committed pid (track es (quiet p c d log who))
      ≡ ok (
          track
            ((es ++ event network_deliver_message (refine_committed_msg pid) a ∷ [])
              ++ event c_receive_commit (refine_party pid) b ∷ [])
            b)
unfolding note_committed record_of
note_committed-track pid es p c log d who = refl

pub begin-track :
    (l : Log)
    → l.monitor.extra ≡ []
    → begin l
      ≡ ok (
          track
            (l.monitor.events ++ record { typ = initial; params = []; state = starting } ∷ [])
            (quiet no_items no_items (str "none") no_items coordinator))
unfolding begin starting record_of
begin-track l h = rw h
