-- ===== src/Cluster/Notes/Rejected.antt =====
-- Notes of `Put` (server/server.go) to a monitor whose trace is rejected.
use committer.Prelude.{ℕ, String, List, [], ◌∷◌}
use committer.Go.{Go, Panic, ◌>>=◌}
use committer.Tla.{Tla, str}
use committer.Monitor.{
  EventType, capture_state, c_receive_prepare, c_receive_abort, c_receive_commit, c_send_prepare,
  c_send_commit, network_take_message, network_deliver_message,
}
use committer.Monitor.Clauses.{append_to, coordinator}
use committer.Monitor.Rejected.{Rejects, Okay, Okay-bind, Okay-each, Okay-ok, capture_state-Rejects}
use committer.Refine.{
  refine_party, refine_propose_msg, refine_propose_reply, refine_aborted_msg, refine_commit_msg,
  refine_committed_msg,
}
use committer.Cluster.Notes.{
  Log, capture, holds, entry, note_sent, note_delivered, note_read, note_prepared_by,
  note_committed_by, note_propose, note_prepared, note_aborted, note_commit, note_committed,
}

module _ (p : Panic) where
  abbrev pub Fails : Log → Type 0
  Fails l = Rejects p l.monitor

  pub capture-Fails :
      (typ : EventType) (args : List Tla) (l : Log) → Fails l → Okay Fails (capture typ args l)
  unfolding capture
  capture-Fails typ args l h =
      Okay-bind (λ w. Rejects p w.0) Fails (capture_state l.gs typ args l.monitor) _
        (capture_state-Rejects p l.gs typ args l.monitor h) (λ w h'. Okay-ok Fails _ h')

  -- Two values that are computed without the monitor, and what is noted of them.
  with_two :
      (a b : Go Tla) (k : Tla → Tla → Go Log)
      → ((x y : Tla) → Okay Fails (k x y))
      → Okay Fails (do x ← a; y ← b; k x y)
  with_two a b k h = Okay-each Fails a _ (λ x. Okay-each Fails b _ (λ y. h x y))

  note_sent-Fails :
      (typ : EventType) (action : String) (r msg : Tla) (l : Log)
      → Fails l
      → Okay Fails (note_sent typ action r msg l)
  unfolding note_sent
  note_sent-Fails typ action r msg l h =
      with_two (holds l.gs.outbox (msg ∷ [])) (append_to l.gs.actions (entry action r)) _
        (λ full acts.
          let sent = record (l.gs) { outbox = full; actions = acts; who = coordinator } in
          let k = record l { gs = sent } in
          Okay-bind Fails Fails (capture typ (r ∷ []) k) _ (capture-Fails typ (r ∷ []) k h)
            (λ l' h'.
              with_two (holds l'.gs.outbox [])
                (append_to l'.gs.actions (entry "NetworkTakeMessage" msg)) _
                (λ none_left acts'. capture-Fails network_take_message (msg ∷ []) _ h')))

  note_delivered-Fails : (msg : Tla) (l : Log) → Fails l → Okay Fails (note_delivered msg l)
  unfolding note_delivered
  note_delivered-Fails msg l h =
      with_two (holds l.gs.inbox (msg ∷ []))
        (append_to l.gs.actions (entry "NetworkDeliverMessage" msg)) _
        (λ full acts. capture-Fails network_deliver_message (msg ∷ []) _ h)

  note_read-Fails :
      (action : String) (r : Tla) (l : Log) → Fails l → Okay Fails (note_read action r l)
  unfolding note_read
  note_read-Fails action r l h =
      with_two (holds l.gs.inbox []) (append_to l.gs.actions (entry action r)) _
        (λ none_left acts. Okay-ok Fails _ h)

  -- A message that arrives and is read, what is then written down of it, and the event.
  received-Fails :
      (msg r : Tla) (action : String) (typ : EventType) (write_down : Log → Go Log) (l : Log)
      → ((k : Log) → Fails k → Okay Fails (write_down k))
      → Fails l
      → Okay Fails (do
        l₁ ← note_delivered msg l
        l₂ ← note_read action r l₁
        l₃ ← write_down l₂
        capture typ (r ∷ []) l₃)
  received-Fails msg r action typ write_down l keeps h =
      Okay-bind Fails Fails (note_delivered msg l) _ (note_delivered-Fails msg l h) (λ l₁ h₁.
        Okay-bind Fails Fails (note_read action r l₁) _ (note_read-Fails action r l₁ h₁) (λ l₂ h₂.
          Okay-bind Fails Fails (write_down l₂) _ (keeps l₂ h₂)
            (λ l₃ h₃. capture-Fails typ _ l₃ h₃)))

  note_prepared_by-Fails : (r : Tla) (l : Log) → Fails l → Okay Fails (note_prepared_by r l)
  unfolding note_prepared_by
  note_prepared_by-Fails r l h =
      Okay-each Fails (append_to l.gs.tm_prepared r) _ (λ more. Okay-ok Fails _ h)

  note_committed_by-Fails : (r : Tla) (l : Log) → Fails l → Okay Fails (note_committed_by r l)
  unfolding note_committed_by
  note_committed_by-Fails r l h =
      Okay-each Fails (append_to l.gs.tm_committed r) _ (λ more. Okay-ok Fails _ h)

  pub note_propose-Fails : (pid : ℕ) (l : Log) → Fails l → Okay Fails (note_propose pid l)
  unfolding note_propose
  note_propose-Fails pid l h =
      note_sent-Fails c_send_prepare "CSendPrepare" (refine_party pid) (refine_propose_msg pid) l h

  pub note_commit-Fails : (pid : ℕ) (l : Log) → Fails l → Okay Fails (note_commit pid l)
  unfolding note_commit
  note_commit-Fails pid l h =
      note_sent-Fails c_send_commit "CSendCommit" (refine_party pid) (refine_commit_msg pid)
        (record l { gs = record (l.gs) { tm_decision = str "commit" } }) h

  pub note_prepared-Fails : (pid : ℕ) (l : Log) → Fails l → Okay Fails (note_prepared pid l)
  unfolding note_prepared
  note_prepared-Fails pid l h =
      received-Fails (refine_propose_reply pid) (refine_party pid) "CReceivePrepare"
        c_receive_prepare (note_prepared_by (refine_party pid)) l
        (note_prepared_by-Fails (refine_party pid)) h

  pub note_aborted-Fails : (pid : ℕ) (l : Log) → Fails l → Okay Fails (note_aborted pid l)
  unfolding note_aborted
  note_aborted-Fails pid l h =
      received-Fails (refine_aborted_msg pid) (refine_party pid) "CReceiveAbort" c_receive_abort
        (note_prepared_by (refine_party pid)) l (note_prepared_by-Fails (refine_party pid)) h

  pub note_committed-Fails : (pid : ℕ) (l : Log) → Fails l → Okay Fails (note_committed pid l)
  unfolding note_committed
  note_committed-Fails pid l h =
      received-Fails (refine_committed_msg pid) (refine_party pid) "CReceiveCommit" c_receive_commit
        (note_committed_by (refine_party pid)) l (note_committed_by-Fails (refine_party pid)) h
