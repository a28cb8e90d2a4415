-- ===== src/Monitor/Log/Runs.antt =====
-- The log of a whole trace that `CheckTrace` accepts (server/TwoPhaseCommitFull.go).
use committer.Prelude.{ℕ, suc, ◌≡◌, refl, ap, subst, ◌∙◌, true, List, [], ◌∷◌}
use committer.Go.{Go, ok, ◌>>=◌}
use committer.Tla.{Tla, Items, str, seq, rec, item, items, no_items, append}
use committer.Tla.Ops.{eq, as_seq, len, record_of}
use committer.Tla.Equality.{eq-eq-true}
use committer.Monitor.{
  State, EventType, Event, Monitor, initial, c_send_prepare, p_handle_prepare, c_receive_prepare,
  c_receive_abort, c_send_commit, c_send_abort, p_handle_commit, c_receive_commit, p_handle_abort,
  network_take_message, network_deliver_message,
}
use committer.Monitor.Clauses.{empty, append_to, logs}
use committer.Monitor.Coordinator.{
  boxes, check_initial, check_c_send_prepare, check_c_receive_prepare, check_c_receive_abort,
  check_c_send_commit, check_c_send_abort, check_c_receive_commit,
}
use committer.Monitor.Participant.{
  check_p_handle_prepare, check_p_handle_commit, check_p_handle_abort,
}
use committer.Monitor.Network.{check_network_take_message, check_network_deliver_message}
use committer.Monitor.Trace.{first, check_event, check_from, check_events, check_trace}
use committer.Monitor.Accepted.{last_state}
use committer.Monitor.Log.{Logged, bound, held, required, ok-injective}
use committer.Monitor.Log.Actions.{
  c_send_prepare-Logged, c_receive_prepare-Logged, c_receive_abort-Logged, c_send_commit-Logged,
  c_send_abort-Logged, c_receive_commit-Logged,
}
use committer.Monitor.Log.Answers.{
  p_handle_prepare-Logged, p_handle_commit-Logged, p_handle_abort-Logged,
  network_take_message-Logged, network_deliver_message-Logged,
}

-- A log of `n` entries, with no message in flight.
pub record HasLog (n : ℕ) (s : State) : Type 0 where
  pub entries : Items
  pub actions : s.actions ≡ seq entries
  pub count : len entries ≡ n
  pub inflight : s.inflight ≡ empty

-- The entries that the log has after an event: the first state of a transaction starts it anew.
abbrev pub logged_after : EventType → ℕ → ℕ
logged_after initial n = 0
logged_after _ n = suc n

abbrev pub logged_by : ℕ → List Event → ℕ
logged_by n [] = n
logged_by n (e ∷ es) = logged_by (logged_after e.typ n) es

len-append_one : (vs : Items) (v : Tla) → len (append vs (item v no_items)) ≡ suc (len vs)
unfolding len append
len-append_one no_items v = refl
len-append_one (item w vs) v = ap suc (len-append_one vs v)

logs-seq :
    (entry : List Tla) (vs : Items) (prev this : State)
    → prev.actions ≡ seq vs
    → logs entry prev this ≡ ok true
    → this.actions ≡ seq (append vs (item (seq (items entry)) no_items))
unfolding logs append_to as_seq
logs-seq entry vs prev this is h =
    (eq-eq-true this.actions (seq (append vs (item (seq (items entry)) no_items)))).0 (
      ok-injective (
        subst (λ a. (append_to a (seq (items entry)) >>= λ log. ok (eq this.actions log)) ≡ ok true)
          is h))

Logged-HasLog : (n : ℕ) (prev this : State) → HasLog n prev → Logged prev this → HasLog (suc n) this
Logged-HasLog n prev this l step = record {
  entries = append l.entries (item (seq (items step.entry)) no_items);
  actions = logs-seq step.entry l.entries prev this l.actions step.logged;
  count = len-append_one l.entries (seq (items step.entry)) ∙ ap suc l.count;
  inflight = (eq-eq-true this.inflight prev.inflight).0 step.still ∙ l.inflight;
}

check_initial-HasLog : (this : State) → check_initial this ≡ ok tt → HasLog 0 this
unfolding check_initial len
check_initial-HasLog this h =
    let (_, h₁) = held (eq this.tm_aborted empty) _ h in
    let (_, h₂) = held (eq this.tm_committed empty) _ h₁ in
    let (_, h₃) = held (eq this.tm_prepared empty) _ h₂ in
    let (_, h₄) = held (eq this.tm_decision (str "none")) _ h₃ in
    let (_, h₅) =
      held (eq this.rm_state (rec (record_of (("r1", str "working") ∷ ("r2", str "working") ∷ []))))
        _ h₄ in
    let (log, h₆) = held (eq this.actions empty) _ h₅ in
    let (_, h₇) = held (eq this.outbox boxes) _ h₆ in
    let (_, h₈) = held (eq this.inbox boxes) _ h₇ in
    let (_, h₉) = held (eq this.who (str "none")) _ h₈ in
    record {
      entries = no_items;
      actions = (eq-eq-true this.actions empty).0 log;
      count = refl;
      inflight = (eq-eq-true this.inflight empty).0 (required (eq this.inflight empty) _ h₉);
    }

-- An event whose check reads its first parameter.
one_more :
    (n : ℕ) (prev this : State) (ps : List Tla) (check : Tla → State → State → Go (Unit {0}))
    → ((r : Tla) (p t : State) → check r p t ≡ ok tt → Logged p t)
    → (first ps >>= λ r. check r prev this) ≡ ok tt
    → HasLog n prev
    → HasLog (suc n) this
one_more n prev this ps check rule h l =
    let (r, _, checked) = bound (first ps) h in
    Logged-HasLog n prev this l (rule r prev this checked)

check_event-HasLog :
    (t : EventType) (ps : List Tla) (n : ℕ) (prev this : State)
    → check_event t ps prev this ≡ ok tt
    → HasLog n prev
    → HasLog (logged_after t n) this
unfolding check_event
check_event-HasLog initial ps n prev this h l = check_initial-HasLog this h
check_event-HasLog c_send_prepare ps n prev this h l =
    one_more n prev this ps check_c_send_prepare c_send_prepare-Logged h l
check_event-HasLog p_handle_prepare ps n prev this h l =
    one_more n prev this ps check_p_handle_prepare p_handle_prepare-Logged h l
check_event-HasLog c_receive_prepare ps n prev this h l =
    one_more n prev this ps check_c_receive_prepare c_receive_prepare-Logged h l
check_event-HasLog c_receive_abort ps n prev this h l =
    one_more n prev this ps check_c_receive_abort c_receive_abort-Logged h l
check_event-HasLog c_send_commit ps n prev this h l =
    one_more n prev this ps check_c_send_commit c_send_commit-Logged h l
check_event-HasLog c_send_abort ps n prev this h l =
    one_more n prev this ps check_c_send_abort c_send_abort-Logged h l
check_event-HasLog p_handle_commit ps n prev this h l =
    one_more n prev this ps check_p_handle_commit p_handle_commit-Logged h l
check_event-HasLog c_receive_commit ps n prev this h l =
    one_more n prev this ps check_c_receive_commit c_receive_commit-Logged h l
check_event-HasLog p_handle_abort ps n prev this h l =
    one_more n prev this ps check_p_handle_abort p_handle_abort-Logged h l
check_event-HasLog network_take_message ps n prev this h l =
    one_more n prev this ps check_network_take_message network_take_message-Logged h l
check_event-HasLog network_deliver_message ps n prev this h l =
    one_more n prev this ps check_network_deliver_message network_deliver_message-Logged h l

check_from-HasLog :
    (n : ℕ) (prev : State) (es : List Event)
    → check_from prev es ≡ ok tt
    → HasLog n prev
    → HasLog (logged_by n es) (last_state prev es)
unfolding check_from
check_from-HasLog n prev [] h l = l
check_from-HasLog n prev (e ∷ es) h l =
    let (_, checked, rest) = bound (check_event e.typ e.params prev e.state) h in
    check_from-HasLog (logged_after e.typ n) e.state es rest
      (check_event-HasLog e.typ e.params n prev e.state checked l)

first_state :
    (x : Event)
    → x.typ ≡ initial
    → check_event x.typ x.params x.state x.state ≡ ok tt
    → HasLog 0 x.state
unfolding check_event
first_state x same c =
    check_initial-HasLog x.state
      (subst (λ t. check_event t x.params x.state x.state ≡ ok tt) same c)

-- What `CheckTrace` makes sure of about the log. If a trace is accepted and its first event is the
-- first state of a transaction, then at its end the log has one entry for each event since the last
-- such state, and no message is in flight.
pub check_trace-HasLog :
    (m : Monitor) (e : Event) (es : List Event)
    → m.events ≡ e ∷ es
    → e.typ ≡ initial
    → check_trace m ≡ ok tt
    → HasLog (logged_by 0 es) (last_state e.state es)
unfolding check_trace check_events check_from
check_trace-HasLog m e es is start h =
    let (_, checked, rest) =
      bound (check_event e.typ e.params e.state e.state)
        (subst (λ xs. check_events xs ≡ ok tt) is h) in
    check_from-HasLog 0 e.state es rest (first_state e start checked)
