-- ===== src/Cluster/Phases.antt =====
-- The states and events that the notes of `Put` go through (server/server.go).
pub mod Runs
pub mod Checks
pub mod Tracked
pub mod Doomed
use committer.Prelude.{String, List, [], ◌∷◌}
use committer.Tla.{Tla, Items, str, seq, rec, item, items, no_items, append}
use committer.Tla.Ops.{record_of}
use committer.Monitor.{State, Event, EventType}
use committer.Monitor.Clauses.{empty, coordinator}
use committer.Cluster.Notes.{Log}

-- The inboxes, or the outboxes, with `q` at the coordinator.
abbrev pub box : Tla → Tla
box q = rec (record_of (("coordinator", q) ∷ ("r1", empty) ∷ ("r2", empty) ∷ []))

abbrev pub view : Tla → Tla → Items → Items → Tla → Items → Tla → State
view inbox outbox prepared committed decision log who = record {
  who = who;
  actions = seq log;
  tm_committed = seq committed;
  outbox = box outbox;
  inflight = empty;
  tm_prepared = seq prepared;
  tm_decision = decision;
  tm_aborted = empty;
  rm_state = rec (record_of (("r1", str "working") ∷ ("r2", str "working") ∷ []));
  inbox = box inbox;
}

-- No message is on its way, a message is on its way to the network, or to the coordinator.
abbrev pub quiet : Items → Items → Tla → Items → Tla → State
quiet prepared committed decision log who = view empty empty prepared committed decision log who

abbrev pub sending : Tla → Items → Items → Tla → Items → Tla → State
sending m = view empty (seq (item m no_items))

abbrev pub receiving : Tla → Items → Items → Tla → Items → Tla → State
receiving m = view (seq (item m no_items)) empty

abbrev pub track : List Event → State → Log
track es s = record { gs = s; monitor = record { extra = []; events = es } }

abbrev pub event : EventType → Tla → State → Event
event typ p s = record { typ = typ; params = p ∷ []; state = s }

abbrev pub logged : Items → String → Tla → Items
logged log action p = append log (item (seq (items (str action ∷ p ∷ []))) no_items)

abbrev pub more : Items → Tla → Items
more vs v = append vs (item v no_items)

-- The two states that a note records.
abbrev pub sent_states : String → Tla → Tla → Items → Items → Tla → Items → State × State
sent_states action r m p c d log = (
  sending m p c d (logged log action r) coordinator,
  quiet p c d (logged (logged log action r) "NetworkTakeMessage" m) (str "Network"),
)

abbrev pub received_states :
    String → Tla → Tla → Items → Items → Items → Items → Tla → Items → State × State
received_states action r m p c p' c' d log = (
  receiving m p c d (logged log "NetworkDeliverMessage" m) (str "Network"),
  quiet p' c' d (logged (logged log "NetworkDeliverMessage" m) action r) coordinator,
)
