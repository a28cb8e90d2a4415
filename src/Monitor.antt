-- ===== src/Monitor.antt =====
-- The state, the events and the log of the monitor (server/TwoPhaseCommitFull.go). `file` and
-- `line` of an event, which only its printed form shows, are left out.
pub mod Names
pub mod Clauses
pub mod Coordinator
pub mod Participant
pub mod Network
pub mod Trace
pub mod Accepted
pub mod Rejected
pub mod Log
use committer.Prelude.{
  ℕ, zero, suc, ◌+◌, Bool, true, false, not, Option, none, some, String, List, [], ◌∷◌, ◌++◌, ◌==◌,
  str_eq, if◌then◌else◌,
}
use committer.Go.{Go, ok, panic, uncomparable, index_out_of_range, ◌>>=◌}
use committer.Tla.{Tla, nil, int, bool, str, seq, rec, set}
use committer.Tla.Ops.{eq}

pub record State : Type 0 where
  pub who : Tla
  pub actions : Tla
  pub tm_committed : Tla
  pub outbox : Tla
  pub inflight : Tla
  pub tm_prepared : Tla
  pub tm_decision : Tla
  pub tm_aborted : Tla
  pub rm_state : Tla
  pub inbox : Tla

pub data EventType : Type 0 where
  initial c_send_prepare p_handle_prepare c_receive_prepare c_receive_abort c_send_commit :
      EventType
  c_send_abort p_handle_commit c_receive_commit p_handle_abort network_take_message : EventType
  network_deliver_message : EventType

pub EventType-discrete : Discrete EventType
EventType-discrete = hlevel

pub record Event : Type 0 where
  pub typ : EventType
  pub params : List Tla
  pub state : State

pub record Monitor : Type 0 where
  pub extra : List Event
  pub events : List Event

unfoldable pub new_monitor : Monitor
new_monitor = record { extra = []; events = [] }

unfoldable pub reset : Monitor → Monitor
reset m = record m { events = [] }

unfoldable pub capture_variable : State → EventType → List Tla → Monitor → Monitor
capture_variable v typ args m = record m {
  extra = m.extra ++ record { typ = typ; params = args; state = v } ∷ [];
}

-- The Go comparison `p != q` of two interface values: values of one type that holds a slice or a
-- map panic.
differs : Tla → Tla → Go Bool
unfolding eq
differs (seq _) (seq _) = panic uncomparable
differs (rec _) (rec _) = panic uncomparable
differs (set _) (set _) = panic uncomparable
differs p q = ok (not (eq p q))

pub data CaptureError : Type 0 where
  type_mismatch : CaptureError
  arg_mismatch : ℕ → CaptureError

-- The loop over the parameters of one captured variable, from parameter `i` on.
match_args : ℕ → List Tla → List Tla → Go (Option CaptureError)
unfolding differs
match_args i [] args = ok none
match_args i (p ∷ ps) [] = panic index_out_of_range
match_args i (p ∷ ps) (a ∷ args) = do
  other ← differs p a
  let rest = match_args (i + 1) ps args
  if other then ok (some (arg_mismatch i)) else rest

abbrev or_else : Tla → Tla → Tla
or_else nil old = old
or_else new old = new

-- The fields of `v` that are not nil override those of `c`.
unfoldable pub override : State → State → State
override v c = record {
  who = or_else v.who c.who;
  actions = or_else v.actions c.actions;
  tm_committed = or_else v.tm_committed c.tm_committed;
  outbox = or_else v.outbox c.outbox;
  inflight = or_else v.inflight c.inflight;
  tm_prepared = or_else v.tm_prepared c.tm_prepared;
  tm_decision = or_else v.tm_decision c.tm_decision;
  tm_aborted = or_else v.tm_aborted c.tm_aborted;
  rm_state = or_else v.rm_state c.rm_state;
  inbox = or_else v.inbox c.inbox;
}

pub data Merged : Type 0 where
  merged : State → Merged
  refused : CaptureError → Merged

abbrev refuse_or : Option CaptureError → Go Merged → Go Merged
refuse_or none rest = rest
refuse_or (some e) rest = ok (refused e)

merge_extra : List Event → State → EventType → List Tla → Go Merged
unfolding match_args override EventType-discrete
merge_extra [] c typ args = ok (merged c)
merge_extra (v ∷ vs) c typ args =
    let rest = merge_extra vs (override v.state c) typ args in
    elim (EventType-discrete v.typ typ) [
      | yes _ ↦ match_args 0 v.params args >>= λ e. refuse_or e rest
      | no _ ↦ ok (refused type_mismatch)
    ]

record_event : Monitor → EventType → List Tla → Merged → Monitor × Option CaptureError
record_event m typ args (refused e) = (m, some e)
record_event m typ args (merged c) = (
  record { extra = []; events = m.events ++ record { typ = typ; params = args; state = c } ∷ [] },
  none,
)

-- On an error the monitor is left as it was.
unfoldable pub capture_state :
    State → EventType → List Tla → Monitor → Go (Monitor × Option CaptureError)
unfolding merge_extra record_event
capture_state c typ args m = do
  merging ← merge_extra m.extra c typ args
  ok (record_event m typ args merging)
