-- ===== src/Monitor/Accepted.antt =====
-- Traces that `CheckTrace` accepts, one event at a time (server/TwoPhaseCommitFull.go).
use committer.Prelude.{◌≡◌, ◌≢◌, refl, List, [], ◌∷◌, ◌++◌}
use committer.Go.{Go, ok, panic, ◌>>◌}
use committer.Monitor.{State, Event, Monitor}
use committer.Monitor.Trace.{check_event, check_from, check_events, check_trace}

-- The state of the last event, `s` if there is none.
abbrev pub last_state : State → List Event → State
last_state s [] = s
last_state s (e ∷ es) = last_state e.state es

-- A monitor whose trace is accepted, with nothing captured for the next event.
pub record IsAccepted (m : Monitor) : Type 0 where
  pub no_extra : m.extra ≡ []
  pub checked : check_trace m ≡ ok tt

>>-eq-ok :
    (m k k' : Go (Unit {0})) → (m >> k) ≡ ok tt → (k ≡ ok tt → k' ≡ ok tt) → (m >> k') ≡ ok tt
>>-eq-ok (ok _) k k' h f = f h
>>-eq-ok (panic p) k k' h f = cc

last_state-append :
    (s : State) (es : List Event) (e : Event) → last_state s (es ++ e ∷ []) ≡ e.state
last_state-append s [] e = refl
last_state-append s (x ∷ es) e = last_state-append x.state es e

check_from-append :
    (s : State) (es : List Event) (e : Event)
    → check_from s es ≡ ok tt
    → check_event e.typ e.params (last_state s es) e.state ≡ ok tt
    → check_from s (es ++ e ∷ []) ≡ ok tt
unfolding check_from
check_from-append s [] e h c = rw (c, check_from)
check_from-append s (x ∷ es) e h c =
    >>-eq-ok (check_event x.typ x.params s x.state) (check_from x.state es)
      (check_from x.state (es ++ e ∷ [])) h (λ rest. check_from-append x.state es e rest c)

-- A trace that is not empty, is accepted and ends in the state `s`.
pub record Accepts (es : List Event) (s : State) : Type 0 where
  pub start : Event
  pub later : List Event
  pub form : es ≡ start ∷ later
  pub checked : check_from start.state (start ∷ later) ≡ ok tt
  pub last : last_state start.state later ≡ s

pub Accepts-append :
    (es : List Event) (s : State) (e : Event)
    → Accepts es s
    → check_event e.typ e.params s e.state ≡ ok tt
    → Accepts (es ++ e ∷ []) e.state
Accepts-append es s e a c = record {
  start = a.start;
  later = a.later ++ e ∷ [];
  form = rw a.form;
  checked = check_from-append a.start.state (a.start ∷ a.later) e a.checked (rw a.last c);
  last = last_state-append a.start.state a.later e;
}

-- An event that is accepted after any state may follow any trace, and may start one.
pub Accepts-start :
    (es : List Event) (e : Event)
    → check_events es ≡ ok tt
    → ((s : State) → check_event e.typ e.params s e.state ≡ ok tt)
    → Accepts (es ++ e ∷ []) e.state
unfolding check_events
Accepts-start [] e h c = record {
  start = e;
  later = [];
  form = refl;
  checked = check_from-append e.state [] e refl (c e.state);
  last = refl;
}
Accepts-start (x ∷ es) e h c = record {
  start = x;
  later = es ++ e ∷ [];
  form = refl;
  checked = check_from-append x.state (x ∷ es) e h (c (last_state x.state es));
  last = last_state-append x.state es e;
}

pub Accepts-checked : (es : List Event) (s : State) → Accepts es s → check_events es ≡ ok tt
unfolding check_events
Accepts-checked es s a = rw a.form a.checked

>>-eq-ok_parts : (m k : Go (Unit {0})) → (m >> k) ≡ ok tt → (m ≡ ok tt) × (k ≡ ok tt)
>>-eq-ok_parts (ok tt) k h = (refl, h)
>>-eq-ok_parts (panic p) k h = cc

check_from-append_parts :
    (s : State) (es : List Event) (e : Event)
    → check_from s (es ++ e ∷ []) ≡ ok tt
    → (check_from s es ≡ ok tt) × (check_event e.typ e.params (last_state s es) e.state ≡ ok tt)
unfolding check_from
check_from-append_parts s [] e h =
    (refl, (>>-eq-ok_parts (check_event e.typ e.params s e.state) (ok tt) h).0)
check_from-append_parts s (x ∷ es) e h =
    let (first, rest) =
      >>-eq-ok_parts (check_event x.typ x.params s x.state) (check_from x.state (es ++ e ∷ [])) h in
    let (more, last) = check_from-append_parts x.state es e rest in
    (rw (first, check_from) more, last)

-- A trace that is rejected stays so.
pub check_events-append_ne :
    (es : List Event) (e : Event) → check_events es ≢ ok tt → check_events (es ++ e ∷ []) ≢ ok tt
unfolding check_events
check_events-append_ne [] e h = absurd (h refl)
check_events-append_ne (x ∷ es) e h = λ all. h (check_from-append_parts x.state (x ∷ es) e all).0

-- An event that is not accepted after the last state makes the trace rejected.
pub Accepts-append_ne :
    (es : List Event) (s : State) (e : Event)
    → Accepts es s
    → check_event e.typ e.params s e.state ≢ ok tt
    → check_events (es ++ e ∷ []) ≢ ok tt
unfolding check_events
Accepts-append_ne es s e a h =
    rw a.form
      (λ all. h (rw a.last at (check_from-append_parts a.start.state (a.start ∷ a.later) e all).1))
