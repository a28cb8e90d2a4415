-- ===== src/Monitor/Rejected.antt =====
-- Traces that `CheckTrace` rejects stay rejected (server/TwoPhaseCommitFull.go).
use committer.Prelude.{◌≡◌, refl, subst, List, [], ◌∷◌, ◌++◌}
use committer.Go.{Go, Panic, ok, panic, ◌>>=◌, ◌>>◌}
use committer.Tla.{Tla}
use committer.Monitor.{
  State, EventType, Event, Monitor, Merged, merged, refused, capture_state, record_event,
  merge_extra,
}
use committer.Monitor.Trace.{check_event, check_from, check_events, check_trace}

-- The check of the monitor's trace panics.
abbrev pub Rejects : Panic → Monitor → Type 0
Rejects p m = check_trace m ≡ panic p

-- A result, if there is one, with `P`.
pub record Okay {ℓ} {A : Type 0} (P : A → Type ℓ) (g : Go A) : Type ℓ where
  pub result : (x : A) → g ≡ ok x → P x

pub Okay-ok {ℓ} : {A : Type 0} (P : A → Type ℓ) (x : A) → P x → Okay P (ok x)
Okay-ok P x h = record { result = λ y same. let e : x ≡ y = cc same in subst P e h }

pub Okay-bind {ℓ} :
    {A B : Type 0} (P : A → Type ℓ) (Q : B → Type ℓ) (g : Go A) (next : A → Go B)
    → Okay P g
    → ((x : A) → P x → Okay Q (next x))
    → Okay Q (g >>= next)
Okay-bind P Q (ok x) next o h = h x (o.result x refl)
Okay-bind P Q (panic p) next o h = record { result = λ x same. cc same }

pub Okay-each {ℓ} :
    {A B : Type 0} (Q : B → Type ℓ) (g : Go A) (next : A → Go B)
    → ((x : A) → Okay Q (next x))
    → Okay Q (g >>= next)
Okay-each Q (ok x) next h = h x
Okay-each Q (panic p) next h = record { result = λ x same. cc same }

>>-eq-panic :
    (p : Panic) (m k k' : Go (Unit {0}))
    → (m >> k) ≡ panic p
    → (k ≡ panic p → k' ≡ panic p)
    → (m >> k') ≡ panic p
>>-eq-panic p (ok _) k k' h f = f h
>>-eq-panic p (panic q) k k' h f = h

check_from-append :
    (p : Panic) (s : State) (es more : List Event)
    → check_from s es ≡ panic p
    → check_from s (es ++ more) ≡ panic p
unfolding check_from
check_from-append p s [] more h = cc h
check_from-append p s (e ∷ es) more h =
    >>-eq-panic p (check_event e.typ e.params s e.state) (check_from e.state es)
      (check_from e.state (es ++ more)) h (λ rest. check_from-append p e.state es more rest)

check_events-append :
    (p : Panic) (es more : List Event)
    → check_events es ≡ panic p
    → check_events (es ++ more) ≡ panic p
unfolding check_events
check_events-append p [] more h = cc h
check_events-append p (e ∷ es) more h = check_from-append p e.state (e ∷ es) more h

record_event-Rejects :
    (p : Panic) (m : Monitor) (typ : EventType) (args : List Tla) (c : Merged)
    → Rejects p m
    → Rejects p (record_event m typ args c).0
unfolding record_event check_trace
record_event-Rejects p m typ args (refused e) h = h
record_event-Rejects p m typ args (merged c) h = check_events-append p m.events _ h

pub capture_state-Rejects :
    (p : Panic) (c : State) (typ : EventType) (args : List Tla) (m : Monitor)
    → Rejects p m
    → Okay (λ w. Rejects p w.0) (capture_state c typ args m)
unfolding capture_state
capture_state-Rejects p c typ args m h =
    Okay-each (λ w. Rejects p w.0) (merge_extra m.extra c typ args)
      (λ x. ok (record_event m typ args x))
      (λ x.
        Okay-ok (λ w. Rejects p w.0) (record_event m typ args x)
          (record_event-Rejects p m typ args x h))
