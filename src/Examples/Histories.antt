-- ===== src/Examples/Histories.antt =====
-- The theorems about the monitor's trace and the height, at concrete clusters and calls.
use committer.Prelude.{
  ◌+◌, ◌%◌, ◌^◌, ◌≡◌, ◌≢◌, refl, true, false, some, List, [], ◌∷◌, All, length, arith,
}
use committer.Go.{Panic, ok}
use committer.Proto.{Reply, ack, answer, three_phase_commit}
use committer.Database.{in_memory}
use committer.Monitor.{Monitor, Event, initial}
use committer.Monitor.Accepted.{IsAccepted, last_state}
use committer.Monitor.Log.Runs.{HasLog, logged_by, check_trace-HasLog}
use committer.Refine.{starting}
use committer.Monitor.Trace.{check_trace}
use committer.Server.Handlers.{Node}
use committer.Server.Heights.{IsValid, acked, run-IsValid}
use committer.Server.Events.{Call, proposes, commits, timeout, run}
use committer.Server.Interceptor.{host}
use committer.Server.Node.{is_three_phase}
use committer.Cluster.{delivered, request_lost, Session, exit, crash, continue}
use committer.Cluster.Put.{put}
use committer.Cluster.Stages.{propose_turn}
use committer.Cluster.CatchUp.{highest, propose_turn-height}
use committer.Cluster.History.{Request, serve, NoPanic, serve-NoPanic}
use committer.Cluster.Safety.{put-IsAccepted}
use committer.Cluster.Followers.{put-length}
use committer.Examples.{node, session, entry}

abbrev two : List (Node in_memory)
two = node "three-phase" true 0 ∷ node "three-phase" true 0 ∷ []

abbrev idle_session : Session in_memory
idle_session = session "three-phase" 0 []

starts-IsAccepted : IsAccepted idle_session.self.monitor
unfolding check_trace
starts-IsAccepted = record { no_extra = refl; checked = refl }

put-IsAccepted_example :
    let w = put in_memory 1 entry idle_session two in
    ((p : Panic) → w.0 ≢ crash p) × ((r : Reply) → w.0 ≡ exit r → IsAccepted w.1.self.monitor)
put-IsAccepted_example =
    put-IsAccepted in_memory 1 entry idle_session (node "three-phase" true 0)
      (node "three-phase" true 0) starts-IsAccepted

acked_by_two : (put in_memory 1 entry idle_session two).0 ≡ exit (answer ack 0)
unfolding put
acked_by_two = refl

put-length_example : length two ≡ 2
put-length_example =
    put-length in_memory 1 entry idle_session (node "three-phase" true 0)
      (node "three-phase" true 0 ∷ []) starts-IsAccepted acked_by_two

abbrev requests : List Request
requests =
    record { entry = entry; net = []; expired = false; seen_as = host "127.0.0.1" }
    ∷ record { entry = entry; net = []; expired = true; seen_as = host "127.0.0.1" }
    ∷ []

serve-NoPanic_example : All (NoPanic in_memory) (serve in_memory 2 requests idle_session.self two)
serve-NoPanic_example =
    serve-NoPanic in_memory 2 requests idle_session.self two starts-IsAccepted refl

abbrev calls : List Call
calls =
    proposes
      (record { key = entry.key; value = entry.value; commit_type = three_phase_commit; index = 0 })
    ∷ commits (some []) (record { index = 0; is_rollback = false })
    ∷ timeout 0
    ∷ []

abbrev full : Node in_memory
full = node "three-phase" true 18446744073709551615

full-IsValid : IsValid in_memory full
unfolding is_three_phase
full-IsValid = record { bounded = omega arith; quiet = λ two_phase. refl }

run-IsValid_example :
    IsValid in_memory (run in_memory full calls)
    × ((run in_memory full calls).height ≡ (full.height + acked in_memory full calls) % 2 ^ 64)
run-IsValid_example = run-IsValid in_memory full calls full-IsValid

-- A `Put` that stops at the second precommit.
abbrev interrupted : Monitor
interrupted =
    (put in_memory 1 entry
      (session "three-phase" 0 (delivered ∷ delivered ∷ delivered ∷ request_lost ∷ []))
      two).1.self.monitor

abbrev later_events : List Event → List Event
later_events [] = []
later_events (e ∷ es) = es

abbrev first_event : Event
first_event = record { typ = initial; params = []; state = starting }

interrupted_events : interrupted.events ≡ first_event ∷ later_events interrupted.events
unfolding put
interrupted_events = refl

interrupted_accepted : check_trace interrupted ≡ ok tt
unfolding put check_trace
interrupted_accepted = refl

check_trace-HasLog_example :
    HasLog
      (logged_by 0 (later_events interrupted.events))
      (last_state starting (later_events interrupted.events))
check_trace-HasLog_example =
    check_trace-HasLog interrupted first_event (later_events interrupted.events) interrupted_events
      refl interrupted_accepted

-- The follower is two heights ahead.
abbrev ahead : Node in_memory
ahead = node "three-phase" true 2

goes_on : (propose_turn in_memory 2 entry 0 idle_session ahead).0 ≡ continue
unfolding propose_turn starting
goes_on = refl

propose_turn-height_example :
    let w = propose_turn in_memory 2 entry 0 idle_session ahead in
    (w.1.self.height ≡ highest 0 2) × (w.2.height ≡ 2)
propose_turn-height_example = propose_turn-height in_memory 2 0 entry idle_session ahead goes_on
