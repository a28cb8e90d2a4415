-- ===== src/Cluster/Phases/Tracked.antt =====
-- The log of `Put` with two followers, as long as the monitor accepts it (server/server.go,
-- server/TwoPhaseCommitFull.go).
use committer.Prelude.{◌≡◌, refl, ap, ◌∙◌, subst, List, [], ◌∷◌, ◌++◌}
use committer.Go.{Go, ok}
use committer.Tla.{Tla, Items, str, no_items, append}
use committer.Tla.Ops.{record_of}
use committer.Monitor.{State, Event, initial}
use committer.Monitor.Clauses.{coordinator}
use committer.Monitor.Accepted.{IsAccepted, Accepts, Accepts-append, Accepts-start, Accepts-checked}
use committer.Monitor.Trace.{check_event, check_trace}
use committer.Refine.{starting, refine_party}
use committer.Cluster.Notes.{Log, note_propose, note_prepared, note_commit, note_committed}
use committer.Cluster.Put.{begin}
use committer.Cluster.Watched.{Keeps}
use committer.Cluster.Phases.{quiet, track}
use committer.Cluster.Phases.Checks.{
  Party, one, two, pid_of, before, after, decided, propose_accepted, prepared_accepted,
  commit_accepted, committed_accepted,
}
use committer.Cluster.Phases.Runs.{
  note_propose-track, note_prepared-track, note_commit-track, note_committed-track, begin-track,
}

-- Between two notes: who has prepared and committed, the decision, and an accepted trace. The actor
-- of the last event may be another than that of the state.
pub record Tracked (prepared committed : Items) (decision : Tla) (l : Log) : Type 0 where
  pub events : List Event
  pub log : Items
  pub who : Tla
  pub actor : Tla
  pub same : l ≡ track events (quiet prepared committed decision log who)
  pub accepted : Accepts events (quiet prepared committed decision log actor)

pub Tracked-IsAccepted : (p c : Items) (d : Tla) (l : Log) → Tracked p c d l → IsAccepted l.monitor
unfolding check_trace
Tracked-IsAccepted p c d l t =
    rw t.same (record { no_extra = refl; checked = Accepts-checked t.events _ t.accepted })

-- A log that succeeds and stays tracked.
abbrev Tracks : Go Log → Items → Items → Tla → Type 0
Tracks g p c d = (l : Log) × (g ≡ ok l) × Tracked p c d l

-- A note of two events, each accepted after the state before it.
two_events :
    {g : Go Log} (es : List Event) (s : State) (a b : Event) {p c log : Items} {d who : Tla}
    → Accepts es s
    → g ≡ ok (track ((es ++ a ∷ []) ++ b ∷ []) b.state)
    → check_event a.typ a.params s a.state ≡ ok tt
    → check_event b.typ b.params a.state b.state ≡ ok tt
    → b.state ≡ quiet p c d log who
    → Tracks g p c d
two_events es s a b {log = log} {who = who} acc run first second end =
    let all = Accepts-append (es ++ a ∷ []) a.state b (Accepts-append es s a acc first) second in
    (
      track ((es ++ a ∷ []) ++ b ∷ []) b.state,
      run,
      record {
        events = (es ++ a ∷ []) ++ b ∷ [];
        log = log;
        who = who;
        actor = who;
        same = ap (track ((es ++ a ∷ []) ++ b ∷ [])) end;
        accepted = subst (Accepts ((es ++ a ∷ []) ++ b ∷ [])) end all;
      },
    )

pub note_propose-Tracked :
    (q : Party)
    → Keeps
        (note_propose (pid_of q))
        (Tracked (before q) no_items (str "none"))
        (Tracked (before q) no_items (str "none"))
note_propose-Tracked q l t =
    let (first, second) = propose_accepted q t.log t.actor in
    two_events t.events (quiet (before q) no_items (str "none") t.log t.actor) _ _ t.accepted
      (ap (note_propose (pid_of q)) t.same
        ∙ note_propose-track (pid_of q) t.events (before q) no_items t.log (str "none") t.who)
      first second refl

pub note_prepared-Tracked :
    (q : Party)
    → Keeps
        (note_prepared (pid_of q))
        (Tracked (before q) no_items (str "none"))
        (Tracked (after q) no_items (str "none"))
unfolding refine_party append
note_prepared-Tracked one l t =
    let (first, second) = prepared_accepted one t.log t.actor in
    two_events t.events (quiet (before one) no_items (str "none") t.log t.actor) _ _ t.accepted
      (ap (note_prepared (pid_of one)) t.same
        ∙ note_prepared-track (pid_of one) t.events (before one) no_items t.log (str "none") t.who)
      first second refl
note_prepared-Tracked two l t =
    let (first, second) = prepared_accepted two t.log t.actor in
    two_events t.events (quiet (before two) no_items (str "none") t.log t.actor) _ _ t.accepted
      (ap (note_prepared (pid_of two)) t.same
        ∙ note_prepared-track (pid_of two) t.events (before two) no_items t.log (str "none") t.who)
      first second refl

pub note_commit-Tracked :
    (q : Party)
    → Keeps
        (note_commit (pid_of q))
        (Tracked (after two) (before q) (decided q))
        (Tracked (after two) (before q) (str "commit"))
note_commit-Tracked q l t =
    let (first, second) = commit_accepted q t.log t.actor in
    two_events t.events (quiet (after two) (before q) (decided q) t.log t.actor) _ _ t.accepted
      (ap (note_commit (pid_of q)) t.same
        ∙ note_commit-track (pid_of q) t.events (after two) (before q) t.log (decided q) t.who)
      first second refl

pub note_committed-Tracked :
    (q : Party)
    → Keeps
        (note_committed (pid_of q))
        (Tracked (after two) (before q) (str "commit"))
        (Tracked (after two) (after q) (str "commit"))
unfolding refine_party append
note_committed-Tracked one l t =
    let (first, second) = committed_accepted one t.log t.actor in
    two_events t.events (quiet (after two) (before one) (str "commit") t.log t.actor) _ _ t.accepted
      (ap (note_committed (pid_of one)) t.same
        ∙ note_committed-track (pid_of one) t.events (after two) (before one) t.log (str "commit")
            t.who)
      first second refl
note_committed-Tracked two l t =
    let (first, second) = committed_accepted two t.log t.actor in
    two_events t.events (quiet (after two) (before two) (str "commit") t.log t.actor) _ _ t.accepted
      (ap (note_committed (pid_of two)) t.same
        ∙ note_committed-track (pid_of two) t.events (after two) (before two) t.log (str "commit")
            t.who)
      first second refl

-- `Put` may begin with any accepted trace.
pub begin-Tracked :
    (l : Log) → IsAccepted l.monitor → Tracks (begin l) no_items no_items (str "none")
unfolding starting record_of check_event check_trace
begin-Tracked l m =
    let es = l.monitor.events ++ record { typ = initial; params = []; state = starting } ∷ [] in
    (
      track es (quiet no_items no_items (str "none") no_items coordinator),
      begin-track l m.no_extra,
      record {
        events = es;
        log = no_items;
        who = coordinator;
        actor = str "none";
        same = refl;
        accepted =
            Accepts-start l.monitor.events (record { typ = initial; params = []; state = starting })
              m.checked (λ s. refl);
      },
    )
