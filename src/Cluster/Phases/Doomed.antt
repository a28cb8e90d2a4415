-- ===== src/Cluster/Phases/Doomed.antt =====
-- The log of `Put` once the monitor is bound to reject it (server/server.go,
-- server/TwoPhaseCommitFull.go).
use committer.Prelude.{ℕ, ◌≡◌, ◌≢◌, refl, ap, ◌∙◌, List, [], ◌∷◌, ◌++◌}
use committer.Go.{Go, ok}
use committer.Tla.{Tla, Items, str, no_items}
use committer.Monitor.{Event}
use committer.Monitor.Accepted.{Accepts-append_ne, check_events-append_ne}
use committer.Monitor.Trace.{check_events, check_trace}
use committer.Refine.{refine_party}
use committer.Cluster.Notes.{Log, note_propose, note_prepared, note_commit, note_committed}
use committer.Cluster.Watched.{Keeps}
use committer.Cluster.Phases.{quiet, track}
use committer.Cluster.Phases.Checks.{one, two, after, third_propose_violated, early_commit_violated}
use committer.Cluster.Phases.Runs.{
  note_propose-track, note_prepared-track, note_commit-track, note_committed-track,
}
use committer.Cluster.Phases.Tracked.{Tracked}

pub record Doomed (l : Log) : Type 0 where
  pub events : List Event
  pub prepared : Items
  pub committed : Items
  pub decision : Tla
  pub log : Items
  pub who : Tla
  pub same : l ≡ track events (quiet prepared committed decision log who)
  pub rejected : check_events events ≢ ok tt

pub Doomed-rejected : (l : Log) → Doomed l → check_trace l.monitor ≢ ok tt
unfolding check_trace
Doomed-rejected l t = rw t.same t.rejected

abbrev Dooms : Go Log → Type 0
Dooms g = (l : Log) × (g ≡ ok l) × Doomed l

two_events :
    {g : Go Log} (es : List Event) (a b : Event) (p c log : Items) (d who : Tla)
    → check_events (es ++ a ∷ []) ≢ ok tt
    → g ≡ ok (track ((es ++ a ∷ []) ++ b ∷ []) (quiet p c d log who))
    → Dooms g
two_events es a b p c log d who rejected run = (
  track ((es ++ a ∷ []) ++ b ∷ []) (quiet p c d log who),
  run,
  record {
    events = (es ++ a ∷ []) ++ b ∷ [];
    prepared = p;
    committed = c;
    decision = d;
    log = log;
    who = who;
    same = refl;
    rejected = check_events-append_ne (es ++ a ∷ []) b rejected;
  },
)

pub note_propose-Doomed : (pid : ℕ) → Keeps (note_propose pid) Doomed Doomed
note_propose-Doomed pid l t =
    two_events t.events _ _ t.prepared t.committed _ t.decision _
      (check_events-append_ne t.events _ t.rejected)
      (ap (note_propose pid) t.same
        ∙ note_propose-track pid t.events t.prepared t.committed t.log t.decision t.who)

pub note_prepared-Doomed : (pid : ℕ) → Keeps (note_prepared pid) Doomed Doomed
note_prepared-Doomed pid l t =
    two_events t.events _ _ _ t.committed _ t.decision _
      (check_events-append_ne t.events _ t.rejected)
      (ap (note_prepared pid) t.same
        ∙ note_prepared-track pid t.events t.prepared t.committed t.log t.decision t.who)

pub note_commit-Doomed : (pid : ℕ) → Keeps (note_commit pid) Doomed Doomed
note_commit-Doomed pid l t =
    two_events t.events _ _ t.prepared t.committed _ _ _
      (check_events-append_ne t.events _ t.rejected)
      (ap (note_commit pid) t.same
        ∙ note_commit-track pid t.events t.prepared t.committed t.log t.decision t.who)

pub note_committed-Doomed : (pid : ℕ) → Keeps (note_committed pid) Doomed Doomed
note_committed-Doomed pid l t =
    two_events t.events _ _ t.prepared _ _ t.decision _
      (check_events-append_ne t.events _ t.rejected)
      (ap (note_committed pid) t.same
        ∙ note_committed-track pid t.events t.prepared t.committed t.log t.decision t.who)

-- A third follower is proposed to when both parties of the monitor have prepared.
pub third_propose-Doomed : Keeps (note_propose 2) (Tracked (after two) no_items (str "none")) Doomed
third_propose-Doomed l t =
    two_events t.events _ _ (after two) no_items _ (str "none") _
      (Accepts-append_ne t.events (quiet (after two) no_items (str "none") t.log t.actor) _
        t.accepted (λ e. cc (third_propose_violated (refine_party 2) t.log t.actor, e)))
      (ap (note_propose 2) t.same
        ∙ note_propose-track 2 t.events (after two) no_items t.log (str "none") t.who)

-- A commit is sent when only one party has prepared.
pub early_commit-Doomed : Keeps (note_commit 0) (Tracked (after one) no_items (str "none")) Doomed
early_commit-Doomed l t =
    two_events t.events _ _ (after one) no_items _ (str "commit") _
      (Accepts-append_ne t.events (quiet (after one) no_items (str "none") t.log t.actor) _
        t.accepted (λ e. cc (early_commit_violated (refine_party 0) t.log t.actor, e)))
      (ap (note_commit 0) t.same
        ∙ note_commit-track 0 t.events (after one) no_items t.log (str "none") t.who)
