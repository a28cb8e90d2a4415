-- ===== src/Examples/Losses.antt =====
-- The theorem about a network that loses proposals, at a cluster in memory at the height 5.
use committer.Prelude.{◌≡◌, refl, true, [], ◌∷◌, ◌++◌, inl, inr, arith}
use committer.Proto.{ack, answer}
use committer.Database.{in_memory}
use committer.Monitor.Accepted.{IsAccepted}
use committer.Monitor.Trace.{check_trace}
use committer.Config.{includes}
use committer.Server.Handlers.{Node}
use committer.Cluster.{Session, delivered, request_lost, reply_lost, exit}
use committer.Cluster.Put.{put}
use committer.Cluster.Lossy.{put-acks_lossy}
use committer.Cluster.Lossy.Calls.{Calm, Willing}
use committer.Examples.{node, session, entry}

-- A follower below the coordinator's height.
abbrev low : Node in_memory
low = node "three-phase" true 3

abbrev level : Node in_memory
level = node "two-phase" true 5

-- The first follower's proposal is lost on its way, then its reply is; the second's reply is lost.
abbrev lossy_session : Session in_memory
lossy_session =
    session "three-phase" 5 (request_lost ∷ reply_lost ∷ delivered ∷ reply_lost ∷ delivered ∷ [])

lossy_session-IsAccepted : IsAccepted lossy_session.self.monitor
unfolding check_trace
lossy_session-IsAccepted = record { no_extra = refl; checked = refl }

low-Willing : Willing in_memory "127.0.0.1" 5 low
unfolding includes
low-Willing = record { proposes = λ _. refl; commits = λ _. refl; listed = refl; low = omega arith }

level-Willing : Willing in_memory "127.0.0.1" 5 level
unfolding includes
level-Willing = record {
  proposes = λ _. refl;
  commits = λ _. refl;
  listed = refl;
  low = omega arith;
}

lossy_session-Calm :
    Calm in_memory "127.0.0.1" 5
      ((request_lost ∷ reply_lost ∷ []) ++ delivered ∷ ((reply_lost ∷ []) ++ delivered ∷ []))
      lossy_session
lossy_session-Calm = record { in_time = refl; seen = refl; level = refl; coming = refl }

put-acks_lossy_example :
    (put in_memory 3 entry lossy_session (low ∷ level ∷ [])).0 ≡ exit (answer ack 0)
put-acks_lossy_example =
    put-acks_lossy in_memory "127.0.0.1" 5 entry 2 (request_lost ∷ reply_lost ∷ [])
      (reply_lost ∷ []) lossy_session low level (λ d. (_, refl)) lossy_session-IsAccepted
      low-Willing level-Willing (inl refl, (inr refl, tt)) (inr refl, tt) (omega arith)
      (omega arith) lossy_session-Calm
