-- ===== src/Examples/Protocol.antt =====
-- The theorems about `Put` and the handlers at concrete clusters.
use committer.Prelude.{◌≡◌, ◌≢◌, refl, true, false, [], ◌∷◌, arith}
use committer.Proto.{ack, answer}
use committer.Database.{in_memory, in_memory-DatabaseLaws}
use committer.Cluster.{Session, exit}
use committer.Cluster.Stages.{propose_turn}
use committer.Cluster.Exits.{propose_turn-ne-exit}
use committer.Cluster.Unlisted.{put-Unlisted}
use committer.Config.{includes}
use committer.Server.Interceptor.{host}
use committer.Cluster.Refusal.{put-refused, put-expired}
use committer.Cluster.Put.{put}
use committer.Cluster.Agreement.{Done, put-Done}
use committer.Examples.{node, session, entry}

put_two_followers :
    (put in_memory 1 entry
      (session "three-phase" 0 [])
      (node "three-phase" true 0 ∷ node "three-phase" true 0 ∷ [])).0
    ≡ exit (answer ack 0)
unfolding put
put_two_followers = refl

put-Done_example : Done in_memory 0 entry (
    put in_memory 1 entry
      (session "three-phase" 0 [])
      (node "three-phase" true 0 ∷ node "three-phase" true 0 ∷ []))
put-Done_example =
    put-Done in_memory in_memory-DatabaseLaws 1 entry (session "three-phase" 0 [])
      (node "three-phase" true 0) (node "three-phase" true 0 ∷ []) (omega arith) put_two_followers

propose_turn-ne-exit_example :
    (propose_turn in_memory 3 entry 0 (session "three-phase" 0 []) (node "three-phase" false 0)).0
    ≢ exit (answer ack 0)
propose_turn-ne-exit_example =
    propose_turn-ne-exit in_memory (answer ack 0) 3 0 entry (session "three-phase" 0 [])
      (node "three-phase" false 0)

put-refused_example :
    (put in_memory 3 entry (session "three-phase" 0 []) (node "three-phase" false 0 ∷ [])).0
    ≢ exit (answer ack 0)
put-refused_example =
    put-refused in_memory 3 entry (session "three-phase" 0 []) (node "three-phase" false 0) []
      (answer ack 0) (λ req. refl)

abbrev late_session : Session in_memory
late_session = record (session "three-phase" 0 []) { expired = true }

put-expired_example :
    (put in_memory 3 entry late_session (node "three-phase" true 0 ∷ [])).0 ≢ exit (answer ack 0)
put-expired_example =
    put-expired in_memory 3 entry late_session (node "three-phase" true 0) [] (answer ack 0) refl

abbrev stranger : Session in_memory
stranger = record (session "three-phase" 0 []) { seen_as = host "10.0.0.7" }

unlisted : includes (node "three-phase" true 0).config.whitelist "10.0.0.7" ≡ false
unfolding includes
unlisted = refl

put-Unlisted_example :
    (put in_memory 3 entry stranger (node "three-phase" true 0 ∷ [])).0 ≢ exit (answer ack 0)
put-Unlisted_example =
    put-Unlisted in_memory 3 entry stranger (node "three-phase" true 0) [] (answer ack 0) "10.0.0.7"
      refl unlisted
