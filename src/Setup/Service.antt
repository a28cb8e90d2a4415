-- ===== src/Setup/Service.antt =====
-- The coordinator that `main` makes, as it serves calls of `Put` (main.go, server/server.go).
use committer.Prelude.{ℕ, ◌≡◌, sym, subst, ◌∙◌, some, List, ◌∷◌, All, length}
use committer.Config.{Flags, get}
use committer.Database.{Database, ok}
use committer.Monitor.Accepted.{IsAccepted}
use committer.Proto.{ack, answer}
use committer.Server.Handlers.{Node}
use committer.Cluster.{exit}
use committer.Cluster.Put.{put}
use committer.Cluster.History.{Request, session_of, serve, NoPanic, serve-NoPanic}
use committer.Cluster.Followers.{put-length}
use committer.Setup.{World, Draft, main_server, node_of}
use committer.Setup.Built.{Ready, main_server-Ready}
use committer.Setup.Built.Clients.{Dialled-length}

some-injective : {A : Type 0} {a b : A} → some a ≡ some b → a ≡ b
some-injective h = cc

module _ (database : Database) (world : World database) where
  -- The node that `main` makes has an accepted trace.
  made-IsAccepted :
      (flags : Flags) (s : Draft database world) (n : Node database)
      → Ready database world (get flags) s
      → node_of database world s ≡ some n
      → IsAccepted n.monitor
  made-IsAccepted flags s n r h =
      subst (λ x. IsAccepted x.monitor) (some-injective (sym r.usable ∙ h)) r.accepted

  connected :
      (flags : Flags) (s : Draft database world)
      → Ready database world (get flags) s
      → length s.followers ≡ length (get flags).followers
  connected flags s r =
      Dialled-length database world s.tracer (get flags).followers s.followers r.dialled

  -- A coordinator with two followers serves without a panic, from its start. If `main` makes a
  -- server, its configuration names two followers, and each connection leads to a node, then no call
  -- of `Put`, however many there are and whatever they end in, panics.
  pub main_server-NoPanic :
      (flags : Flags) (s : Draft database world) (n : Node database)
      → main_server database world flags ≡ ok s
      → node_of database world s ≡ some n
      → length (get flags).followers ≡ 2
      → (fs : List (Node database)) → length fs ≡ length s.followers
      → (fuel : ℕ) (qs : List Request) → All (NoPanic database) (serve database fuel qs n fs)
  main_server-NoPanic flags s n made h two fs dialled fuel qs =
      let r = main_server-Ready database world flags s made in
      serve-NoPanic database fuel qs n fs (made-IsAccepted flags s n r h)
        (dialled ∙ connected flags s r ∙ two)

  -- Only a coordinator with two followers can acknowledge its first `Put`. If `main` makes a server,
  -- each of its connections, of which there is at least one, leads to a node, and the first `Put`
  -- returns ACK, then the configuration names exactly two followers.
  main_server-length :
      (flags : Flags) (s : Draft database world) (n : Node database)
      → main_server database world flags ≡ ok s
      → node_of database world s ≡ some n
      → (f : Node database) (fs : List (Node database)) → length (f ∷ fs) ≡ length s.followers
      → (fuel : ℕ) (q : Request)
      → (put database fuel q.entry (session_of database q n) (f ∷ fs)).0 ≡ exit (answer ack 0)
      → length (get flags).followers ≡ 2
  main_server-length flags s n made h f fs dialled fuel q acked =
      let r = main_server-Ready database world flags s made in
      sym (connected flags s r)
      ∙ sym dialled
      ∙ put-length database fuel q.entry (session_of database q n) f fs
          (made-IsAccepted flags s n r h) acked
