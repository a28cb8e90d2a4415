-- ===== src/Cluster/History.antt =====
-- A coordinator that serves one `Put` after another (server/server.go).
use committer.Prelude.{ℕ, ◌≡◌, ◌≢◌, Bool, List, [], ◌∷◌, All, length}
use committer.Go.{Panic}
use committer.Proto.{Entry}
use committer.Database.{Database}
use committer.Monitor.Accepted.{IsAccepted}
use committer.Refine.{starting}
use committer.Server.Handlers.{Node}
use committer.Server.Interceptor.{Peer}
use committer.Cluster.{Session, Control, continue, exit, crash, out_of_fuel, Fate}
use committer.Cluster.Put.{put}
use committer.Cluster.Stages.{Loop}
use committer.Cluster.Watched.{FineLoop}
use committer.Cluster.Safety.{Stop, put-FineLoop}

-- A call of `Put`: its entry, whether its context has expired, and what the network does.
pub record Request : Type 0 where
  pub entry : Entry
  pub net : List Fate
  pub expired : Bool
  pub seen_as : Peer

module _ (database : Database) where
  abbrev pub session_of : Request → Node database → Session database
  session_of q self = record {
    self = self;
    gs = starting;
    net = q.net;
    expired = q.expired;
    seen_as = q.seen_as;
  }

  -- How each `Put` ends. One that has panicked, or that is still at its retry loop, is the last.
  unfoldable pub serve : ℕ → List Request → Node database → List (Node database) → List Control
  unfolding put
  serve fuel [] self fs = []
  serve fuel (q ∷ qs) self fs =
      let w = put database fuel q.entry (session_of q self) fs in
      w.0 ∷ elim w.0 [ exit r ↦ serve fuel qs w.1.self w.2 | _ ↦ [] ]

  abbrev pub NoPanic : Control → Type 0
  NoPanic c = (p : Panic) → c ≢ crash p

  -- A coordinator with two followers never panics, however many calls of `Put` it serves and
  -- whatever they end in, if the monitor's trace is accepted at the start.
  pub serve-NoPanic :
      (fuel : ℕ) (qs : List Request) (self : Node database) (fs : List (Node database))
      → IsAccepted self.monitor
      → length fs ≡ 2
      → All NoPanic (serve fuel qs self fs)
  unfolding serve
  serve-NoPanic fuel [] self fs m l = tt
  serve-NoPanic fuel (q ∷ qs) self fs m l =
      go (put database fuel q.entry (session_of q self) fs)
        (put-FineLoop database fuel q.entry (session_of q self) fs m l)
        (λ self' fs' m' l'. serve-NoPanic fuel qs self' fs' m' l')
    where
      go :
          (w : Loop database)
          → FineLoop database Stop ⊥ (λ _. ⊥) 2 w
          → ((self' : Node database) (fs' : List (Node database))
              → IsAccepted self'.monitor
              → length fs' ≡ 2
              → All NoPanic (serve fuel qs self' fs'))
          → All NoPanic (w.0 ∷ elim w.0 [ exit r ↦ serve fuel qs w.1.self w.2 | _ ↦ [] ])
      go (exit r, t, gs) u rest = (λ p e. cc e, rest t.self gs u.0 u.1)
      go (out_of_fuel, t, gs) u rest = (λ p e. cc e, tt)
      go (continue, t, gs) u rest = absurd u.0
      go (crash p, t, gs) u rest = absurd u
