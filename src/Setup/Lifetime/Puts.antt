-- ===== src/Setup/Lifetime/Puts.antt =====
-- The program of a coordinator that serves calls of `Put` (main.go, server/server.go).
use committer.Prelude.{ℕ, ◌≡◌, ◌≢◌, inl, inr, refl, sym, ap, subst, ◌∙◌, List, [], ◌∷◌, All, length}
use committer.Go.{Panic}
use committer.Config.{Flags, get}
use committer.Database.{Database}
use committer.Server.Handlers.{Node}
use committer.Cluster.{Control, continue, exit, crash, out_of_fuel}
use committer.Cluster.History.{Request, serve, NoPanic}
use committer.Cluster.Replicas.{settled}
use committer.Setup.{World}
use committer.Setup.Built.{main_server-Ready}
use committer.Setup.Built.Clients.{Dialled-length}
use committer.Setup.Service.{main_server-NoPanic}
use committer.Setup.Lifetime.{
  CallsEnd, drained, broken, pending, Host, crashed, main_program, Brings, main_program-Ends,
}

-- What becomes of calls of `Put`, one after another; one that has used up its rounds is still at its
-- retry loop.
unfoldable pub outcome : {State : Type 0} → List Control → State → CallsEnd State
outcome [] d = drained d
outcome (crash p ∷ cs) d = broken p
outcome (out_of_fuel ∷ cs) d = pending
outcome (_ ∷ cs) d = outcome cs d

outcome-ne-broken :
    {State : Type 0} (database : Database) (p : Panic) (cs : List Control) (d : State)
    → All (NoPanic database) cs
    → outcome cs d ≢ broken p
unfolding outcome
outcome-ne-broken database p [] d none_panics = λ e. cc e
outcome-ne-broken database p (crash q ∷ cs) d none_panics = absurd (none_panics.0 q refl)
outcome-ne-broken database p (out_of_fuel ∷ cs) d none_panics = λ e. cc e
outcome-ne-broken database p (exit r ∷ cs) d none_panics =
    outcome-ne-broken database p cs d none_panics.1
outcome-ne-broken database p (continue ∷ cs) d none_panics =
    outcome-ne-broken database p cs d none_panics.1

module _ (database : Database) (world : World database) where
  -- A process that serves calls of `Put` at a coordinator, with the nodes of its followers.
  abbrev pub puts_served :
      (fuel : ℕ) → List Request → List (Node database) → Node database → CallsEnd database.State
  puts_served fuel qs fs n =
      outcome (serve database fuel qs n fs) (settled database fuel qs n fs).0.db

  -- The program of a coordinator with two followers does not crash. If the flags name two followers
  -- and the process serves any sequence of calls of `Put`, one after another, with two nodes as its
  -- followers, whatever the network, the hooks and the database do, then it does not end by a panic
  -- of a call.
  pub main_program-ne-crashed :
      (process : Host database) (flags : Flags) (fuel : ℕ) (qs : List Request)
      (fs : List (Node database)) (p : Panic)
      → length (get flags).followers ≡ 2
      → length fs ≡ 2
      → ((l : process.Listener) (n : Node database) → process.served l n ≡ puts_served fuel qs fs n)
      → main_program database world process flags ≢ crashed p
  main_program-ne-crashed process flags fuel qs fs p two nodes serves h =
      elim (main_program-Ends database world process flags) [
        | inl (x, _, end) ↦ cc (h, end)
        | inr (s, n, made, usable, _, inl (x, _, end)) ↦ cc (h, end)
        | inr (s, n, made, usable, _, inr (l, _, brings)) ↦
            let ready = main_server-Ready database world flags s made in
            let clients =
              Dialled-length database world s.tracer (get flags).followers s.followers
                ready.dialled in
            let calm =
              main_server-NoPanic database world flags s n made usable two fs
                (nodes ∙ sym (clients ∙ two)) fuel qs in
            ended (serve database fuel qs n fs) (settled database fuel qs n fs).0.db calm (
              subst
                (λ w. Brings database world process w (main_program database world process flags))
                (serves l n) brings)
      ]
    where
      ended :
          (cs : List Control) (d : database.State)
          → All (NoPanic database) cs
          → Brings database world process (outcome cs d) (main_program database world process flags)
          → ⊥
      ended cs d calm brings =
          by_outcome (outcome cs d) (outcome-ne-broken database p cs d calm) brings
        where
          by_outcome :
              (w : CallsEnd database.State)
              → w ≢ broken p
              → Brings database world process w (main_program database world process flags)
              → ⊥
          by_outcome (broken q) ne end = ne (let same : q ≡ p = cc (h, end) in ap broken same)
          by_outcome pending ne end = cc (h, end)
          by_outcome (drained d') ne end = cc (h, end)
