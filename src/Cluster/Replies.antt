-- ===== src/Cluster/Replies.antt =====
-- What `Put` can return (server/server.go).
use committer.Prelude.{inl, inr, ap, ℕ, ◌≡◌, true, List}
use committer.Go.{Go, ok, panic}
use committer.Proto.{Entry, Reply, ack, answer}
use committer.Database.{Database}
use committer.Server.Handlers.{Node, acknowledges}
use committer.Cluster.{Session, exit, crash}
use committer.Cluster.Notes.{Log}
use committer.Cluster.Stages.{
  Loop, log, with_log, for_followers, propose_turn, precommit_turn, commit_turn,
}
use committer.Cluster.Put.{begin, chain, persist, finish, rest_of_put, put}
use committer.Cluster.Loops.{finish-cases, for_followers-ne}
use committer.Cluster.Exits.{
  propose_turn-ne-exit, precommit_turn-ne, commit_turn-ne, persist-ne, chain-exit,
}

module _ (database : Database) (r : Reply) (good : acknowledges r ≡ true) where
  finish-exit :
      (s : Session database) (fs : List (Node database))
      → (finish database s fs).0 ≡ exit r
      → r ≡ answer ack 0
  finish-exit s fs h = elim (finish-cases database s fs) [
    | inl (p, stopped) ↦ cc (h, ap (λ (w : Loop database). w.0) stopped)
    | inr acked ↦ cc (h, ap (λ (w : Loop database). w.0) acked)
  ]

  rest_of_put-exit :
      (s : Session database) (fs : List (Node database))
      → (rest_of_put database s fs).0 ≡ exit r
      → r ≡ answer ack 0
  unfolding rest_of_put
  rest_of_put-exit s fs h =
      let w = for_followers database (precommit_turn database) 0 s fs in
      let third = λ (t : Session database) (gs : List (Node database)).
        chain database (for_followers database (commit_turn database) 0 t gs) (finish database) in
      let second = λ (t : Session database) (gs : List (Node database)).
        chain database (persist database t gs) third in
      let (_, same) =
        chain-exit database w second r
          (for_followers-ne database (precommit_turn database) (exit r) (λ x. cc x)
            (precommit_turn-ne database r good) 0 s fs)
          h in
      let v = persist database w.1 w.2 in
      let (_, same') =
        chain-exit database v third r (persist-ne database r good w.1 w.2) (rw same at h) in
      let u = for_followers database (commit_turn database) 0 v.1 v.2 in
      let (_, same'') =
        chain-exit database u (finish database) r
          (for_followers-ne database (commit_turn database) (exit r) (λ x. cc x)
            (commit_turn-ne database r good) 0 v.1 v.2)
          (rw same' at rw same at h) in
      finish-exit u.1 u.2 (rw same'' at rw same' at rw same at h)

  -- An acknowledgement of `Put` has no error and carries no height.
  pub put-exit :
      (fuel : ℕ) (e : Entry) (s : Session database) (fs : List (Node database))
      → (put database fuel e s fs).0 ≡ exit r
      → r ≡ answer ack 0
  unfolding put
  put-exit fuel e s fs = begun (begin (log database s))
    where
      begun :
          (l : Go Log)
          → (elim l as (λ _. Loop database) [
            | panic p ↦ (crash p, s, fs)
            | ok l ↦
                chain database
                  (for_followers database
                    (propose_turn database fuel e)
                    0
                    (with_log database l s)
                    fs)
                  (rest_of_put database)
          ]).0
            ≡ exit r
          → r ≡ answer ack 0
      begun (panic p) = λ e. cc e
      begun (ok l) = λ h.
          let w =
            for_followers database (propose_turn database fuel e) 0 (with_log database l s) fs in
          let (_, same) =
            chain-exit database w (rest_of_put database) r
              (for_followers-ne database (propose_turn database fuel e) (exit r) (λ x. cc x)
                (λ pid u n. propose_turn-ne-exit database r fuel pid e u n) 0
                (with_log database l s) fs)
              h in
          rest_of_put-exit w.1 w.2 (rw same at h)
