-- ===== src/Cluster/Replicas/Lengths.antt =====
-- `Put` neither adds nor drops a follower (server/server.go).
use committer.Prelude.{
  ℕ, suc, ◌+◌, ◌≡◌, refl, ap, ◌∙◌, List, [], ◌∷◌, length, Option-cases, inl, inr,
}
use committer.Go.{Go}
use committer.Proto.{Entry}
use committer.Cache
use committer.Database.{Database, Result, ok, err}
use committer.Server.Handlers.{Node}
use committer.Cluster.{Session, continue, exit, crash, out_of_fuel}
use committer.Cluster.Notes.{Log}
use committer.Cluster.Stages.{
  Turn, Loop, log, onwards, for_followers, propose_turn, precommit_turn, commit_turn, with_log,
}
use committer.Cluster.Loops.{finish-cases}
use committer.Cluster.Put.{begin, chain, persist, persist_result, finish, rest_of_put, put}

module _ (database : Database) where
  onwards-length :
      (w : Turn database) (fs : List (Node database)) (k : Session database → Loop database)
      → ((t : Session database) → length (k t).2 ≡ length fs)
      → length (onwards database w fs k).2 ≡ suc (length fs)
  unfolding onwards
  onwards-length (continue, s, f) fs k same = ap suc (same s)
  onwards-length (exit r, s, f) fs k same = refl
  onwards-length (crash p, s, f) fs k same = refl
  onwards-length (out_of_fuel, s, f) fs k same = refl

  for_followers-length :
      (body : ℕ → Session database → Node database → Turn database) (pid : ℕ) (s : Session database)
      (fs : List (Node database))
      → length (for_followers database body pid s fs).2 ≡ length fs
  unfolding for_followers
  for_followers-length body pid s [] = refl
  for_followers-length body pid s (f ∷ fs) =
      onwards-length (body pid s f) fs (λ t. for_followers database body (pid + 1) t fs)
        (λ t. for_followers-length body (pid + 1) t fs)

  chain-length :
      (n : ℕ) (w : Loop database) (k : Session database → List (Node database) → Loop database)
      → length w.2 ≡ n
      → ((s : Session database) (fs : List (Node database)) → length fs ≡ n → length (k s fs).2 ≡ n)
      → length (chain database w k).2 ≡ n
  unfolding chain
  chain-length n (continue, s, fs) k same rest = rest s fs same
  chain-length n (exit r, s, fs) k same rest = same
  chain-length n (crash p, s, fs) k same rest = same
  chain-length n (out_of_fuel, s, fs) k same rest = same

  persist_result-length :
      (w : Result database.State) (s : Session database) (fs : List (Node database))
      → length (persist_result database w s fs).2 ≡ length fs
  unfolding persist_result
  persist_result-length (ok d) s fs = refl
  persist_result-length (err x) s fs = refl

  persist-length :
      (s : Session database) (fs : List (Node database))
      → length (persist database s fs).2 ≡ length fs
  unfolding persist
  persist-length s fs = elim (Option-cases (Cache.get s.self.node_cache s.self.height)) [
    | inl missing ↦ rw (missing, persist) refl
    | inr (m, found) ↦
        rw (found, persist) (persist_result-length (database.put s.self.db m.key m.value) s fs)
  ]

  finish-length :
      (s : Session database) (fs : List (Node database))
      → length (finish database s fs).2 ≡ length fs
  finish-length s fs = elim (finish-cases database s fs) [
    | inl (p, stopped) ↦ rw stopped refl
    | inr acked ↦ rw acked refl
  ]

  rest_of_put-length :
      (n : ℕ) (s : Session database) (fs : List (Node database))
      → length fs ≡ n
      → length (rest_of_put database s fs).2 ≡ n
  unfolding rest_of_put
  rest_of_put-length n s fs same =
      let commit_stage = λ (t : Session database) (gs : List (Node database)).
        chain database (for_followers database (commit_turn database) 0 t gs) (finish database) in
      chain-length n (for_followers database (precommit_turn database) 0 s fs)
        (λ t gs. chain database (persist database t gs) commit_stage)
        (for_followers-length (precommit_turn database) 0 s fs ∙ same)
        (λ t gs e.
          chain-length n (persist database t gs) commit_stage (persist-length t gs ∙ e) (λ u hs e'.
            chain-length n (for_followers database (commit_turn database) 0 u hs) (finish database)
              (for_followers-length (commit_turn database) 0 u hs ∙ e')
              (λ v ns e''. finish-length v ns ∙ e'')))

  pub put-length_same :
      (fuel : ℕ) (e : Entry) (s : Session database) (fs : List (Node database))
      → length (put database fuel e s fs).2 ≡ length fs
  unfolding put
  put-length_same fuel e s fs = begun (begin (log database s))
    where
      begun :
          (g : Go Log)
          → length
              (elim g as (λ _. Loop database) [
                | Go.panic p ↦ (crash p, s, fs)
                | Go.ok l ↦
                    chain database
                      (for_followers database
                        (propose_turn database fuel e)
                        0
                        (with_log database l s)
                        fs)
                      (rest_of_put database)
              ]).2
            ≡ length fs
      begun (Go.panic p) = refl
      begun (Go.ok l) =
          let t = with_log database l s in
          chain-length (length fs) (for_followers database (propose_turn database fuel e) 0 t fs)
            (rest_of_put database) (for_followers-length (propose_turn database fuel e) 0 t fs)
            (λ u gs same. rest_of_put-length (length fs) u gs same)
