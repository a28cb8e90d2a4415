-- ===== src/Cluster/Watched/Loops.antt =====
-- The rules at the loops of `Put` and at the write between them (server/server.go).
use committer.Prelude.{ℕ, ◌+◌, ◌≡◌, inl, inr, refl, some, List, [], ◌∷◌, length, Option-cases}
use committer.Proto.{Reply, nack, answer, fails, not_in_cache, failed_to_save}
use committer.Cache
use committer.Database.{Database, Result, ok, err}
use committer.Server.Handlers.{Node}
use committer.Cluster.{Session}
use committer.Cluster.Notes.{Log}
use committer.Cluster.Stages.{Turn, log, for_followers}
use committer.Cluster.Put.{persist, persist_result}
use committer.Cluster.Watched.{Fine, FineLoop, Stops, onwards-FineLoop}

module _ (database : Database) (Stop : Reply → Log → Type 0) (Fault : Type 0) where
  -- A loop whose turns all keep `P`.
  pub for_followers-FineLoop :
      (P : Log → Type 0) (body : ℕ → Session database → Node database → Turn database)
      → ((pid : ℕ) (s : Session database) (f : Node database)
          → P (log database s)
          → Fine database Stop Fault P (body pid s f))
      → (pid n : ℕ) (s : Session database) (fs : List (Node database)) → P (log database s)
      → length fs ≡ n
      → FineLoop database Stop Fault P n (for_followers database body pid s fs)
  unfolding for_followers
  for_followers-FineLoop P body turn pid n s [] p l = (p, l)
  for_followers-FineLoop P body turn pid n s (f ∷ fs) p l = rw (← l) (
      onwards-FineLoop database Stop Fault P P (length fs) (body pid s f) fs
        (λ t. for_followers database body (pid + 1) t fs) refl (turn pid s f p)
        (λ t p'. for_followers-FineLoop P body turn (pid + 1) (length fs) t fs p' refl))

  persist_result-FineLoop :
      (P : Log → Type 0) (n : ℕ) (w : Result database.State) (s : Session database)
      (fs : List (Node database))
      → Stops database Stop Fault P
      → P (log database s)
      → length fs ≡ n
      → FineLoop database Stop Fault P n (persist_result database w s fs)
  unfolding persist_result
  persist_result-FineLoop P n (ok d) s fs stops p l = (p, l)
  persist_result-FineLoop P n (err x) s fs stops p l = (
    stops (record (answer nack 0) { error = some failed_to_save }) (log database s) (λ e. cc e) p,
    l,
  )

  pub persist-FineLoop :
      (P : Log → Type 0) (n : ℕ) (s : Session database) (fs : List (Node database))
      → Stops database Stop Fault P
      → P (log database s)
      → length fs ≡ n
      → FineLoop database Stop Fault P n (persist database s fs)
  unfolding persist
  persist-FineLoop P n s fs stops p l =
      elim (Option-cases (Cache.get s.self.node_cache s.self.height)) [
        | inl missing ↦
            rw (missing, persist) (stops (fails not_in_cache) (log database s) (λ e. cc e) p, l)
        | inr (x, found) ↦
            rw (found, persist)
              (persist_result-FineLoop P n (database.put s.self.db x.key x.value) s fs stops p l)
      ]
