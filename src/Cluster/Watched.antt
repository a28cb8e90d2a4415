-- ===== src/Cluster/Watched.antt =====
-- Rules for what `Put` leaves of the monitor's log (server/server.go), turn by turn.
pub mod Turns
pub mod Loops
use committer.Prelude.{
  ℕ, suc, ◌≡◌, ◌≢◌, refl, sym, subst, ap, Option, none, some, List, [], ◌∷◌, length,
}
use committer.Go
use committer.Go.{Go}
use committer.Proto.{Reply, Response, Error, Answer, ack, nack, answer, fails, not_acknowledged}
use committer.Database.{Database}
use committer.Server.Handlers.{Node}
use committer.Cluster.{Session, Control, continue, exit, crash, out_of_fuel}
use committer.Cluster.Notes.{Log}
use committer.Cluster.Stages.{Turn, Loop, noted, log, with_log, answered, onwards}
use committer.Cluster.Put.{chain}

-- A note that succeeds from a log with `P` and leaves one with `Q`.
abbrev pub Keeps : (Log → Go Log) → (Log → Type 0) → (Log → Type 0) → Type 0
Keeps note P Q = (l : Log) → P l → (l' : Log) × (note l ≡ Go.ok l') × Q l'

-- `Stop r l`: what holds of the log `l` if `Put` returns `r`. `Fault`: what a panic says.
module _ (database : Database) (Stop : Reply → Log → Type 0) (Fault : Type 0) where
  -- A turn that goes on with a log for which `P` holds, or stops.
  abbrev pub Fine : (Log → Type 0) → Turn database → Type 0
  Fine P (continue, s, f) = P (log database s)
  Fine P (exit r, s, f) = Stop r (log database s)
  Fine P (out_of_fuel, s, f) = Unit
  Fine P (crash p, s, f) = Fault

  -- The same of a loop, over `n` followers.
  abbrev pub FineLoop : (Log → Type 0) → ℕ → Loop database → Type 0
  FineLoop P n (continue, s, fs) = P (log database s) × (length fs ≡ n)
  FineLoop P n (exit r, s, fs) = Stop r (log database s) × (length fs ≡ n)
  FineLoop P n (out_of_fuel, s, fs) = Unit
  FineLoop P n (crash p, s, fs) = Fault

  -- `P` allows `Put` to stop with any reply but an acknowledgement.
  abbrev pub Stops : (Log → Type 0) → Type 0
  Stops P = (r : Reply) (l : Log) → r ≢ answer ack 0 → P l → Stop r l

  pub noted-Fine :
      (P Q R : Log → Type 0) (note : Log → Go Log) (s : Session database) (f : Node database)
      (k : Session database → Turn database)
      → Keeps note P Q
      → P (log database s)
      → ((l : Log) → Q l → Fine R (k (with_log database l s)))
      → Fine R (noted database (note (log database s)) s f k)
  noted-Fine P Q R note s f k keeps p h =
      let (l, ran, q) = keeps (log database s) p in rw ran (h l q)

  pub answered-Fine :
      (P Q : Log → Type 0) (x : Option Error) (resp : Option Response) (s : Session database)
      (f : Node database) (k : Session database → Node database → Turn database)
      → Stops P
      → P (log database s)
      → (x ≡ none → resp ≢ none)
      → Fine Q (k s f)
      → Fine Q (answered database x resp s f k)
  unfolding answered
  answered-Fine P Q (some x) resp s f k stops p h go_on =
      stops (answer nack 0) (log database s) (λ e. cc e) p
  answered-Fine P Q none none s f k stops p h go_on = absurd (h refl refl)
  answered-Fine P Q none (some r) s f k stops p h go_on = by_type r.typ
    where
      by_type :
          (t : Answer)
          → Fine Q (elim t as (λ _. Turn database) [
            | Answer.ack ↦ k s f
            | Answer.nack ↦ (exit (fails not_acknowledged), s, f)
          ])
      by_type Answer.ack = go_on
      by_type Answer.nack = stops (fails not_acknowledged) (log database s) (λ e. cc e) p

  pub onwards-FineLoop :
      (P Q : Log → Type 0) (n : ℕ) (w : Turn database) (fs : List (Node database))
      (k : Session database → Loop database)
      → length fs ≡ n
      → Fine P w
      → ((s : Session database) → P (log database s) → FineLoop Q n (k s))
      → FineLoop Q (suc n) (onwards database w fs k)
  unfolding onwards
  onwards-FineLoop P Q n (continue, s, f) fs k l h rest = more (k s) (rest s h)
    where
      more : (v : Loop database) → FineLoop Q n v → FineLoop Q (suc n) (v.0, v.1, f ∷ v.2)
      more (continue, t, gs) u = (u.0, ap suc u.1)
      more (exit r, t, gs) u = (u.0, ap suc u.1)
      more (out_of_fuel, t, gs) u = tt
      more (crash p, t, gs) u = u
  onwards-FineLoop P Q n (exit r, s, f) fs k l h rest = (h, ap suc l)
  onwards-FineLoop P Q n (out_of_fuel, s, f) fs k l h rest = tt
  onwards-FineLoop P Q n (crash p, s, f) fs k l h rest = h

  pub chain-FineLoop :
      (P Q : Log → Type 0) (n : ℕ) (w : Loop database)
      (k : Session database → List (Node database) → Loop database)
      → FineLoop P n w
      → ((s : Session database) (fs : List (Node database))
          → P (log database s)
          → length fs ≡ n
          → FineLoop Q n (k s fs))
      → FineLoop Q n (chain database w k)
  unfolding chain
  chain-FineLoop P Q n (continue, s, fs) k h rest = rest s fs h.0 h.1
  chain-FineLoop P Q n (exit r, s, fs) k h rest = h
  chain-FineLoop P Q n (out_of_fuel, s, fs) k h rest = tt
  chain-FineLoop P Q n (crash p, s, fs) k h rest = h
