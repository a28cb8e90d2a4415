-- ===== src/Cluster/Divergence.antt =====
-- `Put` with a first follower that never acknowledges the proposal (server/server.go), whatever the
-- reason: `Bad` stands for it.
use committer.Prelude.{ℕ, zero, suc, ◌≡◌, ◌≢◌, refl, Bool, true, false, List, ◌∷◌}
use committer.Go.{Go}
use committer.Proto.{Entry, Reply}
use committer.Database.{Database}
use committer.Server.Handlers.{Node, is_ack}
use committer.Cluster.{Session, continue, exit, crash, out_of_fuel, Called}
use committer.Cluster.Notes.{Log, note_propose}
use committer.Cluster.Rounds.{choose, round, propose_turn-suc, propose_turn-zero}
use committer.Cluster.Stages.{
  Turn, Loop, noted, log, with_log, propose_call, propose_turn, for_followers, onwards,
}
use committer.Cluster.Put.{begin, chain, rest_of_put, put}
use committer.Cluster.Exits.{propose_turn-ne-exit}

module _ (database : Database) (Bad : Session database → Node database → Type 0)
    (logging : (l : Log) (s : Session database) (f : Node database)
      → Bad s f
      → Bad (with_log database l s) f)
    (refusing : (e : Entry) (s : Session database) (f : Node database)
      → Bad s f
      → let c = propose_call database e s f in (is_ack c.0.response ≡ false) × Bad c.1 c.2) where
  choose_refused :
      (pid fuel : ℕ) (e : Entry) (c : Called database) (b : Bool)
      → b ≡ false
      → (propose_turn database fuel e pid c.1 c.2).0 ≢ continue
      → (choose database pid fuel e c b).0 ≢ continue
  unfolding choose
  choose_refused pid fuel e c false h n = n
  choose_refused pid fuel e c true h n = cc

  noted_refused :
      (g : Go Log) (s : Session database) (f : Node database) (k : Session database → Turn database)
      → ((l : Log) → (k (with_log database l s)).0 ≢ continue)
      → (noted database g s f k).0 ≢ continue
  noted_refused (Go.ok l) s f k h = h l
  noted_refused (Go.panic p) s f k h = λ e. cc e

  propose_turn_refused :
      (fuel pid : ℕ) (e : Entry) (s : Session database) (f : Node database)
      → Bad s f
      → (propose_turn database fuel e pid s f).0 ≢ continue
  unfolding round
  propose_turn_refused zero pid e s f bad = λ h. cc (propose_turn-zero database pid e s f, h)
  propose_turn_refused (suc fuel) pid e s f bad = rw (propose_turn-suc database fuel pid e s f) (
      noted_refused (note_propose pid (log database s)) s f (round database pid fuel e f) (λ l.
        let c = propose_call database e (with_log database l s) f in
        let (no_ack, bad') = refusing e (with_log database l s) f (logging l s f bad) in
        choose_refused pid fuel e c (is_ack c.0.response) no_ack
          (propose_turn_refused fuel pid e c.1 c.2 bad')))

  onwards-ends :
      (w : Turn database) (fs : List (Node database)) (k : Session database → Loop database)
      (r : Reply)
      → w.0 ≢ continue
      → w.0 ≢ exit r
      → ((onwards database w fs k).0 ≢ continue) × ((onwards database w fs k).0 ≢ exit r)
  unfolding onwards
  onwards-ends (continue, s, f) fs k r n m = absurd (n refl)
  onwards-ends (exit x, s, f) fs k r n m = (n, m)
  onwards-ends (crash p, s, f) fs k r n m = (n, m)
  onwards-ends (out_of_fuel, s, f) fs k r n m = (n, m)

  chain-ends :
      (w : Loop database) (k : Session database → List (Node database) → Loop database) (r : Reply)
      → (w.0 ≢ continue) × (w.0 ≢ exit r)
      → (chain database w k).0 ≢ exit r
  unfolding chain
  chain-ends (continue, s, fs) k r (n, m) = absurd (n refl)
  chain-ends (exit x, s, fs) k r (n, m) = m
  chain-ends (crash p, s, fs) k r (n, m) = m
  chain-ends (out_of_fuel, s, fs) k r (n, m) = m

  first_stage :
      (fuel : ℕ) (e : Entry) (s : Session database) (f : Node database) (fs : List (Node database))
      (r : Reply)
      → Bad s f
      → let w = for_followers database (propose_turn database fuel e) 0 s (f ∷ fs) in
        (w.0 ≢ continue) × (w.0 ≢ exit r)
  unfolding for_followers
  first_stage fuel e s f fs r bad =
      onwards-ends (propose_turn database fuel e 0 s f) fs
        (λ t. for_followers database (propose_turn database fuel e) 1 t fs) r
        (propose_turn_refused fuel 0 e s f bad) (propose_turn-ne-exit database r fuel 0 e s f)

  begun_refused :
      (g : Go Log) (s : Session database) (fs : List (Node database)) (r : Reply)
      (k : Session database → Loop database)
      → ((l : Log) → (k (with_log database l s)).0 ≢ exit r)
      → (elim g as (λ _. Loop database) [
        | Go.panic p ↦ (crash p, s, fs)
        | Go.ok l ↦ k (with_log database l s)
      ]).0
        ≢ exit r
  begun_refused (Go.ok l) s fs r k h = h l
  begun_refused (Go.panic p) s fs r k h = λ e. cc e

  pub put_never_returns :
      (fuel : ℕ) (e : Entry) (s : Session database) (f : Node database) (fs : List (Node database))
      (r : Reply)
      → Bad s f
      → (put database fuel e s (f ∷ fs)).0 ≢ exit r
  unfolding put
  put_never_returns fuel e s f fs r bad =
      begun_refused (begin (log database s)) s (f ∷ fs) r
        (λ t.
          chain database (for_followers database (propose_turn database fuel e) 0 t (f ∷ fs))
            (rest_of_put database))
        (λ l.
          chain-ends
            (for_followers database (propose_turn database fuel e) 0 (with_log database l s)
              (f ∷ fs))
            (rest_of_put database) r
            (first_stage fuel e (with_log database l s) f fs r (logging l s f bad)))
