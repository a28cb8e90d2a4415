-- ===== src/Cluster/Stored.antt =====
-- What an acknowledged `Put` makes of every node (server/server.go), whatever the network does.
use committer.Prelude.{ℕ, ◌≡◌, ◌≤◌, refl, sym, subst, ap, some, List, ◌∷◌, All, u64_succ}
use committer.Go.{Go}
use committer.Proto.{Entry, ack, answer}
use committer.Cache
use committer.Database.{Database, Result, ok, err}
use committer.Monitor.Trace.{check_trace}
use committer.Server.Handlers.{Node}
use committer.Cluster.{Session, continue, exit, crash}
use committer.Monitor.{reset}
use committer.Cluster.Notes.{Log}
use committer.Cluster.Stages.{
  Loop, log, with_log, propose_turn, precommit_turn, commit_turn, for_followers,
}
use committer.Cluster.Put.{begin, chain, persist, persist_result, finish, put}
use committer.Cluster.Loops.{for_followers-All, for_followers-ne, onwards-eq_continue}
use committer.Cluster.Exits.{
  acknowledged, propose_turn-ne-exit, precommit_turn-ne-ack, commit_turn-ne-ack, persist-ne-ack,
  chain-exit,
}
use committer.Cluster.Proposals.{IsAt, Cached, Holds, msg_of, propose_turn-Ends}
use committer.Cluster.Commits.{Fact, Writes, Saved, precommit_turn_ends, commit_turn_ends}
use committer.Cluster.Frames.{propose_turn-Framed, precommit_turn-Framed}

module _ (database : Database) where
  abbrev pub Holding : Fact database → Node database → Type 0
  Holding K n = K n.height n.db

  -- The coordinator is one height above `h`, and every node has been written.
  abbrev pub Stored : Fact database → ℕ → Loop database → Type 0
  Stored After h w =
      (w.1.self.height ≡ u64_succ h) × After (u64_succ h) w.1.self.db × All (Holding After) w.2

  -- The message is cached, and nothing is written yet.
  abbrev Prepared : Fact database → ℕ → Entry → Session database → Type 0
  Prepared Before h e s = Cached database h e s × Before h s.self.db

  abbrev Waits : Fact database → ℕ → Entry → Node database → Type 0
  Waits Before h e n = Holds database h e n × Before n.height n.db

  finish-Stored :
      (After : Fact database) (h : ℕ) (s : Session database) (fs : List (Node database))
      → Saved database After h s
      → All (Holding After) fs
      → Stored After h (finish database s fs)
  unfolding finish
  finish-Stored After h s fs saved all = go (check_trace s.self.monitor)
    where
      raised : Session database
      raised = record s { self = record (s.self) { height = u64_succ s.self.height } }

      go :
          (g : Go (Unit {0}))
          → Stored After h (elim g as (λ _. Loop database) [
            | Go.panic p ↦ (crash p, raised, fs)
            | Go.ok _ ↦ (
              acknowledged database,
              record raised { self = record (raised.self) { monitor = reset s.self.monitor } },
              fs,
            )
          ])
      go (Go.panic p) = (ap u64_succ saved.0, saved.1, all)
      go (Go.ok _) = (ap u64_succ saved.0, saved.1, all)

  module _ (Before After : Fact database) (h : ℕ) (e : Entry)
      (writes : Writes database e Before After) where
    abbrev commit_stage : Session database → List (Node database) → Loop database
    commit_stage s fs =
        chain database (for_followers database (commit_turn database) 0 s fs) (finish database)

    commit_stage-Stored :
        (s : Session database) (fs : List (Node database))
        → Saved database After h s
        → All (Waits Before h e) fs
        → (commit_stage s fs).0 ≡ acknowledged database
        → Stored After h (commit_stage s fs)
    commit_stage-Stored s fs saved all acked =
        let w = for_followers database (commit_turn database) 0 s fs in
        let (went, same) =
          chain-exit database w (finish database) (answer ack 0)
            (for_followers-ne database (commit_turn database) (acknowledged database) (λ x. cc x)
              (commit_turn-ne-ack database) 0 s fs)
            acked in
        let (saved', all') =
          for_followers-All database (commit_turn database) (Saved database After h)
            (Waits Before h e) (Holding After)
            (λ pid t f. commit_turn_ends database Before After h e writes pid t f) 0 s fs went saved
            all in
        rw same (finish-Stored After h w.1 w.2 saved' all')

    persist_result-Saved :
        (w : Result database.State) (s : Session database) (fs : List (Node database))
        → database.put s.self.db e.key e.value ≡ w
        → s.self.height ≡ h
        → Before h s.self.db
        → (persist_result database w s fs).0 ≡ continue
        → Saved database After h (persist_result database w s fs).1
          × ((persist_result database w s fs).2 ≡ fs)
    unfolding persist_result
    persist_result-Saved (ok d) s fs put at before went =
        ((at, writes h s.self.db d before put), refl)
    persist_result-Saved (err x) s fs put at before went = cc

    persist-found :
        (s : Session database) (fs : List (Node database))
        → Cache.get s.self.node_cache s.self.height ≡ some (msg_of database e)
        → persist database s fs
          ≡ persist_result database (database.put s.self.db e.key e.value) s fs
    unfolding persist
    persist-found s fs found = rw (found, persist)

    persist-Saved :
        (s : Session database) (fs : List (Node database))
        → Prepared Before h e s
        → (persist database s fs).0 ≡ continue
        → Saved database After h (persist database s fs).1 × ((persist database s fs).2 ≡ fs)
    persist-Saved s fs (cached, before) went =
        let found =
          subst (λ i. Cache.get s.self.node_cache i ≡ some (msg_of database e)) (sym cached.0)
            cached.1 in
        let same = persist-found s fs found in
        rw same (
          persist_result-Saved (database.put s.self.db e.key e.value) s fs refl cached.0 before
            (rw same at went))

    persist_stage : Session database → List (Node database) → Loop database
    persist_stage s fs = chain database (persist database s fs) commit_stage

    persist_stage-Stored :
        (s : Session database) (fs : List (Node database))
        → Prepared Before h e s
        → All (Waits Before h e) fs
        → (persist_stage s fs).0 ≡ acknowledged database
        → Stored After h (persist_stage s fs)
    unfolding persist_stage
    persist_stage-Stored s fs cached all acked =
        let w = persist database s fs in
        let (went, same) =
          chain-exit database w commit_stage (answer ack 0) (persist-ne-ack database s fs) acked in
        let (saved, kept) = persist-Saved s fs cached went in
        rw same (
          commit_stage-Stored w.1 w.2 saved (subst (All (Waits Before h e)) (sym kept) all)
            (rw same at acked))

    moved :
        (f g : Node database)
        → g.height ≡ f.height
        → g.db ≡ f.db
        → Holding Before f
        → Holding Before g
    moved f g at same before =
        subst (λ n. Before n g.db) (sym at) (subst (Before f.height) (sym same) before)

    precommit_turn-Waits :
        (pid : ℕ) (s : Session database) (f : Node database)
        → (precommit_turn database pid s f).0 ≡ continue
        → Prepared Before h e s
        → Waits Before h e f
        → let w = precommit_turn database pid s f in Prepared Before h e w.1 × Waits Before h e w.2
    precommit_turn-Waits pid s f went (cached, before) (holds, before') =
        let w = precommit_turn database pid s f in
        let (cached', holds') = precommit_turn_ends database h e pid s f went cached holds in
        let a = precommit_turn-Framed database pid s f in
        (
          (cached', subst (Before h) (sym a.near_db) before),
          (holds', moved f w.2 a.far_height a.far_db before'),
        )

    precommit_stage : Session database → List (Node database) → Loop database
    unfolding persist_stage
    precommit_stage s fs =
        chain database (for_followers database (precommit_turn database) 0 s fs) persist_stage

    precommit_stage-Stored :
        (s : Session database) (fs : List (Node database))
        → Prepared Before h e s
        → All (Waits Before h e) fs
        → (precommit_stage s fs).0 ≡ acknowledged database
        → Stored After h (precommit_stage s fs)
    unfolding precommit_stage
    precommit_stage-Stored s fs cached all acked =
        let w = for_followers database (precommit_turn database) 0 s fs in
        let (went, same) =
          chain-exit database w persist_stage (answer ack 0)
            (for_followers-ne database (precommit_turn database) (acknowledged database) (λ x. cc x)
              (precommit_turn-ne-ack database) 0 s fs)
            acked in
        let (cached', all') =
          for_followers-All database (precommit_turn database) (Prepared Before h e)
            (Waits Before h e) (Waits Before h e)
            (λ pid t f went' p w'. precommit_turn-Waits pid t f went' p w') 0 s fs went cached
            all in
        rw same (persist_stage-Stored w.1 w.2 cached' all' (rw same at acked))

    propose_turn-Waits :
        (fuel pid : ℕ) (s : Session database) (f : Node database)
        → (propose_turn database fuel e pid s f).0 ≡ continue
        → IsAt database h s × Before h s.self.db
        → (f.height ≤ h) × Holding Before f
        → let w = propose_turn database fuel e pid s f in
          Prepared Before h e w.1 × Waits Before h e w.2
    propose_turn-Waits fuel pid s f went (at, before) (le, before') =
        let w = propose_turn database fuel e pid s f in
        let (cached, holds) = propose_turn-Ends database fuel pid h e s f at le went in
        let a = propose_turn-Framed database fuel pid e s f in
        (
          (cached, subst (Before h) (sym a.near_db) before),
          (holds, moved f w.2 a.far_height a.far_db before'),
        )

    -- The first follower's turn puts the message in the coordinator's cache.
    propose_loop-Waits :
        (fuel : ℕ) (s : Session database) (f : Node database) (fs : List (Node database))
        → IsAt database h s × Before h s.self.db
        → All (λ g. (g.height ≤ h) × Holding Before g) (f ∷ fs)
        → (for_followers database (propose_turn database fuel e) 0 s (f ∷ fs)).0 ≡ continue
        → let w = for_followers database (propose_turn database fuel e) 0 s (f ∷ fs) in
          Prepared Before h e w.1 × All (Waits Before h e) w.2
    unfolding for_followers
    propose_loop-Waits fuel s f fs at (le, all) went =
        let body = propose_turn database fuel e in
        let w = body 0 s f in
        let (first, rest, same) =
          onwards-eq_continue database w fs (λ t. for_followers database body 1 t fs) went in
        let (cached, holds) = propose_turn-Waits fuel 0 s f first at le in
        let (cached', all') =
          for_followers-All database body (Prepared Before h e)
            (λ n. (n.height ≤ h) × Holding Before n) (Waits Before h e)
            (λ pid t n went' c le'. propose_turn-Waits fuel pid t n went' (c.0.0, c.1) le') 1 w.1 fs
            rest cached all in
        rw same (cached', (holds, all'))

    put_from : ℕ → List (Node database) → Session database → Loop database
    unfolding precommit_stage
    put_from fuel fs s =
        chain database (for_followers database (propose_turn database fuel e) 0 s fs)
          precommit_stage

    put_from-Stored :
        (fuel : ℕ) (f : Node database) (fs : List (Node database)) (s : Session database)
        → IsAt database h s × Before h s.self.db
        → All (λ n. (n.height ≤ h) × Holding Before n) (f ∷ fs)
        → (put_from fuel (f ∷ fs) s).0 ≡ acknowledged database
        → Stored After h (put_from fuel (f ∷ fs) s)
    unfolding put_from
    put_from-Stored fuel f fs s at le acked =
        let w = for_followers database (propose_turn database fuel e) 0 s (f ∷ fs) in
        let (went, same) =
          chain-exit database w precommit_stage (answer ack 0)
            (for_followers-ne database (propose_turn database fuel e) (acknowledged database)
              (λ x. cc x) (λ pid t g. propose_turn-ne-exit database (answer ack 0) fuel pid e t g) 0
              s (f ∷ fs))
            acked in
        let (cached, all) = propose_loop-Waits fuel s f fs at le went in
        rw same (precommit_stage-Stored w.1 w.2 cached all (rw same at acked))

    begun_Stored :
        (fuel : ℕ) (f : Node database) (fs : List (Node database)) (s : Session database)
        (g : Go Log)
        → IsAt database h s × Before h s.self.db
        → All (λ n. (n.height ≤ h) × Holding Before n) (f ∷ fs)
        → let w = elim g as (λ _. Loop database) [
          | Go.panic p ↦ (crash p, s, f ∷ fs)
          | Go.ok l ↦ put_from fuel (f ∷ fs) (with_log database l s)
        ] in
          w.0 ≡ acknowledged database → Stored After h w
    begun_Stored fuel f fs s (Go.ok l) at le acked =
        put_from-Stored fuel f fs (with_log database l s) at le acked
    begun_Stored fuel f fs s (Go.panic p) at le acked = cc

  -- For a coordinator with at least one follower, none of them ahead of it: whatever the network
  -- does, if `Put` returns ACK then the entry is written at every node, and the coordinator's height
  -- is one more.
  pub put-Stored :
      (Before After : Fact database) (fuel : ℕ) (e : Entry) (s : Session database)
      (f : Node database) (fs : List (Node database))
      → Writes database e Before After
      → Before s.self.height s.self.db
      → All (λ n. (n.height ≤ s.self.height) × Holding Before n) (f ∷ fs)
      → (put database fuel e s (f ∷ fs)).0 ≡ exit (answer ack 0)
      → Stored After s.self.height (put database fuel e s (f ∷ fs))
  unfolding put put_from
  put-Stored Before After fuel e s f fs writes before all acked =
      begun_Stored Before After s.self.height e writes fuel f fs s (begin (log database s))
        (refl, before) all acked
