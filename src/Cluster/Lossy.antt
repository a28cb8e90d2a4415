-- ===== src/Cluster/Lossy.antt =====
-- A `Put` over a network that loses calls of the retry loop (server/server.go).
pub mod Calls
pub mod Turns
use committer.Prelude.{
  ℕ, suc, ◌≡◌, ◌≤◌, refl, sym, ap, ◌∙◌, String, List, [], ◌∷◌, ◌++◌, All, length, some, subst,
}
use committer.Tla.{str, no_items}
use committer.Proto.{Entry, ack, answer}
use committer.Cache
use committer.Cache.{Msg}
use committer.Database
use committer.Database.{Database}
use committer.Monitor.Accepted.{IsAccepted}
use committer.Server.Handlers.{Node}
use committer.Cluster.{Session, Fate, delivered, continue, exit, crash, out_of_fuel}
use committer.Cluster.Notes.{Log}
use committer.Cluster.Stages.{
  Turn, Loop, log, with_log, for_followers, onwards, propose_turn, precommit_turn, commit_turn,
}
use committer.Cluster.Put.{begin, chain, persist, persist_result, finish, rest_of_put, put}
use committer.Cluster.Phases.Checks.{one, two, before, after}
use committer.Cluster.Phases.Tracked.{
  Tracked, Tracked-IsAccepted, begin-Tracked, note_propose-Tracked, note_prepared-Tracked,
  note_commit-Tracked, note_committed-Tracked,
}
use committer.Cluster.Safety.{Proposing, Proposed, Committing, Sent, Committed}
use committer.Cluster.Lossy.Calls.{IsLost, Calm, Willing, Holds}
use committer.Cluster.Lossy.Turns.{
  Passes, Ends, with_log-Calm, propose_turn-Passes, precommit_turn-Passes, commit_turn-Ends,
}

module _ (database : Database) where
  onwards-continue :
      (w : Turn database) (fs : List (Node database)) (k : Session database → Loop database)
      → w.0 ≡ continue
      → onwards database w fs k ≡ ((k w.1).0, (k w.1).1, w.2 ∷ (k w.1).2)
  unfolding onwards
  onwards-continue (continue, s, f) fs k h = refl
  onwards-continue (exit r, s, f) fs k h = cc
  onwards-continue (crash p, s, f) fs k h = cc
  onwards-continue (out_of_fuel, s, f) fs k h = cc

  -- A loop over two followers whose turns go on.
  two_turns :
      (body : ℕ → Session database → Node database → Turn database) (s : Session database)
      (f g : Node database)
      → (body 0 s f).0 ≡ continue
      → (body 1 (body 0 s f).1 g).0 ≡ continue
      → let w = body 0 s f in
        let v = body 1 w.1 g in
        for_followers database body 0 s (f ∷ g ∷ []) ≡ (continue, v.1, w.2 ∷ v.2 ∷ [])
  unfolding for_followers
  two_turns body s f g first second =
      let w = body 0 s f in
      let v = body 1 w.1 g in
      let end : for_followers database body 1 w.1 (g ∷ []) ≡ (continue, v.1, v.2 ∷ []) =
        onwards-continue v [] (λ u. (continue, u, [])) second in
      onwards-continue w (g ∷ []) (λ t. for_followers database body 1 t (g ∷ [])) first
      ∙ ap (λ (l : Loop database). (l.0, l.1, w.2 ∷ l.2)) end

  persist-goes_on :
      (s : Session database) (fs : List (Node database)) (m : Msg) (d : database.State)
      → Cache.get s.self.node_cache s.self.height ≡ some m
      → database.put s.self.db m.key m.value ≡ Database.ok d
      → persist database s fs ≡ (continue, record s { self = record (s.self) { db = d } }, fs)
  unfolding persist persist_result
  persist-goes_on s fs m d found put = rw (found, persist) (rw put refl)

  -- The end of a `Put` whose trace is accepted.
  finish-acks :
      (s : Session database) (fs : List (Node database))
      → Committed (log database s)
      → (finish database s fs).0 ≡ exit (answer ack 0)
  unfolding finish
  finish-acks s fs t =
      let m = Tracked-IsAccepted (after two) (after two) (str "commit") (log database s) t in
      rw (m.checked, finish) refl

  module _ (a : String) (h : ℕ) (e : Entry)
      (writes : (d : database.State)
        → (d' : database.State) × (database.put d e.key e.value ≡ Database.ok d')) where
    commit_stage-acks :
        (s : Session database) (f g : Node database)
        → Calm database a h [] s
        → Proposed two (log database s)
        → Willing database a h f × Holds database h e f
        → Willing database a h g × Holds database h e g
        → (chain database
            (for_followers database (commit_turn database) 0 s (f ∷ g ∷ []))
            (finish database)).0
          ≡ exit (answer ack 0)
    unfolding chain
    commit_stage-acks s f g c p (w, held) (w', held') =
        let (d, put) = writes f.db in
        let (d', put') = writes g.db in
        let first =
          commit_turn-Ends database a h e 0 (Committing one) (Sent one) (Committing two) s f d put
            (note_commit-Tracked one) (note_committed-Tracked one) c p w held in
        let t = (commit_turn database 0 s f).1 in
        let second =
          commit_turn-Ends database a h e 1 (Committing two) (Sent two) Committed t g d' put'
            (note_commit-Tracked two) (note_committed-Tracked two) first.calm first.tracked w'
            held' in
        rw (two_turns (commit_turn database) s f g first.goes_on second.goes_on)
          (finish-acks _ _ second.tracked)

    rest_of_put-acks :
        (s : Session database) (f g : Node database)
        → Calm database a h [] s
        → Proposed two (log database s)
        → Holds database h e s.self
        → Willing database a h f × Holds database h e f
        → Willing database a h g × Holds database h e g
        → (rest_of_put database s (f ∷ g ∷ [])).0 ≡ exit (answer ack 0)
    unfolding rest_of_put chain
    rest_of_put-acks s f g c p mine (w, held) (w', held') =
        let P = Proposed two in
        let first = precommit_turn-Passes database a h e 0 P s f c p mine w held in
        let t = (precommit_turn database 0 s f).1 in
        let second =
          precommit_turn-Passes database a h e 1 P t g first.calm first.tracked first.held w'
            held' in
        let u = (precommit_turn database 1 t g).1 in
        let (d, put) = writes u.self.db in
        let c' = second.calm in
        let found : Cache.get u.self.node_cache u.self.height
            ≡ some (record { key = e.key; value = e.value }) =
          subst
            (λ i. Cache.get u.self.node_cache i ≡ some (record { key = e.key; value = e.value }))
            (sym c'.level) second.held in
        rw (two_turns (precommit_turn database) s f g first.goes_on second.goes_on) (
          rw (chain, persist-goes_on u _ _ d found put)
            ((commit_stage-acks (record u { self = record (u.self) { db = d } }) _ _
              (record {
                in_time = c'.in_time;
                seen = c'.seen;
                level = c'.level;
                coming = c'.coming;
              })
              second.tracked (first.willing, first.cached) (second.willing, second.cached))))

  -- `Put` gets through a network that loses calls. A coordinator with an accepted trace and two
  -- followers that are not above its height, whose hooks consent and whose whitelists hold its host,
  -- over a database on which the entry can always be written: if each follower's proposals are lost
  -- at most `fuel` times, before or after the follower has run them, and every other call is
  -- delivered, then `suc fuel` rounds of the retry loop are enough for `Put` to return ACK, at every
  -- height and in every commit mode.
  pub put-acks_lossy :
      (a : String) (h : ℕ) (e : Entry) (fuel : ℕ) (losses losses' : List Fate)
      (s : Session database) (f g : Node database)
      → ((d : database.State)
          → (d' : database.State) × (database.put d e.key e.value ≡ Database.ok d'))
      → IsAccepted s.self.monitor
      → Willing database a h f
      → Willing database a h g
      → All IsLost losses
      → All IsLost losses'
      → length losses ≤ fuel
      → length losses' ≤ fuel
      → Calm database a h (losses ++ delivered ∷ (losses' ++ delivered ∷ [])) s
      → (put database (suc fuel) e s (f ∷ g ∷ [])).0 ≡ exit (answer ack 0)
  unfolding put chain
  put-acks_lossy a h e fuel losses losses' s f g writes m w w' all all' le le' c =
      let (b, ran, p) = begin-Tracked (log database s) m in
      let t = with_log database b s in
      let rest = losses' ++ delivered ∷ [] in
      let c' = with_log-Calm database a h e (losses ++ delivered ∷ rest) b s c in
      let first =
        propose_turn-Passes database a h e losses rest fuel 0 (Proposing one) (Proposing two) t f le
          all (note_propose-Tracked one) (note_prepared-Tracked one) c' p w in
      let u = (propose_turn database (suc fuel) e 0 t f).1 in
      let second =
        propose_turn-Passes database a h e losses' [] fuel 1 (Proposing two) (Proposed two) u g le'
          all' (note_propose-Tracked two) (note_prepared-Tracked two) first.calm first.tracked w' in
      rw (ran, put)
        (rw (two_turns (propose_turn database (suc fuel) e) t f g first.goes_on second.goes_on) (
          rest_of_put-acks a h e writes _ _ _ second.calm second.tracked second.held
            (first.willing, first.cached) (second.willing, second.cached)))
