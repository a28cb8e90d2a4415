-- ===== src/Cluster/Behind.antt =====
-- A coordinator that catches up with a follower in the middle of the proposals (server/server.go):
-- the followers asked before hold the message at the old height, and the commits name the new one.
pub mod Proposals
use committer.Prelude.{
  ℕ, zero, suc, ◌+◌, ◌≡◌, ◌≢◌, ◌⊎◌, ◌≤◌, ◌<◌, inl, inr, refl, sym, ◌∙◌, ap, subst, Bool, true,
  false, Option, none, some, List, [], ◌∷◌, All, arith, Option-cases, Bool-cases,
}
use committer.Go.{Go, ok, panic}
use committer.Proto.{Entry, Response, Error, ProposeRequest, ack, nack, answer}
use committer.Cache.{get-set}
use committer.Cache
use committer.Database.{Database, Result, err}
use committer.Server.Node.{set_progress}
use committer.Server.Handlers.{
  Node, is_ack, acknowledges, propose, propose_handler, precommit, commit,
}
use committer.Server.Commit.{commit_outcome}
use committer.Cluster.{Session, continue, exit, crash, Called, call}
use committer.Cluster.Calls.{Transmits, call-Transmits}
use committer.Cluster.Notes.{Log, note_propose, note_prepared, note_aborted, note_commit}
use committer.Cluster.Rounds.{asks, choose, round, propose_turn-suc, propose_turn-zero}
use committer.Cluster.Stages
use committer.Cluster.Stages.{
  Turn, Loop, noted, log, with_log, propose_request, propose_call, propose_turn, vote, confirm,
  cache_entry, answered, precommit_turn, commit_turn, for_followers, commit_request,
}
use committer.Cluster.Put.{begin, chain, persist, persist_result, finish, rest_of_put, put}
use committer.Cluster.Loops.{for_followers-All, for_followers-ne, onwards-eq_continue}
use committer.Cluster.Exits.{
  acknowledged, propose_turn-ne-exit, precommit_turn-ne-ack, commit_turn-ne-ack, persist-ne-ack,
  chain-exit,
}
use committer.Cluster.Commits.{answered-eq_continue, far_cache, commits, precommits, note_end}
use committer.Cluster.Proposals.{IsAt, propose_call-Keeps}
use committer.Cluster.CatchUp.{highest, propose_turn-height}
use committer.Cluster.Behind.Proposals.{NothingAbove, First, Above, All-unit, propose_loop-Above}

module _ (database : Database) where
  precommit_turn-same :
      (pid : ℕ) (s : Session database) (f : Node database)
      → (precommit_turn database pid s f).0 ≡ continue
      → let w = precommit_turn database pid s f in
        (w.1.self.height ≡ s.self.height) × (w.2.node_cache ≡ f.node_cache)
  unfolding precommit_turn
  precommit_turn-same pid s f went =
      let c = call database s f (precommits database s) in
      let t = call-Transmits database s f (precommits database s) in
      let (_, _, same) =
        answered-eq_continue database c.0.error c.0.response c.1 c.2 (λ u g. (continue, u, g))
          went in
      rw same (ap (λ (n : Node database). n.height) t.same_self, far_cache database s f c t)

  precommit_loop-Above :
      (h : ℕ) (s : Session database) (fs : List (Node database))
      → Above database h s
      → First database (NothingAbove database h) fs
      → (for_followers database (precommit_turn database) 0 s fs).0 ≡ continue
      → let w = for_followers database (precommit_turn database) 0 s fs in
        Above database h w.1 × First database (NothingAbove database h) w.2
  unfolding for_followers
  precommit_loop-Above h s [] above empty went = absurd empty
  precommit_loop-Above h s (f ∷ fs) above empty went =
      let body = precommit_turn database in
      let w = body 0 s f in
      let (first, rest, same) =
        onwards-eq_continue database w fs (λ t. for_followers database body 1 t fs) went in
      let (level, kept) = precommit_turn-same 0 s f first in
      let (above', _) =
        for_followers-All database body (Above database h) (λ _. Unit {0}) (λ _. Unit {0})
          (λ pid t n went' higher _.
            (subst (λ i. h < i) (sym (precommit_turn-same pid t n went').0) higher, tt))
          1 w.1 fs rest (subst (λ i. h < i) (sym level) above) (All-unit database fs) in
      rw same (above', λ i lt. subst (λ m. Cache.get m i ≡ none) (sym kept) (empty i lt))

  persist-Above :
      (h : ℕ) (s : Session database) (fs : List (Node database))
      → Above database h s
      → First database (NothingAbove database h) fs
      → (persist database s fs).0 ≡ continue
      → let w = persist database s fs in
        Above database h w.1 × First database (NothingAbove database h) w.2
  unfolding persist persist_result
  persist-Above h s fs above empty went = ground arith

  -- A commit above the height `h` finds no message.
  no_message :
      {h : ℕ} (t : Session database) (f : Node database) (c : Called database)
      → Above database h t
      → NothingAbove database h f
      → Transmits database t f (commits database t) c
      → c.0.error ≡ none
      → is_ack c.0.response ≡ true
      → ⊥
  unfolding acknowledges
  no_message t f c above empty tr fine acked = elim tr.reply_side [
    | inr (x, bad) ↦ cc (bad, fine)
    | inl (_, reply, far) ↦
        let r = (commit database (some []) f (commit_request database t)).0 in
        let acked' : acknowledges r ≡ true = rw (← reply, fine) acked in
        elim (commit_outcome database (some []) f (commit_request database t)) [
          | inr (refused, _, _) ↦ cc (refused, acked')
          | inl (m, _, found, _, _, _) ↦ cc (found, empty t.self.height above)
        ]
  ]

  commit_turn-ne-continue :
      (h pid : ℕ) (s : Session database) (f : Node database)
      → Above database h s
      → NothingAbove database h f
      → (commit_turn database pid s f).0 ≢ continue
  unfolding commit_turn note_end
  commit_turn-ne-continue h pid s f above empty = noted (note_commit pid (log database s))
    where
      noted :
          (g : Go Log)
          → (Stages.noted database g s f (λ t.
              let c = call database t f (commits database t) in
              answered database c.0.error c.0.response c.1 c.2 (note_end database pid))).0
            ≢ continue
      noted (panic p) = λ e. cc e
      noted (ok l) = λ went.
          let t = with_log database l s in
          let c = call database t f (commits database t) in
          let (fine, acked, _) =
            answered-eq_continue database c.0.error c.0.response c.1 c.2 (note_end database pid)
              went in
          no_message t f c above empty (call-Transmits database t f (commits database t)) fine acked

  commit_loop-ne-continue :
      (h : ℕ) (s : Session database) (fs : List (Node database))
      → Above database h s
      → First database (NothingAbove database h) fs
      → (for_followers database (commit_turn database) 0 s fs).0 ≢ continue
  unfolding for_followers
  commit_loop-ne-continue h s [] above empty = absurd empty
  commit_loop-ne-continue h s (f ∷ fs) above empty = λ went.
      commit_turn-ne-continue h 0 s f above empty
        (onwards-eq_continue database (commit_turn database 0 s f) fs
          (λ t. for_followers database (commit_turn database) 1 t fs) went).0

  commit_stage : Session database → List (Node database) → Loop database
  commit_stage s fs =
      chain database (for_followers database (commit_turn database) 0 s fs) (finish database)

  commit_stage-ne-ack :
      (h : ℕ) (s : Session database) (fs : List (Node database))
      → Above database h s
      → First database (NothingAbove database h) fs
      → (commit_stage s fs).0 ≢ acknowledged database
  unfolding commit_stage
  commit_stage-ne-ack h s fs above empty = λ acked.
      let w = for_followers database (commit_turn database) 0 s fs in
      let (went, _) =
        chain-exit database w (finish database) (answer ack 0)
          (for_followers-ne database (commit_turn database) (acknowledged database) (λ x. cc x)
            (commit_turn-ne-ack database) 0 s fs)
          acked in
      commit_loop-ne-continue h s fs above empty went

  persist_stage : Session database → List (Node database) → Loop database
  unfolding commit_stage
  persist_stage s fs = chain database (persist database s fs) commit_stage

  persist_stage-ne-ack :
      (h : ℕ) (s : Session database) (fs : List (Node database))
      → Above database h s
      → First database (NothingAbove database h) fs
      → (persist_stage s fs).0 ≢ acknowledged database
  unfolding persist_stage
  persist_stage-ne-ack h s fs above empty = λ acked.
      let w = persist database s fs in
      let (went, same) =
        chain-exit database w commit_stage (answer ack 0) (persist-ne-ack database s fs) acked in
      let (above', empty') = persist-Above h s fs above empty went in
      commit_stage-ne-ack h w.1 w.2 above' empty' (rw same at acked)

  rest_of_put-ne-ack :
      (h : ℕ) (s : Session database) (fs : List (Node database))
      → Above database h s
      → First database (NothingAbove database h) fs
      → (rest_of_put database s fs).0 ≢ acknowledged database
  unfolding rest_of_put persist_stage
  rest_of_put-ne-ack h s fs above empty = λ acked.
      let w = for_followers database (precommit_turn database) 0 s fs in
      let (went, same) =
        chain-exit database w persist_stage (answer ack 0)
          (for_followers-ne database (precommit_turn database) (acknowledged database) (λ x. cc x)
            (precommit_turn-ne-ack database) 0 s fs)
          acked in
      let (above', empty') = precommit_loop-Above h s fs above empty went in
      persist_stage-ne-ack h w.1 w.2 above' empty' (rw same at acked)

  -- A follower that is ahead spoils the `Put`. If the first follower is not ahead of the coordinator
  -- and has nothing cached above the coordinator's height, and the second follower is ahead of the
  -- coordinator, then `Put` never returns ACK, whatever the network does, in however many rounds.
  pub put-ne-ack :
      (fuel : ℕ) (e : Entry) (s : Session database) (f g : Node database)
      (fs : List (Node database))
      → f.height ≤ s.self.height
      → NothingAbove database s.self.height f
      → s.self.height < g.height
      → (put database fuel e s (f ∷ g ∷ fs)).0 ≢ exit (answer ack 0)
  unfolding put
  put-ne-ack fuel e s f g fs le empty ahead = begun (begin (log database s))
    where
      stage : Session database → Loop database
      stage t = for_followers database (propose_turn database fuel e) 0 t (f ∷ g ∷ fs)

      begun :
          (l : Go Log)
          → (elim l as (λ _. Loop database) [
            | panic p ↦ (crash p, s, f ∷ g ∷ fs)
            | ok l ↦ chain database (stage (with_log database l s)) (rest_of_put database)
          ]).0
            ≢ acknowledged database
      begun (panic p) = λ e. cc e
      begun (ok l) = λ acked.
          let t = with_log database l s in
          let w = stage t in
          let (went, same) =
            chain-exit database w (rest_of_put database) (answer ack 0)
              (for_followers-ne database (propose_turn database fuel e) (acknowledged database)
                (λ x. cc x) (λ pid u n. propose_turn-ne-exit database (answer ack 0) fuel pid e u n)
                0 t (f ∷ g ∷ fs))
              acked in
          let (above, empty') =
            propose_loop-Above database fuel s.self.height e t f g fs refl le empty ahead went in
          rest_of_put-ne-ack s.self.height w.1 w.2 above empty' (rw same at acked)
