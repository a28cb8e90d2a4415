-- ===== src/Cluster/Commits.antt =====
-- The precommit and the commit stage of `Put` (server/server.go), whatever the network does.
use committer.Prelude.{
  ℕ, inl, inr, sym, subst, ◌∙◌, true, Option, none, some, [], arith, u64_succ, ◌≡◌,
}
use committer.Go.{Go}
use mathlib.Core.Option.{some-injective}
use committer.Proto.{Entry, Response, Error, CommitRequest, PrecommitRequest}
use committer.Cache.{Msg}
use committer.Cache
use committer.Database.{Database, ok}
use committer.Server.Handlers.{Node, is_ack, acknowledges, precommit, commit}
use committer.Server.Commit.{commit_outcome}
use committer.Cluster.{Session, continue, Handler, Called, call}
use committer.Cluster.Calls.{Transmits, call-Transmits}
use committer.Cluster.Notes.{Log, note_commit, note_committed}
use committer.Cluster.Proposals.{Holds, Cached, msg_of}
use committer.Cluster.Stages.{
  Turn, noted, log, with_log, answered, precommit_turn, commit_turn, commit_request,
}

module _ (database : Database) where
  pub answered-eq_continue :
      (x : Option Error) (resp : Option Response) (s : Session database) (f : Node database)
      (k : Session database → Node database → Turn database)
      → (answered database x resp s f k).0 ≡ continue
      → (x ≡ none) × (is_ack resp ≡ true) × (answered database x resp s f k ≡ k s f)
  unfolding answered is_ack
  answered-eq_continue (some x) resp s f k h = cc
  answered-eq_continue none none s f k h = cc
  answered-eq_continue none (some r) s f k h = ground arith

  abbrev pub precommits : Session database → Handler database
  precommits s n = precommit database n (record { index = s.self.height })

  precommit-cache :
      (f : Node database) (req : PrecommitRequest)
      → (precommit database f req).1.node_cache ≡ f.node_cache
  unfolding precommit
  precommit-cache f req = ground arith

  pub far_cache :
      (s : Session database) (f : Node database) (c : Called database)
      → Transmits database s f (precommits s) c
      → c.2.node_cache ≡ f.node_cache
  far_cache s f c t = elim t.far_side [
    | inl same ↦ rw same
    | inr ran ↦ rw ran (precommit-cache f (record { index = s.self.height }))
  ]

  -- A precommit changes no cache and no height.
  pub precommit_turn_ends :
      (h : ℕ) (e : Entry) (pid : ℕ) (s : Session database) (f : Node database)
      → (precommit_turn database pid s f).0 ≡ continue
      → Cached database h e s
      → Holds database h e f
      → Cached database h e (precommit_turn database pid s f).1
        × Holds database h e (precommit_turn database pid s f).2
  unfolding precommit_turn
  precommit_turn_ends h e pid s f went c holds =
      let w = call database s f (precommits s) in
      let t = call-Transmits database s f (precommits s) in
      let (_, _, same) =
        answered-eq_continue w.0.error w.0.response w.1 w.2 (λ u g. (continue, u, g)) went in
      rw same (
        subst (λ n. (n.height ≡ h) × Holds database h e n) (sym t.same_self) c,
        subst (λ m. Cache.get m h ≡ some (msg_of database e)) (sym (far_cache s f w t)) holds,
      )

  abbrev pub commits : Session database → Handler database
  commits s n = commit database (some []) n (commit_request database s)

  -- What is done once the follower has acknowledged the commit.
  unfoldable pub note_end : ℕ → Session database → Node database → Turn database
  note_end pid u g = noted database (note_committed pid (log database u)) u g λ v. (continue, v, g)

  -- A fact about a height and a database.
  abbrev pub Fact : Type 1
  Fact = ℕ → database.State → Type 0

  -- `After` holds one height up, once the entry of `e` is written where `Before` held.
  abbrev pub Writes : Entry → Fact → Fact → Type 0
  Writes e Before After =
      (n : ℕ) (d d' : database.State)
      → Before n d
      → database.put d e.key e.value ≡ ok d'
      → After (u64_succ n) d'

  -- The coordinator is at the height `h` and has saved the message, but has not raised its height.
  abbrev pub Saved : Fact → ℕ → Session database → Type 0
  Saved After h s = (s.self.height ≡ h) × After (u64_succ h) s.self.db

  module _ (Before After : Fact) (h : ℕ) (e : Entry) (writes : Writes e Before After) where
    -- An acknowledged commit at the index of a cached message.
    commit-After :
        (f : Node database) (req : CommitRequest)
        → req.index ≡ h
        → Holds database h e f
        → Before f.height f.db
        → acknowledges (commit database (some []) f req).0 ≡ true
        → let g = (commit database (some []) f req).1 in After g.height g.db
    commit-After f req at holds before acked = elim (commit_outcome database (some []) f req) [
      | inr (refused, _, _) ↦ cc (refused, acked)
      | inl (m, _, found, put, raised, _) ↦
          let same : some (msg_of database e) ≡ some m = sym holds ∙ rw (← at) found in
          let g = (commit database (some []) f req).1 in
          let put' =
            subst (λ (x : Msg). database.put f.db x.key x.value ≡ ok g.db)
              (sym (some-injective _ _ same)) put in
          subst (λ n. After n g.db) (sym raised) (writes f.height f.db g.db before put')
    ]

    noted-Saved :
        (s : Session database) (f : Node database) (g : Go Log)
        (k : Session database → Turn database)
        → Saved After h s
        → ((t : Session database)
            → Saved After h t
            → (k t).0 ≡ continue
            → Saved After h (k t).1 × After (k t).2.height (k t).2.db)
        → (noted database g s f k).0 ≡ continue
        → let w = noted database g s f k in Saved After h w.1 × After w.2.height w.2.db
    noted-Saved s f (Go.ok l) k saved after went = after (with_log database l s) saved went
    noted-Saved s f (Go.panic p) k saved after went = cc

    committed_turn :
        (pid : ℕ) (t : Session database) (f : Node database) (c : Called database)
        → Transmits database t f (commits t) c
        → Saved After h t
        → Holds database h e f
        → Before f.height f.db
        → (answered database c.0.error c.0.response c.1 c.2 (note_end pid)).0 ≡ continue
        → let w = answered database c.0.error c.0.response c.1 c.2 (note_end pid) in
          Saved After h w.1 × After w.2.height w.2.db
    unfolding note_end acknowledges
    committed_turn pid t f c tr saved holds before went =
        let (fine, acked, same) =
          answered-eq_continue c.0.error c.0.response c.1 c.2 (note_end pid) went in
        elim tr.reply_side [
          | inr (x, bad) ↦ cc (bad, fine)
          | inl (_, reply, far) ↦
              let after : After c.2.height c.2.db = rw far (
                commit-After f (commit_request database t) saved.0 holds before
                  (rw (← reply, fine) acked)) in
              rw same (
                noted-Saved c.1 c.2 (note_committed pid (log database c.1))
                  (λ v. (continue, v, c.2))
                  (subst (λ (n : Node database). (n.height ≡ h) × After (u64_succ h) n.db)
                    (sym tr.same_self) saved)
                  (λ v saved' _. (saved', after)) (rw same at went))
        ]

    -- A follower that holds the message has written it once its turn is over.
    pub commit_turn_ends :
        (pid : ℕ) (s : Session database) (f : Node database)
        → (commit_turn database pid s f).0 ≡ continue
        → Saved After h s
        → Holds database h e f × Before f.height f.db
        → let w = commit_turn database pid s f in Saved After h w.1 × After w.2.height w.2.db
    unfolding commit_turn note_end
    commit_turn_ends pid s f went saved (holds, before) =
        noted-Saved s f (note_commit pid (log database s))
          (λ t.
            let c = call database t f (commits t) in
            answered database c.0.error c.0.response c.1 c.2 (note_end pid))
          saved
          (λ t saved' went'.
            committed_turn pid t f (call database t f (commits t))
              (call-Transmits database t f (commits t)) saved' holds before went')
          went
