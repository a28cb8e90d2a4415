-- ===== src/Cluster/Lossy/Turns.antt =====
-- The turns of `Put` at willing followers, over a network that loses calls of the retry loop
-- (server/server.go).
use committer.Prelude.{
  ℕ, zero, suc, ◌≡◌, inl, inr, ◌≤◌, refl, sym, subst, String, none, some, List, [], ◌∷◌, ◌++◌, All,
  arith, length,
}
use committer.Proto.{Entry, PrecommitRequest, ack, answer, fails, unavailable}
use committer.Cache.{get-set}
use committer.Cache
use committer.Database
use committer.Database.{Database}
use committer.Server.Handlers.{Node, is_ack, precommit}
use committer.Server.Commit.{commit-Stored}
use committer.Cluster.{Session, Fate, delivered, client_side, continue}
use committer.Cluster.Notes.{Log, note_propose, note_prepared, note_commit, note_committed}
use committer.Cluster.Rounds.{asks, choose, round, propose_turn-suc}
use committer.Cluster.Stages.{
  Turn, log, with_log, propose_request, catch_up, cache_entry, confirm, vote, propose_call,
  propose_turn, answered, precommit_turn, commit_turn, commit_request,
}
use committer.Cluster.Commits.{commits, precommits}
use committer.Cluster.Watched.{Keeps}
use committer.Cluster.Lossy.Calls.{
  IsLost, Calm, Willing, Holds, later, call-delivered, call-lost, propose-Willing,
  precommit-Willing, later-Calm, later-Calm_nil,
}

module _ (database : Database) (a : String) (h : ℕ) (e : Entry) where
  -- A turn that goes on, with what holds of both sides after it.
  pub record Passes (net : List Fate) (P : Log → Type 0) (w : Turn database) : Type 0 where
    pub goes_on : w.0 ≡ continue
    pub calm : Calm database a h net w.1
    pub tracked : P (log database w.1)
    pub held : Holds database h e w.1.self
    pub willing : Willing database a h w.2
    pub cached : Holds database h e w.2

  pub with_log-Calm :
      (net : List Fate) (l : Log) (s : Session database)
      → Calm database a h net s
      → Calm database a h net (with_log database l s)
  with_log-Calm net l s c = record {
    in_time = c.in_time;
    seen = c.seen;
    level = c.level;
    coming = c.coming;
  }

  cache_entry-Calm :
      (net : List Fate) (s : Session database)
      → Calm database a h net s
      → Calm database a h net (cache_entry database e s)
  cache_entry-Calm net s c = record {
    in_time = c.in_time;
    seen = c.seen;
    level = c.level;
    coming = c.coming;
  }

  cache_entry-Holds :
      (net : List Fate) (s : Session database)
      → Calm database a h net s
      → Holds database h e (cache_entry database e s).self
  cache_entry-Holds net s c = rw get-set (ground (arith, c.level))

  -- A response at the coordinator's own height changes nothing.
  catch_up-eq_self :
      (net : List Fate) (s : Session database)
      → Calm database a h net s
      → catch_up database (answer ack h).response s ≡ s
  unfolding catch_up
  catch_up-eq_self net s c = ground (arith, c.level)

  propose_call-delivered :
      (net : List Fate) (s : Session database) (f : Node database)
      → Calm database a h (delivered ∷ net) s
      → Willing database a h f
      → propose_call database e s f ≡ (answer ack h, later database s, (asks database e s f).1)
  unfolding propose_call propose_request client_side
  propose_call-delivered net s f c w =
      let (reply, _, _) = propose-Willing database a h f (propose_request database s e) w c.level in
      rw (call-delivered database a h (delivered ∷ net) s f (asks database e s) c w refl) (
        rw reply (
          rw (catch_up-eq_self net (later database s) (later-Calm database a h delivered net s c))
            refl))

  propose_call-lost :
      (x : Fate) (net : List Fate) (s : Session database) (f : Node database)
      → Calm database a h (x ∷ net) s
      → Willing database a h f
      → IsLost x
      → (f' : Node database) × Willing database a h f'
        × (propose_call database e s f ≡ (fails unavailable, later database s, f'))
  unfolding propose_call propose_request catch_up
  propose_call-lost x net s f c w lost =
      let (_, after, _) = propose-Willing database a h f (propose_request database s e) w c.level in
      elim (call-lost database a h x net s f (asks database e s) c w lost) [
        | inl same ↦ (f, w, rw same refl)
        | inr ran ↦ ((asks database e s f).1, after, rw ran refl)
      ]

  -- The vote on an acknowledgement.
  vote-Passes :
      (net : List Fate) (pid : ℕ) (P Q : Log → Type 0) (s : Session database) (f : Node database)
      → Keeps (note_prepared pid) P Q
      → Calm database a h net s
      → P (log database s)
      → Willing database a h f
      → Holds database h e f
      → Passes net Q (vote database pid e none (answer ack h).response s f)
  unfolding vote confirm is_ack
  vote-Passes net pid P Q s f keeps c p w held =
      let (l, ran, q) = keeps (log database s) p in
      let t = cache_entry database e s in
      rw ran (record {
        goes_on = refl;
        calm = with_log-Calm net l t (cache_entry-Calm net s c);
        tracked = q;
        held = cache_entry-Holds net s c;
        willing = w;
        cached = held;
      })

  -- The retry loop: each loss costs one round.
  pub propose_turn-Passes :
      (losses net : List Fate) (fuel pid : ℕ) (P Q : Log → Type 0) (s : Session database)
      (f : Node database)
      → length losses ≤ fuel
      → All IsLost losses
      → Keeps (note_propose pid) P P
      → Keeps (note_prepared pid) P Q
      → Calm database a h (losses ++ delivered ∷ net) s
      → P (log database s)
      → Willing database a h f
      → Passes net Q (propose_turn database (suc fuel) e pid s f)
  unfolding round choose propose_request is_ack
  propose_turn-Passes [] net fuel pid P Q s f le all asked prepared c p w =
      let (l, ran, p') = asked (log database s) p in
      let t = with_log database l s in
      let c' = with_log-Calm (delivered ∷ net) l s c in
      let (_, after, held) =
        propose-Willing database a h f (propose_request database t e) w c'.level in
      rw (propose_turn-suc database fuel pid e s f) (
        rw ran (
          rw (propose_call-delivered net t f c' w) (
            vote-Passes net pid P Q (later database t) (asks database e t f).1 prepared
              (later-Calm database a h delivered net t c') p' after held)))
  propose_turn-Passes (x ∷ losses) net zero pid P Q s f le all asked prepared c p w =
      absurd (omega (arith, le))
  propose_turn-Passes (x ∷ losses) net (suc fuel) pid P Q s f le all asked prepared c p w =
      let (l, ran, p') = asked (log database s) p in
      let t = with_log database l s in
      let rest = losses ++ delivered ∷ net in
      let c' = with_log-Calm (x ∷ rest) l s c in
      let (f', w', lost) = propose_call-lost x rest t f c' w all.0 in
      rw (propose_turn-suc database (suc fuel) pid e s f) (
        rw ran (
          rw lost (
            propose_turn-Passes losses net fuel pid P Q (later database t) f' (omega (arith, le))
              all.1 asked prepared (later-Calm database a h x rest t c') p' w')))

  pub precommit_turn-Passes :
      (pid : ℕ) (P : Log → Type 0) (s : Session database) (f : Node database)
      → Calm database a h [] s
      → P (log database s)
      → Holds database h e s.self
      → Willing database a h f
      → Holds database h e f
      → Passes [] P (precommit_turn database pid s f)
  unfolding precommit_turn answered client_side precommit
  precommit_turn-Passes pid P s f c p mine w held =
      let req : PrecommitRequest = record { index = s.self.height } in
      let (_, after, kept) = precommit-Willing database a h e f req w held in
      rw (call-delivered database a h [] s f (precommits database s) c w refl) (record {
        goes_on = refl;
        calm = later-Calm_nil database a h s c;
        tracked = p;
        held = mine;
        willing = after;
        cached = kept;
      })

  -- The last turns: the followers' state does not matter any more.
  pub record Ends (P : Log → Type 0) (w : Turn database) : Type 0 where
    pub goes_on : w.0 ≡ continue
    pub calm : Calm database a h [] w.1
    pub tracked : P (log database w.1)

  pub commit_turn-Ends :
      (pid : ℕ) (P Q R : Log → Type 0) (s : Session database) (f : Node database)
      (d : database.State)
      → database.put f.db e.key e.value ≡ Database.ok d
      → Keeps (note_commit pid) P Q
      → Keeps (note_committed pid) Q R
      → Calm database a h [] s
      → P (log database s)
      → Willing database a h f
      → Holds database h e f
      → Ends R (commit_turn database pid s f)
  unfolding commit_turn answered client_side
  commit_turn-Ends pid P Q R s f d put sent done c p w held =
      let (l, ran, q) = sent (log database s) p in
      let t = with_log database l s in
      let c' = with_log-Calm [] l s c in
      let req = commit_request database t in
      let found =
        subst (λ i. Cache.get f.node_cache i ≡ some (record { key = e.key; value = e.value }))
          (sym c'.level) held in
      let stored =
        commit-Stored database f req (record { key = e.key; value = e.value }) d (w.commits req)
          found put in
      let u = later database t in
      let (l', ran', r) = done (log database u) q in
      rw ran (
        rw (call-delivered database a h [] t f (commits database t) c' w refl) (
          rw stored.acked (
            rw ran' (record {
              goes_on = refl;
              calm = with_log-Calm [] l' u (later-Calm_nil database a h t c');
              tracked = r;
            }))))
