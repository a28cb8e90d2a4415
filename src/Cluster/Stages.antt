-- ===== src/Cluster/Stages.antt =====
-- The three loops of `Put` over the followers (server/server.go). The retry loop around `Propose`
-- has no bound in the source; here it is given a number of rounds.
use committer.Prelude.{
  ℕ, zero, suc, ◌+◌, Bool, true, false, Option, none, some, List, [], ◌∷◌, ltb, if◌then◌else◌,
}
use committer.Go.{Go, ok, panic, nil_dereference}
use committer.Proto.{
  Answer, Error, CommitRequest, nack, two_phase_commit, three_phase_commit, ProposeRequest, Entry,
  Response, answer, not_acknowledged, fails,
}
use committer.Cache
use committer.Database.{Database}
use committer.Server.Node.{is_three_phase}
use committer.Server.Handlers.{Node, is_ack, propose, precommit, commit}
use committer.Cluster.{Session, Control, continue, exit, crash, out_of_fuel, Called, call}
use committer.Cluster.Notes.{
  Log, note_propose, note_prepared, note_aborted, note_commit, note_committed,
}

module _ (database : Database) where
  -- How a loop body ends, and both sides after it.
  abbrev pub Turn : Type 0
  Turn = Control × Session database × Node database

  abbrev pub Loop : Type 0
  Loop = Control × Session database × List (Node database)

  abbrev pub log : Session database → Log
  log s = record { gs = s.gs; monitor = s.self.monitor }

  abbrev pub with_log : Log → Session database → Session database
  with_log l s = record s { self = record (s.self) { monitor = l.monitor }; gs = l.gs }

  -- A turn that goes on from a noted log; a panic of the monitor ends the process.
  abbrev pub noted : Go Log → Session database → Node database → (Session database → Turn) → Turn
  noted (ok l) s f k = k (with_log l s)
  noted (panic p) s f k = (crash p, s, f)

  unfoldable pub propose_request : Session database → Entry → ProposeRequest
  unfolding is_three_phase
  propose_request s e = record {
    key = e.key;
    value = e.value;
    commit_type = if is_three_phase s.self.config then three_phase_commit else two_phase_commit;
    index = s.self.height;
  }

  -- A higher index in a response is the coordinator's new height.
  unfoldable pub catch_up : Option Response → Session database → Session database
  catch_up none s = s
  catch_up (some r) s =
      if ltb s.self.height r.index
      then record s { self = record (s.self) { height = r.index } }
      else s

  abbrev pub cache_entry : Entry → Session database → Session database
  cache_entry e s = record s {
    self = record (s.self) { node_cache = Cache.set s.self.node_cache s.self.height e.key e.value };
  }

  unfoldable pub confirm : ℕ → Bool → Session database → Node database → Turn
  unfolding note_prepared
  confirm pid true s f = noted (note_prepared pid (log s)) s f λ t. (continue, t, f)
  confirm pid false s f = (exit (fails not_acknowledged), s, f)

  -- After the retry loop: an error is noted as an abort, a response is cached as a vote.
  unfoldable pub vote :
      ℕ → Entry → Option Error → Option Response → Session database → Node database → Turn
  unfolding is_ack note_aborted confirm Cache.set
  vote pid e (some _) resp s f =
      noted (note_aborted pid (log s)) s f λ t. (exit (answer nack 0), t, f)
  vote pid e none resp s f = confirm pid (is_ack resp) (cache_entry e s) f

  unfoldable pub propose_call : Entry → Session database → Node database → Called database
  unfolding call propose propose_request catch_up
  propose_call e s f =
      let (r, s', f') = call database s f (λ n. propose database n (propose_request s e)) in
      (r, catch_up r.response s', f')

  -- `for response == nil || response.Type == NACK`, and what follows the loop.
  unfoldable pub propose_turn : ℕ → Entry → ℕ → Session database → Node database → Turn
  unfolding note_propose propose_call is_ack vote
  propose_turn zero e pid s f = (out_of_fuel, s, f)
  propose_turn (suc fuel) e pid s f = noted (note_propose pid (log s)) s f λ t.
      let (r, s', f') = propose_call e t f in
      elim (is_ack r.response) [
        | Bool.true ↦ vote pid e r.error r.response s' f'
        | Bool.false ↦ propose_turn fuel e pid s' f'
      ]

  -- The tests after `Precommit` and after `Commit`; reading the type of a nil response panics.
  unfoldable pub answered :
      Option Error
      → Option Response
      → Session database
      → Node database
      → (Session database → Node database → Turn)
      → Turn
  answered (some _) resp s f k = (exit (answer nack 0), s, f)
  answered none none s f k = (crash nil_dereference, s, f)
  answered none (some r) s f k = elim r.typ [
    | Answer.ack ↦ k s f
    | Answer.nack ↦ (exit (fails not_acknowledged), s, f)
  ]

  unfoldable pub precommit_turn : ℕ → Session database → Node database → Turn
  unfolding call precommit answered
  precommit_turn pid s f =
      let (r, s', f') =
        call database s f (λ n. precommit database n (record { index = s.self.height })) in
      answered r.error r.response s' f' λ t g. (continue, t, g)

  abbrev pub commit_request : Session database → CommitRequest
  commit_request s = record { index = s.self.height; is_rollback = false }

  -- The call carries metadata without "mode".
  unfoldable pub commit_turn : ℕ → Session database → Node database → Turn
  unfolding call commit answered note_commit note_committed
  commit_turn pid s f = noted (note_commit pid (log s)) s f λ t.
      let (r, s', f') = call database t f (λ n. commit database (some []) n (commit_request t)) in
      answered r.error r.response s' f'
        λ u g. noted (note_committed pid (log u)) u g λ v. (continue, v, g)

  -- The turn of one follower, then the loop over the rest.
  unfoldable pub onwards : Turn → List (Node database) → (Session database → Loop) → Loop
  onwards (continue, s, f) fs k = let (c, t, gs) = k s in (c, t, f ∷ gs)
  onwards (c, s, f) fs k = (c, s, f ∷ fs)

  -- `for pid, follower := range s.Followers`
  unfoldable pub for_followers :
      (ℕ → Session database → Node database → Turn)
      → ℕ
      → Session database
      → List (Node database)
      → Loop
  unfolding onwards
  for_followers body pid s [] = (continue, s, [])
  for_followers body pid s (f ∷ fs) =
      onwards (body pid s f) fs λ t. for_followers body (pid + 1) t fs
