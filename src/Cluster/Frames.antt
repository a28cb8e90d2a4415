-- ===== src/Cluster/Frames.antt =====
-- What the proposals and the precommits of `Put` leave alone on both sides (server/server.go):
-- the databases, and the follower's height.
use committer.Prelude.{
  ℕ, zero, suc, ◌≡◌, refl, ◌∙◌, ap, Bool, true, false, Option, none, some, inl, inr, arith,
}
use committer.Go.{Go, ok, panic}
use committer.Proto.{
  Entry, Response, Error, Answer, ProposeRequest, PrecommitRequest, answer, nack, fails,
  not_acknowledged,
}
use committer.Database.{Database}
use committer.Server.Node.{set_progress}
use committer.Server.Handlers.{Node, is_ack, propose, propose_handler, precommit}
use committer.Cluster.{Session, continue, exit, Called, Handler, call}
use committer.Cluster.Calls.{call-Transmits}
use committer.Cluster.Notes.{note_propose, note_prepared, note_aborted}
use committer.Cluster.Rounds.{asks, choose, round, propose_turn-suc, propose_turn-zero}
use committer.Cluster.Stages.{
  Turn, noted, log, with_log, propose_request, propose_call, propose_turn, vote, confirm, catch_up,
  cache_entry, answered, precommit_turn,
}

module _ (database : Database) where
  -- Both sides after a turn, or a part of one.
  pub record Framed (s : Session database) (f : Node database) (t : Session database)
      (g : Node database) : Type 0 where
    pub near_db : t.self.db ≡ s.self.db
    pub far_db : g.db ≡ f.db
    pub far_height : g.height ≡ f.height

  Framed-refl : (s : Session database) (f : Node database) → Framed s f s f
  Framed-refl s f = record { near_db = refl; far_db = refl; far_height = refl }

  Framed-trans :
      (s t u : Session database) (f g n : Node database)
      → Framed s f t g
      → Framed t g u n
      → Framed s f u n
  Framed-trans s t u f g n a b = record {
    near_db = b.near_db ∙ a.near_db;
    far_db = b.far_db ∙ a.far_db;
    far_height = b.far_height ∙ a.far_height;
  }

  noted-Framed :
      (l : Go _) (s : Session database) (f : Node database) (k : Session database → Turn database)
      → ((t : Session database) → t.self.db ≡ s.self.db → Framed s f (k t).1 (k t).2)
      → Framed s f (noted database l s f k).1 (noted database l s f k).2
  noted-Framed (ok l) s f k rest = rest (with_log database l s) refl
  noted-Framed (panic p) s f k rest = Framed-refl s f

  -- A handler that leaves the database and the height alone.
  abbrev Quiet : Handler database → Type 0
  Quiet handler =
      (n : Node database) → ((handler n).1.db ≡ n.db) × ((handler n).1.height ≡ n.height)

  call-Framed :
      (s : Session database) (f : Node database) (handler : Handler database)
      → Quiet handler
      → let c = call database s f handler in Framed s f c.1 c.2
  call-Framed s f handler quiet =
      let t = call-Transmits database s f handler in
      record {
        near_db = ap (λ (n : Node database). n.db) t.same_self;
        far_db = elim t.far_side [
          | inl same ↦ ap (λ (n : Node database). n.db) same
          | inr ran ↦ ap (λ (n : Node database). n.db) ran ∙ (quiet f).0
        ];
        far_height = elim t.far_side [
          | inl same ↦ ap (λ (n : Node database). n.height) same
          | inr ran ↦ ap (λ (n : Node database). n.height) ran ∙ (quiet f).1
        ];
      }

  propose-Quiet : (req : ProposeRequest) → Quiet (λ n. propose database n req)
  unfolding propose propose_handler set_progress
  propose-Quiet req n = ground arith

  precommit-Quiet : (req : PrecommitRequest) → Quiet (λ n. precommit database n req)
  unfolding precommit
  precommit-Quiet req n = ground arith

  catch_up-db :
      (r : Option Response) (s : Session database) → (catch_up database r s).self.db ≡ s.self.db
  unfolding catch_up
  catch_up-db r s = ground arith

  propose_call-Framed :
      (e : Entry) (s : Session database) (f : Node database)
      → let c = propose_call database e s f in Framed s f c.1 c.2
  unfolding propose_call
  propose_call-Framed e s f =
      let c = call database s f (asks database e s) in
      let a = call-Framed s f (asks database e s) (propose-Quiet (propose_request database s e)) in
      record {
        near_db = catch_up-db c.0.response c.1 ∙ a.near_db;
        far_db = a.far_db;
        far_height = a.far_height;
      }

  confirm-Framed :
      (pid : ℕ) (b : Bool) (s : Session database) (f : Node database)
      → Framed s f (confirm database pid b s f).1 (confirm database pid b s f).2
  unfolding confirm
  confirm-Framed pid false s f = Framed-refl s f
  confirm-Framed pid true s f =
      noted-Framed (note_prepared pid (log database s)) s f (λ t. (continue, t, f))
        (λ t same. record { near_db = same; far_db = refl; far_height = refl })

  vote-Framed :
      (pid : ℕ) (e : Entry) (x : Option Error) (r : Option Response) (s : Session database)
      (f : Node database)
      → Framed s f (vote database pid e x r s f).1 (vote database pid e x r s f).2
  unfolding vote
  vote-Framed pid e (some x) r s f =
      noted-Framed (note_aborted pid (log database s)) s f (λ t. (exit (answer nack 0), t, f))
        (λ t same. record { near_db = same; far_db = refl; far_height = refl })
  vote-Framed pid e none r s f =
      let a = confirm-Framed pid (is_ack r) (cache_entry database e s) f in
      record { near_db = a.near_db; far_db = a.far_db; far_height = a.far_height }

  choose-Framed :
      (pid fuel : ℕ) (e : Entry) (c : Called database) (b : Bool)
      → ((t : Session database) (g : Node database)
          → let w = propose_turn database fuel e pid t g in Framed t g w.1 w.2)
      → let w = choose database pid fuel e c b in Framed c.1 c.2 w.1 w.2
  unfolding choose
  choose-Framed pid fuel e c true rest = vote-Framed pid e c.0.error c.0.response c.1 c.2
  choose-Framed pid fuel e c false rest = rest c.1 c.2

  -- The proposals, in however many rounds.
  pub propose_turn-Framed :
      (fuel pid : ℕ) (e : Entry) (s : Session database) (f : Node database)
      → let w = propose_turn database fuel e pid s f in Framed s f w.1 w.2
  unfolding round
  propose_turn-Framed zero pid e s f = rw (propose_turn-zero database pid e s f) (Framed-refl s f)
  propose_turn-Framed (suc fuel) pid e s f = rw (propose_turn-suc database fuel pid e s f) (
      noted-Framed (note_propose pid (log database s)) s f (round database pid fuel e f) (λ t same.
        let c = propose_call database e t f in
        let w = choose database pid fuel e c (is_ack c.0.response) in
        let a = Framed-trans t c.1 w.1 f c.2 w.2 (propose_call-Framed e t f) (
          choose-Framed pid fuel e c (is_ack c.0.response)
            (λ u g. propose_turn-Framed fuel pid e u g)) in
        record { near_db = a.near_db ∙ same; far_db = a.far_db; far_height = a.far_height }))

  answered-Framed :
      (x : Option Error) (resp : Option Response) (s : Session database) (f : Node database)
      → let w = answered database x resp s f (λ t g. (continue, t, g)) in Framed s f w.1 w.2
  unfolding answered
  answered-Framed (some x) resp s f = Framed-refl s f
  answered-Framed none none s f = Framed-refl s f
  answered-Framed none (some r) s f = go r.typ
    where
      go :
          (t : Answer)
          → let w : Turn database = elim t [
            | Answer.ack ↦ (continue, s, f)
            | Answer.nack ↦ (exit (fails not_acknowledged), s, f)
          ] in
            Framed s f w.1 w.2
      go Answer.ack = Framed-refl s f
      go Answer.nack = Framed-refl s f

  pub precommit_turn-Framed :
      (pid : ℕ) (s : Session database) (f : Node database)
      → let w = precommit_turn database pid s f in Framed s f w.1 w.2
  unfolding precommit_turn
  precommit_turn-Framed pid s f =
      let h = λ (n : Node database). precommit database n (record { index = s.self.height }) in
      let c = call database s f h in
      let w = answered database c.0.error c.0.response c.1 c.2 (λ t g. (continue, t, g)) in
      Framed-trans s c.1 w.1 f c.2 w.2
        (call-Framed s f h (precommit-Quiet (record { index = s.self.height })))
        (answered-Framed c.0.error c.0.response c.1 c.2)
