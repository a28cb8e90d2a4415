-- ===== src/Cluster/Rounds.antt =====
-- The retry loop of `Put` (server/server.go) as equations, one for each number of rounds left.
use committer.Prelude.{ℕ, suc, ◌≡◌, ◌⊎◌, inl, inr, refl, Bool, true, false, none}
use committer.Proto.{Entry}
use committer.Database.{Database}
use committer.Server.Handlers.{Node, is_ack, propose}
use committer.Cluster.{Session, out_of_fuel, Called, Handler}
use committer.Cluster.Calls.{call-Transmits}
use committer.Cluster.Notes.{note_propose}
use committer.Cluster.Stages.{Turn, noted, log, propose_request, propose_call, propose_turn, vote}

module _ (database : Database) where
  abbrev pub asks : Entry → Session database → Handler database
  asks e s n = propose database n (propose_request database s e)

  -- One round of the retry loop, and those that follow it.
  unfoldable pub choose : (pid fuel : ℕ) (e : Entry) (c : Called database) → Bool → Turn database
  choose pid fuel e c true = vote database pid e c.0.error c.0.response c.1 c.2
  choose pid fuel e c false = propose_turn database fuel e pid c.1 c.2

  unfoldable pub round : ℕ → ℕ → Entry → Node database → Session database → Turn database
  unfolding choose
  round pid fuel e f t =
      let c = propose_call database e t f in choose pid fuel e c (is_ack c.0.response)

  pub propose_turn-suc :
      (fuel pid : ℕ) (e : Entry) (s : Session database) (f : Node database)
      → propose_turn database (suc fuel) e pid s f
        ≡ noted database (note_propose pid (log database s)) s f (round pid fuel e f)
  unfolding propose_turn round
  propose_turn-suc fuel pid e s f = refl

  pub propose_turn-zero :
      (pid : ℕ) (e : Entry) (s : Session database) (f : Node database)
      → propose_turn database 0 e pid s f ≡ (out_of_fuel, s, f)
  unfolding propose_turn
  propose_turn-zero pid e s f = refl

  -- A caller never gets an error together with a response.
  pub propose_call-exclusive :
      (e : Entry) (s : Session database) (f : Node database)
      → let c = propose_call database e s f in (c.0.error ≡ none) ⊎ (c.0.response ≡ none)
  unfolding propose_call
  propose_call-exclusive e s f = elim (call-Transmits database s f (asks e s)).reply_side [
    | inl (fine, _, _) ↦ inl fine
    | inr (x, bad) ↦ inr (rw bad)
  ]
