-- ===== src/Server/Events.antt =====
-- A node under any sequence of calls and timeouts: the interleavings that the locks leave open
-- (server/server.go).
use committer.Prelude.{ℕ, ◌≡◌, ◌⊎◌, Bool, true, false, List, [], ◌∷◌, ◌==◌, if◌then◌else◌}
use committer.Proto.{ProposeRequest, PrecommitRequest, CommitRequest}
use committer.Cache.{Msg}
use committer.Database.{Database}
use committer.Server.Handlers.{Node, Metadata, propose, precommit, commit, autocommit}

pub data Call : Type 0 where
  proposes : ProposeRequest → Call
  precommits : PrecommitRequest → Call
  commits : Metadata → CommitRequest → Call
  timeout : ℕ → Call

-- Whether the goroutine of the `Precommit` at the index `i` is there.
unfoldable pub waiting : ℕ → List ℕ → Bool
waiting i [] = false
waiting i (j ∷ js) = if j == i then true else waiting i js

module _ (database : Database) where
  unfoldable pub step : Node database → Call → Node database
  unfolding propose precommit commit autocommit waiting
  step s (proposes req) = (propose database s req).1
  step s (precommits req) = (precommit database s req).1
  step s (commits md req) = (commit database md s req).1
  step s (timeout i) = if waiting i s.timers then autocommit database i s else s

  unfoldable pub run : Node database → List Call → Node database
  unfolding step
  run s [] = s
  run s (e ∷ es) = run (step s e) es

-- The messages that a list of calls proposes at an index.
abbrev pub Proposed : List Call → ℕ → Msg → Type 0
Proposed [] i m = ⊥
Proposed (proposes req ∷ es) i m =
    ((req.index ≡ i) × (m ≡ record { key = req.key; value = req.value })) ⊎ Proposed es i m
Proposed (_ ∷ es) i m = Proposed es i m
