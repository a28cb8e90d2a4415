-- ===== src/Server/Node.antt =====
-- The parts of a node that every handler uses (server/server.go): the commit mode, the progress
-- flags, the rollback.
use committer.Prelude.{ℕ, Bool, false, String, Option, none, some, ◌==◌, str_eq, if◌then◌else◌}
use committer.Config.{Config}
use committer.Cache.{delete}
use committer.Server.{Server}

abbrev pub three_phase : String
three_phase = "three-phase"

-- `s.Config.CommitType == THREE_PHASE`
unfoldable pub is_three_phase : Config → Bool
is_three_phase c = str_eq c.commit_type three_phase

-- A missing height reads as false.
abbrev or_false : Option Bool → Bool
or_false none = false
or_false (some b) = b

module _ {D : Type 0} where
  unfoldable pub set_progress : ℕ → Bool → Server D → Server D
  set_progress height docancel s = record s {
    cancel_commit_on_height =
        λ h. if h == height then some docancel else s.cancel_commit_on_height h;
  }

  unfoldable pub has_progress : ℕ → Server D → Bool
  has_progress height s = or_false (s.cancel_commit_on_height height)

  unfoldable pub rollback : Server D → Server D
  rollback s = record s { node_cache = delete s.node_cache s.height }
