-- ===== src/Cluster.antt =====
-- A coordinator with its followers, and the calls between them (server/server.go, peer/peer.go).
-- A call runs the follower's handler on the follower's state; the network, which is outside the
-- program, decides its fate. One `Put` runs at a time.
pub mod Notes
pub mod Stages
pub mod Put
pub mod Loops
pub mod Frames
pub mod Calls
pub mod Divergence
pub mod Refusal
pub mod Unlisted
pub mod Rounds
pub mod Proposals
pub mod Commits
pub mod Exits
pub mod Replies
pub mod Stored
pub mod Agreement
pub mod Replicas
pub mod Delivery
pub mod Lossy
pub mod Overlap
pub mod Safety
pub mod Followers
pub mod History
pub mod CatchUp
pub mod Behind
pub mod Watched
pub mod Phases
use committer.Prelude.{Bool, true, false, String, Option, none, some, List, [], ◌∷◌}
use committer.Proto.{Entry, Reply, Response, unavailable, deadline_exceeded, fails}
use committer.Go.{Panic}
use committer.Monitor.{State}
use committer.Database.{Database}
use committer.Server.Handlers.{Node}
use committer.Server.Interceptor.{Peer, white_list_checker}

-- What happens to one call. `deadline`: the context expires before the call arrives; every later
-- call under the same context then fails at once, without being sent.
pub data Fate : Type 0 where
  delivered request_lost reply_lost deadline : Fate

-- The coordinator during a `Put`: the node itself, the monitor's view `gs`, the fates of the calls
-- to come (`delivered` once the list is used up), whether the context has expired, and how the
-- followers see the coordinator's address.
pub record Session (database : Database) : Type 0 where
  pub self : Node database
  pub gs : State
  pub net : List Fate
  pub expired : Bool
  pub seen_as : Peer

-- How a part of `Put` ends: it goes on, `Put` returns, the process panics, or the rounds that the
-- retry loop was given are used up.
pub data Control : Type 0 where
  continue : Control
  exit : Reply → Control
  crash : Panic → Control
  out_of_fuel : Control

abbrev pub next_fate : List Fate → Fate
next_fate [] = delivered
next_fate (x ∷ _) = x

abbrev pub later_fates : List Fate → List Fate
later_fates [] = []
later_fates (_ ∷ xs) = xs

-- A call that fails has no response on the caller's side.
unfoldable pub client_side : Reply → Reply
client_side r = elim r.error [ none ↦ r | some e ↦ fails e ]

module _ (database : Database) where
  abbrev pub Handler : Type 0
  Handler = Node database → Reply × Node database

  abbrev pub Called : Type 0
  Called = Reply × Session database × Node database

  unfoldable pub deliver : Fate → Session database → Node database → Handler → Called
  unfolding client_side white_list_checker
  deliver delivered s f handler =
      let (r, f') = white_list_checker database s.seen_as f handler in (client_side r, s, f')
  deliver request_lost s f handler = (fails unavailable, s, f)
  deliver reply_lost s f handler =
      let (r, f') = white_list_checker database s.seen_as f handler in (fails unavailable, s, f')
  deliver deadline s f handler = (fails deadline_exceeded, record s { expired = true }, f)

  -- `follower.Propose(ctx, ...)` and the like: the reply, and both sides after the call.
  unfoldable pub call : Session database → Node database → Handler → Called
  unfolding deliver
  call s f handler = elim s.expired [
    | Bool.true ↦ (fails deadline_exceeded, s, f)
    | Bool.false ↦ deliver (next_fate s.net) (record s { net = later_fates s.net }) f handler
  ]
