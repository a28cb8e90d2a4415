-- ===== src/Monitor/Names.antt =====
-- How the monitor prints events' types and parameters (server/TwoPhaseCommitFull.go).
use Prim.Native.String.{◌++◌}
use committer.Prelude.{String, List, [], ◌∷◌, map}
use committer.Go.{Panic, ok, panic}
use committer.Tla.{Tla, nil}
use committer.Tla.Print.{hash}
use committer.Monitor.{
  EventType, initial, c_send_prepare, p_handle_prepare, c_receive_prepare, c_receive_abort,
  c_send_commit, c_send_abort, p_handle_commit, c_receive_commit, p_handle_abort,
  network_take_message, network_deliver_message,
}

-- `EventType.String`; the numbers beyond the last type do not occur.
unfoldable pub event_name : EventType → String
event_name initial = "Initial"
event_name c_send_prepare = "CSendPrepare"
event_name p_handle_prepare = "PHandlePrepare"
event_name c_receive_prepare = "CReceivePrepare"
event_name c_receive_abort = "CReceiveAbort"
event_name c_send_commit = "CSendCommit"
event_name c_send_abort = "CSendAbort"
event_name p_handle_commit = "PHandleCommit"
event_name c_receive_commit = "CReceiveCommit"
event_name p_handle_abort = "PHandleAbort"
event_name network_take_message = "NetworkTakeMessage"
event_name network_deliver_message = "NetworkDeliverMessage"

-- `strings.Join(res, ", ")`
abbrev join_texts : List String → String
join_texts [] = ""
join_texts (s ∷ []) = s
join_texts (s ∷ ss) = s ++ ", " ++ join_texts ss

-- What package fmt prints for a value whose `String` method panics.
module _ (caught : Panic → String) where
  -- `%+v` of a value is what its `String` method answers; fmt prints a nil interface itself.
  unfoldable pub print_param : Tla → String
  unfolding hash
  print_param nil = "<nil>"
  print_param v = elim (hash v) [ panic p ↦ caught p | ok s ↦ s ]

  unfoldable pub print_params : List Tla → String
  unfolding print_param
  print_params ps = join_texts (map print_param ps)
