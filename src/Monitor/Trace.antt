-- ===== src/Monitor/Trace.antt =====
-- `CheckTrace` (server/TwoPhaseCommitFull.go): every event is checked against the one before it.
-- A check that fails panics, so the error that `CheckTrace` would return is never seen.
use committer.Prelude.{List, [], ◌∷◌}
use committer.Go.{Go, ok, panic, index_out_of_range, ◌>>=◌, ◌>>◌}
use committer.Tla.{Tla}
use committer.Monitor.{
  State, EventType, Event, Monitor, initial, c_send_prepare, p_handle_prepare, c_receive_prepare,
  c_receive_abort, c_send_commit, c_send_abort, p_handle_commit, c_receive_commit, p_handle_abort,
  network_take_message, network_deliver_message,
}
use committer.Monitor.Coordinator.{
  check_initial, check_c_send_prepare, check_c_receive_prepare, check_c_receive_abort,
  check_c_send_commit, check_c_send_abort, check_c_receive_commit,
}
use committer.Monitor.Participant.{
  check_p_handle_prepare, check_p_handle_commit, check_p_handle_abort,
}
use committer.Monitor.Network.{check_network_take_message, check_network_deliver_message}

-- `this.params[0]`
pub first : List Tla → Go Tla
first [] = panic index_out_of_range
first (r ∷ _) = ok r

unfoldable pub check_event : EventType → List Tla → State → State → Go (Unit {0})
unfolding first check_initial check_c_send_prepare check_c_receive_prepare check_c_receive_abort
    check_c_send_commit check_c_send_abort check_c_receive_commit check_p_handle_prepare
    check_p_handle_commit check_p_handle_abort check_network_take_message
    check_network_deliver_message
check_event initial ps prev this = check_initial this
check_event c_send_prepare ps prev this = do r ← first ps; check_c_send_prepare r prev this
check_event p_handle_prepare ps prev this = do r ← first ps; check_p_handle_prepare r prev this
check_event c_receive_prepare ps prev this = do r ← first ps; check_c_receive_prepare r prev this
check_event c_receive_abort ps prev this = do r ← first ps; check_c_receive_abort r prev this
check_event c_send_commit ps prev this = do r ← first ps; check_c_send_commit r prev this
check_event c_send_abort ps prev this = do r ← first ps; check_c_send_abort r prev this
check_event p_handle_commit ps prev this = do r ← first ps; check_p_handle_commit r prev this
check_event c_receive_commit ps prev this = do r ← first ps; check_c_receive_commit r prev this
check_event p_handle_abort ps prev this = do r ← first ps; check_p_handle_abort r prev this
check_event network_take_message ps prev this = do
  msg ← first ps
  check_network_take_message msg prev this
check_event network_deliver_message ps prev this = do
  msg ← first ps
  check_network_deliver_message msg prev this

-- The rest of the loop, after an event in the state `prev`.
unfoldable pub check_from : State → List Event → Go (Unit {0})
unfolding check_event
check_from prev [] = ok tt
check_from prev (e ∷ es) = do check_event e.typ e.params prev e.state; check_from e.state es

-- The first event is checked against itself.
unfoldable pub check_events : List Event → Go (Unit {0})
unfolding check_from
check_events [] = ok tt
check_events (e ∷ es) = check_from e.state (e ∷ es)

unfoldable pub check_trace : Monitor → Go (Unit {0})
unfolding check_events
check_trace m = check_events m.events
