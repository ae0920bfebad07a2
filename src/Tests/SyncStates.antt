-- ===== src/Tests/SyncStates.antt =====
-- A client that connects, fails and recovers.
use stratasync.Prelude.{◌≡◌, refl, List, [], ◌∷◌}
use stratasync.SyncState.{
  connecting, syncing, connected, new_machine, set_state, state_change, sync_error,
  connection_change, record_error, set_connection_state, on_state_change, error,
}
use stratasync.SyncState.Observed.{
  Call, sets_state, sets_connection, records_error, subscribes, call, run, first_view, view_of,
  seen, ErrorShown, run-IsObserved,
}

abbrev calls : List Call
calls =
    subscribes 1
    ∷ sets_state connecting
    ∷ sets_state connecting
    ∷ records_error "offline"
    ∷ sets_connection connected
    ∷ records_error "offline again"
    ∷ sets_state syncing
    ∷ []

run-IsObserved_example :
    (seen (run calls new_machine).emitted first_view ≡ view_of (run calls new_machine))
    × ErrorShown (run calls new_machine).state (run calls new_machine).last_error
run-IsObserved_example = run-IsObserved calls

events :
    (run calls new_machine).emitted
    ≡ state_change connecting
      ∷ sync_error "offline"
      ∷ state_change error
      ∷ connection_change connected
      ∷ sync_error "offline again"
      ∷ state_change syncing
      ∷ []
unfolding run call set_state record_error set_connection_state on_state_change
events = refl
