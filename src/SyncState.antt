-- ===== src/SyncState.antt =====
-- packages/client/src/sync/state.ts: the state of the client that an app observes. The events that were
-- emitted and the calls of the listeners are part of the state, in their order; a listener is known by a
-- number, and does not call back.
pub mod Observed
use stratasync.Prelude.{
  ℕ, String, Bool, true, false, List, [], ◌∷◌, ◌++◌, map, Option, none, some, ◌==◌, if◌then◌else◌,
}

pub data SyncClientState : Type 0 where
  disconnected connecting bootstrapping syncing error : SyncClientState

pub data ConnectionState : Type 0 where
  connection_disconnected connection_connecting connected reconnecting connection_error :
      ConnectionState

-- The events that the class emits.
pub data SyncClientEvent : Type 0 where
  state_change : SyncClientState → SyncClientEvent
  connection_change : ConnectionState → SyncClientEvent
  sync_error : String → SyncClientEvent
  catch_up_change : Bool → SyncClientEvent

pub record SyncStateMachine : Type 0 where
  pub state : SyncClientState
  pub connection_state : ConnectionState
  pub last_error : Option String
  pub catching_up : Bool
  pub state_listeners : List ℕ
  pub connection_listeners : List ℕ
  pub emitted : List SyncClientEvent
  pub told_state : List (ℕ × SyncClientState)
  pub told_connection : List (ℕ × ConnectionState)

abbrev pub new_machine : SyncStateMachine
new_machine = record {
  state = disconnected;
  connection_state = connection_disconnected;
  last_error = none;
  catching_up = false;
  state_listeners = [];
  connection_listeners = [];
  emitted = [];
  told_state = [];
  told_connection = [];
}

-- `===` on the names.
abbrev pub state_number : SyncClientState → ℕ
state_number disconnected = 0
state_number connecting = 1
state_number bootstrapping = 2
state_number syncing = 3
state_number error = 4

abbrev pub connection_number : ConnectionState → ℕ
connection_number connection_disconnected = 0
connection_number connection_connecting = 1
connection_number connected = 2
connection_number reconnecting = 3
connection_number connection_error = 4

abbrev pub same_flag : Bool → Bool → Bool
same_flag true b = b
same_flag false true = false
same_flag false false = true

abbrev pub emit : SyncClientEvent → SyncStateMachine → SyncStateMachine
emit e m = record m { emitted = m.emitted ++ e ∷ [] }

-- A `Set` of listeners.
unfoldable pub add_listener : ℕ → List ℕ → List ℕ
add_listener l [] = l ∷ []
add_listener l (k ∷ ks) = if k == l then k ∷ ks else k ∷ add_listener l ks

unfoldable pub delete_listener : ℕ → List ℕ → List ℕ
delete_listener l [] = []
delete_listener l (k ∷ ks) = let rest = delete_listener l ks in if k == l then rest else k ∷ rest

unfoldable pub set_catching_up : Bool → SyncStateMachine → SyncStateMachine
set_catching_up b m =
    if same_flag m.catching_up b then m else emit (catch_up_change b) (record m { catching_up = b })

-- `onStateChange`, and the function that it returns.
unfoldable pub on_state_change : ℕ → SyncStateMachine → SyncStateMachine
on_state_change l m = record m { state_listeners = add_listener l m.state_listeners }

unfoldable pub off_state_change : ℕ → SyncStateMachine → SyncStateMachine
off_state_change l m = record m { state_listeners = delete_listener l m.state_listeners }

unfoldable pub on_connection_state_change : ℕ → SyncStateMachine → SyncStateMachine
on_connection_state_change l m = record m {
  connection_listeners = add_listener l m.connection_listeners;
}

unfoldable pub off_connection_state_change : ℕ → SyncStateMachine → SyncStateMachine
off_connection_state_change l m = record m {
  connection_listeners = delete_listener l m.connection_listeners;
}

-- Any state but the error clears the last error.
abbrev pub error_after : SyncClientState → Option String → Option String
error_after error e = e
error_after _ e = none

unfoldable pub set_state : SyncClientState → SyncStateMachine → SyncStateMachine
set_state s m = if state_number m.state == state_number s then m else record m {
  state = s;
  last_error = error_after s m.last_error;
  emitted = m.emitted ++ state_change s ∷ [];
  told_state = m.told_state ++ map (λ l. (l, s)) m.state_listeners;
}

unfoldable pub set_connection_state : ConnectionState → SyncStateMachine → SyncStateMachine
set_connection_state s m =
    if connection_number m.connection_state == connection_number s then m else record m {
      connection_state = s;
      emitted = m.emitted ++ connection_change s ∷ [];
      told_connection = m.told_connection ++ map (λ l. (l, s)) m.connection_listeners;
    }

unfoldable pub record_error : String → SyncStateMachine → SyncStateMachine
record_error e m = set_state error (emit (sync_error e) (record m { last_error = some e }))

unfoldable pub clear_error : SyncStateMachine → SyncStateMachine
clear_error m = record m { last_error = none }
