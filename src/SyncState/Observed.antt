-- ===== src/SyncState/Observed.antt =====
-- What an app knows that sees the events of the client's state and nothing else.
use stratasync.Prelude.{
  ℕ, String, ◌≡◌, refl, sym, ap, subst, ◌∙◌, inl, inr, Bool, true, false, List, [], ◌∷◌, ◌++◌,
  Option, none, some, arith, Bool-cases, ◌==◌,
}
use stratasync.SyncState.{
  SyncClientState, disconnected, connecting, bootstrapping, syncing, error, ConnectionState,
  connection_disconnected, SyncClientEvent, state_change, connection_change, sync_error,
  catch_up_change, SyncStateMachine, new_machine, state_number, connection_number, same_flag,
  set_catching_up, on_state_change, off_state_change, on_connection_state_change,
  off_connection_state_change, set_state, set_connection_state, record_error, clear_error, emit,
  error_after,
}

pub data Call : Type 0 where
  sets_state : SyncClientState → Call
  sets_connection : ConnectionState → Call
  sets_catching_up : Bool → Call
  records_error : String → Call
  clears_error : Call
  subscribes unsubscribes subscribes_connection unsubscribes_connection : ℕ → Call

unfoldable pub call : Call → SyncStateMachine → SyncStateMachine
call (sets_state s) m = set_state s m
call (sets_connection s) m = set_connection_state s m
call (sets_catching_up b) m = set_catching_up b m
call (records_error e) m = record_error e m
call clears_error m = clear_error m
call (subscribes l) m = on_state_change l m
call (unsubscribes l) m = off_state_change l m
call (subscribes_connection l) m = on_connection_state_change l m
call (unsubscribes_connection l) m = off_connection_state_change l m

unfoldable pub run : List Call → SyncStateMachine → SyncStateMachine
run [] m = m
run (c ∷ calls) m = run calls (call c m)

-- The three things that events tell.
pub record View : Type 0 where
  pub state : SyncClientState
  pub connection : ConnectionState
  pub catching_up : Bool

abbrev pub first_view : View
first_view = record {
  state = disconnected;
  connection = connection_disconnected;
  catching_up = false;
}

abbrev pub view_of : SyncStateMachine → View
view_of m = record { state = m.state; connection = m.connection_state; catching_up = m.catching_up }

abbrev pub see : SyncClientEvent → View → View
see (state_change s) v = record v { state = s }
see (connection_change s) v = record v { connection = s }
see (sync_error e) v = v
see (catch_up_change b) v = record v { catching_up = b }

unfoldable pub seen : List SyncClientEvent → View → View
seen [] v = v
seen (e ∷ events) v = seen events (see e v)

abbrev pub is_error_state : SyncClientState → Bool
is_error_state error = true
is_error_state _ = false

-- There is no error unless the state is the error.
abbrev pub ErrorShown : SyncClientState → Option String → Type 0
ErrorShown s none = Unit
ErrorShown s (some e) = is_error_state s ≡ true

pub record IsObserved (m : SyncStateMachine) : Type 0 where
  pub shown : seen m.emitted first_view ≡ view_of m
  pub honest : ErrorShown m.state m.last_error

seen-append :
    (events : List SyncClientEvent) (e : SyncClientEvent) (v : View)
    → seen (events ++ e ∷ []) v ≡ see e (seen events v)
unfolding seen
seen-append [] e v = refl
seen-append (f ∷ events) e v = seen-append events e (see f v)

ErrorShown-after : (s : SyncClientState) (e : Option String) → ErrorShown s (error_after s e)
ErrorShown-after error none = tt
ErrorShown-after error (some e) = refl
ErrorShown-after disconnected e = tt
ErrorShown-after connecting e = tt
ErrorShown-after bootstrapping e = tt
ErrorShown-after syncing e = tt

state_of_number : (s t : SyncClientState) → (state_number s == state_number t) ≡ true → s ≡ t
state_of_number s t h = ground arith

shown_after :
    (m : SyncStateMachine) (e : SyncClientEvent)
    → seen m.emitted first_view ≡ view_of m
    → seen (m.emitted ++ e ∷ []) first_view ≡ see e (view_of m)
shown_after m e h = seen-append m.emitted e first_view ∙ ap (see e) h

-- The error that is there may be shown only once the state is set.
set_state-IsObserved :
    (s : SyncClientState) (m : SyncStateMachine)
    → seen m.emitted first_view ≡ view_of m
    → ErrorShown s m.last_error
    → IsObserved (set_state s m)
unfolding set_state
set_state-IsObserved s m h k = elim (Bool-cases (state_number m.state == state_number s)) [
  | inl e ↦ rw e (record {
    shown = h;
    honest = subst (λ t. ErrorShown t m.last_error) (sym (state_of_number m.state s e)) k;
  })
  | inr e ↦ rw e (record {
    shown = shown_after m (state_change s) h;
    honest = ErrorShown-after s m.last_error;
  })
]

-- Where the error is shown already, any state may be set.
set_any-IsObserved :
    (s : SyncClientState) (m : SyncStateMachine) → IsObserved m → IsObserved (set_state s m)
unfolding set_state
set_any-IsObserved s m h = elim (Bool-cases (state_number m.state == state_number s)) [
  | inl e ↦ rw e h
  | inr e ↦ rw e (record {
    shown = shown_after m (state_change s) h.shown;
    honest = ErrorShown-after s m.last_error;
  })
]

call-IsObserved : (c : Call) (m : SyncStateMachine) → IsObserved m → IsObserved (call c m)
unfolding call set_connection_state set_catching_up record_error clear_error on_state_change
    off_state_change on_connection_state_change off_connection_state_change
call-IsObserved (sets_state s) m h = set_any-IsObserved s m h
call-IsObserved (sets_connection s) m h =
    elim (Bool-cases (connection_number m.connection_state == connection_number s)) [
      | inl e ↦ rw e h
      | inr e ↦
          rw e (record { shown = shown_after m (connection_change s) h.shown; honest = h.honest })
    ]
call-IsObserved (sets_catching_up b) m h = elim (Bool-cases (same_flag m.catching_up b)) [
  | inl e ↦ rw e h
  | inr e ↦ rw e (record { shown = shown_after m (catch_up_change b) h.shown; honest = h.honest })
]
call-IsObserved (records_error e) m h =
    set_state-IsObserved error (emit (sync_error e) (record m { last_error = some e }))
      (shown_after m (sync_error e) h.shown) refl
call-IsObserved clears_error m h = record { shown = h.shown; honest = tt }
call-IsObserved (subscribes l) m h = record { shown = h.shown; honest = h.honest }
call-IsObserved (unsubscribes l) m h = record { shown = h.shown; honest = h.honest }
call-IsObserved (subscribes_connection l) m h = record { shown = h.shown; honest = h.honest }
call-IsObserved (unsubscribes_connection l) m h = record { shown = h.shown; honest = h.honest }

run-from : (calls : List Call) (m : SyncStateMachine) → IsObserved m → IsObserved (run calls m)
unfolding run
run-from [] m h = h
run-from (c ∷ calls) m h = run-from calls (call c m) (call-IsObserved c m h)

-- After any calls, who has seen the events and nothing else knows the state, the connection and
-- whether the client is catching up; and there is an error only while the state is the error.
pub run-IsObserved :
    (calls : List Call)
    → (seen (run calls new_machine).emitted first_view ≡ view_of (run calls new_machine))
      × ErrorShown (run calls new_machine).state (run calls new_machine).last_error
run-IsObserved calls =
    let h = run-from calls new_machine (record { shown = unfold seen in refl; honest = tt }) in
    (h.shown, h.honest)
