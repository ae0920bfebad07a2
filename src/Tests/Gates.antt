-- ===== src/Tests/Gates.antt =====
-- The cursor and the gate on concrete input.
use stratasync.Prelude.{◌≡◌, ◌++◌, List, [], ◌∷◌, arith, ltb, if◌then◌else◌}
use stratasync.Prelude.Int.{pos}
use stratasync.SyncId.{SyncId, value}
use stratasync.Transaction.{Runtime}
use stratasync.Cursor.{new_cursor, advance_all}
use stratasync.Cursor.Monotone.{Rises, largest, advance_all-value}
use stratasync.Gate.{open_gate, is_closed}
use stratasync.Gate.Barrier.{Call, holds_, releases, waits, run, unreleased, waited, run-barrier}

-- A clock that never moves, and no ids.
abbrev still : Runtime (Unit {0})
still = record { now = λ r. (pos 0, r); new_transaction_id = λ r. ("", r) }

-- "5", a stale "3", and "12"
abbrev ids : List SyncId
ids = (b'5' ∷ []) ∷ (b'3' ∷ []) ∷ (b'1' ∷ b'2' ∷ []) ∷ []

advance_all-value_example :
    (value (advance_all still ids new_cursor tt).0.last_sync_id ≡ largest (value (b'0' ∷ [])) ids)
    × Rises
        (value (b'0' ∷ []))
        (advance_all still ids new_cursor tt).1
        (value (advance_all still ids new_cursor tt).0.last_sync_id)
advance_all-value_example = advance_all-value still ids new_cursor tt (omega arith) (omega arith)

-- Two holds, a waiter, and one hold released twice.
abbrev calls : List Call
calls = holds_ ∷ holds_ ∷ waits 7 ∷ releases 0 ∷ releases 0 ∷ []

run-barrier_example :
    (is_closed (run open_gate calls) ≡ ltb 0 (unreleased (run open_gate calls).released))
    × ((run open_gate calls).waiters
        ≡ (if is_closed (run open_gate calls) then (run open_gate calls).waiters else []))
    × ((run open_gate calls).resolved ++ (run open_gate calls).waiters ≡ waited calls)
run-barrier_example = run-barrier calls
