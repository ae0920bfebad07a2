-- ===== src/History/Replay.antt =====
-- `undo`, `redo` and `rollbackHistoryEntries` of packages/client/src/history-manager.ts. The
-- callback `applyOp` works on a state `S`: `none` is an error that it throws, `some` the id that it
-- returns, if any.
use stratasync.Prelude.{
  String, Bool, true, false, List, [], ◌∷◌, ◌++◌, Option, none, some, if◌then◌else◌,
}
use stratasync.History.{HistoryOperation, HistoryEntry, HistoryGroup, HistoryManager, ids_of}

pub data Direction : Type 0 where
  undoing redoing : Direction

abbrev pub operation_of : Direction → HistoryEntry → HistoryOperation
operation_of undoing e = e.undo
operation_of redoing e = e.redo

-- `direction === "undo" ? entry.redo : entry.undo`
abbrev pub rollback_of : Direction → HistoryEntry → HistoryOperation
rollback_of undoing e = e.redo
rollback_of redoing e = e.undo

-- The entries from the last to the first.
unfoldable pub backwards : List HistoryEntry → List HistoryEntry
backwards [] = []
backwards (e ∷ entries) = backwards entries ++ e ∷ []

-- Undo takes the entries of a group from the last, redo from the first.
abbrev pub in_order : Direction → List HistoryEntry → List HistoryEntry
in_order undoing entries = backwards entries
in_order redoing entries = entries

abbrev pub stack_of : Direction → HistoryManager → List HistoryGroup
stack_of undoing m = m.undo_stack
stack_of redoing m = m.redo_stack

-- The stacks once the group is off the one and, replayed, on the other.
abbrev pub moved : Direction → HistoryGroup → List HistoryGroup → HistoryManager → HistoryManager
moved undoing g rest m = record m { undo_stack = rest; redo_stack = g ∷ m.redo_stack }
moved redoing g rest m = record m { redo_stack = rest; undo_stack = g ∷ m.undo_stack }

module _ {S : Type 0} (apply_op : HistoryOperation → S → Option (Option String) × S) where
  -- The loop: whether it failed, the entries that were applied, the last one first, the ids of
  -- their transactions, and the state.
  unfoldable pub replay :
      Direction
      → List HistoryEntry
      → List HistoryEntry
      → List String
      → S
      → Bool × List HistoryEntry × List String × S
  replay d [] applied ids s = (false, applied, ids, s)
  replay d (e ∷ entries) applied ids s =
      let (outcome, s') = apply_op (operation_of d e) s in
      elim outcome [
        | none ↦ (true, applied, ids, s')
        | some id ↦ replay d entries (e ∷ applied) (ids ++ ids_of id) s'
      ]

  -- `rollbackHistoryEntries`, on the entries with the last one first; what it throws is ignored.
  unfoldable pub rollback_entries : Direction → List HistoryEntry → S → S
  rollback_entries d [] s = s
  rollback_entries d (e ∷ applied) s = rollback_entries d applied (apply_op (rollback_of d e) s).1

  -- `undo` and `redo`: whether they throw, the manager and the state.
  unfoldable pub step_history : Direction → HistoryManager → S → Bool × HistoryManager × S
  step_history d m s = elim (stack_of d m) [
    | [] ↦ (false, m, s)
    | group ∷ rest ↦
        let (failed, applied, ids, s') = replay d (in_order d group.entries) [] [] s in
        if failed
        then (true, record m { suppress_history = false }, rollback_entries d applied s')
        else (
          false,
          record (moved d (record group { tx_ids = ids }) rest m) { suppress_history = false },
          s',
        )
  ]
