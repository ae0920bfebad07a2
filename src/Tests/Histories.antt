-- ===== src/Tests/Histories.antt =====
-- The history on concrete input.
use stratasync.Prelude.{String, ◌≡◌, refl, Bool, true, false, List, [], ◌∷◌, Option, none, some}
use stratasync.Prelude.Int.{ℤ, pos}
use stratasync.Transaction.Undo.{Sends, sent_again, create_undo_transaction_twice}
use stratasync.Prelude.{same}
use stratasync.Prelude.Dict.{spread, assign, lookup, has_key}
use stratasync.Value.{Row, replace_undefined_with_null, text}
use stratasync.Transaction.{
  Action, Transaction, Runtime, update, insert, delete, queued, create_undo_transaction,
  create_update_transaction, create_transaction,
}
use stratasync.History.{
  HistoryOperation, HistoryEntry, HistoryManager, new_history, run_as_group, remove_by_tx_id,
  captures,
}
use stratasync.History.Entry.{build_entry}
use stratasync.History.Replay.{undoing, step_history, replay, backwards}
use stratasync.History.Grouping.{
  idle, with_group, record_all, entries_of, all_ids, mentions, remove_by_tx_id-forgets,
  run_as_group-record_all,
}
use stratasync.History.Rollback.{Reverts, step_history-restores}
use stratasync.History.Roundtrip.{Redo, undo_all, stack_entries, after_both, after_both_restores}
use stratasync.History.Agreement.{Agree, build_entry-undo}

abbrev operation : Action → String → HistoryOperation
operation action title = record {
  action = action;
  model_name = "Task";
  model_id = "t1";
  payload = ("title", text title) ∷ [];
  original = none;
}

abbrev renaming : HistoryEntry
renaming = record { undo = operation update "Draft"; redo = operation update "Final" }

abbrev creating : HistoryEntry
creating = record { undo = operation delete "Draft"; redo = operation insert "Draft" }

-- The row of the task, on which each operation works as it does in a store. The first may delete.
rewrite : Bool → Action → Row → Option Row → Option (Option String) × Option Row
rewrite allowed insert payload r = (some (some "tx"), some payload)
rewrite false delete payload r = (none, r)
rewrite true delete payload r = (some (some "tx"), none)
rewrite allowed _ payload none = (none, none)
rewrite allowed _ payload (some r) = (some (some "tx"), some (spread r payload))

abbrev rewrites : Bool → HistoryOperation → Option Row → Option (Option String) × Option Row
rewrites allowed op r = rewrite allowed op.action op.payload r

abbrev final_row : Option Row
final_row = some (("title", text "Final") ∷ [])

abbrev one_group : HistoryManager
one_group = record new_history {
  undo_stack = record { entries = creating ∷ renaming ∷ []; tx_ids = "tx" ∷ [] } ∷ [];
}

one_group-Redo : Redo (rewrites true) (creating ∷ renaming ∷ []) final_row
unfolding Redo undo_all rewrite spread assign lookup has_key same
one_group-Redo = (refl, refl, (refl, refl, tt))

after_both_restores_example :
    ((after_both (rewrites true) one_group final_row).0 ≡ false)
    × ((after_both (rewrites true) one_group final_row).2 ≡ final_row)
    × (stack_entries (after_both (rewrites true) one_group final_row).1.undo_stack
        ≡ stack_entries one_group.undo_stack)
    × ((after_both (rewrites true) one_group final_row).1.redo_stack ≡ one_group.redo_stack)
after_both_restores_example =
    after_both_restores (rewrites true) one_group
      (record { entries = creating ∷ renaming ∷ []; tx_ids = "tx" ∷ [] }) [] final_row refl
      one_group-Redo
      (unfold step_history replay backwards rewrite spread assign lookup has_key same in refl)

remove_by_tx_id-forgets_example :
    (mentions "tx" (remove_by_tx_id "tx" one_group).undo_stack ≡ false)
    × (mentions "tx" (remove_by_tx_id "tx" one_group).redo_stack ≡ false)
    × (captures "tx" (remove_by_tx_id "tx" one_group).capture_stack ≡ false)
remove_by_tx_id-forgets_example = remove_by_tx_id-forgets "tx" one_group

abbrev mutations : List (HistoryEntry × Option String)
mutations = (creating, some "a") ∷ (renaming, none) ∷ []

run_as_group-record_all_example :
    (run_as_group {A = Unit} (λ m. (tt, record_all mutations m)) (idle [] [])).1
    ≡ with_group (entries_of mutations) (all_ids mutations) [] []
run_as_group-record_all_example = run_as_group-record_all mutations [] []

-- A clock at noon.
abbrev noon : Runtime (Unit {0})
noon = record { now = λ r. (pos 12, r); new_transaction_id = λ r. ("u1", r) }

abbrev no_date : String → Option ℤ
no_date s = none

abbrev renamed : Transaction
renamed = record {
  client_tx_id = "x1";
  client_id = "me";
  model_name = "Task";
  model_id = "t1";
  action = update;
  payload = ("title", text "Final") ∷ [];
  original = some (("title", text "Draft") ∷ []);
  state = queued;
  created_at = pos 1;
  retry_count = 0;
  last_error = none;
  sync_id_needed = none;
  batch_index = none;
}

build_entry-undo_example :
    Agree renamed
      (build_entry no_date (pos 12) "Task" "t1" update renamed.payload renamed.original)
      (create_undo_transaction noon no_date renamed "me" tt).0
build_entry-undo_example = build_entry-undo noon no_date renamed "me" tt (pos 12) refl

abbrev renamed_back : Transaction
renamed_back = record renamed {
  client_tx_id = "u1";
  payload = ("title", text "Draft") ∷ [];
  original = some (("title", text "Final") ∷ []);
  created_at = pos 12;
}

create_undo_transaction_twice_example :
    Sends update
      (sent_again no_date update
        (("title", text "Final") ∷ [])
        (some (("title", text "Draft") ∷ [])))
      (create_undo_transaction noon no_date renamed_back "me" tt).0
create_undo_transaction_twice_example =
    create_undo_transaction_twice noon no_date renamed renamed_back "me" tt tt refl (
      unfold create_undo_transaction create_update_transaction create_transaction
        replace_undefined_with_null in
      refl)

-- The undo of the creation throws, after that of the renaming.
one_group-Reverts : Reverts undoing (rewrites false) (renaming ∷ creating ∷ []) final_row
unfolding Reverts rewrite spread assign lookup has_key same
one_group-Reverts = (refl, refl)

step_history-restores_example :
    ((step_history (rewrites false) undoing one_group final_row).1
      ≡ record one_group { suppress_history = false })
    × ((step_history (rewrites false) undoing one_group final_row).2 ≡ final_row)
step_history-restores_example =
    step_history-restores (rewrites false) undoing one_group
      (record { entries = creating ∷ renaming ∷ []; tx_ids = "tx" ∷ [] }) [] final_row refl
      (unfold backwards in one_group-Reverts)
      (unfold step_history replay backwards rewrite spread assign lookup has_key same in refl)
