-- ===== src/History/Entry.antt =====
-- `buildEntry` of packages/client/src/history-manager.ts: a mutation and the operation that undoes
-- it. `Date.parse` and the time of the clock are arguments.
use stratasync.Prelude.{String, Bool, true, false, Option, none, some, []}
use stratasync.Prelude.Int.{ℤ}
use stratasync.Value.{Row, replace_undefined_with_null}
use stratasync.Archive.{
  read_archived_at, capture_archive_state, create_archive_payload, create_unarchive_patch,
  create_unarchive_payload,
}
use stratasync.Transaction.{
  Action, insert, update, archive, delete, unarchive, was_known_unarchived,
}
use stratasync.History.{HistoryOperation, HistoryEntry}

module _ (date_parse : String → Option ℤ) (now : ℤ) where
  module _ (model_name model_id : String) where
    abbrev operation : Action → Row → Option Row → HistoryOperation
    operation action payload original = record {
      action = action;
      model_name = model_name;
      model_id = model_id;
      payload = payload;
      original = original;
    }

    undo_of_archive : Row → Option ℤ → HistoryOperation
    undo_of_archive payload none =
        operation unarchive create_unarchive_payload
          (some (capture_archive_state date_parse (some payload)))
    undo_of_archive payload (some previous) =
        operation archive (create_archive_payload (some previous) now)
          (some (capture_archive_state date_parse (some payload)))

    undo_of_unarchive : Option Row → Bool → HistoryOperation
    undo_of_unarchive original true =
        operation unarchive create_unarchive_payload (some create_unarchive_patch)
    undo_of_unarchive original false =
        operation archive (create_archive_payload (read_archived_at date_parse original) now)
          (some create_unarchive_patch)

    undo_of : Action → Row → Option Row → Option HistoryOperation
    unfolding undo_of_archive undo_of_unarchive
    undo_of insert payload original = some (operation delete [] (some payload))
    undo_of delete payload none = none
    undo_of delete payload (some original) = some (operation insert original none)
    undo_of update payload none = none
    undo_of update payload (some original) =
        some (operation update (replace_undefined_with_null original) (some payload))
    undo_of archive payload original =
        some (undo_of_archive payload (read_archived_at date_parse original))
    undo_of unarchive payload original =
        some (undo_of_unarchive original (was_known_unarchived original))

    entry_with : HistoryOperation → Option HistoryOperation → Option HistoryEntry
    entry_with redo none = none
    entry_with redo (some undo) = some (record { undo = undo; redo = redo })

    unfoldable pub build_entry : Action → Row → Option Row → Option HistoryEntry
    unfolding undo_of entry_with
    build_entry action payload original =
        entry_with (operation action payload original) (undo_of action payload original)
