-- ===== src/Transaction/Undo.antt =====
-- Undoing an undo, by `createUndoTransaction` of packages/core/src/transaction/create.ts.
use stratasync.Prelude.{String, ◌≡◌, Bool, true, [], Option, none, some, arith, same_refl}
use stratasync.Prelude.Int.{ℤ, pos}
use stratasync.Prelude.Dict.{get_or, is_some, lookup, has_key}
use stratasync.Value.{Row, replace_undefined_with_null}
use stratasync.Archive.{
  archived_at, read_archived_at, read_timestamp, create_archive_payload, capture_archive_state,
  create_unarchive_patch, create_unarchive_payload,
}
use stratasync.Transaction.{
  Action, Transaction, Runtime, insert, update, archive, delete, unarchive, create_undo_transaction,
  was_known_unarchived, create_transaction, create_insert_transaction, create_update_transaction,
  create_delete_transaction, create_archive_transaction, create_unarchive_transaction,
}

-- What an undone mutation sends when it is done again.
abbrev pub sent_again : (String → Option ℤ) → Action → Row → Option Row → Row
sent_again date_parse insert payload original = payload
sent_again date_parse delete payload original = get_or original []
sent_again date_parse update payload original = replace_undefined_with_null payload
sent_again date_parse archive payload original =
    create_archive_payload (read_archived_at date_parse (some payload)) (pos 0)
sent_again date_parse unarchive payload original = []

abbrev pub carries_time : (String → Option ℤ) → Action → Row → Bool
carries_time date_parse archive payload = is_some (read_archived_at date_parse (some payload))
carries_time date_parse _ payload = true

abbrev pub Sends : Action → Row → Option Transaction → Type 0
Sends action payload none = ⊥
Sends action payload (some tx) = (tx.action ≡ action) × (tx.payload ≡ payload)

module _ {R : Type 0} (rt : Runtime R) (date_parse : String → Option ℤ) where
  -- The undo of the undo of a mutation is the same action with the same payload, for a delete the
  -- row that it dropped, if an archive carries its time: undefined values of an update are sent as
  -- null, and the archive time as a number.
  pub create_undo_transaction_twice :
      (tx u : Transaction) (client_id : String) (r later : R)
      → carries_time date_parse tx.action tx.payload ≡ true
      → (create_undo_transaction rt date_parse tx client_id r).0 ≡ some u
      → Sends tx.action
          (sent_again date_parse tx.action tx.payload tx.original)
          (create_undo_transaction rt date_parse u client_id later).0
  unfolding create_undo_transaction create_transaction create_insert_transaction
      create_update_transaction create_delete_transaction create_archive_transaction
      create_unarchive_transaction create_archive_payload capture_archive_state was_known_unarchived
      create_unarchive_patch create_unarchive_payload read_archived_at read_timestamp lookup has_key
  create_undo_transaction_twice tx u client_id r later h e = ground (arith, same_refl archived_at)
