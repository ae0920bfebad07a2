-- ===== src/History/Agreement.antt =====
-- The two ways in which a mutation is undone: the history's entry (`buildEntry` of
-- packages/client/src/history-manager.ts) and the undo transaction (`createUndoTransaction` of
-- packages/core/src/transaction/create.ts).
use stratasync.Prelude.{String, ◌≡◌, [], Option, none, some, arith}
use stratasync.Prelude.Int.{ℤ}
use stratasync.Value.{Row}
use stratasync.Archive.{create_archive_payload}
use stratasync.Transaction.{
  Action, Transaction, Runtime, insert, create_undo_transaction, create_transaction,
  create_insert_transaction, create_update_transaction, create_delete_transaction,
  create_archive_transaction, create_unarchive_transaction,
}
use stratasync.History.{HistoryEntry}
use stratasync.History.Entry.{build_entry}

-- The undo of an insert sends no payload in the one, the inserted row in the other.
abbrev pub sent_payload : Action → Row → Row
sent_payload insert payload = []
sent_payload _ payload = payload

abbrev pub Agree : Transaction → Option HistoryEntry → Option Transaction → Type 0
Agree tx none none = Unit
Agree tx none (some u) = ⊥
Agree tx (some e) none = ⊥
Agree tx (some e) (some u) =
    (e.undo.action ≡ u.action)
    × (e.undo.model_name ≡ u.model_name)
    × (e.undo.model_id ≡ u.model_id)
    × (e.undo.payload ≡ sent_payload tx.action u.payload)

module _ {R : Type 0} (rt : Runtime R) (date_parse : String → Option ℤ) where
  -- For every mutation, both ways make an undo or neither does, and it is the same action on the
  -- same row with the same payload (none where an insert is undone), if the clock reads the same in
  -- both.
  pub build_entry-undo :
      (tx : Transaction) (client_id : String) (r : R) (now : ℤ)
      → (rt.now r).0 ≡ now
      → Agree tx
          (build_entry date_parse now tx.model_name tx.model_id tx.action tx.payload tx.original)
          (create_undo_transaction rt date_parse tx client_id r).0
  unfolding build_entry create_undo_transaction create_transaction create_insert_transaction
      create_update_transaction create_delete_transaction create_archive_transaction
      create_unarchive_transaction create_archive_payload
  build_entry-undo tx client_id r now e = ground arith
