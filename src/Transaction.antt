-- ===== src/Transaction.antt =====
-- packages/core/src/transaction/types.ts and create.ts: a local mutation, the constructors of the
-- five kinds, and the transaction that undoes one. The runtime (clock and id source) is passed
-- along as a state `R`, with the two operations that the constructors call.
pub mod Undo
use stratasync.Prelude.{ℕ, String, Bool, true, false, ◌&&◌, Option, none, some}
use stratasync.Prelude.Int.{ℤ}
use stratasync.Prelude.Dict.{has_key}
use stratasync.SyncId.{SyncId}
use stratasync.Value.{Value, Row, null, replace_undefined_with_null}
use stratasync.Archive.{
  archived_at, field_of, read_archived_at, capture_archive_state, create_archive_payload,
  create_unarchive_patch, create_unarchive_payload,
}

-- `TransactionAction`: "I", "U", "A", "D", "V".
pub data Action : Type 0 where
  insert update archive delete unarchive : Action

pub Action-discrete : Discrete Action
Action-discrete = hlevel

-- `TransactionState`
pub data TxState : Type 0 where
  queued sent awaiting_sync completed failed : TxState

pub record Transaction : Type 0 where
  pub client_tx_id : String
  pub client_id : String
  pub model_name : String
  pub model_id : String
  pub action : Action
  pub payload : Row
  pub original : Option Row
  pub state : TxState
  pub created_at : ℤ
  pub retry_count : ℕ
  pub last_error : Option String
  pub sync_id_needed : Option SyncId
  pub batch_index : Option ℕ

-- `SyncRuntime`, as far as transactions use it: each call may change the runtime.
pub record Runtime (R : Type 0) : Type 0 where
  pub now : R → ℤ × R
  pub new_transaction_id : R → String × R

-- `CreateTransactionOptions`
pub record CreateOptions : Type 0 where
  pub action : Action
  pub client_id : String
  pub model_name : String
  pub model_id : String
  pub payload : Row
  pub original : Option Row

-- `ArchiveTransactionOptions` and `UnarchiveTransactionOptions`
pub record ArchiveOptions : Type 0 where
  pub original : Option Row
  pub archived_at : Option ℤ

is_null : Value → Bool
is_null null = true
is_null _ = false

-- `original !== undefined && "archivedAt" in original && original.archivedAt === null`
unfoldable pub was_known_unarchived : Option Row → Bool
unfolding is_null
was_known_unarchived none = false
was_known_unarchived (some original) =
    has_key archived_at original && is_null (field_of (some original) archived_at)

-- A transaction that was made, beside the runtime.
abbrev made : {R : Type 0} → Transaction × R → Option Transaction × R
made (tx, r) = (some tx, r)

module _ {R : Type 0} (rt : Runtime R) where
  unfoldable pub create_transaction : CreateOptions → R → Transaction × R
  create_transaction o r =
      let (id, r1) = rt.new_transaction_id r in
      let (time, r2) = rt.now r1 in
      (
        record {
          client_tx_id = id;
          client_id = o.client_id;
          model_name = o.model_name;
          model_id = o.model_id;
          action = o.action;
          payload = o.payload;
          original = o.original;
          state = queued;
          created_at = time;
          retry_count = 0;
          last_error = none;
          sync_id_needed = none;
          batch_index = none;
        },
        r2,
      )

  module _ (client_id model_name model_id : String) where
    unfoldable pub create_insert_transaction : Row → R → Transaction × R
    create_insert_transaction fields = create_transaction (record {
      action = insert;
      client_id = client_id;
      model_name = model_name;
      model_id = model_id;
      payload = fields;
      original = none;
    })

    unfoldable pub create_update_transaction : Row → Row → R → Transaction × R
    create_update_transaction changes original = create_transaction (record {
      action = update;
      client_id = client_id;
      model_name = model_name;
      model_id = model_id;
      payload = changes;
      original = some original;
    })

    unfoldable pub create_delete_transaction : Row → R → Transaction × R
    create_delete_transaction original = create_transaction (record {
      action = delete;
      client_id = client_id;
      model_name = model_name;
      model_id = model_id;
      payload = original;
      original = some original;
    })

    -- The payload's time: given, or read from the clock before the transaction is made.
    archive_time : Option ℤ → R → ℤ × R
    archive_time none r = rt.now r
    archive_time (some t) r = (t, r)

    unfoldable pub create_archive_transaction : ArchiveOptions → R → Transaction × R
    unfolding archive_time
    create_archive_transaction o r =
        let (time, r1) = archive_time o.archived_at r in
        create_transaction
          (record {
            action = archive;
            client_id = client_id;
            model_name = model_name;
            model_id = model_id;
            payload = create_archive_payload (some time) time;
            original = o.original;
          })
          r1

    unfoldable pub create_unarchive_transaction : Option Row → R → Transaction × R
    create_unarchive_transaction original = create_transaction (record {
      action = unarchive;
      client_id = client_id;
      model_name = model_name;
      model_id = model_id;
      payload = create_unarchive_payload;
      original = original;
    })

  module _ (date_parse : String → Option ℤ) where
    undo_archive : String → Transaction → Option ℤ → R → Transaction × R
    undo_archive client_id tx (some previous) r =
        create_archive_transaction client_id tx.model_name tx.model_id
          (record {
            original = some (capture_archive_state date_parse (some tx.payload));
            archived_at = some previous;
          })
          r
    undo_archive client_id tx none r =
        create_unarchive_transaction client_id tx.model_name tx.model_id
          (some (capture_archive_state date_parse (some tx.payload))) r

    undo_unarchive : String → Transaction → Bool → R → Transaction × R
    undo_unarchive client_id tx true r =
        create_unarchive_transaction client_id tx.model_name tx.model_id
          (some create_unarchive_patch) r
    undo_unarchive client_id tx false r =
        create_archive_transaction client_id tx.model_name tx.model_id
          (record {
            original = some create_unarchive_patch;
            archived_at = read_archived_at date_parse tx.original;
          })
          r

    undo_by : Action → Option Row → String → Transaction → R → Option Transaction × R
    unfolding undo_archive undo_unarchive
    undo_by insert original client_id tx r =
        made (create_delete_transaction client_id tx.model_name tx.model_id tx.payload r)
    undo_by delete none client_id tx r = (none, r)
    undo_by delete (some original) client_id tx r =
        made (create_insert_transaction client_id tx.model_name tx.model_id original r)
    undo_by update none client_id tx r = (none, r)
    undo_by update (some original) client_id tx r = made (
        create_update_transaction client_id tx.model_name tx.model_id
          (replace_undefined_with_null original) tx.payload r)
    undo_by archive original client_id tx r =
        made (undo_archive client_id tx (read_archived_at date_parse original) r)
    undo_by unarchive original client_id tx r =
        made (undo_unarchive client_id tx (was_known_unarchived original) r)

    unfoldable pub create_undo_transaction : Transaction → String → R → Option Transaction × R
    unfolding undo_by
    create_undo_transaction tx client_id r = undo_by tx.action tx.original client_id tx r
