-- ===== src/Storage.antt =====
-- packages/storage-idb/src/stores/outbox.ts: the object store that keeps the outbox. A database that
-- was made before the store has none. Its rows are known by `clientTxId`, and stand here in the order
-- in which the index "byCreatedAt" returns them, which nothing relies on: a row that is put for the
-- first time may stand anywhere.
pub mod ReplayOrder
pub mod Retries
use stratasync.Prelude.{
  ℕ, zero, suc, ◌+◌, ◌-◌, String, Bool, true, false, List, [], ◌∷◌, ◌++◌, map, Option, none, some,
  ltb, leb, ◌==◌, length, same, if◌then◌else◌,
}
use stratasync.Prelude.Dict.{get_or}
use stratasync.Prelude.Int.{ℤ, pos, negsuc, sub_ℕ, ◌-ℤ◌}
use stratasync.Transaction.{Transaction, TxState, queued, sent, failed}
use stratasync.Outbox.{is_sent, update_stored, drop_id, add_stored}
use stratasync.Outbox.Settling.{find_id}

abbrev pub Db : Type 0
Db = Option (List Transaction)

abbrev pub max_retry_count : ℕ
max_retry_count = 5

-- `x <= 0`
abbrev pub is_nonpositive : ℤ → Bool
is_nonpositive (pos zero) = true
is_nonpositive (pos (suc n)) = false
is_nonpositive (negsuc n) = true

-- `diff !== 0 ? diff : rest`
abbrev pub unless_zero : ℤ → ℤ → ℤ
unless_zero (pos zero) rest = rest
unless_zero (pos (suc n)) rest = pos (suc n)
unless_zero (negsuc n) rest = negsuc n

-- `localeCompare` is a parameter.
module _ (locale_compare : String → String → ℤ) where
  abbrev tie : ℤ → Transaction → Transaction → ℤ
  tie diff a b =
      unless_zero diff
        (unless_zero (a.created_at -ℤ b.created_at) (locale_compare a.client_tx_id b.client_tx_id))

  unfoldable pub compare_transactions : Transaction → Transaction → ℤ
  compare_transactions a b = elim a.batch_index [
    | none ↦ elim b.batch_index [ none ↦ tie (pos 0) a b | some j ↦ negsuc 0 ]
    | some i ↦ elim b.batch_index [ none ↦ pos 1 | some j ↦ tie (sub_ℕ i j) a b ]
  ]

  -- `toSorted(compareTransactions)`, which is stable.
  unfoldable pub insert_sorted : Transaction → List Transaction → List Transaction
  insert_sorted tx [] = tx ∷ []
  insert_sorted tx (t ∷ txs) =
      if is_nonpositive (compare_transactions tx t) then tx ∷ t ∷ txs else t ∷ insert_sorted tx txs

  unfoldable pub to_sorted : List Transaction → List Transaction
  to_sorted [] = []
  to_sorted (tx ∷ txs) = insert_sorted tx (to_sorted txs)

  unfoldable pub get_all_transactions : Db → List Transaction
  get_all_transactions none = []
  get_all_transactions (some rows) = to_sorted rows

-- The rows in a state that is queued or sent, as the index "byState" knows them.
abbrev pub is_queued : Transaction → Bool
is_queued tx = elim tx.state [ queued ↦ true | _ ↦ false ]

unfoldable pub count_where : (Transaction → Bool) → List Transaction → ℕ
count_where test [] = 0
count_where test (tx ∷ txs) = let rest = count_where test txs in if test tx then suc rest else rest

unfoldable pub get_transaction : String → Db → Option Transaction
get_transaction id none = none
get_transaction id (some rows) = find_id id rows

unfoldable pub add_transaction : Transaction → Db → Db
add_transaction tx none = none
add_transaction tx (some rows) = some (add_stored tx rows)

unfoldable pub update_transaction : String → (Transaction → Transaction) → Db → Db
update_transaction id updates none = none
update_transaction id updates (some rows) = some (update_stored id updates rows)

unfoldable pub remove_transaction : String → Db → Db
remove_transaction id none = none
remove_transaction id (some rows) = some (drop_id id rows)

unfoldable pub mark_transaction_failed : String → String → Db → Db
mark_transaction_failed id error none = none
mark_transaction_failed id error (some rows) = elim (find_id id rows) [
  | none ↦ some rows
  | some existing ↦ some (
      add_stored
        (record existing {
          last_error = some error;
          retry_count = existing.retry_count + 1;
          state = failed;
        })
        rows)
]

-- Whether the transaction was requeued, and the database.
unfoldable pub requeue_transaction : String → Db → Bool × Db
requeue_transaction id none = (false, none)
requeue_transaction id (some rows) = elim (find_id id rows) [
  | none ↦ (false, some rows)
  | some existing ↦ if leb max_retry_count existing.retry_count then (false, some rows) else (
    true,
    some (
        add_stored (record existing { retry_count = existing.retry_count + 1; state = queued })
          rows),
  )
]

-- How many were reset, and the database.
unfoldable pub reset_rows : List Transaction → List Transaction
reset_rows [] = []
reset_rows (tx ∷ txs) = (if is_sent tx then record tx { state = queued } else tx) ∷ reset_rows txs

unfoldable pub reset_sent_to_queued : Db → ℕ × Db
reset_sent_to_queued none = (0, none)
reset_sent_to_queued (some rows) = (count_where is_sent rows, some (reset_rows rows))

unfoldable pub get_pending_count : Db → ℕ
get_pending_count none = 0
get_pending_count (some rows) = count_where is_queued rows + count_where is_sent rows

unfoldable pub clear_outbox : Db → Db
clear_outbox none = none
clear_outbox (some rows) = some []
