-- ===== src/Outbox/Settling.antt =====
-- What `sendBatch` of packages/client/src/outbox-manager.ts does to the transactions of a batch, before and
-- after the transport has it: marking, requeueing, settling and rejecting them. A task returns whether
-- it ended without an error. In-memory transactions are changed by their new values.
use stratasync.Prelude.{
  ℕ, ◌+◌, String, Bool, true, false, not, List, [], ◌∷◌, ◌++◌, Option, none, some, ◌==◌,
  if◌then◌else◌,
}
use stratasync.Prelude.Dict.{get_or}
use stratasync.SyncId.{SyncId, zero_sync_id, max_sync_id}
use stratasync.Value.{Row}
use stratasync.Transaction.{Transaction, TxState, queued, sent, awaiting_sync, failed, completed}
use stratasync.Outbox.{
  Outbox, has_id, update_stored, drop_id, without_discarded, is_current, discard_now, discard_rest,
}
use stratasync.Outbox.Await.{Options, World, Task, await_after, at_once}

-- `TransactionResult` and `MutateResult`
pub record TransactionResult : Type 0 where
  pub client_tx_id : String
  pub success : Bool
  pub sync_id : Option SyncId
  pub error : Option String

pub record MutateResult : Type 0 where
  pub last_sync_id : Option SyncId
  pub results : List TransactionResult

abbrev pub mark_sent : Transaction → Transaction
mark_sent tx = record tx { state = sent }

abbrev pub requeue : String → Transaction → Transaction
requeue error tx = record tx {
  state = queued;
  last_error = some error;
  retry_count = tx.retry_count + 1;
}

abbrev pub requeue_after_rejection : Transaction → Transaction
requeue_after_rejection tx = record tx { state = queued; last_error = none }

abbrev pub await_cursor : SyncId → Transaction → Transaction
await_cursor id tx = record tx {
  state = awaiting_sync;
  sync_id_needed = some id;
  last_error = none;
}

abbrev pub fail_with : String → Transaction → Transaction
fail_with error tx = record tx { state = failed; last_error = some error }

-- What `updateOutboxTransaction` writes of each of these on the stored copy.
abbrev pub store_state : TxState → Transaction → Transaction
store_state state tx = record tx { state = state }

abbrev pub store_requeued : Transaction → Transaction → Transaction
store_requeued from tx = record tx {
  state = queued;
  last_error = from.last_error;
  retry_count = from.retry_count;
}

abbrev pub on_stored : String → (Transaction → Transaction) → Outbox → Outbox
on_stored id f box = record box { stored = update_stored id f box.stored }

unfoldable pub find_id : String → List Transaction → Option Transaction
find_id id [] = none
find_id id (tx ∷ txs) = if has_id id tx then some tx else find_id id txs

abbrev pub original_from : Transaction → Option Row → Transaction
original_from tx none = tx
original_from tx (some original) = record tx { original = some original }

abbrev pub persisted_original : Transaction → Option Transaction → Transaction
persisted_original tx none = tx
persisted_original tx (some persisted) = original_from tx persisted.original

-- `highestSyncId === ZERO_SYNC_ID`
abbrev pub is_zero_id : SyncId → Bool
is_zero_id (c ∷ []) = c == b'0'
is_zero_id _ = false

-- `txResult.syncId ?? (highestSyncId === ZERO_SYNC_ID ? undefined : highestSyncId)`
abbrev pub needed_for : SyncId → TransactionResult → Option SyncId
needed_for highest r = elim r.sync_id [
  | some id ↦ some id
  | none ↦ if is_zero_id highest then none else some highest
]

unfoldable pub highest_of : SyncId → List TransactionResult → SyncId
highest_of highest [] = highest
highest_of highest (r ∷ results) =
    highest_of (elim r.sync_id [ none ↦ highest | some id ↦ max_sync_id highest id ]) results

module _ (o : Options) where
  -- `markTransactionsSent`: whether all were marked before the lifecycle ended.
  unfoldable pub mark_transactions_sent : List Transaction → ℕ → Task Bool
  mark_transactions_sent [] version w = (true, w)
  mark_transactions_sent (tx ∷ txs) version w =
      let w' = await_after o (on_stored tx.client_tx_id (store_state sent)) w in
      let rest = mark_transactions_sent txs version w' in
      if not (is_current version w.box)
      then (false, w)
      else if not (is_current version w'.box)
      then (false, w')
      else rest

  -- The loop of `handleTransportFailure`: the requeued transactions, unless the lifecycle ended.
  unfoldable pub requeue_all : List Transaction → String → ℕ → Task (Option (List Transaction))
  requeue_all [] error version w = (some [], w)
  requeue_all (tx ∷ txs) error version w =
      let tx' = requeue error tx in
      let w' = await_after o (on_stored tx.client_tx_id (store_requeued tx')) w in
      let (rest, w'') = requeue_all txs error version w' in
      if is_current version w'.box
      then (elim rest [ none ↦ none | some txs' ↦ some (tx' ∷ txs') ], w'')
      else (none, w')

  unfoldable pub owe : List Transaction → Outbox → Outbox
  owe txs box = record box { retry_backlog = box.retry_backlog ++ without_discarded box txs }

  -- `handleTransportFailure`: whether it did not throw.
  unfoldable pub handle_transport_failure : List Transaction → String → ℕ → Task Bool
  unfolding owe
  handle_transport_failure txs error version w =
      let (done, w') = requeue_all txs error version w in
      if is_current version w.box
      then (elim done [ none ↦ (false, w') | some txs' ↦ (true, at_once (owe txs') w') ])
      else (false, w)

  -- `adoptPersistedOriginal`: `getOutbox` is read, then awaited.
  unfoldable pub adopt_persisted_original : Transaction → Task Transaction
  adopt_persisted_original tx w =
      (persisted_original tx (find_id tx.client_tx_id w.box.stored), await_after o (λ box. box) w)

  -- `discardTransaction`
  unfoldable pub discard_transaction : String → World → World
  discard_transaction id w = at_once (discard_rest id) (await_after o (discard_now id) w)

  unfoldable pub reject : Transaction → Outbox → Outbox
  reject tx box = record box { rejected = box.rejected ++ tx ∷ [] }

  -- `completeTransactionNow`
  unfoldable pub complete_transaction_now : Transaction → World → Transaction × World
  complete_transaction_now tx w =
      (record tx { state = completed }, discard_transaction tx.client_tx_id w)

  -- A transaction that the server took, with the sync id to wait for.
  unfoldable pub settle_success : Transaction → Option SyncId → World → Transaction × World
  settle_success tx none w = complete_transaction_now tx w
  settle_success tx (some id) w =
      (await_cursor id tx, await_after o (on_stored tx.client_tx_id (await_cursor id)) w)

  -- One that it rejected.
  unfoldable pub settle_failure : Transaction → String → World → Transaction × World
  unfolding reject
  settle_failure tx error w =
      let (adopted, w1) = adopt_persisted_original tx w in
      let tx' = record adopted {
        state = failed;
        last_error = some error;
        retry_count = adopted.retry_count + 1;
      } in
      let w2 =
        await_after o
          (on_stored tx.client_tx_id (λ t. record t {
            state = failed;
            last_error = some error;
            retry_count = tx'.retry_count;
          }))
          w1 in
      (tx', discard_transaction tx.client_tx_id (at_once (reject tx') w2))

  unfoldable pub settle_one : Transaction → TransactionResult → SyncId → World → Transaction × World
  settle_one tx r highest w =
      if r.success
      then settle_success tx (needed_for highest r) w
      else settle_failure tx (get_or r.error "Unknown error") w

  -- The loop of `handleMutateResult`: the transactions that no result named, unless the lifecycle
  -- ended.
  unfoldable pub settle_all :
      List Transaction
      → List Transaction
      → List TransactionResult
      → SyncId
      → ℕ
      → Task (Option (List Transaction))
  settle_all txs unresolved [] highest version w = (some unresolved, w)
  settle_all txs unresolved (r ∷ results) highest version w = elim (is_current version w.box) [
    | false ↦ (none, w)
    | true ↦ elim (find_id r.client_tx_id txs) [
      | none ↦ settle_all txs unresolved results highest version w
      | some tx ↦
          let (tx', w') = settle_one tx r highest w in
          elim (is_current version w'.box) [
            | true ↦
                settle_all (update_stored tx.client_tx_id (λ _. tx') txs)
                  (drop_id tx.client_tx_id unresolved) results highest version w'
            | false ↦ (none, w')
          ]
    ]
  ]

  abbrev pub requeue_unresolved : List Transaction → ℕ → Task Bool
  requeue_unresolved [] version w = (true, w)
  requeue_unresolved (tx ∷ txs) version w =
      handle_transport_failure (tx ∷ txs) "Mutation result did not include the transaction" version
        w

  -- `handleMutateResult`: whether it did not throw.
  unfoldable pub handle_mutate_result : List Transaction → MutateResult → ℕ → Task Bool
  handle_mutate_result txs result version w =
      let highest = highest_of (get_or result.last_sync_id zero_sync_id) result.results in
      let (unresolved, w') = settle_all txs txs result.results highest version w in
      elim unresolved [ none ↦ (true, w') | some left ↦ requeue_unresolved left version w' ]

  -- The loop over the transactions that stay after a rejection, unless the lifecycle ended.
  unfoldable pub requeue_others : List Transaction → ℕ → Task (Option (List Transaction))
  requeue_others [] version w = (some [], w)
  requeue_others (tx ∷ txs) version w =
      let w' = await_after o (on_stored tx.client_tx_id requeue_after_rejection) w in
      let (rest, w'') = requeue_others txs version w' in
      if is_current version w'.box
      then (elim rest [ none ↦ none | some txs' ↦ some (requeue_after_rejection tx ∷ txs') ], w'')
      else (none, w')

  -- `handleInvalidMutationBatch` up to its loop, with the rejected transaction: whether the
  -- lifecycle goes on.
  unfoldable pub reject_one : Transaction → String → ℕ → Task Bool
  unfolding reject
  reject_one tx message version w =
      let (adopted, w1) = adopt_persisted_original tx w in
      let tx' = fail_with message adopted in
      let w2 = await_after o (on_stored tx.client_tx_id (fail_with message)) w1 in
      let w3 = discard_transaction tx.client_tx_id (at_once (reject tx') w2) in
      if is_current version w2.box then (is_current version w3.box, w3) else (false, w2)
