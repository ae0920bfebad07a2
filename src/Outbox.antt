-- ===== src/Outbox.antt =====
-- packages/client/src/outbox-manager.ts: the transactions that wait for the server. The state is the
-- manager's fields beside the outbox that the storage holds, in the order in which `getOutbox`
-- returns it. `sent_batches` are the batches that `transport.mutate` was called with, and `rejected`
-- the transactions that `onTransactionRejected` was called with.
pub mod Await
pub mod Settling
pub mod Sending
pub mod Stable
pub mod Dropped
pub mod Fuel
pub mod Avoided
pub mod Untouched
pub mod Replay
pub mod Claimed
pub mod Queued
pub mod Confirm
pub mod Selection
pub mod Matching
pub mod Confirmed
use stratasync.Prelude.{
  ℕ, ◌+◌, String, Bool, true, false, not, ◌&&◌, List, [], ◌∷◌, ◌++◌, map, Option, none, some, ltb,
  leb, ◌==◌, length, same, if◌then◌else◌,
}
use stratasync.Prelude.TextSet.{TextSet, contains, add, discard}
use stratasync.Transaction.{Transaction, TxState, queued, sent, awaiting_sync}

pub record Outbox : Type 0 where
  pub stored : List Transaction
  pub pending_batch : List Transaction
  pub claimed : TextSet
  pub discarded : TextSet
  pub retry_backlog : List Transaction
  pub local_ids : TextSet
  pub next_batch_index : ℕ
  pub seeded : Bool
  pub lifecycle : ℕ
  pub timer : Bool
  pub send_queue : List (List Transaction × ℕ)
  pub sent_batches : List (List Transaction)
  pub rejected : List Transaction

abbrev pub new_outbox : List Transaction → Outbox
new_outbox stored = record {
  stored = stored;
  pending_batch = [];
  claimed = [];
  discarded = [];
  retry_backlog = [];
  local_ids = [];
  next_batch_index = 0;
  seeded = false;
  lifecycle = 0;
  timer = false;
  send_queue = [];
  sent_batches = [];
  rejected = [];
}

-- `isActiveTransaction`
abbrev pub active_state : TxState → Bool
active_state queued = true
active_state sent = true
active_state awaiting_sync = true
active_state _ = false

-- `tx.state === "sent"`
abbrev pub is_sent : Transaction → Bool
is_sent tx = elim tx.state [ sent ↦ true | _ ↦ false ]

abbrev pub has_id : String → Transaction → Bool
has_id id tx = same tx.client_tx_id id

-- `updateOutboxTransaction`: nothing where there is no such transaction.
unfoldable pub update_stored :
    String → (Transaction → Transaction) → List Transaction → List Transaction
update_stored id f [] = []
update_stored id f (tx ∷ txs) = (if has_id id tx then f tx else tx) ∷ update_stored id f txs

-- `removeFromOutbox`, and the filters that drop one id from a list.
unfoldable pub drop_id : String → List Transaction → List Transaction
drop_id id [] = []
drop_id id (tx ∷ txs) = let rest = drop_id id txs in if has_id id tx then rest else tx ∷ rest

-- `addToOutbox`: in the place of a transaction with this id, or at the end.
unfoldable pub add_stored : Transaction → List Transaction → List Transaction
add_stored tx [] = tx ∷ []
add_stored tx (t ∷ txs) = if has_id tx.client_tx_id t then tx ∷ txs else t ∷ add_stored tx txs

-- The transactions whose ids are not in the set.
unfoldable pub without_ids : TextSet → List Transaction → List Transaction
without_ids ids [] = []
without_ids ids (tx ∷ txs) =
    let rest = without_ids ids txs in if contains tx.client_tx_id ids then rest else tx ∷ rest

abbrev pub ids_of_all : List Transaction → List String
ids_of_all = map (λ tx. tx.client_tx_id)

unfoldable pub claim : List Transaction → TextSet → TextSet
claim [] ids = ids
claim (tx ∷ txs) ids = claim txs (add tx.client_tx_id ids)

unfoldable pub unclaim : List Transaction → TextSet → TextSet
unclaim [] ids = ids
unclaim (tx ∷ txs) ids = unclaim txs (discard tx.client_tx_id ids)

unfoldable pub is_current : ℕ → Outbox → Bool
is_current version box = version == box.lifecycle

-- `claim` and `release`
unfoldable pub claim_all : List Transaction → Outbox → Outbox
claim_all txs box = record box { claimed = claim txs box.claimed }

unfoldable pub release_all : List Transaction → ℕ → Outbox → Outbox
release_all txs version box =
    if is_current version box
    then record box { claimed = unclaim txs box.claimed; discarded = unclaim txs box.discarded }
    else box

-- `withoutDiscarded`
unfoldable pub without_discarded : Outbox → List Transaction → List Transaction
without_discarded box txs = without_ids box.discarded txs

-- `takeRetryBacklog`: what is to be sent before the requested transactions, and the state.
unfoldable pub take_retry_backlog : List Transaction → Outbox → List Transaction × Outbox
take_retry_backlog requested box =
    (without_ids (ids_of_all requested) box.retry_backlog, record box { retry_backlog = [] })

-- `seedBatchIndex`
unfoldable pub seed_index : List Transaction → ℕ → ℕ
seed_index [] next = next
seed_index (tx ∷ txs) next = elim tx.batch_index [
  | none ↦ seed_index txs next
  | some i ↦ seed_index txs (if leb next i then i + 1 else next)
]

-- `dispatchBatch`: the batch is claimed, and its send goes to the end of the queue.
unfoldable pub dispatch_batch : List Transaction → Outbox → Outbox
dispatch_batch txs box = record (claim_all txs box) {
  send_queue = box.send_queue ++ (txs, box.lifecycle) ∷ [];
}

-- `flushBatch`, also without the part of `flushPendingBatchNow` that waits for the send.
unfoldable pub flush_batch : Outbox → Outbox
flush_batch box = elim box.pending_batch [
  | [] ↦ record box { timer = false }
  | _ ∷ _ ↦ dispatch_batch box.pending_batch (record box { timer = false; pending_batch = [] })
]

unfoldable pub schedule_batch_send : ℕ → Outbox → Outbox
schedule_batch_send max_batch_size box =
    if leb max_batch_size (length box.pending_batch)
    then flush_batch box
    else record box { timer = true }

-- `ensureBatchIndexSeeded`: the outbox is read for the index once.
unfoldable pub ensure_seeded : Outbox → Outbox
ensure_seeded box = record box {
  seeded = true;
  next_batch_index =
      if box.seeded then box.next_batch_index else seed_index box.stored box.next_batch_index;
}

-- `queueTransaction`: once the index is seeded, the transaction is stamped, persisted and claimed,
-- and waits in the batch or is dispatched by itself.
unfoldable pub stamp : Transaction → Outbox → Transaction
stamp tx box = record tx { batch_index = some box.next_batch_index }

unfoldable pub queue_transaction : Bool → ℕ → Transaction → Outbox → Outbox
queue_transaction batch_mutations max_batch_size tx box =
    let box0 = ensure_seeded box in
    let tx' = stamp tx box0 in
    let box' = record box0 {
      local_ids = add tx.client_tx_id box0.local_ids;
      next_batch_index = box0.next_batch_index + 1;
      stored = add_stored tx' box0.stored;
      claimed = add tx.client_tx_id box0.claimed;
    } in
    if batch_mutations
    then schedule_batch_send max_batch_size
        (record box' { pending_batch = box'.pending_batch ++ tx' ∷ [] })
    else dispatch_batch (tx' ∷ []) box'

-- `discardTransaction` up to its await, and the rest of it.
unfoldable pub discard_now : String → Outbox → Outbox
discard_now id box =
    let batch = drop_id id box.pending_batch in
    let dropped = not (length batch == length box.pending_batch) in
    record box {
      pending_batch = batch;
      claimed = if dropped then discard id box.claimed else box.claimed;
      discarded =
          if not dropped && contains id box.claimed then add id box.discarded else box.discarded;
      stored = drop_id id box.stored;
    }

unfoldable pub discard_rest : String → Outbox → Outbox
discard_rest id box = record box {
  local_ids = discard id box.local_ids;
  retry_backlog = drop_id id box.retry_backlog;
}

-- `dispose`. The sends that were queued find another lifecycle.
unfoldable pub dispose : Outbox → Outbox
dispose box = record box {
  lifecycle = box.lifecycle + 1;
  timer = false;
  pending_batch = [];
  local_ids = [];
  claimed = [];
  discarded = [];
  retry_backlog = [];
}

-- `clear`
unfoldable pub clear_stored : List Transaction → List Transaction → List Transaction
clear_stored [] stored = stored
clear_stored (tx ∷ txs) stored = clear_stored txs (drop_id tx.client_tx_id stored)

unfoldable pub clear_outbox : Outbox → Outbox
clear_outbox box =
    let box' = dispose box in record box' { stored = clear_stored box'.stored box'.stored }

-- `getActiveTransactions` and `getPendingCount`
unfoldable pub active_of : List Transaction → List Transaction
active_of [] = []
active_of (tx ∷ txs) = let rest = active_of txs in if active_state tx.state then tx ∷ rest else rest

unfoldable pub get_pending_count : Outbox → ℕ
get_pending_count box = length (active_of box.stored)
