-- ===== src/Tests/Outboxes.antt =====
-- The outbox on concrete input: three transactions, a transport, and calls at the awaits.
use stratasync.Prelude.{
  ◌+◌, String, ◌≡◌, refl, inr, true, List, [], ◌∷◌, none, some, arith, length, same,
}
use stratasync.Prelude.Int.{pos}
use stratasync.Prelude.TextSet.{contains, IsDistinct}
use stratasync.Value.{text}
use stratasync.SyncId.{value}
use stratasync.SyncAction.{SyncAction, row}
use stratasync.Transaction.{Transaction, TxState, insert, queued, awaiting_sync}
use stratasync.Outbox.{
  Outbox, queue_transaction, schedule_batch_send, take_retry_backlog, new_outbox, ids_of_all,
}
use stratasync.Outbox.Await.{Options, queues, fires, discards, settles, disposes, World}
use stratasync.Outbox.Sending.{Transport, replied, invalid_batch, send_batch}
use stratasync.Outbox.Dropped.{times_sent, IsDropped, marked, marking, send_batch-never_sends}
use stratasync.Outbox.Fuel.{send_batch_enough}
use stratasync.Outbox.Confirm.{confirm_from_actions, complete_up_to_sync_id}
use stratasync.Outbox.Confirmed.{
  alone, is_caught_up, confirm_from_actions-confirmed, confirm_from_actions-removes,
  complete_up_to_sync_id-completes,
}
use stratasync.Prelude.{ℕ, if◌then◌else◌, ◌≤◌}
use stratasync.Prelude.Int.{ℤ, negsuc}
use stratasync.Transaction.{sent}
use stratasync.Outbox.{ensure_seeded, stamp, add_stored}
use stratasync.Outbox.Settling.{find_id}
use stratasync.Storage.{
  get_all_transactions, to_sorted, insert_sorted, compare_transactions, get_transaction,
  requeue_transaction, mark_transaction_failed, reset_sent_to_queued, reset_rows,
}
use stratasync.Storage.Retries.{
  StorageCall, requeues, fails, resets, storage_call, times_requeued, retries_left,
  times_requeued-le,
}
use stratasync.Prelude.{map}
use stratasync.Prelude.TextSet.{add, discard}
use stratasync.Outbox.{
  is_current, without_ids, claim_all, release_all, claim, unclaim, without_discarded, seed_index,
  drop_id, update_stored, flush_batch, dispatch_batch, discard_now, discard_rest,
}
use stratasync.Outbox.Await.{await_after, pass, call_all, call}
use stratasync.Outbox.Sending.{
  mutate, handle_reply, handle_invalid_batch, reject_and_resend, send_others, send_claimed_batch,
  send_carrying, log_batch,
}
use stratasync.Outbox.Settling.{
  reject_one, requeue_others, handle_mutate_result, settle_all, mark_transactions_sent,
  handle_transport_failure, requeue_all, owe, adopt_persisted_original, discard_transaction, reject,
  highest_of,
}
use stratasync.Outbox.Replay.{
  replay_persisted, replay_pending, reset_sent, send_slices, send_claimed, slices, queued_of,
}
use stratasync.Outbox.Queued.{awaits_send, leaves_alone, replay_persisted-skips_queued}
use stratasync.Outbox.Selection.{select, others}
use stratasync.Outbox.Matching.{confirmed_by}

abbrev new_task : String → TxState → Transaction
new_task id state = record {
  client_tx_id = id;
  client_id = "me";
  model_name = "Task";
  model_id = id;
  action = insert;
  payload = ("title", text id) ∷ [];
  original = none;
  state = state;
  created_at = pos 1;
  retry_count = 0;
  last_error = none;
  sync_id_needed = some (b'7' ∷ []);
  batch_index = none;
}

abbrev three : List Transaction
three = new_task "a" queued ∷ new_task "b" awaiting_sync ∷ new_task "c" queued ∷ []

abbrev options : Options
options = record { batch_mutations = true; max_batch_size = 2 }

-- The first batch is refused for its transaction "a"; the next is taken.
abbrev picky : Transport
picky [] batch = invalid_batch "a" "no such model"
picky (_ ∷ _) batch = replied (record { last_sync_id = some (b'9' ∷ []); results = [] })

-- A mutation is queued while the first transaction is marked, and "c" is discarded before the send.
abbrev busy : World
busy = record {
  box = record (new_outbox three) {
    claimed = "a" ∷ "b" ∷ "c" ∷ [];
    discarded = "c" ∷ [];
    retry_backlog = new_task "b" queued ∷ [];
  };
  meanwhile =
      (queues (new_task "d" queued) ∷ [])
      ∷ (discards "b" ∷ [])
      ∷ (settles "b" ∷ fires ∷ [])
      ∷ (disposes ∷ [])
      ∷ [];
}

-- "b" is discarded while "a" and "b" are marked.
b-IsDropped : IsDropped "b" 0 (marked options three 0 busy).box
unfolding marked marking mark_transactions_sent take_retry_backlog without_discarded claim_all claim
    without_ids await_after pass call_all call queue_transaction ensure_seeded stamp
    schedule_batch_send discard_now drop_id is_current contains same add discard seed_index
    add_stored update_stored
b-IsDropped = inr (refl, refl)

send_batch-never_sends_example :
    times_sent "b" (send_batch options picky 5 three 0 busy).1.box.sent_batches ≡ 0
unfolding times_sent
send_batch-never_sends_example =
    send_batch-never_sends options picky 5 three 0 "b" busy (inr b-IsDropped)

send_batch_enough_example :
    send_batch options picky 5 three 0 busy ≡ send_batch options picky 9 three 0 busy
send_batch_enough_example =
    send_batch_enough options picky 5 9 three 0 busy (omega arith) (omega arith)

abbrev created : String → SyncAction
created id = record {
  id = b'8' ∷ [];
  model_name = "Task";
  model_id = id;
  action = row insert;
  fields = [];
  client_tx_id = none;
  client_id = none;
}

abbrev actions : List SyncAction
actions = record (created "x") { client_tx_id = some "a" } ∷ created "c" ∷ []

confirm_from_actions-confirmed_example :
    contains "c" (confirm_from_actions options actions busy).0
    ≡ contains "c" (ids_of_all (select (confirmed_by actions) three))
confirm_from_actions-confirmed_example = confirm_from_actions-confirmed options actions busy "c"

three-IsDistinct : IsDistinct (ids_of_all three)
unfolding contains same
three-IsDistinct = (refl, (refl, (refl, tt)))

confirm_from_actions-removes_example :
    (confirm_from_actions options actions (alone (new_outbox three))).1.box.stored
    ≡ others (confirmed_by actions) three
confirm_from_actions-removes_example =
    confirm_from_actions-removes options actions (new_outbox three) three-IsDistinct

complete_up_to_sync_id-completes_example :
    ((complete_up_to_sync_id options (b'9' ∷ []) (alone (new_outbox three))).1.box.stored
      ≡ others (is_caught_up (value (b'9' ∷ []))) three)
    × ((complete_up_to_sync_id options (b'9' ∷ []) (alone (new_outbox three))).0
          + length
              (complete_up_to_sync_id options (b'9' ∷ []) (alone (new_outbox three))).1.box.stored
        ≡ 3)
complete_up_to_sync_id-completes_example =
    complete_up_to_sync_id-completes options (b'9' ∷ []) (new_outbox three) three-IsDistinct
      (omega arith) (omega arith, (omega arith, (omega arith, tt)))

-- A database whose rows stand in an order of their own, and a comparison of texts.
abbrev by_text : String → String → ℤ
by_text a b = if same a b then pos 0 else negsuc 0

abbrev stamped : ℕ → String → Transaction
stamped i id = record (new_task id queued) { batch_index = some i }

abbrev rows : List Transaction
rows = stamped 4 "e" ∷ new_task "a" sent ∷ stamped 2 "f" ∷ []

abbrev with_rows : Outbox
with_rows = new_outbox (get_all_transactions by_text (some rows))

-- It is replayed as the unstamped one, then by index.
replayed : ids_of_all (get_all_transactions by_text (some rows)) ≡ "a" ∷ "f" ∷ "e" ∷ []
unfolding get_all_transactions to_sorted insert_sorted compare_transactions
replayed = refl

abbrev retrying : List StorageCall
retrying = requeues "a" ∷ fails "a" "offline" ∷ resets ∷ requeues "a" ∷ requeues "b" ∷ []

times_requeued-le_example :
    times_requeued "a" retrying (some rows) ≤ retries_left (get_transaction "a" (some rows))
times_requeued-le_example = times_requeued-le "a" retrying (some rows)

twice : times_requeued "a" retrying (some rows) ≡ 2
unfolding times_requeued storage_call requeue_transaction mark_transaction_failed
    reset_sent_to_queued reset_rows find_id add_stored same
twice = refl

-- "c" waits in the batch when the replay begins, and the timer fires while a transaction is reset.
abbrev reconnecting : World
reconnecting = record {
  box = record (new_outbox (new_task "a" sent ∷ new_task "c" queued ∷ new_task "b" sent ∷ [])) {
    pending_batch = new_task "c" queued ∷ [];
    claimed = "c" ∷ [];
  };
  meanwhile = [] ∷ (fires ∷ []) ∷ [];
}

-- "d" is queued, another is discarded, and the timer fires when the replay reads the outbox.
abbrev queueing : Outbox
queueing =
    call_all options (discards "c" ∷ [])
      (queue_transaction true 2 (new_task "d" queued) reconnecting.box)

replay_persisted-skips_queued_example :
    (awaits_send "d" (call_all options (fires ∷ []) queueing) ≡ true)
    × (times_sent "d"
          (replay_persisted options picky 0 (record {
            box = queueing;
            meanwhile = (fires ∷ []) ∷ (queues (new_task "f" queued) ∷ []) ∷ [];
          })).1.box.sent_batches
        ≡ 0)
unfolding times_sent
replay_persisted-skips_queued_example =
    replay_persisted-skips_queued options picky 0 (new_task "d" queued) (discards "c" ∷ [])
      (fires ∷ []) ((queues (new_task "f" queued) ∷ []) ∷ []) reconnecting.box
      (unfold leaves_alone same in refl) (unfold leaves_alone in refl)

replay_order :
    map ids_of_all (replay_persisted options picky 0 reconnecting).1.box.sent_batches
    ≡ ("a" ∷ "b" ∷ []) ∷ ("b" ∷ []) ∷ []
unfolding replay_persisted replay_pending reset_sent send_slices send_claimed slices queued_of
    send_batch mutate handle_reply handle_invalid_batch reject_and_resend send_others reject_one
    requeue_others handle_mutate_result settle_all mark_transactions_sent send_claimed_batch
    send_carrying log_batch handle_transport_failure requeue_all owe adopt_persisted_original
    discard_transaction reject highest_of await_after pass call_all call is_current without_ids
    claim_all release_all claim unclaim without_discarded take_retry_backlog seed_index drop_id
    update_stored flush_batch dispatch_batch discard_now discard_rest contains same add discard
    find_id
replay_order = refl
