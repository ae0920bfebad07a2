-- ===== src/Outbox/Queued.antt =====
-- A mutation that is queued, and the replay that begins before its batch is sent.
use stratasync.Prelude.{
  ℕ, String, ◌≡◌, refl, ◌∙◌, Bool, true, false, not, ◌&&◌, ◌||◌, List, [], ◌∷◌, ◌++◌, arith, same,
  same_refl, same_iff, List-cases, inl, inr, Bool-cases, length, leb,
}
use stratasync.Prelude.TextSet.{contains, add, contains-add, contains-discard, contains_one}
use stratasync.Transaction.{Transaction}
use stratasync.Outbox.{
  Outbox, ids_of_all, drop_id, claim, claim_all, stamp, ensure_seeded, queue_transaction,
  schedule_batch_send, flush_batch, dispatch_batch, discard_now, discard_rest,
}
use stratasync.Outbox.Await.{
  Options, Call, queues, fires, disposes, discards, settles, call, call_all, pass, await_after,
}
use stratasync.Outbox.Sending.{Transport}
use stratasync.Outbox.Stable.{keeps_calls}
use stratasync.Outbox.Dropped.{times_sent, Silent-IsStable}
use stratasync.Outbox.Replay.{replay_persisted}
use stratasync.Outbox.Claimed.{replay_persisted-skips_claimed}

unfoldable pub is_dispatched : String → List (List Transaction × ℕ) → Bool
is_dispatched id [] = false
is_dispatched id ((txs, version) ∷ jobs) = contains id (ids_of_all txs) || is_dispatched id jobs

-- The transaction is in the batch, or in a send of the queue.
abbrev pub awaits_send : String → Outbox → Bool
awaits_send id box = contains id (ids_of_all box.pending_batch) || is_dispatched id box.send_queue

-- The calls neither discard the transaction nor dispose of the manager.
unfoldable pub leaves_alone : String → List Call → Bool
leaves_alone id [] = true
leaves_alone id (disposes ∷ calls) = false
leaves_alone id (discards j ∷ calls) = not (same j id) && leaves_alone id calls
leaves_alone id (_ ∷ calls) = leaves_alone id calls

contains-append :
    (id : String) (xs ys : List Transaction)
    → contains id (ids_of_all (xs ++ ys))
      ≡ (contains id (ids_of_all xs) || contains id (ids_of_all ys))
unfolding contains
contains-append id [] ys = refl
contains-append id (tx ∷ xs) ys = ground (arith, contains-append id xs ys)

is_dispatched-append :
    (id : String) (jobs : List (List Transaction × ℕ)) (txs : List Transaction) (version : ℕ)
    → is_dispatched id (jobs ++ (txs, version) ∷ [])
      ≡ (is_dispatched id jobs || contains id (ids_of_all txs))
unfolding is_dispatched
is_dispatched-append id [] txs version = ground arith
is_dispatched-append id ((us, v) ∷ jobs) txs version =
    ground (arith, is_dispatched-append id jobs txs version)

contains-drop_id :
    (id j : String) (txs : List Transaction)
    → same j id ≡ false
    → contains id (ids_of_all (drop_id j txs)) ≡ contains id (ids_of_all txs)
unfolding contains drop_id
contains-drop_id id j [] h = refl
contains-drop_id id j (tx ∷ txs) h = ground (
  arith,
  contains-drop_id id j txs h,
  same_iff tx.client_tx_id j,
  same_iff tx.client_tx_id id,
  same_iff j id,
)

contains-claim :
    (id : String) (txs : List Transaction) (ids : List String)
    → contains id (claim txs ids) ≡ (contains id ids || contains id (ids_of_all txs))
unfolding claim contains
contains-claim id [] ids = ground arith
contains-claim id (tx ∷ txs) ids =
    ground
      (arith, contains-claim id txs (add tx.client_tx_id ids), contains-add tx.client_tx_id id ids)

-- Claimed, and in the batch or a send of the queue.
abbrev IsWaiting : String → Outbox → Type 0
IsWaiting id box = (contains id box.claimed ≡ true) × (awaits_send id box ≡ true)

dispatch_batch-IsWaiting :
    (id : String) (txs : List Transaction) (box : Outbox)
    → (contains id box.claimed || contains id (ids_of_all txs)) ≡ true
    → (awaits_send id box || contains id (ids_of_all txs)) ≡ true
    → IsWaiting id (dispatch_batch txs box)
unfolding dispatch_batch claim_all
dispatch_batch-IsWaiting id txs box h k = ground (
  arith,
  contains-claim id txs box.claimed,
  is_dispatched-append id box.send_queue txs box.lifecycle,
)

flush_batch-IsWaiting :
    (id : String) (box : Outbox) → IsWaiting id box → IsWaiting id (flush_batch box)
unfolding flush_batch contains
flush_batch-IsWaiting id box h = elim (List-cases box.pending_batch) [
  | inl e ↦ rw (e, flush_batch) h
  | inr (tx, txs, e) ↦
      rw (e, flush_batch)
        (dispatch_batch-IsWaiting id box.pending_batch
          (record box { timer = false; pending_batch = [] }) (rw h.0 refl) (ground (arith, h.1)))
]

schedule_batch_send-IsWaiting :
    (id : String) (max : ℕ) (box : Outbox)
    → IsWaiting id box
    → IsWaiting id (schedule_batch_send max box)
unfolding schedule_batch_send
schedule_batch_send-IsWaiting id max box h =
    elim (Bool-cases (leb max (length box.pending_batch))) [
      | inl e ↦ rw e (flush_batch-IsWaiting id box h)
      | inr e ↦ rw e h
    ]

queue_transaction-IsWaiting :
    (batch_mutations : Bool) (max : ℕ) (tx : Transaction) (box : Outbox) (id : String)
    → (same tx.client_tx_id id || contains id box.claimed) ≡ true
    → (same tx.client_tx_id id || awaits_send id box) ≡ true
    → IsWaiting id (queue_transaction batch_mutations max tx box)
unfolding queue_transaction ensure_seeded stamp
queue_transaction-IsWaiting batch_mutations max tx box id h k =
    let tx' = stamp tx (ensure_seeded box) in
    let claims = contains-add tx.client_tx_id id box.claimed in
    let one : contains id (ids_of_all (tx' ∷ [])) ≡ same tx.client_tx_id id =
      contains_one tx.client_tx_id id in
    elim (Bool-cases batch_mutations) [
      | inl e ↦ rw e (
          schedule_batch_send-IsWaiting id max _ (
            ground (arith, claims),
            rw (contains-append id box.pending_batch (tx' ∷ [])) (ground (arith, one)),
          ))
      | inr e ↦
          rw e (
            dispatch_batch-IsWaiting id (tx' ∷ []) _ (ground (arith, claims)) (ground (arith, one)))
    ]

module _ (o : Options) (id : String) where
  call-IsWaiting :
      (c : Call) (box : Outbox)
      → IsWaiting id box
      → leaves_alone id (c ∷ []) ≡ true
      → IsWaiting id (call o c box)
  unfolding call leaves_alone discard_now discard_rest
  call-IsWaiting (queues tx) box h a =
      queue_transaction-IsWaiting o.batch_mutations o.max_batch_size tx box id (ground arith)
        (ground arith)
  call-IsWaiting fires box h a = flush_batch-IsWaiting id box h
  call-IsWaiting disposes box h a = absurd (ground arith)
  call-IsWaiting (discards j) box h a =
      let other : same j id ≡ false = ground arith in
      ground
        (arith, contains-drop_id id j box.pending_batch other, contains-discard j id box.claimed)
  call-IsWaiting (settles j) box h a = h

  leaves_alone-cons :
      (c : Call) (calls : List Call)
      → leaves_alone id (c ∷ calls) ≡ true
      → (leaves_alone id (c ∷ []) ≡ true) × (leaves_alone id calls ≡ true)
  unfolding leaves_alone
  leaves_alone-cons c calls h = ground arith

  call_all-IsWaiting :
      (calls : List Call) (box : Outbox)
      → IsWaiting id box
      → leaves_alone id calls ≡ true
      → IsWaiting id (call_all o calls box)
  unfolding call_all
  call_all-IsWaiting [] box h a = h
  call_all-IsWaiting (c ∷ calls) box h a =
      let (one, more) = leaves_alone-cons c calls a in
      call_all-IsWaiting calls (call o c box) (call-IsWaiting c box h one) more

-- A mutation is queued, and then come any calls that neither discard it nor dispose of the manager,
-- the last of them at the replay's reading of the outbox. Then the mutation is in the batch or in a
-- send of the queue, and the replay sends no batch with it, whatever runs at its further awaits: so
-- the mutation is not sent by both.
pub replay_persisted-skips_queued :
    (o : Options) (transport : Transport) (version : ℕ) (tx : Transaction)
    (calls reading : List Call) (later : List (List Call)) (box : Outbox)
    → leaves_alone tx.client_tx_id calls ≡ true
    → leaves_alone tx.client_tx_id reading ≡ true
    → (awaits_send tx.client_tx_id (
          call_all o reading
            (call_all o calls (queue_transaction o.batch_mutations o.max_batch_size tx box)))
        ≡ true)
      × (times_sent tx.client_tx_id
            (replay_persisted o transport version (record {
              box = call_all o calls (queue_transaction o.batch_mutations o.max_batch_size tx box);
              meanwhile = reading ∷ later;
            })).1.box.sent_batches
          ≡ times_sent tx.client_tx_id box.sent_batches)
unfolding await_after pass call
replay_persisted-skips_queued o transport version tx calls reading later box a b =
    let id = tx.client_tx_id in
    let queued_box = queue_transaction o.batch_mutations o.max_batch_size tx box in
    let queued_waits =
      queue_transaction-IsWaiting o.batch_mutations o.max_batch_size tx box id
        (rw (same_refl id) refl) (rw (same_refl id) refl) in
    let waits = call_all-IsWaiting o id calls queued_box queued_waits a in
    let read = call_all-IsWaiting o id reading (call_all o calls queued_box) waits b in
    let stable = Silent-IsStable o id (times_sent id box.sent_batches) in
    let unsent = keeps_calls stable calls queued_box (stable.keeps_call (queues tx) box refl) in
    (
      read.1,
      replay_persisted-skips_claimed o transport version id
            (record { box = call_all o calls queued_box; meanwhile = reading ∷ later }) read.0
          ∙ unsent,
    )
