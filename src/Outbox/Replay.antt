-- ===== src/Outbox/Replay.antt =====
-- `processPendingTransactions` of packages/client/src/outbox-manager.ts, the replay of the outbox after a
-- reconnect, and the sends that wait in the queue. A send has more fuel than the
-- transactions that it is asked for and owes. What else is queued while the replay waits is sent after it.
use stratasync.Prelude.{
  ℕ, zero, suc, ◌+◌, Bool, true, false, List, [], ◌∷◌, length, take, drop, if◌then◌else◌,
}
use stratasync.Transaction.{Transaction, queued}
use stratasync.Outbox.{
  is_sent, is_current, without_ids, claim_all, release_all, seed_index, flush_batch,
}
use stratasync.Outbox.Await.{Options, World, Task, await_after, at_once}
use stratasync.Outbox.Sending.{Transport, send_batch}
use stratasync.Outbox.Settling.{store_state, on_stored}

abbrev pub send_fuel : List Transaction → World → ℕ
send_fuel txs w = suc (length txs + length w.box.retry_backlog)

-- The slices of a list that the loop takes; `fuel` is a bound on their number.
unfoldable pub slices : ℕ → ℕ → List Transaction → List (List Transaction)
slices zero max_batch_size txs = []
slices (suc fuel) max_batch_size [] = []
slices (suc fuel) max_batch_size (tx ∷ txs) =
    take max_batch_size (tx ∷ txs) ∷ slices fuel max_batch_size (drop max_batch_size (tx ∷ txs))

unfoldable pub queued_of : List Transaction → List Transaction
queued_of [] = []
queued_of (tx ∷ txs) = elim tx.state [ queued ↦ tx ∷ queued_of txs | _ ↦ queued_of txs ]

module _ (o : Options) where
  -- The reset of what was sent, for what it makes of the transactions that were read.
  unfoldable pub reset_sent : List Transaction → Task (List Transaction)
  reset_sent [] w = ([], w)
  reset_sent (tx ∷ txs) w = elim (is_sent tx) [
    | true ↦
        let (rest, w') =
          reset_sent txs (await_after o (on_stored tx.client_tx_id (store_state queued)) w) in
        (record tx { state = queued } ∷ rest, w')
    | false ↦ let (rest, w') = reset_sent txs w in (tx ∷ rest, w')
  ]

  module _ (transport : Transport) where
    -- A claim, a send and a release, the release after an error as well.
    unfoldable pub send_claimed : List Transaction → ℕ → Task Bool
    send_claimed txs version w =
        let w1 = at_once (claim_all txs) w in
        let (done, w2) = send_batch o transport (send_fuel txs w1) txs version w1 in
        (done, at_once (release_all txs version) w2)

    -- The loop ends at the first error.
    unfoldable pub send_slices : List (List Transaction) → ℕ → Task Bool
    send_slices [] version w = (true, w)
    send_slices (txs ∷ batches) version w =
        let (done, w') = send_claimed txs version w in
        elim done [ false ↦ (false, w') | true ↦ send_slices batches version w' ]

    -- `replayPersisted`, once the outbox is read.
    unfoldable pub replay_pending : List Transaction → ℕ → Task Bool
    replay_pending pending version w =
        let w1 =
          at_once
            (λ box. record box {
              next_batch_index = seed_index pending box.next_batch_index;
              retry_backlog = [];
            })
            w in
        let (unclaimed, w2) = reset_sent (without_ids w1.box.claimed pending) w1 in
        let txs = queued_of unclaimed in
        send_slices (slices (length txs) o.max_batch_size txs) version w2

    unfoldable pub replay_persisted : ℕ → Task Bool
    replay_persisted version w =
        let w' = await_after o (λ box. box) w in
        if is_current version w'.box then replay_pending w.box.stored version w' else (true, w')

    -- A send that `dispatchBatch` put in the queue; it was claimed there.
    unfoldable pub run_send : List Transaction → ℕ → Task Bool
    run_send txs version w =
        let (done, w') = send_batch o transport (send_fuel txs w) txs version w in
        (done, at_once (release_all txs version) w')

    -- Those that are in the queue, one after another.
    unfoldable pub run_queue : List (List Transaction × ℕ) → World → World
    run_queue [] w = w
    run_queue ((txs, version) ∷ jobs) w = run_queue jobs (run_send txs version w).1

    -- `doProcessPending`
    unfoldable pub process_pending : Task Bool
    process_pending w =
        let w1 = at_once flush_batch w in
        let w2 = run_queue w1.box.send_queue (at_once (λ box. record box { send_queue = [] }) w1) in
        replay_persisted w1.box.lifecycle w2
