-- ===== src/Outbox/Sending.antt =====
-- Sending a batch: `sendBatch` of packages/client/src/outbox-manager.ts and what it calls. The
-- transport is a parameter: what it answers to a batch, given those that it got before.
use stratasync.Prelude.{
  ℕ, zero, suc, String, Bool, true, false, List, [], ◌∷◌, ◌++◌, map, Option, none, some,
}
use stratasync.Transaction.{Transaction}
use stratasync.Outbox.{
  Outbox, drop_id, without_discarded, take_retry_backlog, is_current, claim_all, release_all,
}
use stratasync.Outbox.Await.{Options, Task, await_after, at_once}
use stratasync.Outbox.Settling.{
  MutateResult, mark_sent, find_id, mark_transactions_sent, handle_transport_failure,
  handle_mutate_result, requeue_others, reject_one,
}

-- A result; an error that `isInvalidMutationBatchError` accepts; another error.
pub data Reply : Type 0 where
  replied : MutateResult → Reply
  invalid_batch : String → String → Reply
  unreachable : String → Reply

abbrev pub Transport : Type 0
Transport = List (List Transaction) → List Transaction → Reply

module _ (o : Options) where
  module _ (transport : Transport) where
    unfoldable pub log_batch : List Transaction → Outbox → Outbox
    log_batch txs box = record box { sent_batches = box.sent_batches ++ txs ∷ [] }

    module _ (again : List Transaction → ℕ → Task Bool) where
      -- The rest of `handleInvalidMutationBatch`, which sends the other transactions `again`.
      unfoldable pub send_others : Option (List Transaction) → ℕ → Task Bool
      send_others none version w = (true, w)
      send_others (some []) version w = (true, w)
      send_others (some (tx ∷ txs)) version w = again (tx ∷ txs) version w

      unfoldable pub reject_and_resend : List Transaction → Transaction → String → ℕ → Task Bool
      unfolding send_others
      reject_and_resend txs tx message version w =
          let (goes_on, w') = reject_one o tx message version w in
          elim goes_on [
            | false ↦ (true, w')
            | true ↦
                let (others, w'') = requeue_others o (drop_id tx.client_tx_id txs) version w' in
                send_others others version w''
          ]

      -- `handleInvalidMutationBatch`
      unfoldable pub handle_invalid_batch : List Transaction → String → String → ℕ → Task Bool
      unfolding reject_and_resend
      handle_invalid_batch txs id message version w = elim (find_id id txs) [
        | none ↦ (false, (handle_transport_failure o txs message version w).1)
        | some tx ↦ reject_and_resend txs tx message version w
      ]

      -- What `sendClaimedBatch` does with the answer, in the lifecycle of the batch.
      unfoldable pub handle_reply : List Transaction → Reply → ℕ → Task Bool
      handle_reply txs (replied result) version w = handle_mutate_result o txs result version w
      handle_reply txs (invalid_batch id message) version w =
          handle_invalid_batch txs id message version w
      handle_reply txs (unreachable error) version w =
          (false, (handle_transport_failure o txs error version w).1)

      -- An answer that comes after the lifecycle ended is dropped; an error is thrown on.
      abbrev late_reply : Reply → Bool
      late_reply (replied result) = true
      late_reply _ = false

      -- `transport.mutate` and what follows it.
      unfoldable pub mutate : List Transaction → ℕ → Task Bool
      unfolding log_batch
      mutate [] version w = (true, w)
      mutate (tx ∷ txs) version w =
          let reply = transport w.box.sent_batches (tx ∷ txs) in
          let w' = await_after o (log_batch (tx ∷ txs)) w in
          elim (is_current version w'.box) [
            | true ↦ handle_reply (tx ∷ txs) reply version w'
            | false ↦ (late_reply reply, w')
          ]

      -- `sendClaimedBatch`. What is still to be sent was marked as sent.
      unfoldable pub send_claimed_batch : List Transaction → ℕ → Task Bool
      send_claimed_batch claimed version w =
          let (marked, w') = mark_transactions_sent o (without_discarded w.box claimed) version w in
          elim marked [
            | false ↦ (true, w')
            | true ↦ mutate (map mark_sent (without_discarded w'.box claimed)) version w'
          ]

      -- The claim of what is owed, the send of all, and the release.
      unfoldable pub send_carrying : List Transaction → List Transaction → ℕ → Task Bool
      send_carrying owed [] version w = (true, w)
      send_carrying owed (tx ∷ txs) version w =
          let (done, w') = send_claimed_batch (tx ∷ txs) version (at_once (claim_all owed) w) in
          (done, at_once (release_all owed version) w')

    -- `sendBatch`. Each send after a rejection has fewer transactions: the fuel bounds them.
    unfoldable pub send_batch : ℕ → List Transaction → ℕ → Task Bool
    send_batch zero requested version w = (true, w)
    send_batch (suc fuel) requested version w =
        let (owed, box) = take_retry_backlog requested w.box in
        let again = send_batch fuel in
        elim (is_current version w.box) [
          | false ↦ (true, w)
          | true ↦ send_carrying again owed (owed ++ requested) version (record w { box = box })
        ]
