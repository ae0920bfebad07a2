-- ===== src/Outbox/Stable.antt =====
-- What no part of a send changes, between two batches that it hands to the transport.
use stratasync.Prelude.{
  ℕ, String, inl, inr, List, [], ◌∷◌, Option, none, some, Bool-cases, Option-cases,
}
use stratasync.Prelude.Dict.{get_or}
use stratasync.SyncId.{SyncId, zero_sync_id}
use stratasync.Transaction.{Transaction, sent}
use stratasync.Outbox.{Outbox, is_current, discard_now, drop_id, update_stored}
use stratasync.Outbox.Await.{
  Options, Call, discards, settles, World, call, call_all, pass, await_after,
}
use stratasync.Outbox.Settling.{
  TransactionResult, MutateResult, requeue, requeue_after_rejection, fail_with, store_state,
  store_requeued, on_stored, find_id, needed_for, highest_of, mark_transactions_sent, requeue_all,
  owe, handle_transport_failure, adopt_persisted_original, discard_transaction, reject,
  complete_transaction_now, settle_success, settle_failure, settle_one, settle_all,
  requeue_unresolved, handle_mutate_result, requeue_others, reject_one,
}

-- A property of the manager that survives every call of another task, and any change of the stored
-- outbox and the list of rejected transactions.
pub record IsStable (o : Options) (P : Outbox → Type 0) : Type 0 where
  pub keeps_call : (c : Call) (box : Outbox) → P box → P (call o c box)
  pub keeps_stored :
      (stored : List Transaction) (box : Outbox) → P box → P (record box { stored = stored })
  pub keeps_rejected :
      (rejected : List Transaction) (box : Outbox) → P box → P (record box { rejected = rejected })

module _ {o : Options} {P : Outbox → Type 0} (st : IsStable o P) where
  pub keeps_calls : (calls : List Call) (box : Outbox) → P box → P (call_all o calls box)
  unfolding call_all
  keeps_calls [] box h = h
  keeps_calls (c ∷ calls) box h = keeps_calls calls (call o c box) (st.keeps_call c box h)

  keeps_pass : (meanwhile : List (List Call)) (box : Outbox) → P box → P (pass o meanwhile box).box
  unfolding pass
  keeps_pass [] box h = h
  keeps_pass (calls ∷ later) box h = keeps_calls calls box h

  pub await_after-P :
      (change : Outbox → Outbox) (w : World) → P (change w.box) → P (await_after o change w).box
  unfolding await_after
  await_after-P change w h = keeps_pass w.meanwhile (change w.box) h

  write-P :
      (stored : Outbox → List Transaction) (w : World)
      → P w.box
      → P (await_after o (λ box. record box { stored = stored box }) w).box
  write-P stored w h = await_after-P _ w (st.keeps_stored (stored w.box) w.box h)

  pub mark_transactions_sent-P :
      (txs : List Transaction) (version : ℕ) (w : World)
      → P w.box
      → P (mark_transactions_sent o txs version w).1.box
  unfolding mark_transactions_sent
  mark_transactions_sent-P [] version w h = h
  mark_transactions_sent-P (tx ∷ txs) version w h = elim (Bool-cases (is_current version w.box)) [
    | inr e ↦ rw e h
    | inl e ↦
        let w' = await_after o (on_stored tx.client_tx_id (store_state sent)) w in
        let h' : P w'.box = write-P _ w h in
        elim (Bool-cases (is_current version w'.box)) [
          | inl e' ↦ rw e (rw e' (mark_transactions_sent-P txs version w' h'))
          | inr e' ↦ rw e (rw e' h')
        ]
  ]

  pub requeue_all-P :
      (txs : List Transaction) (error : String) (version : ℕ) (w : World)
      → P w.box
      → P (requeue_all o txs error version w).1.box
  unfolding requeue_all
  requeue_all-P [] error version w h = h
  requeue_all-P (tx ∷ txs) error version w h =
      let w' = await_after o (on_stored tx.client_tx_id (store_requeued (requeue error tx))) w in
      let h' : P w'.box = write-P _ w h in
      elim (Bool-cases (is_current version w'.box)) [
        | inl e ↦ rw e (requeue_all-P txs error version w' h')
        | inr e ↦ rw e h'
      ]

  pub discard_transaction-P :
      (id : String) (w : World) → P w.box → P (discard_transaction o id w).box
  unfolding discard_transaction
  discard_transaction-P id w h =
      let w' = await_after o (discard_now id) w in
      let h' : P w'.box = await_after-P _ w (unfold call in st.keeps_call (discards id) w.box h) in
      unfold call in st.keeps_call (settles id) w'.box h'

  adopt-P : (tx : Transaction) (w : World) → P w.box → P (adopt_persisted_original o tx w).1.box
  unfolding adopt_persisted_original
  adopt-P tx w h = await_after-P _ w h

  settle_success-P :
      (tx : Transaction) (id : Option SyncId) (w : World)
      → P w.box
      → P (settle_success o tx id w).1.box
  unfolding settle_success complete_transaction_now
  settle_success-P tx none w h = discard_transaction-P tx.client_tx_id w h
  settle_success-P tx (some id) w h = write-P _ w h

  settle_failure-P :
      (tx : Transaction) (error : String) (w : World)
      → P w.box
      → P (settle_failure o tx error w).1.box
  unfolding settle_failure reject
  settle_failure-P tx error w h =
      discard_transaction-P tx.client_tx_id _ (st.keeps_rejected _ _ (write-P _ _ (adopt-P tx w h)))

  settle_one-P :
      (tx : Transaction) (r : TransactionResult) (highest : SyncId) (w : World)
      → P w.box
      → P (settle_one o tx r highest w).1.box
  unfolding settle_one
  settle_one-P tx r highest w h = elim (Bool-cases r.success) [
    | inl e ↦ rw e (settle_success-P tx (needed_for highest r) w h)
    | inr e ↦ rw e (settle_failure-P tx (get_or r.error "Unknown error") w h)
  ]

  pub settle_all-P :
      (txs unresolved : List Transaction) (results : List TransactionResult) (highest : SyncId)
      (version : ℕ) (w : World)
      → P w.box
      → P (settle_all o txs unresolved results highest version w).1.box
  unfolding settle_all
  settle_all-P txs unresolved [] highest version w h = h
  settle_all-P txs unresolved (r ∷ results) highest version w h =
      elim (Bool-cases (is_current version w.box)) [
        | inr e ↦ rw (e, settle_all) h
        | inl e ↦ elim (Option-cases (find_id r.client_tx_id txs)) [
          | inl n ↦
              rw (e, settle_all) (rw n (settle_all-P txs unresolved results highest version w h))
          | inr (tx, f) ↦
              let next = settle_one o tx r highest w in
              let h' = settle_one-P tx r highest w h in
              elim (Bool-cases (is_current version next.1.box)) [
                | inl e' ↦
                    rw (e, settle_all)
                      (rw f (
                        rw e' (
                          settle_all-P (update_stored tx.client_tx_id (λ _. next.0) txs)
                            (drop_id tx.client_tx_id unresolved) results highest version next.1
                            h')))
                | inr e' ↦ rw (e, settle_all) (rw f (rw e' h'))
              ]
        ]
      ]

  pub requeue_others-P :
      (txs : List Transaction) (version : ℕ) (w : World)
      → P w.box
      → P (requeue_others o txs version w).1.box
  unfolding requeue_others
  requeue_others-P [] version w h = h
  requeue_others-P (tx ∷ txs) version w h =
      let w' = await_after o (on_stored tx.client_tx_id requeue_after_rejection) w in
      let h' : P w'.box = write-P _ w h in
      elim (Bool-cases (is_current version w'.box)) [
        | inl e ↦ rw e (requeue_others-P txs version w' h')
        | inr e ↦ rw e h'
      ]

  pub reject_one-P :
      (tx : Transaction) (message : String) (version : ℕ) (w : World)
      → P w.box
      → P (reject_one o tx message version w).1.box
  unfolding reject_one reject
  reject_one-P tx message version w h =
      let w1 = (adopt_persisted_original o tx w).1 in
      let w2 = await_after o (on_stored tx.client_tx_id (fail_with message)) w1 in
      let h2 : P w2.box = write-P _ w1 (adopt-P tx w h) in
      let h3 = discard_transaction-P tx.client_tx_id _ (st.keeps_rejected _ w2.box h2) in
      elim (Bool-cases (is_current version w2.box)) [ inl e ↦ rw e h3 | inr e ↦ rw e h2 ]

  -- Where it also survives a change of the backlog, it survives a failed send.
  module _
      (keeps_backlog : (backlog : List Transaction) (box : Outbox)
        → P box
        → P (record box { retry_backlog = backlog })) where
    pub handle_transport_failure-P :
        (txs : List Transaction) (error : String) (version : ℕ) (w : World)
        → P w.box
        → P (handle_transport_failure o txs error version w).1.box
    unfolding handle_transport_failure owe
    handle_transport_failure-P txs error version w h =
        let done = requeue_all o txs error version w in
        let h' = requeue_all-P txs error version w h in
        elim (Bool-cases (is_current version w.box)) [
          | inr e ↦ rw e h
          | inl e ↦ elim (Option-cases done.0) [
            | inl ended ↦ rw e (rw ended h')
            | inr (txs', fine) ↦ rw e (rw fine (keeps_backlog _ done.1.box h'))
          ]
        ]

    requeue_unresolved-P :
        (left : List Transaction) (version : ℕ) (w : World)
        → P w.box
        → P (requeue_unresolved o left version w).1.box
    requeue_unresolved-P [] version w h = h
    requeue_unresolved-P (tx ∷ txs) version w h =
        handle_transport_failure-P (tx ∷ txs) _ version w h

    pub handle_mutate_result-P :
        (txs : List Transaction) (result : MutateResult) (version : ℕ) (w : World)
        → P w.box
        → P (handle_mutate_result o txs result version w).1.box
    unfolding handle_mutate_result
    handle_mutate_result-P txs result version w h =
        let highest = highest_of (get_or result.last_sync_id zero_sync_id) result.results in
        let settled = settle_all o txs txs result.results highest version w in
        let h' = settle_all-P txs txs result.results highest version w h in
        elim (Option-cases settled.0) [
          | inl e ↦ rw (e, handle_mutate_result) h'
          | inr (left, e) ↦
              rw (e, handle_mutate_result) (requeue_unresolved-P left version settled.1 h')
        ]
