-- ===== src/Outbox/Avoided.antt =====
-- The steps of a send, and a transaction that is not among those it is asked for or owes.
use stratasync.Prelude.{
  ℕ, String, ◌≡◌, refl, inl, inr, false, List, [], ◌∷◌, ◌++◌, Option, none, some, arith, Bool-cases,
  Option-cases, same,
}
use stratasync.Prelude.Dict.{get_or}
use stratasync.Prelude.TextSet.{contains}
use stratasync.SyncId.{SyncId, zero_sync_id}
use stratasync.Transaction.{Transaction}
use stratasync.Outbox.{
  Outbox, is_current, without_ids, without_discarded, claim_all, ids_of_all, drop_id, update_stored,
  queue_transaction, ensure_seeded, schedule_batch_send, flush_batch, dispatch_batch, discard_now,
  discard_rest, dispose,
}
use stratasync.Outbox.Await.{
  Options, Call, queues, fires, disposes, discards, settles, World, call, await_after,
}
use stratasync.Outbox.Sending.{}
use stratasync.Outbox.Settling.{
  TransactionResult, MutateResult, requeue, requeue_after_rejection, on_stored, store_requeued,
  find_id, requeue_all, owe, highest_of, handle_transport_failure, requeue_others, settle_one,
  settle_all, requeue_unresolved, handle_mutate_result,
}
use stratasync.Outbox.Stable.{IsStable, requeue_all-P, settle_all-P}
use stratasync.Outbox.Dropped.{times_sent}

-- No transaction with this id.
abbrev pub Lacks : String → List Transaction → Type 0
Lacks id txs = contains id (ids_of_all txs) ≡ false

abbrev pub LacksIfAny : String → Option (List Transaction) → Type 0
LacksIfAny id none = Unit
LacksIfAny id (some txs) = Lacks id txs

pub drop_id-Lacks :
    (id j : String) (txs : List Transaction) → Lacks id txs → Lacks id (drop_id j txs)
unfolding contains drop_id
drop_id-Lacks id j [] h = refl
drop_id-Lacks id j (tx ∷ txs) h = ground (arith, drop_id-Lacks id j txs)

pub without_ids-Lacks :
    (id : String) (ids : List String) (txs : List Transaction)
    → Lacks id txs
    → Lacks id (without_ids ids txs)
unfolding contains without_ids
without_ids-Lacks id ids [] h = refl
without_ids-Lacks id ids (tx ∷ txs) h = ground (arith, without_ids-Lacks id ids txs)

pub append-Lacks :
    (id : String) (txs more : List Transaction)
    → Lacks id txs
    → Lacks id more
    → Lacks id (txs ++ more)
unfolding contains
append-Lacks id [] more h k = k
append-Lacks id (tx ∷ txs) more h k = ground (arith, append-Lacks id txs more)

pub cons-Lacks :
    (id : String) (tx : Transaction) (txs : List Transaction)
    → Lacks id (tx ∷ txs)
    → (same tx.client_tx_id id ≡ false) × Lacks id txs
unfolding contains
cons-Lacks id tx txs h = (ground arith, ground arith)

pub and_cons-Lacks :
    (id : String) (tx : Transaction) (txs : List Transaction)
    → same tx.client_tx_id id ≡ false
    → Lacks id txs
    → Lacks id (tx ∷ txs)
unfolding contains
and_cons-Lacks id tx txs h k = ground arith

-- Nothing with the id is owed, and as many batches mention it as before.
abbrev pub Untouched : String → ℕ → Outbox → Type 0
Untouched id before box = Lacks id box.retry_backlog × (times_sent id box.sent_batches ≡ before)

module _ (o : Options) (id : String) (before : ℕ) where
  call-Untouched :
      (c : Call) (box : Outbox) → Untouched id before box → Untouched id before (call o c box)
  unfolding call queue_transaction ensure_seeded schedule_batch_send flush_batch dispatch_batch
      claim_all discard_now discard_rest dispose
  call-Untouched (queues tx) box h = ground arith
  call-Untouched fires box h = ground arith
  call-Untouched disposes box h = (unfold contains in refl, h.1)
  call-Untouched (discards j) box h = h
  call-Untouched (settles j) box h = (drop_id-Lacks id j box.retry_backlog h.0, h.1)

  pub Untouched-IsStable : IsStable o (Untouched id before)
  Untouched-IsStable = record {
    keeps_call = call-Untouched;
    keeps_stored = λ stored box h. h;
    keeps_rejected = λ rejected box h. h;
  }

  requeue_all-Lacks :
      (txs : List Transaction) (error : String) (version : ℕ) (w : World)
      → Lacks id txs
      → LacksIfAny id (requeue_all o txs error version w).0
  unfolding requeue_all
  requeue_all-Lacks [] error version w n = n
  requeue_all-Lacks (tx ∷ txs) error version w n =
      let w' = await_after o (on_stored tx.client_tx_id (store_requeued (requeue error tx))) w in
      let parts = cons-Lacks id tx txs n in
      let rest = requeue_all-Lacks txs error version w' parts.1 in
      elim (Bool-cases (is_current version w'.box)) [
        | inr e ↦ rw e tt
        | inl e ↦ elim (Option-cases (requeue_all o txs error version w').0) [
          | inl f ↦ rw e (rw f tt)
          | inr (left, f) ↦
              rw e (rw f (and_cons-Lacks id (requeue error tx) left parts.0 (rw f at rest)))
        ]
      ]

  owe-Untouched :
      (txs : List Transaction) (box : Outbox)
      → Lacks id txs
      → Untouched id before box
      → Untouched id before (owe o txs box)
  unfolding owe without_discarded
  owe-Untouched txs box n h = (
    append-Lacks id box.retry_backlog (without_ids box.discarded txs) h.0
        (without_ids-Lacks id box.discarded txs n),
    h.1,
  )

  pub handle_transport_failure-Untouched :
      (txs : List Transaction) (error : String) (version : ℕ) (w : World)
      → Lacks id txs
      → Untouched id before w.box
      → Untouched id before (handle_transport_failure o txs error version w).1.box
  unfolding handle_transport_failure
  handle_transport_failure-Untouched txs error version w n h =
      let done = requeue_all o txs error version w in
      let h' = requeue_all-P Untouched-IsStable txs error version w h in
      let n' = requeue_all-Lacks txs error version w n in
      elim (Bool-cases (is_current version w.box)) [
        | inr e ↦ rw e h
        | inl e ↦ elim (Option-cases done.0) [
          | inl ended ↦ rw e (rw ended h')
          | inr (txs', fine) ↦ rw e (rw fine (owe-Untouched txs' done.1.box (rw fine at n') h'))
        ]
      ]

  settle_all-Lacks :
      (txs unresolved : List Transaction) (results : List TransactionResult) (highest : SyncId)
      (version : ℕ) (w : World)
      → Lacks id unresolved
      → LacksIfAny id (settle_all o txs unresolved results highest version w).0
  unfolding settle_all
  settle_all-Lacks txs unresolved [] highest version w n = n
  settle_all-Lacks txs unresolved (r ∷ results) highest version w n =
      elim (Bool-cases (is_current version w.box)) [
        | inr e ↦ rw (e, settle_all) tt
        | inl e ↦ elim (Option-cases (find_id r.client_tx_id txs)) [
          | inl f ↦
              rw (e, settle_all)
                (rw f (settle_all-Lacks txs unresolved results highest version w n))
          | inr (tx, f) ↦
              let next = settle_one o tx r highest w in
              elim (Bool-cases (is_current version next.1.box)) [
                | inl e' ↦
                    rw (e, settle_all)
                      (rw f (
                        rw e' (
                          settle_all-Lacks (update_stored tx.client_tx_id (λ _. next.0) txs)
                            (drop_id tx.client_tx_id unresolved) results highest version next.1
                            (drop_id-Lacks id tx.client_tx_id unresolved n))))
                | inr e' ↦ rw (e, settle_all) (rw f (rw e' tt))
              ]
        ]
      ]

  requeue_unresolved-Untouched :
      (left : List Transaction) (version : ℕ) (w : World)
      → Lacks id left
      → Untouched id before w.box
      → Untouched id before (requeue_unresolved o left version w).1.box
  requeue_unresolved-Untouched [] version w n h = h
  requeue_unresolved-Untouched (tx ∷ txs) version w n h =
      handle_transport_failure-Untouched (tx ∷ txs) _ version w n h

  pub handle_mutate_result-Untouched :
      (txs : List Transaction) (result : MutateResult) (version : ℕ) (w : World)
      → Lacks id txs
      → Untouched id before w.box
      → Untouched id before (handle_mutate_result o txs result version w).1.box
  unfolding handle_mutate_result
  handle_mutate_result-Untouched txs result version w n h =
      let highest = highest_of (get_or result.last_sync_id zero_sync_id) result.results in
      let settled = settle_all o txs txs result.results highest version w in
      let h' = settle_all-P Untouched-IsStable txs txs result.results highest version w h in
      let n' = settle_all-Lacks txs txs result.results highest version w n in
      elim (Option-cases settled.0) [
        | inl e ↦ rw (e, handle_mutate_result) h'
        | inr (left, e) ↦
            rw (e, handle_mutate_result)
              (requeue_unresolved-Untouched left version settled.1 (rw e at n') h')
      ]

  pub requeue_others-Lacks :
      (txs : List Transaction) (version : ℕ) (w : World)
      → Lacks id txs
      → LacksIfAny id (requeue_others o txs version w).0
  unfolding requeue_others
  requeue_others-Lacks [] version w n = n
  requeue_others-Lacks (tx ∷ txs) version w n =
      let w' = await_after o (on_stored tx.client_tx_id requeue_after_rejection) w in
      let parts = cons-Lacks id tx txs n in
      let rest = requeue_others-Lacks txs version w' parts.1 in
      elim (Bool-cases (is_current version w'.box)) [
        | inr e ↦ rw e tt
        | inl e ↦ elim (Option-cases (requeue_others o txs version w').0) [
          | inl f ↦ rw e (rw f tt)
          | inr (left, f) ↦
              rw e
                (rw f (and_cons-Lacks id (requeue_after_rejection tx) left parts.0 (rw f at rest)))
        ]
      ]
