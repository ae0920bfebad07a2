-- ===== src/Outbox/Dropped.antt =====
-- Sends, and transactions that were discarded before or meanwhile.
use stratasync.Prelude.{
  ℕ, ◌+◌, zero, suc, ◌<◌, String, ◌≡◌, refl, ◌∙◌, ◌⊎◌, inl, inr, Bool, true, false, List, [], ◌∷◌,
  ◌++◌, map, Option, none, some, arith, Bool-cases, Option-cases, same_iff, if◌then◌else◌,
}
use stratasync.Prelude.TextSet.{contains, contains-add}
use stratasync.Transaction.{Transaction, sent}
use stratasync.Outbox.{
  Outbox, is_current, without_ids, without_discarded, take_retry_backlog, claim_all, release_all,
  ids_of_all, drop_id, queue_transaction, ensure_seeded, schedule_batch_send, flush_batch,
  dispatch_batch, discard_now, discard_rest, dispose,
}
use stratasync.Outbox.Await.{
  Options, Call, queues, fires, disposes, discards, settles, World, Task, call, await_after,
  at_once,
}
use stratasync.Outbox.Sending.{
  Reply, replied, invalid_batch, unreachable, Transport, send_others, reject_and_resend,
  handle_invalid_batch, handle_reply, log_batch, mutate, send_claimed_batch, send_carrying,
  send_batch,
}
use stratasync.Outbox.Settling.{
  mark_sent, on_stored, store_state, find_id, mark_transactions_sent, reject_one, requeue_others,
}
use stratasync.Outbox.Stable.{
  IsStable, await_after-P, mark_transactions_sent-P, handle_transport_failure-P,
  handle_mutate_result-P, requeue_others-P, reject_one-P,
}

-- The number of batches that have a transaction with this id.
unfoldable pub times_sent : String → List (List Transaction) → ℕ
times_sent id [] = 0
times_sent id (txs ∷ batches) =
    (if contains id (ids_of_all txs) then 1 else 0) + times_sent id batches

pub times_sent-append :
    (id : String) (batches : List (List Transaction)) (txs : List Transaction)
    → contains id (ids_of_all txs) ≡ false
    → times_sent id (batches ++ txs ∷ []) ≡ times_sent id batches
unfolding times_sent
times_sent-append id [] txs h = ground arith
times_sent-append id (b ∷ batches) txs h = ground (arith, times_sent-append id batches txs h)

-- In the lifecycle of the batch the id is among the discarded, or that lifecycle is over.
abbrev pub IsDropped : String → ℕ → Outbox → Type 0
IsDropped id version box =
    (version < box.lifecycle) ⊎ ((version ≡ box.lifecycle) × (contains id box.discarded ≡ true))

-- That, and as many batches with the id as before.
abbrev Quiet : String → ℕ → ℕ → Outbox → Type 0
Quiet id version before box = IsDropped id version box × (times_sent id box.sent_batches ≡ before)

pub contains-without_ids :
    (id : String) (ids : List String) (txs : List Transaction)
    → contains id ids ≡ true
    → contains id (ids_of_all (without_ids ids txs)) ≡ false
unfolding contains without_ids
contains-without_ids id ids [] h = refl
contains-without_ids id ids (tx ∷ txs) h =
    ground (arith, same_iff tx.client_tx_id id, contains-without_ids id ids txs h)

pub contains-mark_sent :
    (id : String) (txs : List Transaction)
    → contains id (ids_of_all (map mark_sent txs)) ≡ contains id (ids_of_all txs)
unfolding contains
contains-mark_sent id [] = refl
contains-mark_sent id (tx ∷ txs) = ground (arith, contains-mark_sent id txs)

module _ (o : Options) (id : String) (before : ℕ) where
  call-Silent :
      (c : Call) (box : Outbox)
      → times_sent id box.sent_batches ≡ before
      → times_sent id (call o c box).sent_batches ≡ before
  unfolding call queue_transaction ensure_seeded schedule_batch_send flush_batch dispatch_batch
      claim_all discard_now discard_rest dispose
  call-Silent (queues tx) box h = ground arith
  call-Silent fires box h = ground arith
  call-Silent disposes box h = h
  call-Silent (discards j) box h = h
  call-Silent (settles j) box h = h

  pub Silent-IsStable : IsStable o (λ box. times_sent id box.sent_batches ≡ before)
  Silent-IsStable = record {
    keeps_call = call-Silent;
    keeps_stored = λ stored box h. h;
    keeps_rejected = λ rejected box h. h;
  }

-- The manager once the marking in a send is over: of these transactions, with the owed ones claimed.
unfoldable pub marking : Options → List Transaction → List Transaction → ℕ → World → World
marking o owed all version w =
    let w' = at_once (claim_all owed) w in
    (mark_transactions_sent o (without_discarded w'.box all) version w').1

-- The same for what `send_batch` is asked to send.
unfoldable pub marked : Options → List Transaction → ℕ → World → World
unfolding marking
marked o requested version w =
    let (owed, box) = take_retry_backlog requested w.box in
    marking o owed (owed ++ requested) version (record w { box = box })

module _ (o : Options) (id : String) (version : ℕ) (before : ℕ) where
  call-Quiet :
      (c : Call) (box : Outbox)
      → Quiet id version before box
      → Quiet id version before (call o c box)
  unfolding call queue_transaction ensure_seeded schedule_batch_send flush_batch dispatch_batch
      claim_all discard_now discard_rest dispose
  call-Quiet (queues tx) box h = ground arith
  call-Quiet fires box h = ground arith
  call-Quiet disposes box h = ground arith
  call-Quiet (discards j) box h = ground (arith, contains-add j id box.discarded)
  call-Quiet (settles j) box h = h

  Quiet-IsStable : IsStable o (Quiet id version before)
  Quiet-IsStable = record {
    keeps_call = call-Quiet;
    keeps_stored = λ stored box h. h;
    keeps_rejected = λ rejected box h. h;
  }

  -- As many batches with the id as before.
  abbrev Silent : World → Type 0
  Silent w = times_sent id w.box.sent_batches ≡ before

  module _ (transport : Transport) where
    module _ (again : List Transaction → ℕ → Task Bool)
        (quiet : (txs : List Transaction) (w : World)
          → Quiet id version before w.box
          → Silent (again txs version w).1) where
      send_others-Silent :
          (others : Option (List Transaction)) (w : World)
          → Quiet id version before w.box
          → Silent (send_others o transport again others version w).1
      unfolding send_others
      send_others-Silent none w h = h.1
      send_others-Silent (some []) w h = h.1
      send_others-Silent (some (tx ∷ txs)) w h = quiet (tx ∷ txs) w h

      reject_and_resend-Silent :
          (txs : List Transaction) (tx : Transaction) (message : String) (w : World)
          → Quiet id version before w.box
          → Silent (reject_and_resend o transport again txs tx message version w).1
      unfolding reject_and_resend
      reject_and_resend-Silent txs tx message w h =
          let one = reject_one o tx message version w in
          let h1 : Quiet id version before one.1.box =
            reject_one-P Quiet-IsStable tx message version w h in
          let others = requeue_others o (drop_id tx.client_tx_id txs) version one.1 in
          elim (Bool-cases one.0) [
            | inr e ↦ rw (e, reject_and_resend) h1.1
            | inl e ↦
                rw (e, reject_and_resend)
                  (send_others-Silent others.0 others.1 (
                    requeue_others-P Quiet-IsStable (drop_id tx.client_tx_id txs) version one.1 h1))
          ]

      handle_invalid_batch-Silent :
          (txs : List Transaction) (rejected message : String) (w : World)
          → Quiet id version before w.box
          → Silent (handle_invalid_batch o transport again txs rejected message version w).1
      unfolding handle_invalid_batch
      handle_invalid_batch-Silent txs rejected message w h =
          elim (Option-cases (find_id rejected txs)) [
            | inl e ↦
                rw (e, handle_invalid_batch)
                  (handle_transport_failure-P Quiet-IsStable (λ backlog box g. g) txs message
                    version w h).1
            | inr (tx, e) ↦
                rw (e, handle_invalid_batch) (reject_and_resend-Silent txs tx message w h)
          ]

      handle_reply-Silent :
          (txs : List Transaction) (reply : Reply) (w : World)
          → Quiet id version before w.box
          → Silent (handle_reply o transport again txs reply version w).1
      unfolding handle_reply
      handle_reply-Silent txs (replied result) w h =
          (handle_mutate_result-P Quiet-IsStable (λ backlog box g. g) txs result version w h).1
      handle_reply-Silent txs (invalid_batch rejected message) w h =
          handle_invalid_batch-Silent txs rejected message w h
      handle_reply-Silent txs (unreachable error) w h =
          (handle_transport_failure-P Quiet-IsStable (λ backlog box g. g) txs error version w h).1

      mutate-Silent :
          (txs : List Transaction) (w : World)
          → contains id (ids_of_all txs) ≡ false
          → Quiet id version before w.box
          → Silent (mutate o transport again txs version w).1
      unfolding mutate log_batch
      mutate-Silent [] w n h = h.1
      mutate-Silent (tx ∷ txs) w n h =
          let w' = await_after o (log_batch o transport (tx ∷ txs)) w in
          let h' : Quiet id version before w'.box =
            await_after-P Quiet-IsStable _ w
              (h.0, times_sent-append id w.box.sent_batches (tx ∷ txs) n ∙ h.1) in
          elim (Bool-cases (is_current version w'.box)) [
            | inl e ↦
                rw (e, mutate)
                  (handle_reply-Silent (tx ∷ txs) (transport w.box.sent_batches (tx ∷ txs)) w' h')
            | inr e ↦ rw (e, mutate) h'.1
          ]

      mark_transactions_sent_current :
          (txs : List Transaction) (w : World)
          → (mark_transactions_sent o txs version w).0 ≡ true
          → (is_current version (mark_transactions_sent o txs version w).1.box ≡ true)
            ⊎ ((txs ≡ []) × ((mark_transactions_sent o txs version w).1 ≡ w))
      unfolding mark_transactions_sent
      mark_transactions_sent_current [] w h = inr (refl, refl)
      mark_transactions_sent_current (tx ∷ txs) w h = inl (
          let w' = await_after o (on_stored tx.client_tx_id (store_state sent)) w in
          elim (Bool-cases (is_current version w.box)) [
            | inr e ↦ let no : false ≡ true = rw e at h in cc
            | inl e ↦ elim (Bool-cases (is_current version w'.box)) [
              | inr e' ↦ let no : false ≡ true = rw e' at (rw e at h) in cc
              | inl e' ↦ rw e (
                  rw e' (elim (mark_transactions_sent_current txs w' (rw e' at (rw e at h))) [
                    | inl current ↦ current
                    | inr (none_left, same_world) ↦ rw same_world e'
                  ]))
            ]
          ])

      fresh_batch :
          (claimed : List Transaction) (w : World)
          → IsDropped id version
              (mark_transactions_sent o (without_discarded w.box claimed) version w).1.box
          → (mark_transactions_sent o (without_discarded w.box claimed) version w).0 ≡ true
          → contains id (
              ids_of_all (
                map mark_sent (
                  without_discarded
                    (mark_transactions_sent o (without_discarded w.box claimed) version w).1.box
                    claimed)))
            ≡ false
      unfolding without_discarded is_current
      fresh_batch claimed w d h =
          let w' = (mark_transactions_sent o (without_discarded w.box claimed) version w).1 in
          contains-mark_sent id (without_discarded w'.box claimed)
          ∙ elim (mark_transactions_sent_current (without_discarded w.box claimed) w h) [
            | inl current ↦ contains-without_ids id w'.box.discarded claimed (ground (arith, d))
            | inr (none_left, same_world) ↦ rw (same_world, none_left) (unfold contains in refl)
          ]

      pub send_claimed_batch-Silent :
          (claimed : List Transaction) (w : World)
          → IsDropped id version
              (mark_transactions_sent o (without_discarded w.box claimed) version w).1.box
          → Silent w
          → Silent (send_claimed_batch o transport again claimed version w).1
      unfolding send_claimed_batch
      send_claimed_batch-Silent claimed w d h =
          let marked = mark_transactions_sent o (without_discarded w.box claimed) version w in
          let h' : Quiet id version before marked.1.box = (
            d,
            mark_transactions_sent-P (Silent-IsStable o id before) (without_discarded w.box claimed)
                version w h,
          ) in
          elim (Bool-cases marked.0) [
            | inr e ↦ rw (e, send_claimed_batch) h'.1
            | inl e ↦
                rw (e, send_claimed_batch)
                  (mutate-Silent (map mark_sent (without_discarded marked.1.box claimed)) marked.1
                    (fresh_batch claimed w h'.0 e) h')
          ]

    Silent-release :
        (txs : List Transaction) (w : World)
        → Silent w
        → Silent (at_once (release_all txs version) w)
    unfolding release_all
    Silent-release txs w h = ground arith

    send_carrying-Silent :
        (again : List Transaction → ℕ → Task Bool)
        → ((txs : List Transaction) (w : World)
            → Quiet id version before w.box
            → Silent (again txs version w).1)
        → (owed all : List Transaction) (w : World)
        → IsDropped id version (marking o owed all version w).box
        → Silent w
        → Silent (send_carrying o transport again owed all version w).1
    unfolding send_carrying claim_all marking
    send_carrying-Silent again quiet owed [] w d h = h
    send_carrying-Silent again quiet owed (tx ∷ txs) w d h =
        let w' = at_once (claim_all owed) w in
        Silent-release owed (send_claimed_batch o transport again (tx ∷ txs) version w').1
          (send_claimed_batch-Silent again quiet (tx ∷ txs) w' d h)

    -- What is dropped before the marking is dropped after it.
    marking-IsDropped :
        (owed all : List Transaction) (w : World)
        → Quiet id version before w.box
        → IsDropped id version (marking o owed all version w).box
    unfolding marking claim_all
    marking-IsDropped owed all w h =
        let w' = at_once (claim_all owed) w in
        (mark_transactions_sent-P Quiet-IsStable (without_discarded w'.box all) version w' h).0

    send_batch-Silent :
        (fuel : ℕ) (requested : List Transaction) (w : World)
        → Quiet id version before w.box
        → Silent (send_batch o transport fuel requested version w).1
    unfolding send_batch take_retry_backlog
    send_batch-Silent zero requested w h = h.1
    send_batch-Silent (suc fuel) requested w h =
        let owed = without_ids (ids_of_all requested) w.box.retry_backlog in
        let w' = record w { box = record w.box { retry_backlog = [] } } in
        let sent =
          send_carrying-Silent (λ txs v. send_batch o transport fuel txs v)
            (λ txs u g. send_batch-Silent fuel txs u g) owed (owed ++ requested) w'
            (marking-IsDropped owed (owed ++ requested) w' h) h.1 in
        elim (Bool-cases (is_current version w.box)) [
          | inr e ↦ rw (e, send_batch) h.1
          | inl e ↦ rw (e, send_batch) sent
        ]

    marked-Silent :
        (fuel : ℕ) (requested : List Transaction) (w : World)
        → IsDropped id version (marked o requested version w).box
        → Silent w
        → Silent (send_batch o transport fuel requested version w).1
    unfolding send_batch take_retry_backlog marked
    marked-Silent zero requested w d h = h
    marked-Silent (suc fuel) requested w d h =
        let owed = without_ids (ids_of_all requested) w.box.retry_backlog in
        let w' = record w { box = record w.box { retry_backlog = [] } } in
        let sent =
          send_carrying-Silent (λ txs v. send_batch o transport fuel txs v)
            (λ txs u g. send_batch-Silent fuel txs u g) owed (owed ++ requested) w' d h in
        elim (Bool-cases (is_current version w.box)) [
          | inr e ↦ rw (e, send_batch) h
          | inl e ↦ rw (e, send_batch) sent
        ]

    IsDropped-marked :
        (requested : List Transaction) (w : World)
        → IsDropped id version w.box
        → times_sent id w.box.sent_batches ≡ before
        → IsDropped id version (marked o requested version w).box
    unfolding take_retry_backlog marked
    IsDropped-marked requested w d h =
        let owed = without_ids (ids_of_all requested) w.box.retry_backlog in
        marking-IsDropped owed (owed ++ requested)
          (record w { box = record w.box { retry_backlog = [] } }) (d, h)

-- If a transaction is among the discarded when a send begins, or when the send has marked its
-- transactions as sent, or if the send's lifecycle is over by then, neither that send nor what it
-- sends again after a rejection hands the transaction to the transport, whatever else happens while
-- it waits: as many batches as before have the id.
pub send_batch-never_sends :
    (o : Options) (transport : Transport) (fuel : ℕ) (requested : List Transaction) (version : ℕ)
    (id : String) (w : World)
    → IsDropped id version w.box ⊎ IsDropped id version (marked o requested version w).box
    → times_sent id (send_batch o transport fuel requested version w).1.box.sent_batches
      ≡ times_sent id w.box.sent_batches
send_batch-never_sends o transport fuel requested version id w h =
    let before = times_sent id w.box.sent_batches in
    let d : IsDropped id version (marked o requested version w).box = elim h [
      | inl early ↦ IsDropped-marked o id version before transport requested w early refl
      | inr late ↦ late
    ] in
    marked-Silent o id version before transport fuel requested w d refl
