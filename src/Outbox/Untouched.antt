-- ===== src/Outbox/Untouched.antt =====
-- The whole of a send, and such a transaction, by the steps of Outbox.Avoided.
use stratasync.Prelude.{
  ℕ, zero, suc, String, refl, ◌∙◌, inl, inr, Bool, List, [], ◌∷◌, ◌++◌, map, Option, none, some,
  Bool-cases, Option-cases,
}
use stratasync.Prelude.TextSet.{contains}
use stratasync.Transaction.{Transaction}
use stratasync.Outbox.{
  Outbox, is_current, without_ids, without_discarded, take_retry_backlog, claim_all, release_all,
  ids_of_all, drop_id,
}
use stratasync.Outbox.Await.{Options, World, Task, await_after, at_once}
use stratasync.Outbox.Sending.{
  Reply, replied, invalid_batch, unreachable, Transport, send_others, reject_and_resend,
  handle_invalid_batch, handle_reply, log_batch, mutate, send_claimed_batch, send_carrying,
  send_batch,
}
use stratasync.Outbox.Settling.{
  mark_sent, find_id, mark_transactions_sent, reject_one, requeue_others,
}
use stratasync.Outbox.Stable.{
  await_after-P, mark_transactions_sent-P, requeue_others-P, reject_one-P,
}
use stratasync.Outbox.Dropped.{times_sent-append, contains-mark_sent}
use stratasync.Outbox.Avoided.{
  Lacks, LacksIfAny, drop_id-Lacks, without_ids-Lacks, append-Lacks, Untouched, Untouched-IsStable,
  handle_transport_failure-Untouched, handle_mutate_result-Untouched, requeue_others-Lacks,
}

pub none_owed : (id : String) → Lacks id []
unfolding contains
none_owed id = refl

pub release-Untouched :
    (id : String) (before : ℕ) (txs : List Transaction) (version : ℕ) (box : Outbox)
    → Untouched id before box
    → Untouched id before (release_all txs version box)
unfolding release_all
release-Untouched id before txs version box h = elim (Bool-cases (is_current version box)) [
  | inl e ↦ rw e h
  | inr e ↦ rw e h
]

module _ (o : Options) (id : String) (before : ℕ) (transport : Transport) (version : ℕ) where
  module _ (again : List Transaction → ℕ → Task Bool)
      (untouched : (txs : List Transaction) (w : World)
        → Lacks id txs
        → Untouched id before w.box
        → Untouched id before (again txs version w).1.box) where
    send_others-Untouched :
        (others : Option (List Transaction)) (w : World)
        → LacksIfAny id others
        → Untouched id before w.box
        → Untouched id before (send_others o transport again others version w).1.box
    unfolding send_others
    send_others-Untouched none w n h = h
    send_others-Untouched (some []) w n h = h
    send_others-Untouched (some (tx ∷ txs)) w n h = untouched (tx ∷ txs) w n h

    reject_and_resend-Untouched :
        (txs : List Transaction) (tx : Transaction) (message : String) (w : World)
        → Lacks id txs
        → Untouched id before w.box
        → Untouched id before (reject_and_resend o transport again txs tx message version w).1.box
    unfolding reject_and_resend
    reject_and_resend-Untouched txs tx message w n h =
        let one = reject_one o tx message version w in
        let h1 : Untouched id before one.1.box =
          reject_one-P (Untouched-IsStable o id before) tx message version w h in
        let left = drop_id tx.client_tx_id txs in
        let others = requeue_others o left version one.1 in
        elim (Bool-cases one.0) [
          | inr e ↦ rw (e, reject_and_resend) h1
          | inl e ↦
              rw (e, reject_and_resend)
                (send_others-Untouched others.0 others.1
                  (requeue_others-Lacks o id before left version one.1
                    (drop_id-Lacks id tx.client_tx_id txs n))
                  (requeue_others-P (Untouched-IsStable o id before) left version one.1 h1))
        ]

    handle_invalid_batch-Untouched :
        (txs : List Transaction) (rejected message : String) (w : World)
        → Lacks id txs
        → Untouched id before w.box
        → Untouched id before
            (handle_invalid_batch o transport again txs rejected message version w).1.box
    unfolding handle_invalid_batch
    handle_invalid_batch-Untouched txs rejected message w n h =
        elim (Option-cases (find_id rejected txs)) [
          | inl e ↦
              rw (e, handle_invalid_batch)
                (handle_transport_failure-Untouched o id before txs message version w n h)
          | inr (tx, e) ↦
              rw (e, handle_invalid_batch) (reject_and_resend-Untouched txs tx message w n h)
        ]

    handle_reply-Untouched :
        (txs : List Transaction) (reply : Reply) (w : World)
        → Lacks id txs
        → Untouched id before w.box
        → Untouched id before (handle_reply o transport again txs reply version w).1.box
    unfolding handle_reply
    handle_reply-Untouched txs (replied result) w n h =
        handle_mutate_result-Untouched o id before txs result version w n h
    handle_reply-Untouched txs (invalid_batch rejected message) w n h =
        handle_invalid_batch-Untouched txs rejected message w n h
    handle_reply-Untouched txs (unreachable error) w n h =
        handle_transport_failure-Untouched o id before txs error version w n h

    mutate-Untouched :
        (txs : List Transaction) (w : World)
        → Lacks id txs
        → Untouched id before w.box
        → Untouched id before (mutate o transport again txs version w).1.box
    unfolding mutate log_batch
    mutate-Untouched [] w n h = h
    mutate-Untouched (tx ∷ txs) w n h =
        let w' = await_after o (log_batch o transport (tx ∷ txs)) w in
        let h' : Untouched id before w'.box =
          await_after-P (Untouched-IsStable o id before) _ w
            (h.0, times_sent-append id w.box.sent_batches (tx ∷ txs) n ∙ h.1) in
        elim (Bool-cases (is_current version w'.box)) [
          | inl e ↦
              rw (e, mutate)
                (handle_reply-Untouched (tx ∷ txs) (transport w.box.sent_batches (tx ∷ txs)) w' n
                  h')
          | inr e ↦ rw (e, mutate) h'
        ]

    send_claimed_batch-Untouched :
        (claimed : List Transaction) (w : World)
        → Lacks id claimed
        → Untouched id before w.box
        → Untouched id before (send_claimed_batch o transport again claimed version w).1.box
    unfolding send_claimed_batch without_discarded
    send_claimed_batch-Untouched claimed w n h =
        let marked = mark_transactions_sent o (without_discarded w.box claimed) version w in
        let h' : Untouched id before marked.1.box =
          mark_transactions_sent-P (Untouched-IsStable o id before)
            (without_discarded w.box claimed) version w h in
        elim (Bool-cases marked.0) [
          | inr e ↦ rw (e, send_claimed_batch) h'
          | inl e ↦
              rw (e, send_claimed_batch)
                (mutate-Untouched (map mark_sent (without_discarded marked.1.box claimed)) marked.1
                  (contains-mark_sent id (without_discarded marked.1.box claimed)
                    ∙ without_ids-Lacks id marked.1.box.discarded claimed n)
                  h')
        ]

    send_carrying-Untouched :
        (owed all : List Transaction) (w : World)
        → Lacks id all
        → Untouched id before w.box
        → Untouched id before (send_carrying o transport again owed all version w).1.box
    unfolding send_carrying claim_all
    send_carrying-Untouched owed [] w n h = h
    send_carrying-Untouched owed (tx ∷ txs) w n h =
        let w' = at_once (claim_all owed) w in
        release-Untouched id before owed version
          (send_claimed_batch o transport again (tx ∷ txs) version w').1.box
          (send_claimed_batch-Untouched (tx ∷ txs) w' n h)

  pub send_batch-Untouched :
      (fuel : ℕ) (requested : List Transaction) (w : World)
      → Lacks id requested
      → Untouched id before w.box
      → Untouched id before (send_batch o transport fuel requested version w).1.box
  unfolding send_batch take_retry_backlog
  send_batch-Untouched zero requested w n h = h
  send_batch-Untouched (suc fuel) requested w n h =
      let owed = without_ids (ids_of_all requested) w.box.retry_backlog in
      let w' = record w { box = record w.box { retry_backlog = [] } } in
      let after =
        send_carrying-Untouched (λ txs v. send_batch o transport fuel txs v)
          (λ txs u m g. send_batch-Untouched fuel txs u m g) owed (owed ++ requested) w'
          (append-Lacks id owed requested
            (without_ids-Lacks id (ids_of_all requested) w.box.retry_backlog h.0) n)
          (none_owed id, h.1) in
      elim (Bool-cases (is_current version w.box)) [
        | inr e ↦ rw (e, send_batch) h
        | inl e ↦ rw (e, send_batch) after
      ]
