-- ===== src/Outbox/Fuel.antt =====
-- The fuel of a send, for two amounts of it.
use stratasync.Prelude.{
  ℕ, zero, suc, ◌+◌, ◌≤◌, ◌<◌, String, ◌≡◌, refl, ap, inl, inr, Bool, List, [], ◌∷◌, ◌++◌, map,
  Option, none, some, arith, Bool-cases, Option-cases, length, length-append, same, same_refl,
}
use stratasync.Transaction.{Transaction}
use stratasync.Outbox.{
  Outbox, is_current, without_ids, without_discarded, take_retry_backlog, claim_all, release_all,
  ids_of_all, drop_id, queue_transaction, ensure_seeded, schedule_batch_send, flush_batch,
  dispatch_batch, discard_now, discard_rest, dispose,
}
use stratasync.Outbox.Await.{
  Options, Call, queues, fires, disposes, discards, settles, World, Task, call, await_after,
  at_once,
}
use stratasync.Outbox.Sending.{
  Reply, replied, invalid_batch, unreachable, Transport, send_others, reject_and_resend,
  handle_invalid_batch, handle_reply, log_batch, mutate, send_claimed_batch, send_carrying,
  send_batch,
}
use stratasync.Outbox.Settling.{
  mark_sent, find_id, mark_transactions_sent, reject_one, requeue_others, requeue_after_rejection,
  on_stored,
}
use stratasync.Outbox.Stable.{
  IsStable, await_after-P, mark_transactions_sent-P, requeue_others-P, reject_one-P,
}

-- Nothing is owed.
abbrev IsPaid : Outbox → Type 0
IsPaid box = box.retry_backlog ≡ []

length-drop_id : (id : String) (txs : List Transaction) → length (drop_id id txs) ≤ length txs
unfolding drop_id
length-drop_id id [] = omega arith
length-drop_id id (tx ∷ txs) = ground (arith, length-drop_id id txs)

length-drop_id-find_id :
    (id : String) (txs : List Transaction) (tx : Transaction)
    → find_id id txs ≡ some tx
    → length (drop_id tx.client_tx_id txs) < length txs
unfolding drop_id find_id same
length-drop_id-find_id id [] tx h = cc
length-drop_id-find_id id (t ∷ txs) tx h = elim (Bool-cases (same t.client_tx_id id)) [
  | inl e ↦
      let first : t ≡ tx = ground arith in
      ground (
        arith,
        ap (λ u. u.client_tx_id) first,
        same_refl t.client_tx_id,
        length-drop_id tx.client_tx_id txs,
      )
  | inr e ↦
      let later : find_id id txs ≡ some tx = ground arith in
      ground (arith, length-drop_id-find_id id txs tx later)
]

length-without_ids :
    (ids : List String) (txs : List Transaction) → length (without_ids ids txs) ≤ length txs
unfolding without_ids
length-without_ids ids [] = omega arith
length-without_ids ids (tx ∷ txs) = ground (arith, length-without_ids ids txs)

length-map-mark_sent : (txs : List Transaction) → length (map mark_sent txs) ≡ length txs
length-map-mark_sent [] = refl
length-map-mark_sent (tx ∷ txs) = ap suc (length-map-mark_sent txs)

module _ (o : Options) where
  call-IsPaid : (c : Call) (box : Outbox) → IsPaid box → IsPaid (call o c box)
  unfolding call queue_transaction ensure_seeded schedule_batch_send flush_batch dispatch_batch
      claim_all discard_now discard_rest dispose drop_id
  call-IsPaid (queues tx) box h = ground arith
  call-IsPaid fires box h = ground arith
  call-IsPaid disposes box h = refl
  call-IsPaid (discards j) box h = h
  call-IsPaid (settles j) box h = rw h refl

  IsPaid-IsStable : IsStable o IsPaid
  IsPaid-IsStable = record {
    keeps_call = call-IsPaid;
    keeps_stored = λ stored box h. h;
    keeps_rejected = λ rejected box h. h;
  }

  length-requeue_others :
      (txs : List Transaction) (version : ℕ) (w : World) (others : List Transaction)
      → (requeue_others o txs version w).0 ≡ some others
      → length others ≡ length txs
  unfolding requeue_others
  length-requeue_others [] version w others h = ground arith
  length-requeue_others (tx ∷ txs) version w others h =
      let w' = await_after o (on_stored tx.client_tx_id requeue_after_rejection) w in
      elim (Option-cases (requeue_others o txs version w').0) [
        | inl e ↦ ground arith
        | inr (left, e) ↦ ground (arith, length-requeue_others txs version w' left e)
      ]

  module _ (transport : Transport) (version n : ℕ) (first second : List Transaction → ℕ → Task Bool)
      (agree : (txs : List Transaction) (w : World)
        → length txs < n
        → IsPaid w.box
        → first txs version w ≡ second txs version w) where
    send_others_agree :
        (others : Option (List Transaction)) (w : World)
        → ((txs : List Transaction) → others ≡ some txs → length txs < n)
        → IsPaid w.box
        → send_others o transport first others version w
          ≡ send_others o transport second others version w
    unfolding send_others
    send_others_agree none w bound h = refl
    send_others_agree (some []) w bound h = refl
    send_others_agree (some (tx ∷ txs)) w bound h = agree (tx ∷ txs) w (bound (tx ∷ txs) refl) h

    reject_and_resend_agree :
        (txs : List Transaction) (tx : Transaction) (message : String) (w : World)
        → length (drop_id tx.client_tx_id txs) < n
        → IsPaid w.box
        → reject_and_resend o transport first txs tx message version w
          ≡ reject_and_resend o transport second txs tx message version w
    unfolding reject_and_resend
    reject_and_resend_agree txs tx message w bound h =
        let one = reject_one o tx message version w in
        let others = requeue_others o (drop_id tx.client_tx_id txs) version one.1 in
        let h' : IsPaid others.1.box =
          requeue_others-P IsPaid-IsStable (drop_id tx.client_tx_id txs) version one.1
            (reject_one-P IsPaid-IsStable tx message version w h) in
        elim (Bool-cases one.0) [
          | inr e ↦ rw (e, reject_and_resend) refl
          | inl e ↦
              rw (e, reject_and_resend)
                (send_others_agree others.0 others.1
                  (λ left f. omega (
                    arith,
                    length-requeue_others (drop_id tx.client_tx_id txs) version one.1 left f,
                  ))
                  h')
        ]

    handle_reply_agree :
        (txs : List Transaction) (reply : Reply) (w : World)
        → length txs ≤ n
        → IsPaid w.box
        → handle_reply o transport first txs reply version w
          ≡ handle_reply o transport second txs reply version w
    unfolding handle_reply handle_invalid_batch
    handle_reply_agree txs (replied result) w bound h = refl
    handle_reply_agree txs (unreachable error) w bound h = refl
    handle_reply_agree txs (invalid_batch rejected message) w bound h =
        elim (Option-cases (find_id rejected txs)) [
          | inl e ↦ rw (e, handle_invalid_batch) refl
          | inr (tx, e) ↦
              rw (e, handle_invalid_batch)
                (reject_and_resend_agree txs tx message w
                  (omega (arith, length-drop_id-find_id rejected txs tx e)) h)
        ]

    mutate_agree :
        (txs : List Transaction) (w : World)
        → length txs ≤ n
        → IsPaid w.box
        → mutate o transport first txs version w ≡ mutate o transport second txs version w
    unfolding mutate log_batch
    mutate_agree [] w bound h = refl
    mutate_agree (tx ∷ txs) w bound h =
        let w' = await_after o (log_batch o transport (tx ∷ txs)) w in
        let h' : IsPaid w'.box = await_after-P IsPaid-IsStable _ w h in
        elim (Bool-cases (is_current version w'.box)) [
          | inl e ↦
              rw (e, mutate)
                (handle_reply_agree (tx ∷ txs) (transport w.box.sent_batches (tx ∷ txs)) w' bound
                  h')
          | inr e ↦ rw (e, mutate) refl
        ]

    send_claimed_batch_agree :
        (claimed : List Transaction) (w : World)
        → length claimed ≤ n
        → IsPaid w.box
        → send_claimed_batch o transport first claimed version w
          ≡ send_claimed_batch o transport second claimed version w
    unfolding send_claimed_batch without_discarded
    send_claimed_batch_agree claimed w bound h =
        let marked = mark_transactions_sent o (without_discarded w.box claimed) version w in
        let h' : IsPaid marked.1.box =
          mark_transactions_sent-P IsPaid-IsStable (without_discarded w.box claimed) version w h in
        elim (Bool-cases marked.0) [
          | inr e ↦ rw (e, send_claimed_batch) refl
          | inl e ↦
              rw (e, send_claimed_batch)
                (mutate_agree (map mark_sent (without_discarded marked.1.box claimed)) marked.1
                  (omega (
                    arith,
                    length-map-mark_sent (without_discarded marked.1.box claimed),
                    length-without_ids marked.1.box.discarded claimed,
                  ))
                  h')
        ]

    send_carrying_agree :
        (owed all : List Transaction) (w : World)
        → length all ≤ n
        → IsPaid w.box
        → send_carrying o transport first owed all version w
          ≡ send_carrying o transport second owed all version w
    unfolding send_carrying claim_all
    send_carrying_agree owed [] w bound h = refl
    send_carrying_agree owed (tx ∷ txs) w bound h =
        ap (λ (q : Bool × World). (q.0, at_once (release_all owed version) q.1))
          (send_claimed_batch_agree (tx ∷ txs) (at_once (claim_all owed) w) bound h)

  -- A send ends: each round of it, after a rejection, has fewer transactions, so that any fuel above
  -- the number of the requested and the owed gives the same outcome.
  pub send_batch_enough :
      (transport : Transport) (fuel more : ℕ) (requested : List Transaction) (version : ℕ)
      (w : World)
      → length requested + length w.box.retry_backlog < fuel
      → length requested + length w.box.retry_backlog < more
      → send_batch o transport fuel requested version w
        ≡ send_batch o transport more requested version w
  unfolding send_batch take_retry_backlog
  send_batch_enough transport zero more requested version w a b = absurd (omega arith)
  send_batch_enough transport (suc fuel) zero requested version w a b = absurd (omega arith)
  send_batch_enough transport (suc fuel) (suc more) requested version w a b =
      let owed = without_ids (ids_of_all requested) w.box.retry_backlog in
      let w' = record w { box = record w.box { retry_backlog = [] } } in
      let rest =
        send_carrying_agree transport version (length (owed ++ requested))
          (λ txs v. send_batch o transport fuel txs v) (λ txs v. send_batch o transport more txs v)
          (λ txs u bound paid.
            send_batch_enough transport fuel more txs version u
              (omega (
                arith,
                bound,
                ap length paid,
                length-append owed requested,
                length-without_ids (ids_of_all requested) w.box.retry_backlog,
              ))
              (omega (
                arith,
                bound,
                ap length paid,
                length-append owed requested,
                length-without_ids (ids_of_all requested) w.box.retry_backlog,
              )))
          owed (owed ++ requested) w' (omega arith) refl in
      elim (Bool-cases (is_current version w.box)) [
        | inr e ↦ rw (e, send_batch) refl
        | inl e ↦ rw (e, send_batch) rest
      ]
