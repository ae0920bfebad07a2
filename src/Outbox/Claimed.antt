-- ===== src/Outbox/Claimed.antt =====
-- The replay, and the transactions that a batch or a queued send has claimed.
use stratasync.Prelude.{
  ℕ, zero, suc, String, ◌≡◌, refl, inl, inr, true, false, List, [], ◌∷◌, Bool-cases, same, take,
  drop,
}
use stratasync.Prelude.TextSet.{contains}
use stratasync.Transaction.{Transaction, TxState, queued, sent, awaiting_sync, completed, failed}
use stratasync.Outbox.{is_sent, is_current, without_ids, claim_all, seed_index}
use stratasync.Outbox.Await.{Options, World, await_after, at_once}
use stratasync.Outbox.Sending.{Transport, send_batch}
use stratasync.Outbox.Settling.{store_state, on_stored}
use stratasync.Outbox.Stable.{await_after-P}
use stratasync.Outbox.Dropped.{times_sent, contains-without_ids, Silent-IsStable}
use stratasync.Outbox.Avoided.{Lacks, cons-Lacks, and_cons-Lacks, Untouched, Untouched-IsStable}
use stratasync.Outbox.Untouched.{none_owed, release-Untouched, send_batch-Untouched}
use stratasync.Outbox.Replay.{
  send_fuel, slices, queued_of, reset_sent, send_claimed, send_slices, replay_pending,
  replay_persisted,
}

AllLack : String → List (List Transaction) → Type 0
AllLack id [] = Unit
AllLack id (txs ∷ batches) = Lacks id txs × AllLack id batches

take-Lacks : (id : String) (n : ℕ) (txs : List Transaction) → Lacks id txs → Lacks id (take n txs)
take-Lacks id zero txs h = none_owed id
take-Lacks id (suc n) [] h = h
take-Lacks id (suc n) (tx ∷ txs) h =
    let parts = cons-Lacks id tx txs h in
    and_cons-Lacks id tx (take n txs) parts.0 (take-Lacks id n txs parts.1)

drop-Lacks : (id : String) (n : ℕ) (txs : List Transaction) → Lacks id txs → Lacks id (drop n txs)
drop-Lacks id zero txs h = h
drop-Lacks id (suc n) [] h = h
drop-Lacks id (suc n) (tx ∷ txs) h = drop-Lacks id n txs (cons-Lacks id tx txs h).1

slices-AllLack :
    (id : String) (fuel n : ℕ) (txs : List Transaction)
    → Lacks id txs
    → AllLack id (slices fuel n txs)
unfolding slices AllLack
slices-AllLack id zero n txs h = tt
slices-AllLack id (suc fuel) n [] h = tt
slices-AllLack id (suc fuel) n (tx ∷ txs) h = (
  take-Lacks id n (tx ∷ txs) h,
  slices-AllLack id fuel n (drop n (tx ∷ txs)) (drop-Lacks id n (tx ∷ txs) h),
)

keep-Lacks :
    (id : String) (state : TxState) (tx : Transaction) (txs : List Transaction)
    → same tx.client_tx_id id ≡ false
    → Lacks id txs
    → Lacks id (elim state [ queued ↦ tx ∷ txs | _ ↦ txs ])
keep-Lacks id queued tx txs h k = and_cons-Lacks id tx txs h k
keep-Lacks id sent tx txs h k = k
keep-Lacks id awaiting_sync tx txs h k = k
keep-Lacks id completed tx txs h k = k
keep-Lacks id failed tx txs h k = k

queued_of-Lacks : (id : String) (txs : List Transaction) → Lacks id txs → Lacks id (queued_of txs)
unfolding queued_of
queued_of-Lacks id [] h = h
queued_of-Lacks id (tx ∷ txs) h =
    let parts = cons-Lacks id tx txs h in
    keep-Lacks id tx.state tx (queued_of txs) parts.0 (queued_of-Lacks id txs parts.1)

module _ (o : Options) (id : String) (before : ℕ) where
  reset_sent-Untouched :
      (txs : List Transaction) (w : World)
      → Lacks id txs
      → Untouched id before w.box
      → Lacks id (reset_sent o txs w).0 × Untouched id before (reset_sent o txs w).1.box
  unfolding reset_sent
  reset_sent-Untouched [] w n h = (n, h)
  reset_sent-Untouched (tx ∷ txs) w n h =
      let w' = await_after o (on_stored tx.client_tx_id (store_state queued)) w in
      let parts = cons-Lacks id tx txs n in
      elim (Bool-cases (is_sent tx)) [
        | inl e ↦
            let rest =
              reset_sent-Untouched txs w' parts.1
                (await_after-P (Untouched-IsStable o id before) _ w h) in
            rw (e, reset_sent)
              (
                and_cons-Lacks id (record tx { state = queued }) (reset_sent o txs w').0 parts.0
                    rest.0,
                rest.1,
              )
        | inr e ↦
            let rest = reset_sent-Untouched txs w parts.1 h in
            rw (e, reset_sent) (and_cons-Lacks id tx (reset_sent o txs w).0 parts.0 rest.0, rest.1)
      ]

  module _ (transport : Transport) (version : ℕ) where
    send_claimed-Untouched :
        (txs : List Transaction) (w : World)
        → Lacks id txs
        → Untouched id before w.box
        → Untouched id before (send_claimed o transport txs version w).1.box
    unfolding send_claimed claim_all
    send_claimed-Untouched txs w n h =
        let w1 = at_once (claim_all txs) w in
        release-Untouched id before txs version
          (send_batch o transport (send_fuel txs w1) txs version w1).1.box
          (send_batch-Untouched o id before transport version (send_fuel txs w1) txs w1 n h)

    send_slices-Untouched :
        (batches : List (List Transaction)) (w : World)
        → AllLack id batches
        → Untouched id before w.box
        → Untouched id before (send_slices o transport batches version w).1.box
    unfolding send_slices AllLack
    send_slices-Untouched [] w n h = h
    send_slices-Untouched (txs ∷ batches) w n h =
        let sent_one = send_claimed o transport txs version w in
        let h' = send_claimed-Untouched txs w n.0 h in
        elim (Bool-cases sent_one.0) [
          | inr e ↦ rw (e, send_slices) h'
          | inl e ↦ rw (e, send_slices) (send_slices-Untouched batches sent_one.1 n.1 h')
        ]

    replay_pending-Untouched :
        (pending : List Transaction) (w : World)
        → contains id w.box.claimed ≡ true
        → times_sent id w.box.sent_batches ≡ before
        → times_sent id (replay_pending o transport pending version w).1.box.sent_batches ≡ before
    unfolding replay_pending
    replay_pending-Untouched pending w c h =
        let w1 =
          at_once
            (λ box. record box {
              next_batch_index = seed_index pending box.next_batch_index;
              retry_backlog = [];
            })
            w in
        let reset =
          reset_sent-Untouched (without_ids w1.box.claimed pending) w1
            (contains-without_ids id w1.box.claimed pending c) (none_owed id, h) in
        let unclaimed = (reset_sent o (without_ids w1.box.claimed pending) w1).0 in
        let w2 = (reset_sent o (without_ids w1.box.claimed pending) w1).1 in
        (send_slices-Untouched _ w2
          (slices-AllLack id _ o.max_batch_size (queued_of unclaimed)
            (queued_of-Lacks id unclaimed reset.0))
          reset.1).1

pub replay_persisted-skips_claimed :
    (o : Options) (transport : Transport) (version : ℕ) (id : String) (w : World)
    → contains id (await_after o (λ box. box) w).box.claimed ≡ true
    → times_sent id (replay_persisted o transport version w).1.box.sent_batches
      ≡ times_sent id w.box.sent_batches
unfolding replay_persisted
replay_persisted-skips_claimed o transport version id w c =
    let before = times_sent id w.box.sent_batches in
    let w' = await_after o (λ box. box) w in
    let h : times_sent id w'.box.sent_batches ≡ before =
      await_after-P (Silent-IsStable o id before) (λ box. box) w refl in
    elim (Bool-cases (is_current version w'.box)) [
      | inr e ↦ rw e h
      | inl e ↦ rw e (replay_pending-Untouched o id before transport version w.box.stored w' c h)
    ]
