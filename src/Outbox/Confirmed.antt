-- ===== src/Outbox/Confirmed.antt =====
-- Which transactions leave the outbox when the server's actions, or its cursor, are seen.
use stratasync.Prelude.{
  ℕ, ◌+◌, leb, not, false, arith, Option-cases, none, some, String, ◌≡◌, refl, sym, ap, ◌∙◌, inl,
  inr, Bool, ◌&&◌, List, [], ◌∷◌, Bool-cases, length, ◌==◌,
}
use stratasync.Prelude.TextSet.{contains, IsDistinct}
use stratasync.SyncId.{SyncId, value}
use stratasync.SyncId.Value.{IsDigits}
use stratasync.SyncId.Compare.{is_sync_id_greater_than-value}
use stratasync.SyncAction.{SyncAction}
use stratasync.Transaction.{Transaction, awaiting_sync}
use stratasync.Outbox.{Outbox, drop_id, without_ids, ids_of_all, discard_now, discard_rest}
use stratasync.Outbox.Await.{Options, World, await_after, pass}
use stratasync.Outbox.Settling.{discard_transaction}
use stratasync.Outbox.Confirm.{
  collect_client_tx_ids, collect_creates_by_model_id, is_confirmed, is_reached, discard_where,
  confirm_from_actions, complete_up_to_sync_id,
}
use stratasync.Outbox.Selection.{
  select, others, select-ap, select-ap_on, All, contains-new_set, without_ids-drop_id,
  without_ids-empty, without_ids-select, length-select, select_none, others_none,
}
use stratasync.Outbox.Matching.{confirmed_by, is_confirmed-confirmed_by, nothing_confirmed}

-- The manager, with nothing that runs at the awaits.
abbrev pub alone : Outbox → World
alone box = record { box = box; meanwhile = [] }

-- The sync id that a transaction awaits, if any, is a text of digits.
abbrev pub HasDigits : Transaction → Type 0
HasDigits tx = elim tx.sync_id_needed [ none ↦ Unit | some id ↦ IsDigits id ]

-- A transaction that awaits a sync id which stands for no more than a number.
abbrev pub is_caught_up : ℕ → Transaction → Bool
is_caught_up n tx = elim tx.sync_id_needed [
  | none ↦ false
  | some id ↦ elim tx.state [ awaiting_sync ↦ leb (value id) n | _ ↦ false ]
]

is_reached-is_caught_up :
    (last : SyncId) (tx : Transaction)
    → IsDigits last
    → HasDigits tx
    → is_reached last tx ≡ is_caught_up (value last) tx
unfolding is_reached
is_reached-is_caught_up last tx dl h = elim (Option-cases tx.sync_id_needed) [
  | inl e ↦ ground arith
  | inr (id, e) ↦
      let digits : IsDigits id = rw e at h in
      ground (arith, is_sync_id_greater_than-value id last digits dl)
]

module _ (o : Options) where
  -- Whatever runs in between, those that pass the test when the outbox is read are discarded.
  discard_where-select :
      (test : Transaction → Bool) (txs : List Transaction) (w : World)
      → (discard_where o test txs w).0 ≡ select test txs
  unfolding discard_where select
  discard_where-select test [] w = refl
  discard_where-select test (tx ∷ txs) w = elim (Bool-cases (test tx)) [
    | inl e ↦
        rw (e, discard_where, select)
          (ap (λ l. tx ∷ l)
            (discard_where-select test txs (discard_transaction o tx.client_tx_id w)))
    | inr e ↦ rw (e, discard_where, select) (discard_where-select test txs w)
  ]

  discard_transaction-alone :
      (id : String) (box : Outbox)
      → discard_transaction o id (alone box) ≡ alone (discard_rest id (discard_now id box))
  unfolding discard_transaction await_after pass
  discard_transaction-alone id box = refl

  stored_after :
      (id : String) (box : Outbox)
      → (discard_rest id (discard_now id box)).stored ≡ drop_id id box.stored
  unfolding discard_rest discard_now
  stored_after id box = refl

  discard_where-stored :
      (test : Transaction → Bool) (txs : List Transaction) (box : Outbox)
      → (discard_where o test txs (alone box)).1.box.stored
        ≡ without_ids (ids_of_all (select test txs)) box.stored
  unfolding discard_where select
  discard_where-stored test [] box = sym (without_ids-empty box.stored)
  discard_where-stored test (tx ∷ txs) box = elim (Bool-cases (test tx)) [
    | inl e ↦
        rw (e, discard_where, select)
          (rw (discard_transaction-alone tx.client_tx_id box) (
              discard_where-stored test txs
                (discard_rest tx.client_tx_id (discard_now tx.client_tx_id box)))
            ∙ ap (λ l. without_ids (ids_of_all (select test txs)) l)
                (stored_after tx.client_tx_id box)
            ∙ without_ids-drop_id tx.client_tx_id (ids_of_all (select test txs)) box.stored)
    | inr e ↦ rw (e, discard_where, select) (discard_where-stored test txs box)
  ]

module _ (o : Options) where
  -- Whatever runs at the awaits, the ids that are returned are those of the transactions that were
  -- in the outbox when it was read, and that one of the actions names, or that are creates with the
  -- model id of a create among the actions that names no transaction.
  pub confirm_from_actions-confirmed :
      (actions : List SyncAction) (w : World) (id : String)
      → contains id (confirm_from_actions o actions w).0
        ≡ contains id (ids_of_all (select (confirmed_by actions) w.box.stored))
  unfolding confirm_from_actions
  confirm_from_actions-confirmed actions w id =
      let ids = collect_client_tx_ids actions [] in
      let creates = collect_creates_by_model_id actions [] in
      elim (Bool-cases (length ids == 0 && length creates == 0)) [
        | inl e ↦
            rw (e, confirm_from_actions)
              (rw
                (select_none (confirmed_by actions) w.box.stored
                  (λ tx. nothing_confirmed actions tx e))
                refl)
        | inr e ↦
            rw (e, confirm_from_actions)
              (rw
                (
                  discard_where-select o (is_confirmed ids creates) w.box.stored
                      (await_after o (λ box. box) w),
                  select-ap (is_confirmed ids creates) (confirmed_by actions) w.box.stored
                      (is_confirmed-confirmed_by actions),
                )
                (contains-new_set id (ids_of_all (select (confirmed_by actions) w.box.stored))))
      ]

  -- With nothing in between and no id twice in the outbox, what stays in it is the other
  -- transactions, in their order.
  pub confirm_from_actions-removes :
      (actions : List SyncAction) (box : Outbox)
      → IsDistinct (ids_of_all box.stored)
      → (confirm_from_actions o actions (alone box)).1.box.stored
        ≡ others (confirmed_by actions) box.stored
  unfolding confirm_from_actions
  confirm_from_actions-removes actions box d =
      let ids = collect_client_tx_ids actions [] in
      let creates = collect_creates_by_model_id actions [] in
      elim (Bool-cases (length ids == 0 && length creates == 0)) [
        | inl e ↦
            rw (e, confirm_from_actions)
              (sym (
                others_none (confirmed_by actions) box.stored
                  (λ tx. nothing_confirmed actions tx e)))
        | inr e ↦
            rw (e, confirm_from_actions)
              (unfold await_after pass in
                discard_where-stored o (is_confirmed ids creates) box.stored box
                ∙ ap (λ l. without_ids (ids_of_all l) box.stored)
                    (select-ap (is_confirmed ids creates) (confirmed_by actions) box.stored
                      (is_confirmed-confirmed_by actions))
                ∙ without_ids-select (confirmed_by actions) box.stored d)
      ]

  -- With nothing in between, no id twice in the outbox and sync ids that are texts of digits, the
  -- transactions that await a sync id no greater than the cursor, as numbers, leave the outbox, and
  -- their number is returned; the others stay, in their order.
  pub complete_up_to_sync_id-completes :
      (last : SyncId) (box : Outbox)
      → IsDistinct (ids_of_all box.stored)
      → IsDigits last
      → All HasDigits box.stored
      → ((complete_up_to_sync_id o last (alone box)).1.box.stored
          ≡ others (is_caught_up (value last)) box.stored)
        × ((complete_up_to_sync_id o last (alone box)).0
              + length (complete_up_to_sync_id o last (alone box)).1.box.stored
            ≡ length box.stored)
  unfolding complete_up_to_sync_id await_after pass
  complete_up_to_sync_id-completes last box d dl ds =
      let left =
        discard_where-stored o (is_reached last) box.stored box
        ∙ without_ids-select (is_reached last) box.stored d
        ∙ select-ap_on (λ tx. not (is_reached last tx)) (λ tx. not (is_caught_up (value last) tx))
            HasDigits box.stored (λ tx h. ap not (is_reached-is_caught_up last tx dl h)) ds in
      (
        left,
        rw (left, discard_where-select o (is_reached last) box.stored (alone box))
            (rw
              (select-ap_on (is_reached last) (is_caught_up (value last)) HasDigits box.stored
                (λ tx h. is_reached-is_caught_up last tx dl h) ds)
              (length-select (is_caught_up (value last)) box.stored)),
      )
