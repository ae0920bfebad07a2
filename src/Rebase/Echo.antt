-- ===== src/Rebase/Echo.antt =====
-- A transaction whose own action comes back in the batch is confirmed, and is no conflict.
use stratasync.Prelude.{
  String, ◌≡◌, ◌∙◌, inl, inr, Bool, true, false, not, ◌&&◌, ◌||◌, List, [], ◌∷◌, ◌++◌, Option, none,
  some, arith, Bool-cases, Option-cases, same, same_iff, same_refl, same_comm,
}
use stratasync.Prelude.Dict.{Dict, lookup, assign, get_or, lookup-assign}
use stratasync.Prelude.TextSet.{TextSet, contains, add, contains-add}
use stratasync.Transaction.{Transaction}
use stratasync.SyncAction.{SyncAction, model_key, is_text}
use stratasync.Conflict.{RebaseOptions}
use stratasync.Rebase.{
  Progress, echoed_from, index_from, tx_key, is_echo_of, find_echo, add_conflict, check_one,
  check_related, confirm, process_action, process_actions, no_progress, progress_after,
  rebase_transactions,
}
use stratasync.Rebase.Outcome.{progress_after-Inv}
use stratasync.Rebase.Loop.{tx_ids, conflict_ids, find_echo-is_echo, contains-map-append}

-- Whether the batch holds an own action with this transaction id, on any row.
unfoldable pub has_echo : String → String → List SyncAction → Bool
has_echo client_id id [] = false
has_echo client_id id (a ∷ actions) =
    (is_text a.client_id client_id && is_text a.client_tx_id id) || has_echo client_id id actions

-- The same, on the row with this key.
unfoldable pub has_echo_on : String → String → String → List SyncAction → Bool
has_echo_on client_id key id [] = false
has_echo_on client_id key id (a ∷ actions) =
    (same (model_key a.model_name a.model_id) key
      && is_text a.client_id client_id
      && is_text a.client_tx_id id)
    || has_echo_on client_id key id actions

-- Whether a transaction with this id is pending on the row with this key.
unfoldable pub is_pending_on : String → String → List Transaction → Bool
is_pending_on key id [] = false
is_pending_on key id (tx ∷ pending) =
    (same (tx_key tx) key && same tx.client_tx_id id) || is_pending_on key id pending

contains-echoed_from :
    (client_id id : String) (ids : TextSet) (actions : List SyncAction)
    → contains id (echoed_from client_id ids actions)
      ≡ contains id ids || (has_echo client_id id actions && not (same id ""))
unfolding echoed_from has_echo
contains-echoed_from client_id id ids [] = ground arith
contains-echoed_from client_id id ids (a ∷ actions) = elim (Option-cases a.client_tx_id) [
  | inl e ↦ rw e (contains-echoed_from client_id id ids actions ∙ ground arith)
  | inr (t, e) ↦ elim (Bool-cases (is_text a.client_id client_id && not (same t ""))) [
    | inl h ↦ rw e (
        rw h (
          contains-echoed_from client_id id (add t ids) actions
          ∙ ground (arith, contains-add t id ids, same_iff t id)))
    | inr h ↦
        rw e (rw h (contains-echoed_from client_id id ids actions ∙ ground (arith, same_iff t id)))
  ]
]

-- The index has, for a row, the transactions that are pending on it.
contains-index_from :
    (key id : String) (index : Dict (List Transaction)) (pending : List Transaction)
    → contains id (tx_ids (get_or (lookup key (index_from index pending)) []))
      ≡ contains id (tx_ids (get_or (lookup key index) [])) || is_pending_on key id pending
unfolding index_from is_pending_on
contains-index_from key id index [] = ground arith
contains-index_from key id index (tx ∷ pending) =
    let old = get_or (lookup (tx_key tx) index) [] in
    contains-index_from key id (assign (tx_key tx) (old ++ tx ∷ []) index) pending
    ∙ ground (
      arith,
      lookup-assign (tx_key tx) key (old ++ tx ∷ []) index,
      contains-map-append (λ t. t.client_tx_id) id old tx,
      same_iff (tx_key tx) key,
      same_comm (tx_key tx) key,
    )

-- No unprocessed transaction of the row has the id of an echo that `find` does not see.
find_echo-none :
    (o : RebaseOptions) (processed : TextSet) (a : SyncAction) (id : String)
    (related : List Transaction)
    → find_echo o processed a related ≡ none
    → contains id (tx_ids related) ≡ true
    → is_text a.client_id o.client_id ≡ true
    → is_text a.client_tx_id id ≡ true
    → contains id processed ≡ true
unfolding find_echo is_echo_of contains
find_echo-none o processed a id [] h m c t = cc
find_echo-none o processed a id (tx ∷ related) h m c t =
    ground (arith, same_iff tx.client_tx_id id, find_echo-none o processed a id related)

module _ (o : RebaseOptions) (echoed : TextSet) (id : String) where
  check_one-processed :
      (a : SyncAction) (p : Progress) (tx : Transaction)
      → contains id p.processed ≡ true
      → contains id (check_one o echoed a p tx).processed ≡ true
  unfolding check_one add_conflict
  check_one-processed a p tx h = ground (arith, contains-add tx.client_tx_id id p.processed)

  check_related-processed :
      (a : SyncAction) (p : Progress) (related : List Transaction)
      → contains id p.processed ≡ true
      → contains id (check_related o echoed a p related).processed ≡ true
  unfolding check_related
  check_related-processed a p [] h = h
  check_related-processed a p (tx ∷ related) h =
      check_related-processed a (check_one o echoed a p tx) related (check_one-processed a p tx h)

  process_action-processed :
      (index : Dict (List Transaction)) (p : Progress) (a : SyncAction)
      → contains id p.processed ≡ true
      → contains id (process_action o echoed index p a).processed ≡ true
  unfolding process_action confirm
  process_action-processed index p a h =
      let related = get_or (lookup (model_key a.model_name a.model_id) index) [] in
      elim (Option-cases (find_echo o p.processed a related)) [
        | inl e ↦ rw (e, process_action) (check_related-processed a p related h)
        | inr (own, e) ↦
            rw (e, process_action) (ground (arith, contains-add own.client_tx_id id p.processed))
      ]

  process_actions-processed :
      (index : Dict (List Transaction)) (p : Progress) (actions : List SyncAction)
      → contains id p.processed ≡ true
      → contains id (process_actions o echoed index p actions).processed ≡ true
  unfolding process_actions
  process_actions-processed index p [] h = h
  process_actions-processed index p (a ∷ actions) h =
      process_actions-processed index (process_action o echoed index p a) actions
        (process_action-processed index p a h)

  -- Its echo settles a transaction.
  echo-processed :
      (index : Dict (List Transaction)) (p : Progress) (a : SyncAction)
      → contains id (tx_ids (get_or (lookup (model_key a.model_name a.model_id) index) [])) ≡ true
      → is_text a.client_id o.client_id ≡ true
      → is_text a.client_tx_id id ≡ true
      → contains id (process_action o echoed index p a).processed ≡ true
  unfolding process_action confirm
  echo-processed index p a m c t =
      let related = get_or (lookup (model_key a.model_name a.model_id) index) [] in
      elim (Option-cases (find_echo o p.processed a related)) [
        | inl e ↦
            rw (e, process_action)
              (check_related-processed a p related
                (find_echo-none o p.processed a id related e m c t))
        | inr (own, e) ↦
            rw (e, process_action)
              (unfold is_echo_of in
                ground (
                  arith,
                  contains-add own.client_tx_id id p.processed,
                  find_echo-is_echo o p.processed a related own e,
                  is_text_unique a.client_tx_id own.client_tx_id id,
                  same_refl id,
                ))
      ]
    where
      is_text_unique :
          (x : Option String) (s t : String) → is_text x s ≡ true → is_text x t ≡ true → s ≡ t
      is_text_unique none s t h g = cc
      is_text_unique (some u) s t h g = ground (arith, same_iff u s, same_iff u t)

  echoes-processed :
      (key : String) (index : Dict (List Transaction)) (p : Progress) (actions : List SyncAction)
      → contains id (tx_ids (get_or (lookup key index) [])) ≡ true
      → has_echo_on o.client_id key id actions ≡ true
      → contains id (process_actions o echoed index p actions).processed ≡ true
  unfolding process_actions has_echo_on
  echoes-processed key index p [] m h = cc
  echoes-processed key index p (a ∷ actions) m h =
      elim (Bool-cases (
        same (model_key a.model_name a.model_id) key
        && is_text a.client_id o.client_id
        && is_text a.client_tx_id id)) [
          | inl e ↦ process_actions-processed index (process_action o echoed index p a) actions (
              echo-processed index p a
                (ground (arith, same_iff (model_key a.model_name a.model_id) key)) (ground arith)
                (ground arith))
          | inr e ↦
              echoes-processed key index (process_action o echoed index p a) actions m
                (ground arith)
        ]

has_echo_of_on :
    (client_id key id : String) (actions : List SyncAction)
    → has_echo_on client_id key id actions ≡ true
    → has_echo client_id id actions ≡ true
unfolding has_echo has_echo_on
has_echo_of_on client_id key id [] h = cc
has_echo_of_on client_id key id (a ∷ actions) h =
    ground (arith, has_echo_of_on client_id key id actions)

-- No transaction whose own echo is anywhere in the batch is reported as a conflict, whatever else
-- the batch holds, if its id is not empty.
pub echo-not_in_conflict :
    (pending : List Transaction) (actions : List SyncAction) (o : RebaseOptions) (id : String)
    → has_echo o.client_id id actions ≡ true
    → same id "" ≡ false
    → contains id (conflict_ids (rebase_transactions pending actions o).conflicts) ≡ false
unfolding rebase_transactions
echo-not_in_conflict pending actions o id h n =
    let v = progress_after-Inv pending actions o in
    ground (arith, v.not_echoed id, contains-echoed_from o.client_id id [] actions)

-- A pending transaction whose own echo for its row is in the batch is confirmed, also where foreign
-- actions on the row come first, if its id is not empty.
pub echo-confirms :
    (pending : List Transaction) (actions : List SyncAction) (o : RebaseOptions) (key id : String)
    → is_pending_on key id pending ≡ true
    → has_echo_on o.client_id key id actions ≡ true
    → same id "" ≡ false
    → contains id (tx_ids (rebase_transactions pending actions o).confirmed) ≡ true
unfolding rebase_transactions
echo-confirms pending actions o key id m h n =
    let v = progress_after-Inv pending actions o in
    let echoed = echoed_from o.client_id [] actions in
    let index = index_from [] pending in
    let indexed : contains id (tx_ids (get_or (lookup key index) [])) ≡ true =
      contains-index_from key id [] pending ∙ ground arith in
    let settled : contains id (progress_after pending actions o).processed ≡ true =
      unfold progress_after in
      echoes-processed o echoed id key index no_progress actions indexed h in
    ground (
      arith,
      settled,
      v.accounted id,
      v.not_echoed id,
      contains-echoed_from o.client_id id [] actions,
      has_echo_of_on o.client_id key id actions h,
    )
