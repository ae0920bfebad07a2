-- ===== src/Rebase/Snapshots.antt =====
-- What the rebased rollback snapshots hold.
use stratasync.Prelude.{
  String, ◌≡◌, ◌↔◌, ◌⊎◌, refl, sym, ◌∙◌, ap, inl, inr, Bool, true, false, ◌||◌, List, [], ◌∷◌, ◌++◌,
  Option, none, some, arith, Bool-cases, Option-cases, same, same_iff, if◌then◌else◌,
}
use mathlib.Core.List.{append-nil, append_assoc}
use stratasync.Prelude.Dict.{Dict, lookup, assign, get_or, or_else, lookup-assign, has_key-lookup}
use stratasync.Prelude.TextSet.{contains}
use stratasync.Value.{Value, Row}
use stratasync.Transaction.{Transaction, insert, update, archive, unarchive, delete}
use stratasync.SyncAction.{
  SyncAction, SyncActionType, row, covering, groups_changed, groups_changed_too, model_key,
}
use stratasync.Conflict.{
  RebaseConflict, local_conflict_fields, keeps_local_transaction, update_like, server_wins, manual,
}
use stratasync.Rebase.{tx_key}
use stratasync.Rebase.Originals.{
  fold_fields, fold_tracked_fields, fold_actions, should_rebase_action, get_updated_original,
  actions_from, patch_for, ConflictEffect, drop_local, patch_original, resolve_conflict_effect,
}

-- The actions that carry values of the row: all that change it but a delete, and a covering.
abbrev pub carries_values : SyncActionType → Bool
carries_values (row insert) = true
carries_values (row update) = true
carries_values (row archive) = true
carries_values (row unarchive) = true
carries_values (row delete) = false
carries_values covering = true
carries_values groups_changed = false
carries_values groups_changed_too = false

should_rebase_action-carries_values :
    (t : SyncActionType) → should_rebase_action t ≡ carries_values t
should_rebase_action-carries_values t = ground arith

-- The newest value that those of the actions that carry values, in order, give a field; `older`
-- where they give none.
unfoldable pub newest_value : String → List SyncAction → Option Value → Option Value
newest_value f [] older = older
newest_value f (a ∷ related) older =
    newest_value f related
      (if carries_values a.action then or_else (lookup f a.fields) older else older)

-- The actions on the row with this key, in order.
unfoldable pub on_row : String → List SyncAction → List SyncAction
on_row key [] = []
on_row key (a ∷ actions) =
    if same (model_key a.model_name a.model_id) key
    then a ∷ on_row key actions
    else on_row key actions

lookup-fold_fields :
    (tracked : List String) (original fields : Row) (k : String)
    → lookup k (fold_fields tracked original fields).0 ≡ (
        if contains k tracked
        then or_else (lookup k fields) (lookup k original)
        else lookup k original)
unfolding fold_fields contains
lookup-fold_fields [] original fields k = refl
lookup-fold_fields (f ∷ tracked) original fields k = elim (Option-cases (lookup f fields)) [
  | inl e ↦ rw e (lookup-fold_fields tracked original fields k ∙ ground (arith, same_iff f k))
  | inr (v, e) ↦ rw e (
      lookup-fold_fields tracked (assign f v original) fields k
      ∙ ground (arith, same_iff f k, lookup-assign f k v original))
]

lookup-fold_actions :
    (tx : Transaction) (related : List SyncAction) (original : Row) (k : String)
    → lookup k (fold_actions tx related original).0 ≡ (
        if contains k (local_conflict_fields tx)
        then newest_value k related (lookup k original)
        else lookup k original)
unfolding fold_actions newest_value fold_tracked_fields
lookup-fold_actions tx [] original k = ground arith
lookup-fold_actions tx (a ∷ related) original k =
    elim (Bool-cases (should_rebase_action a.action)) [
      | inl e ↦ rw e (
          lookup-fold_actions tx related (fold_tracked_fields tx original a.fields).0 k
          ∙ ground (arith, lookup-fold_fields (local_conflict_fields tx) original a.fields k))
      | inr e ↦ rw e (lookup-fold_actions tx related original k)
    ]

or_false : (a b : Bool) → a || b ≡ false → (a ≡ false) × (b ≡ false)
or_false a b h = ground arith

fold_fields-untouched :
    (tracked : List String) (original fields : Row)
    → (fold_fields tracked original fields).1 ≡ false
    → (fold_fields tracked original fields).0 ≡ original
unfolding fold_fields
fold_fields-untouched [] original fields h = refl
fold_fields-untouched (f ∷ tracked) original fields h = elim (Option-cases (lookup f fields)) [
  | inl e ↦ rw e (fold_fields-untouched tracked original fields (ground arith))
  | inr (v, e) ↦ absurd (ground (arith, has_key-lookup f fields))
]

fold_actions-untouched :
    (tx : Transaction) (related : List SyncAction) (original : Row)
    → (fold_actions tx related original).1 ≡ false
    → (fold_actions tx related original).0 ≡ original
unfolding fold_actions fold_tracked_fields
fold_actions-untouched tx [] original h = refl
fold_actions-untouched tx (a ∷ related) original h =
    elim (Bool-cases (should_rebase_action a.action)) [
      | inl e ↦
          let next = (fold_fields (local_conflict_fields tx) original a.fields).0 in
          let (quiet, rest) = or_false _ (fold_actions tx related next).1 (rw e at h) in
          rw e (
            fold_actions-untouched tx related next rest
            ∙ fold_fields-untouched (local_conflict_fields tx) original a.fields quiet)
      | inr e ↦ rw e (fold_actions-untouched tx related original (rw e at h))
    ]

-- The snapshot after the patch, if there is one.
abbrev pub original_after : Dict (List SyncAction) → Transaction → Row
original_after index tx = get_or (patch_for index tx) (get_or tx.original [])

actions_from-on_row :
    (key : String) (index : Dict (List SyncAction)) (actions : List SyncAction)
    → get_or (lookup key (actions_from index actions)) []
      ≡ get_or (lookup key index) [] ++ on_row key actions
unfolding actions_from on_row
actions_from-on_row key index [] = sym (append-nil _)
actions_from-on_row key index (a ∷ actions) =
    let k = model_key a.model_name a.model_id in
    let old = get_or (lookup k index) [] in
    actions_from-on_row key (assign k (old ++ a ∷ []) index) actions
    ∙ ground (
      arith,
      lookup-assign k key (old ++ a ∷ []) index,
      same_iff k key,
      append_assoc old (a ∷ []) (on_row key actions),
    )

lookup-get_updated_original :
    (tx : Transaction) (related : List SyncAction) (k : String)
    → lookup k (get_or (get_updated_original tx related) (get_or tx.original [])) ≡ (
        if contains k (local_conflict_fields tx)
        then newest_value k related (lookup k (get_or tx.original []))
        else lookup k (get_or tx.original []))
unfolding get_updated_original
lookup-get_updated_original tx related k =
    let original = get_or tx.original [] in
    elim (Bool-cases (fold_actions tx related original).1) [
      | inl e ↦ rw e (lookup-fold_actions tx related original k)
      | inr e ↦ rw e (
          ap (lookup k) (sym (fold_actions-untouched tx related original e))
          ∙ lookup-fold_actions tx related original k)
    ]

patch_for_found :
    (index : Dict (List SyncAction)) (tx : Transaction) (related : List SyncAction)
    → update_like tx.action ≡ true
    → lookup (tx_key tx) index ≡ some related
    → patch_for index tx ≡ get_updated_original tx related
unfolding patch_for
patch_for_found index tx related u e = ground arith

patch_for_missing :
    (index : Dict (List SyncAction)) (tx : Transaction)
    → lookup (tx_key tx) index ≡ none
    → patch_for index tx ≡ none
unfolding patch_for
patch_for_missing index tx e = ground arith

-- After the rebase against a batch, the snapshot of a pending update, archive or unarchive holds,
-- for each field that it tracks, the newest value that the batch's inserts, updates, archives,
-- unarchives and coverings of the row give it, and its old value where they give none. Every other
-- field is as before.
pub lookup-original_after :
    (tx : Transaction) (actions : List SyncAction) (k : String)
    → update_like tx.action ≡ true
    → lookup k (original_after (actions_from [] actions) tx) ≡ (
        if contains k (local_conflict_fields tx)
        then newest_value k (on_row (tx_key tx) actions) (lookup k (get_or tx.original []))
        else lookup k (get_or tx.original []))
lookup-original_after tx actions k u =
    let index = actions_from [] actions in
    let rows : get_or (lookup (tx_key tx) index) [] ≡ on_row (tx_key tx) actions =
      actions_from-on_row (tx_key tx) [] actions ∙ unfold lookup in refl in
    elim (Option-cases (lookup (tx_key tx) index)) [
      | inl e ↦
          let quiet : on_row (tx_key tx) actions ≡ [] = ground arith in
          rw (patch_for_missing index tx e, quiet) (unfold newest_value in ground arith)
      | inr (related, e) ↦
          let same_rows : related ≡ on_row (tx_key tx) actions = ground arith in
          rw (patch_for_found index tx related u e, ← same_rows)
            (lookup-get_updated_original tx related k)
    ]

abbrev pub is_patch : ConflictEffect → Bool
is_patch (patch_original r) = true
is_patch _ = false

-- The two halves agree: a conflict leaves its transaction pending just when its effect is a patched
-- snapshot, and its effect drops the transaction just when the resolution is that the server wins, or
-- that it is manual.
pub resolve_conflict_effect-keeps :
    (c : RebaseConflict)
    → (is_patch (resolve_conflict_effect c) ≡ keeps_local_transaction c)
      × ((resolve_conflict_effect c ≡ drop_local)
          ↔ ((c.resolution ≡ server_wins) ⊎ (c.resolution ≡ manual)))
unfolding resolve_conflict_effect keeps_local_transaction
resolve_conflict_effect-keeps c = ground arith
