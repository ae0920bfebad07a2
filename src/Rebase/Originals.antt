-- ===== src/Rebase/Originals.antt =====
-- packages/core/src/sync/rebase.ts, its last part: the rollback snapshots of pending transactions
-- take over the server's values for the fields that the transactions track.
use stratasync.Prelude.{
  String, Bool, true, false, ◌&&◌, ◌||◌, List, [], ◌∷◌, ◌++◌, Option, none, some, if◌then◌else◌,
}
use stratasync.Prelude.Dict.{Dict, lookup, has_key, assign, get_or}
use stratasync.Value.{Row}
use stratasync.Transaction.{Transaction, delete}
use stratasync.SyncAction.{SyncAction, SyncActionType, row, covering, model_key}
use stratasync.Conflict.{
  RebaseConflict, ConflictResolution, server_wins, manual, local_conflict_fields,
  keeps_local_transaction, update_like,
}
use stratasync.Rebase.{tx_key}

-- The loop of `foldTrackedFields`: the copy of the original, and whether a field was touched.
unfoldable pub fold_fields : List String → Row → Row → Row × Bool
fold_fields [] original fields = (original, false)
fold_fields (f ∷ tracked) original fields =
    let (rest, updated) =
      fold_fields tracked
        (elim (lookup f fields) [ none ↦ original | some v ↦ assign f v original ]) fields in
    (rest, has_key f fields || updated)

unfoldable pub fold_tracked_fields : Transaction → Row → Row → Row × Bool
fold_tracked_fields tx original fields = fold_fields (local_conflict_fields tx) original fields

abbrev pub should_rebase_action : SyncActionType → Bool
should_rebase_action (row delete) = false
should_rebase_action (row a) = true
should_rebase_action covering = true
should_rebase_action _ = false

unfoldable pub fold_actions : Transaction → List SyncAction → Row → Row × Bool
fold_actions tx [] original = (original, false)
fold_actions tx (a ∷ related) original =
    let (next, touched) = fold_tracked_fields tx original a.fields in
    let (rest, updated) =
      fold_actions tx related (if should_rebase_action a.action then next else original) in
    (rest, (should_rebase_action a.action && touched) || updated)

unfoldable pub get_updated_original : Transaction → List SyncAction → Option Row
get_updated_original tx related =
    let (original, updated) = fold_actions tx related (get_or tx.original []) in
    if updated then some original else none

-- `buildActionsByKey`
unfoldable pub actions_from : Dict (List SyncAction) → List SyncAction → Dict (List SyncAction)
actions_from index [] = index
actions_from index (a ∷ actions) =
    let key = model_key a.model_name a.model_id in
    actions_from (assign key (get_or (lookup key index) [] ++ a ∷ []) index) actions

pub record OriginalPatch : Type 0 where
  pub client_tx_id : String
  pub original : Row

-- The body of the loop of `rebaseOriginals`: the snapshot that it writes for a transaction.
unfoldable pub patch_for : Dict (List SyncAction) → Transaction → Option Row
patch_for index tx =
    if update_like tx.action
    then elim (lookup (tx_key tx) index) [
      | none ↦ none
      | some related ↦ get_updated_original tx related
    ]
    else none

unfoldable pub patches_from : Dict (List SyncAction) → List Transaction → List OriginalPatch
patches_from index [] = []
patches_from index (tx ∷ pending) = elim (patch_for index tx) [
  | none ↦ patches_from index pending
  | some original ↦
      record { client_tx_id = tx.client_tx_id; original = original } ∷ patches_from index pending
]

unfoldable pub rebase_originals : List Transaction → List SyncAction → List OriginalPatch
rebase_originals pending actions = patches_from (actions_from [] actions) pending

-- `ConflictEffect`
pub data ConflictEffect : Type 0 where
  drop_local no_effect : ConflictEffect
  patch_original : Row → ConflictEffect

abbrev pub coerced : ConflictResolution → ConflictResolution
coerced manual = server_wins
coerced r = r

abbrev is_server_wins : ConflictResolution → Bool
is_server_wins server_wins = true
is_server_wins _ = false

unfoldable pub resolve_conflict_effect : RebaseConflict → ConflictEffect
resolve_conflict_effect c =
    let resolution = coerced c.resolution in
    let tx = c.local_transaction in
    if is_server_wins resolution
    then drop_local
    else if keeps_local_transaction (record c { resolution = resolution })
    then patch_original (fold_tracked_fields tx (get_or tx.original []) c.server_action.fields).0
    else no_effect
