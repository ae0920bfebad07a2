-- ===== src/Rebase.antt =====
-- packages/core/src/sync/rebase.ts: `rebaseTransactions`, pending transactions against a batch of
-- server actions.
pub mod Loop
pub mod Outcome
pub mod Echo
pub mod Originals
pub mod Snapshots
use stratasync.Prelude.{
  String, Bool, true, false, not, ◌&&◌, ◌||◌, List, [], ◌∷◌, ◌++◌, Option, none, some, same,
  if◌then◌else◌,
}
use stratasync.Prelude.Dict.{Dict, lookup, assign, get_or}
use stratasync.Prelude.TextSet.{TextSet, contains, add}
use stratasync.Transaction.{Transaction}
use stratasync.SyncAction.{SyncAction, model_key, is_text}
use stratasync.Conflict.{
  RebaseConflict, RebaseOptions, detect_conflict, is_in_flight, keeps_local_transaction,
}

pub record RebaseResult : Type 0 where
  pub pending : List Transaction
  pub confirmed : List Transaction
  pub conflicts : List RebaseConflict

-- What the loop of `rebaseTransactions` carries along.
pub record Progress : Type 0 where
  pub confirmed : List Transaction
  pub conflicts : List RebaseConflict
  pub processed : TextSet
  pub kept_after_conflict : TextSet

-- `pendingByKey`
abbrev tx_key : Transaction → String
tx_key tx = model_key tx.model_name tx.model_id

unfoldable pub index_from : Dict (List Transaction) → List Transaction → Dict (List Transaction)
index_from index [] = index
index_from index (tx ∷ pending) =
    let existing = get_or (lookup (tx_key tx) index) [] in
    index_from (assign (tx_key tx) (existing ++ tx ∷ []) index) pending

-- `echoedTxIds`
unfoldable pub echoed_from : String → TextSet → List SyncAction → TextSet
echoed_from client_id ids [] = ids
echoed_from client_id ids (a ∷ actions) =
    echoed_from client_id
      (elim a.client_tx_id [
        | none ↦ ids
        | some id ↦ if is_text a.client_id client_id && not (same id "") then add id ids else ids
      ])
      actions

-- Whether the action is the echo of the transaction, which is not processed yet.
unfoldable pub is_echo_of : RebaseOptions → TextSet → SyncAction → Transaction → Bool
is_echo_of o processed a tx =
    not (contains tx.client_tx_id processed)
    && is_text a.client_tx_id tx.client_tx_id
    && is_text a.client_id o.client_id

unfoldable pub find_echo :
    RebaseOptions → TextSet → SyncAction → List Transaction → Option Transaction
find_echo o processed a [] = none
find_echo o processed a (tx ∷ related) =
    if is_echo_of o processed a tx then some tx else find_echo o processed a related

unfoldable pub add_conflict : Progress → Transaction → Option RebaseConflict → Progress
add_conflict p tx none = p
add_conflict p tx (some c) = record p {
  conflicts = p.conflicts ++ c ∷ [];
  processed = add tx.client_tx_id p.processed;
  kept_after_conflict =
      if keeps_local_transaction c
      then add tx.client_tx_id p.kept_after_conflict
      else p.kept_after_conflict;
}

-- The body of the loop over the transactions of one row.
unfoldable pub check_one : RebaseOptions → TextSet → SyncAction → Progress → Transaction → Progress
check_one o echoed a p tx =
    if contains tx.client_tx_id p.processed || contains tx.client_tx_id echoed || is_in_flight tx
    then p
    else add_conflict p tx (detect_conflict tx a o)

unfoldable pub check_related :
    RebaseOptions → TextSet → SyncAction → Progress → List Transaction → Progress
check_related o echoed a p [] = p
check_related o echoed a p (tx ∷ related) =
    check_related o echoed a (check_one o echoed a p tx) related

unfoldable pub confirm : Progress → Transaction → Progress
confirm p tx = record p {
  confirmed = p.confirmed ++ tx ∷ [];
  processed = add tx.client_tx_id p.processed;
}

-- The body of the loop over the server's actions.
unfoldable pub process_action :
    RebaseOptions → TextSet → Dict (List Transaction) → Progress → SyncAction → Progress
process_action o echoed index p a =
    let related = get_or (lookup (model_key a.model_name a.model_id) index) [] in
    elim (find_echo o p.processed a related) [
      | some own ↦ confirm p own
      | none ↦ check_related o echoed a p related
    ]

unfoldable pub process_actions :
    RebaseOptions → TextSet → Dict (List Transaction) → Progress → List SyncAction → Progress
process_actions o echoed index p [] = p
process_actions o echoed index p (a ∷ actions) =
    process_actions o echoed index (process_action o echoed index p a) actions

unfoldable pub remaining : Progress → List Transaction → List Transaction
remaining p [] = []
remaining p (tx ∷ pending) =
    if not (contains tx.client_tx_id p.processed) || contains tx.client_tx_id p.kept_after_conflict
    then tx ∷ remaining p pending
    else remaining p pending

abbrev pub no_progress : Progress
no_progress = record { confirmed = []; conflicts = []; processed = []; kept_after_conflict = [] }

unfoldable pub progress_after : List Transaction → List SyncAction → RebaseOptions → Progress
progress_after pending actions o =
    process_actions o (echoed_from o.client_id [] actions) (index_from [] pending) no_progress
      actions

unfoldable pub rebase_transactions :
    List Transaction → List SyncAction → RebaseOptions → RebaseResult
rebase_transactions pending actions o =
    let p = progress_after pending actions o in
    record { confirmed = p.confirmed; conflicts = p.conflicts; pending = remaining p pending }
