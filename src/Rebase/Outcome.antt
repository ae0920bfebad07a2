-- ===== src/Rebase/Outcome.antt =====
-- The result of `rebaseTransactions`: every pending transaction is accounted for.
use stratasync.Prelude.{
  String, ◌≡◌, true, false, not, ◌&&◌, ◌||◌, List, [], ◌∷◌, arith, same_iff, if◌then◌else◌,
}
use stratasync.Prelude.TextSet.{contains}
use stratasync.Transaction.{Transaction}
use stratasync.SyncAction.{SyncAction}
use stratasync.Conflict.{RebaseOptions}
use stratasync.Rebase.{
  Progress, echoed_from, index_from, no_progress, progress_after, remaining, rebase_transactions,
}
use stratasync.Rebase.Loop.{
  tx_ids, conflict_ids, AreGenuine, Inv, process_actions-Inv, no_progress-Inv,
}

contains-remaining :
    (p : Progress) (id : String) (pending : List Transaction)
    → contains id (tx_ids (remaining p pending)) ≡ (
        if not (contains id p.processed) || contains id p.kept_after_conflict
        then contains id (tx_ids pending)
        else false)
unfolding contains remaining
contains-remaining p id [] = ground arith
contains-remaining p id (tx ∷ pending) =
    ground (arith, same_iff tx.client_tx_id id, contains-remaining p id pending)

pub progress_after-Inv :
    (pending : List Transaction) (actions : List SyncAction) (o : RebaseOptions)
    → Inv o (echoed_from o.client_id [] actions) (progress_after pending actions o)
unfolding progress_after
progress_after-Inv pending actions o =
    let echoed = echoed_from o.client_id [] actions in
    process_actions-Inv o echoed (index_from [] pending) no_progress actions
      (no_progress-Inv o echoed)

-- Every pending transaction is, in the result, confirmed, in a conflict or still pending. None is
-- both confirmed and in a conflict, or both confirmed and still pending. (Transactions are told
-- apart by their ids.)
pub rebase_transactions-accounts :
    (pending : List Transaction) (actions : List SyncAction) (o : RebaseOptions) (id : String)
    → contains id (tx_ids pending) ≡ true
    → (contains id (tx_ids (rebase_transactions pending actions o).confirmed)
          || contains id (conflict_ids (rebase_transactions pending actions o).conflicts)
          || contains id (tx_ids (rebase_transactions pending actions o).pending)
        ≡ true)
      × (contains id (tx_ids (rebase_transactions pending actions o).confirmed)
            && contains id (conflict_ids (rebase_transactions pending actions o).conflicts)
          ≡ false)
      × (contains id (tx_ids (rebase_transactions pending actions o).confirmed)
            && contains id (tx_ids (rebase_transactions pending actions o).pending)
          ≡ false)
unfolding rebase_transactions
rebase_transactions-accounts pending actions o id h =
    let p = progress_after pending actions o in
    let v = progress_after-Inv pending actions o in
    ground (arith, contains-remaining p id pending, v.accounted id, v.disjoint id, v.kept id)

-- Each reported conflict is what `detectConflict` says of a transaction that is not in flight.
pub rebase_transactions-AreGenuine :
    (pending : List Transaction) (actions : List SyncAction) (o : RebaseOptions)
    → AreGenuine o (rebase_transactions pending actions o).conflicts
unfolding rebase_transactions
rebase_transactions-AreGenuine pending actions o = (progress_after-Inv pending actions o).genuine
