-- ===== src/Hydration.antt =====
-- packages/client/src/sync/pending-hydration.ts: pending transactions are applied once more to the
-- identity maps, after server data went into them. The payload of a transaction is taken as the
-- data of a model by `as_data`, and `defaults` are the options where a call gives none; `now` is
-- the time at which an archive without one is applied.
pub mod Overlay
pub mod Privacy
pub mod Groups
use stratasync.Prelude.{
  String, Bool, true, false, not, ◌||◌, ◌&&◌, List, [], ◌∷◌, ◌++◌, Option, none, some, ltb, ◌==◌,
  length, if◌then◌else◌,
}
use stratasync.Prelude.Int.{ℤ}
use stratasync.Prelude.TextSet.{TextSet, contains, add_all}
use stratasync.Value.{Row}
use stratasync.Archive.{read_archived_at, create_archive_payload, create_unarchive_patch}
use stratasync.Transaction.{Action, Transaction, insert, update, archive, delete, unarchive}
use stratasync.IdentityMap
use stratasync.IdentityMap.{Instances, IdentityMap, has, get, merge}
use stratasync.IdentityMap.Registry.{Registry, map_of, with_map}

module _ {T : Type 0} where
  -- `touchPendingTransactionTargets`
  unfoldable pub touch_targets : List Transaction → Registry T → Registry T
  touch_targets [] g = g
  touch_targets (tx ∷ pending) g =
      touch_targets pending (with_map tx.model_name (λ m. (get tx.model_id m).1) g)

  -- `map.has(tx.modelId)` on the map of the model.
  unfoldable pub has_target : Registry T → Transaction → Bool
  has_target g tx = has tx.model_id (map_of g tx.model_name)

module _ {T O : Type 0} (inst : Instances T O) (as_data : Row → T) (defaults : O) where
  unfoldable pub merge_row : String → Row → IdentityMap T → IdentityMap T
  merge_row id fields m = (merge inst id (as_data fields) defaults m).0

  abbrev pub merge_if : Bool → String → Row → IdentityMap T → IdentityMap T
  merge_if test id fields m = if test then merge_row id fields m else m

  module _ (date_parse : String → Option ℤ) (now : Transaction → ℤ) where
    -- The body of the loop, on the map of the transaction's model.
    unfoldable pub hydrate_map : Action → Transaction → IdentityMap T → IdentityMap T
    hydrate_map insert tx m = merge_if (not (has tx.model_id m)) tx.model_id tx.payload m
    hydrate_map update tx m = merge_if (has tx.model_id m) tx.model_id tx.payload m
    hydrate_map delete tx m = IdentityMap.delete tx.model_id m
    hydrate_map archive tx m =
        merge_if (has tx.model_id m) tx.model_id
          (create_archive_payload (read_archived_at date_parse (some tx.payload)) (now tx)) m
    hydrate_map unarchive tx m = merge_if (has tx.model_id m) tx.model_id create_unarchive_patch m

    -- `applyPendingTransactionsToIdentityMaps`
    unfoldable pub apply_pending : List Transaction → Registry T → Registry T
    apply_pending [] g = g
    apply_pending (tx ∷ pending) g =
        apply_pending pending (with_map tx.model_name (hydrate_map tx.action tx) g)
