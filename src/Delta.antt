-- ===== src/Delta.antt =====
-- packages/core/src/sync/delta-applier.ts: applying a packet of server actions to a local store. The
-- store is whatever implements `DeltaTarget`, a state `S` with four operations; the host clock is
-- a function that gives the time at which an action is applied.
pub mod Table
pub mod Counts
pub mod Cursor
pub mod Effect
pub mod Redelivery
use stratasync.Prelude.{
  ℕ, ◌+◌, String, Bool, true, false, List, [], ◌∷◌, Option, none, some, same, if◌then◌else◌,
}
use stratasync.Prelude.Int.{ℤ}
use stratasync.Prelude.Dict.{spread}
use stratasync.SyncId.{SyncId, zero_sync_id, max_sync_id}
use stratasync.Value.{Row}
use stratasync.Archive.{read_archived_at, create_archive_payload, create_unarchive_patch}
use stratasync.Transaction.{Action, insert, update, archive, delete, unarchive}
use stratasync.SyncAction.{
  SyncAction, SyncActionType, DeltaPacket, row, covering, groups_changed, groups_changed_too,
  is_text,
}

pub record DeltaTarget (S : Type 0) : Type 0 where
  pub put : String → String → Row → S → S
  pub remove : String → String → S → S
  pub patch : String → String → Row → S → S
  pub get : String → String → S → Option Row × S

pub record ApplyResult : Type 0 where
  pub inserts : ℕ
  pub updates : ℕ
  pub deletes : ℕ
  pub archives : ℕ
  pub unarchives : ℕ
  pub last_sync_id : SyncId
  pub skipped : ℕ

pub record ApplyOptions : Type 0 where
  pub client_id : Option String
  pub merge_updates : Bool

abbrev pub no_result : ApplyResult
no_result = record {
  inserts = 0;
  updates = 0;
  deletes = 0;
  archives = 0;
  unarchives = 0;
  last_sync_id = zero_sync_id;
  skipped = 0;
}

-- `updateResult`
abbrev count_action : SyncActionType → ApplyResult → ApplyResult
count_action (row insert) r = record r { inserts = r.inserts + 1 }
count_action (row update) r = record r { updates = r.updates + 1 }
count_action (row delete) r = record r { deletes = r.deletes + 1 }
count_action (row archive) r = record r { archives = r.archives + 1 }
count_action (row unarchive) r = record r { unarchives = r.unarchives + 1 }
count_action _ r = r

unfoldable pub update_result : ApplyResult → SyncAction → ApplyResult
update_result r a =
    count_action a.action (record r { last_sync_id = max_sync_id r.last_sync_id a.id })

unfoldable pub mark_skipped : ApplyResult → SyncId → ApplyResult
mark_skipped r id = record r {
  skipped = r.skipped + 1;
  last_sync_id = max_sync_id r.last_sync_id id;
}

-- `options.clientId && action.clientId === options.clientId`: an empty id is falsy.
unfoldable pub is_own : ApplyOptions → SyncAction → Bool
is_own o a = elim o.client_id [
  | none ↦ false
  | some c ↦ if same c "" then false else is_text a.client_id c
]

module _ {S : Type 0} (target : DeltaTarget S) where
  open target use {put, remove, patch, get}

  -- The store after a merge, and whether there was a row to merge into.
  unfoldable pub merge_and_put : String → String → Row → Row → S → Bool × S
  merge_and_put model_name model_id fields overrides s =
      let (existing, s') = get model_name model_id s in
      elim existing [
        | none ↦ (false, s')
        | some e ↦ (true, put model_name model_id (spread (spread e fields) overrides) s')
      ]

  -- The update branch without `mergeUpdates`.
  unfoldable pub update_existing : String → String → Row → S → Bool × S
  update_existing model_name model_id fields s =
      let (existing, s') = get model_name model_id s in
      elim existing [
        | none ↦ (false, s')
        | some e ↦ (true, put model_name model_id (spread e fields) s')
      ]

  module _ (date_parse : String → Option ℤ) (clock : SyncAction → ℤ) where
    -- `applySingleAction`, by the action's letter.
    unfoldable pub apply_by : SyncActionType → SyncAction → ApplyOptions → S → Bool × S
    apply_by (row insert) a o s = (true, put a.model_name a.model_id a.fields s)
    apply_by (row update) a o s =
        if o.merge_updates
        then (true, patch a.model_name a.model_id a.fields s)
        else update_existing a.model_name a.model_id a.fields s
    apply_by (row delete) a o s = (true, remove a.model_name a.model_id s)
    apply_by (row archive) a o s =
        merge_and_put a.model_name a.model_id a.fields
          (create_archive_payload (read_archived_at date_parse (some a.fields)) (clock a)) s
    apply_by (row unarchive) a o s =
        merge_and_put a.model_name a.model_id a.fields create_unarchive_patch s
    apply_by _ a o s = (false, s)

    abbrev record_applied : SyncAction → ApplyResult → Bool × S → ApplyResult × S
    record_applied a r (applied, s) =
        (if applied then update_result r a else mark_skipped r a.id, s)

    -- The body of the loop of `applyDeltas`.
    unfoldable pub apply_one :
        (String → Bool) → ApplyOptions → SyncAction → ApplyResult × S → ApplyResult × S
    apply_one has_model o a (r, s) =
        if is_own o a
        then (mark_skipped r a.id, s)
        else if has_model a.model_name
        then record_applied a r (apply_by a.action a o s)
        else (mark_skipped r a.id, s)

    unfoldable pub apply_all :
        (String → Bool) → ApplyOptions → List SyncAction → ApplyResult × S → ApplyResult × S
    apply_all has_model o [] rs = rs
    apply_all has_model o (a ∷ actions) rs =
        apply_all has_model o actions (apply_one has_model o a rs)

    unfoldable pub apply_deltas : (String → Bool) → ApplyOptions → DeltaPacket → S → ApplyResult × S
    apply_deltas has_model o packet s =
        let (r, s') = apply_all has_model o packet.actions (no_result, s) in
        (record r { last_sync_id = max_sync_id r.last_sync_id packet.last_sync_id }, s')
