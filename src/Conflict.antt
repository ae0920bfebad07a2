-- ===== src/Conflict.antt =====
-- packages/core/src/sync/rebase.ts, its first half: when a local transaction and a server action
-- conflict, and how the conflict is to be resolved.
pub mod Detection
use stratasync.Prelude.{
  String, Bool, true, false, ◌&&◌, List, [], ◌∷◌, Option, none, some, same, if◌then◌else◌,
}
use stratasync.Prelude.Dict.{keys, get_or}
use stratasync.Prelude.TextSet.{contains}
use stratasync.Archive.{archived_at}
use stratasync.Transaction.{
  Action, Transaction, TxState, insert, update, archive, delete, unarchive, sent, awaiting_sync,
}
use stratasync.SyncAction.{SyncAction, SyncActionType, row}

pub data ConflictType : Type 0 where
  update_update update_delete delete_update insert_insert : ConflictType

pub data ConflictResolution : Type 0 where
  server_wins client_wins merge manual : ConflictResolution

pub record RebaseConflict : Type 0 where
  pub local_transaction : Transaction
  pub server_action : SyncAction
  pub conflict_type : ConflictType
  pub resolution : ConflictResolution

pub record RebaseOptions : Type 0 where
  pub client_id : String
  pub default_resolution : Option ConflictResolution
  pub field_level_conflicts : Bool

-- `normalizeAction`: an archive or an unarchive is an update.
abbrev pub normalize : Action → Action
normalize archive = update
normalize unarchive = update
normalize a = a

abbrev pub normalize_action : SyncActionType → Option Action
normalize_action (row a) = some (normalize a)
normalize_action _ = none

abbrev pub is_archiving : Action → Bool
is_archiving archive = true
is_archiving unarchive = true
is_archiving _ = false

unfoldable pub local_conflict_fields : Transaction → List String
local_conflict_fields tx = if is_archiving tx.action then archived_at ∷ [] else keys tx.payload

without : String → List String → List String
without k [] = []
without k (j ∷ js) = if same j k then without k js else j ∷ without k js

abbrev is_archiving_action : SyncActionType → Bool
is_archiving_action (row a) = is_archiving a
is_archiving_action _ = false

unfoldable pub server_conflict_fields : SyncAction → List String
unfolding without
server_conflict_fields a =
    if is_archiving_action a.action
    then archived_at ∷ without archived_at (keys a.fields)
    else keys a.fields

-- `localFields.some((f) => serverFields.includes(f))`
unfoldable pub overlaps : List String → List String → Bool
overlaps [] server = false
overlaps (f ∷ fields) server = if contains f server then true else overlaps fields server

abbrev default_for : ConflictType → ConflictResolution
default_for insert_insert = manual
default_for _ = server_wins

unfoldable pub resolve_conflict : ConflictType → RebaseOptions → ConflictResolution
resolve_conflict t o = get_or o.default_resolution (default_for t)

-- The ladder of `detectConflict` over the normalised letters, local first.
unfoldable pub conflict_type_of : Action → Action → Bool → Option ConflictType
conflict_type_of insert insert fields_meet = some insert_insert
conflict_type_of delete update fields_meet = some delete_update
conflict_type_of update delete fields_meet = some update_delete
conflict_type_of update update fields_meet = if fields_meet then some update_update else none
conflict_type_of _ _ fields_meet = none

-- Whether two updates are compared field by field and touch a field in common, or are not so
-- compared.
unfoldable pub fields_meet : Transaction → SyncAction → RebaseOptions → Bool
fields_meet tx a o =
    if o.field_level_conflicts
    then overlaps (local_conflict_fields tx) (server_conflict_fields a)
    else true

conflict_with :
    Transaction → SyncAction → RebaseOptions → Option ConflictType → Option RebaseConflict
conflict_with tx a o none = none
conflict_with tx a o (some t) = some (record {
  local_transaction = tx;
  server_action = a;
  conflict_type = t;
  resolution = resolve_conflict t o;
})

type_against : Option Action → Transaction → SyncAction → RebaseOptions → Option ConflictType
type_against none tx a o = none
type_against (some server) tx a o =
    conflict_type_of (normalize tx.action) server (fields_meet tx a o)

unfoldable pub detect_conflict : Transaction → SyncAction → RebaseOptions → Option RebaseConflict
unfolding conflict_with type_against
detect_conflict tx a o = conflict_with tx a o (type_against (normalize_action a.action) tx a o)

abbrev pub in_flight_state : TxState → Bool
in_flight_state sent = true
in_flight_state awaiting_sync = true
in_flight_state _ = false

unfoldable pub is_in_flight : Transaction → Bool
is_in_flight tx = in_flight_state tx.state

abbrev pub update_like : Action → Bool
update_like update = true
update_like archive = true
update_like unarchive = true
update_like _ = false

abbrev pub keeps : ConflictResolution → Bool
keeps client_wins = true
keeps merge = true
keeps _ = false

unfoldable pub keeps_local_transaction : RebaseConflict → Bool
keeps_local_transaction c = keeps c.resolution && update_like c.local_transaction.action
