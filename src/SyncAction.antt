-- ===== src/SyncAction.antt =====
-- packages/core/src/sync/types.ts: what the server sends, and packages/client/src/utils.ts, the key
-- of a model instance.
use Prim.Native.String.{◌++◌ as append_text}
use stratasync.Prelude.{String, Bool, false, Option, none, some, List, same}
use stratasync.SyncId.{SyncId}
use stratasync.Value.{Row}
use stratasync.Transaction.{Action}

-- `SyncActionType`: the five that carry a row, then "C", "G" and "S".
pub data SyncActionType : Type 0 where
  row : Action → SyncActionType
  covering groups_changed groups_changed_too : SyncActionType

-- `SyncAction`, without the fields that the engine does not read.
pub record SyncAction : Type 0 where
  pub id : SyncId
  pub model_name : String
  pub model_id : String
  pub action : SyncActionType
  pub fields : Row
  pub client_tx_id : Option String
  pub client_id : Option String

pub record DeltaPacket : Type 0 where
  pub last_sync_id : SyncId
  pub actions : List SyncAction

-- `getModelKey`
unfoldable pub model_key : String → String → String
model_key model_name id = append_text model_name (append_text ":" id)

-- `field === text`, where the field may be missing
abbrev pub is_text : Option String → String → Bool
is_text none s = false
is_text (some t) s = same t s
