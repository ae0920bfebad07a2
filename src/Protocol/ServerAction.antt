-- ===== src/Protocol/ServerAction.antt =====
-- packages/server/src/core/sync-action.ts: a row of the log as it goes out, and as the server itself
-- reads it back from its delta channel. `toISOString` and the parsing of a date are the host's:
-- parameters. What JSON.stringify and JSON.parse make of an object in between is `on_wire`.
use stratasync.Prelude.{ℕ, String, [], ◌∷◌, Option, none, some, map}
use stratasync.Prelude.Int.{ℤ}
use stratasync.SyncId.{SyncId, text, Parsed, ok, throw, parse, serialize}
use stratasync.Value.{Row, undefined, null_if_undefined}
use stratasync.Protocol.{
  Field, absent, nil, string, items, members, IdField, no_id, id_of, RawAction, Decoded, decoded,
  refused, ◌>>=◌, required_text, optional_text,
}

pub record RawSyncActionRow : Type 0 where
  pub id : ℕ
  pub model : String
  pub model_id : String
  pub action : String
  pub fields : Field
  pub group_id : Option String
  pub client_tx_id : Option String
  pub client_id : Option String
  pub created_at : ℤ

-- `SyncActionOutput`, where a date is an integer, and `SerializedSyncActionOutput`, where it is a text.
pub record ActionOutput (D : Type 0) : Type 0 where
  pub sync_id : SyncId
  pub model_name : String
  pub model_id : String
  pub action : String
  pub fields : Field
  pub group_id : Option String
  pub client_tx_id : Option String
  pub client_id : Option String
  pub created_at : D

-- `data ?? {}`
abbrev pub or_no_members : Field → Field
or_no_members absent = members []
or_no_members nil = members []
or_no_members f = f

unfoldable pub to_sync_action_output : RawSyncActionRow → ActionOutput ℤ
to_sync_action_output r = record {
  sync_id = serialize r.id;
  model_name = r.model;
  model_id = r.model_id;
  action = r.action;
  fields = or_no_members r.fields;
  group_id = r.group_id;
  client_tx_id = r.client_tx_id;
  client_id = r.client_id;
  created_at = r.created_at;
}

-- JSON has no `undefined`: an object's member with it is left out, and an array has null there.
unfoldable pub json_row : Row → Row
json_row [] = []
json_row ((k, undefined) ∷ r) = json_row r
json_row ((k, v) ∷ r) = (k, v) ∷ json_row r

abbrev pub json_field : Field → Field
json_field (members r) = members (json_row r)
json_field (items vs) = items (map null_if_undefined vs)
json_field f = f

abbrev pub json_text : Option String → Field
json_text none = absent
json_text (some s) = string s

abbrev pub on_wire : ActionOutput String → RawAction
on_wire a = record {
  sync_id = id_of (text a.sync_id);
  other_id = no_id;
  model_name = string a.model_name;
  model_id = string a.model_id;
  action = string a.action;
  fields = json_field a.fields;
  group_id = json_text a.group_id;
  groups = absent;
  client_tx_id = json_text a.client_tx_id;
  client_id = json_text a.client_id;
  created_at = string a.created_at;
}

-- `isRecord`, which accepts an array too.
abbrev pub required_record : Field → Decoded Field
required_record (members r) = decoded (members r)
required_record (items vs) = decoded (items vs)
required_record _ = refused "Sync action data must be an object"

abbrev pub required_id : IdField → Decoded SyncId
required_id (id_of (text s)) = decoded s
required_id _ = refused "Sync action syncId must be a string"

-- `parseSyncIdString`, for its error alone.
abbrev pub checked_id : SyncId → Parsed ℕ → Decoded SyncId
checked_id s (ok n) = decoded s
checked_id s (throw e) = refused "Invalid syncId"

abbrev pub valid_date : Option ℤ → Decoded ℤ
valid_date none = refused "Sync action createdAt must be a valid date"
valid_date (some t) = decoded t

module _ (to_iso : ℤ → String) where
  unfoldable pub serialize_sync_action_output : ActionOutput ℤ → ActionOutput String
  serialize_sync_action_output a = record {
    sync_id = a.sync_id;
    model_name = a.model_name;
    model_id = a.model_id;
    action = a.action;
    fields = a.fields;
    group_id = a.group_id;
    client_tx_id = a.client_tx_id;
    client_id = a.client_id;
    created_at = to_iso a.created_at;
  }

module _ (date_of_text : String → Option ℤ) where
  unfoldable pub parse_sync_action_output : RawAction → Decoded (ActionOutput ℤ)
  parse_sync_action_output raw = do
    action ← required_text "Sync action action must be a string" raw.action
    written ← required_text "Sync action createdAt must be a string" raw.created_at
    fields ← required_record raw.fields
    model_id ← required_text "Sync action modelId must be a string" raw.model_id
    model_name ← required_text "Sync action modelName must be a string" raw.model_name
    sync_id ← required_id raw.sync_id
    sync_id' ← checked_id sync_id (parse sync_id)
    created_at ← valid_date (date_of_text written)
    decoded (record {
      sync_id = sync_id';
      model_name = model_name;
      model_id = model_id;
      action = action;
      fields = fields;
      group_id = optional_text raw.group_id;
      client_tx_id = optional_text raw.client_tx_id;
      client_id = optional_text raw.client_id;
      created_at = created_at;
    })
