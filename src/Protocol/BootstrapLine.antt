-- ===== src/Protocol/BootstrapLine.antt =====
-- packages/core/src/protocol/bootstrap-line.ts: the lines of a bootstrap. JSON.parse and the code units
-- of a text are the host's: parameters. An object is a dictionary of fields; its `_metadata_` stands beside
-- them where it is an object itself. A line that is JSON but no object is taken as one that is not JSON.
use stratasync.Prelude.{
  ℕ, String, Bool, true, false, ◌||◌, List, [], ◌∷◌, Option, none, some, ◌==◌, same, if◌then◌else◌,
}
use stratasync.Prelude.Int.{ℤ}
use stratasync.Prelude.Dict.{Dict, lookup, has_key, remove, get_or}
use stratasync.SyncId.{SyncId, text, parse_sync_id}
use stratasync.Protocol.{
  Field, absent, numeral, string, items, members, Decoded, decoded, refused, ◌>>=◌, parsed_id,
  optional_text, group_texts,
}
use stratasync.Protocol.Ndjson.{trim}

pub record RawLine : Type 0 where
  pub fields : Dict Field
  pub metadata : Option (Dict Field)

pub record BootstrapMetadata : Type 0 where
  pub subscribed_sync_groups : List String
  pub last_sync_id : Option SyncId
  pub returned_models_count : Option Field
  pub schema_hash : Option String
  pub database_version : Option ℤ
  pub raw : Dict Field

pub data ParsedBootstrapLine : Type 0 where
  meta : BootstrapMetadata → ParsedBootstrapLine
  row : String → Dict Field → ParsedBootstrapLine
  end_marker : Option ℤ → ParsedBootstrapLine

-- `parsed[key]`
abbrev pub field : String → Dict Field → Field
field key fields = get_or (lookup key fields) absent

abbrev pub optional_number : Field → Option ℤ
optional_number (numeral n) = some n
optional_number _ = none

abbrev pub optional_object : Field → Option Field
optional_object (members r) = some (members r)
optional_object (items vs) = some (items vs)
optional_object _ = none

abbrev pub list_or_none : Option (List String) → List String
list_or_none none = []
list_or_none (some l) = l

abbrev pub is_bootstrap_metadata : Dict Field → Bool
is_bootstrap_metadata fields =
    has_key "lastSyncId" fields
    || has_key "subscribedSyncGroups" fields
    || has_key "returnedModelsCount" fields

-- `_metadata_=` at the start of a line, and what follows it.
unfoldable pub after_prefix : List ℕ → List ℕ → Option (List ℕ)
after_prefix [] line = some line
after_prefix (p ∷ prefix) [] = none
after_prefix (p ∷ prefix) (c ∷ line) =
    let rest = after_prefix prefix line in if p == c then rest else none

module _ (units : String → List ℕ) where
  abbrev pub read_last : Field → Decoded (Option SyncId)
  read_last absent = decoded none
  read_last (string s) = do id ← parsed_id (parse_sync_id (text (units s))); decoded (some id)
  read_last _ = refused "invalid sync id"

  unfoldable pub normalize_bootstrap_metadata : Dict Field → Decoded BootstrapMetadata
  normalize_bootstrap_metadata fields = do
    last ← read_last (field "lastSyncId" fields)
    decoded (record {
      subscribed_sync_groups = list_or_none (group_texts (field "subscribedSyncGroups" fields));
      last_sync_id = last;
      returned_models_count = optional_object (field "returnedModelsCount" fields);
      schema_hash = optional_text (field "schemaHash" fields);
      database_version = optional_number (field "databaseVersion" fields);
      raw = fields;
    })

  unfoldable pub parse_metadata : Dict Field → Decoded ParsedBootstrapLine
  parse_metadata fields = do metadata ← normalize_bootstrap_metadata fields; decoded (meta metadata)

  -- By `type`, where it is neither a row nor wrapped metadata.
  unfoldable pub parse_typed : Option String → Dict Field → Decoded ParsedBootstrapLine
  parse_typed type fields =
      if same (get_or type "") "error"
      then refused "Bootstrap server error"
      else if same (get_or type "") "end"
      then decoded (end_marker (optional_number (field "rowCount" fields)))
      else elim (is_bootstrap_metadata fields) [
        | true ↦ parse_metadata fields
        | false ↦ refused "Bootstrap row is missing __class"
      ]

  unfoldable pub parse_object : RawLine → Decoded ParsedBootstrapLine
  parse_object line = elim (optional_text (field "__class" line.fields)) [
    | some model_name ↦ decoded (row model_name (remove "__class" line.fields))
    | none ↦ elim line.metadata [
      | some metadata ↦ parse_metadata metadata
      | none ↦ parse_typed (optional_text (field "type" line.fields)) line.fields
    ]
  ]

  module _ (parse_json : List ℕ → Option RawLine) where
    -- `normalizeBootstrapMetadata(parseJsonLine(...))`, and the other lines.
    unfoldable pub parse_prefixed : Option RawLine → Decoded ParsedBootstrapLine
    parse_prefixed none = refused "Failed to parse bootstrap line"
    parse_prefixed (some line) = parse_metadata line.fields

    unfoldable pub parse_plain : Option RawLine → Decoded ParsedBootstrapLine
    parse_plain none = refused "Failed to parse bootstrap line"
    parse_plain (some line) = parse_object line

    -- A blank line is `null`.
    unfoldable pub parse_trimmed : List ℕ → Decoded (Option ParsedBootstrapLine)
    parse_trimmed [] = decoded none
    parse_trimmed (c ∷ cs) = elim (after_prefix (units "_metadata_=") (c ∷ cs)) [
      | some json ↦ do line ← parse_prefixed (parse_json json); decoded (some line)
      | none ↦ do line ← parse_plain (parse_json (c ∷ cs)); decoded (some line)
    ]

    unfoldable pub parse_bootstrap_line : List ℕ → Decoded (Option ParsedBootstrapLine)
    parse_bootstrap_line line = parse_trimmed (trim line)

-- `finalizeBootstrapMetadata`, for a bootstrap that is partial or not.
unfoldable pub finalize_bootstrap_metadata :
    Option BootstrapMetadata → Bool → Decoded BootstrapMetadata
finalize_bootstrap_metadata none partial =
    if partial
    then decoded (record {
      subscribed_sync_groups = [];
      last_sync_id = none;
      returned_models_count = none;
      schema_hash = none;
      database_version = none;
      raw = [];
    })
    else refused "Bootstrap did not receive metadata"
finalize_bootstrap_metadata (some metadata) true = decoded metadata
finalize_bootstrap_metadata (some metadata) false = elim metadata.last_sync_id [
  | none ↦ refused "Bootstrap metadata is missing lastSyncId"
  | some id ↦ decoded metadata
]
