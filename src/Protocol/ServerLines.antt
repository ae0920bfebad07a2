-- ===== src/Protocol/ServerLines.antt =====
-- The objects of the lines that the server writes, of packages/server/src/bootstrap/bootstrap-service.ts
-- and row-mapper.ts, and what a client makes of them. The rows of the database are given.
use stratasync.Prelude.{
  ℕ, String, ◌≡◌, refl, ap, false, arith, List, [], ◌∷◌, ◌++◌, map, none, some, length, same,
}
use stratasync.Prelude.Int.{pos}
use stratasync.Prelude.Dict.{Dict, lookup, has_key, remove, remove_absent, spread, spread_one}
use stratasync.SyncId.{serialize}
use stratasync.SyncId.Codec.{parse_sync_id-serialize}
use stratasync.Value as Values
use stratasync.Value.{Row}
use stratasync.Protocol.ServerAction.{json_field, json_row}
use stratasync.Value.{null_if_undefined}
use stratasync.Protocol.{
  Field, absent, numeral, string, items, members, texts_of, Decoded, decoded, ◌>>=◌,
}
use stratasync.Protocol.BootstrapLine.{
  RawLine, ParsedBootstrapLine, meta, row, end_marker, parse_object, parse_metadata, parse_typed,
  normalize_bootstrap_metadata,
}

abbrev pub plain_line : Dict Field → RawLine
plain_line fields = record { fields = fields; metadata = none }

-- `JSON.stringify` of an object leaves out the members that are `undefined`.
abbrev pub json_member : String → Field → Dict Field → Dict Field
json_member k absent r = r
json_member k f r = (k, json_field f) ∷ r

unfoldable pub json_object : Dict Field → Dict Field
json_object [] = []
json_object ((k, f) ∷ r) = json_member k f (json_object r)

-- `JSON.stringify({ __class: modelName, ...row })` of `serializeBatchRow`, as the object it stands for.
unfoldable pub serialize_batch_row : String → Dict Field → RawLine
serialize_batch_row model_name fields =
    plain_line (json_object (spread (("__class", string model_name) ∷ []) fields))

abbrev pub metadata_fields : String → Row → String → List String → Dict Field
metadata_fields last counts schema_hash groups =
    ("lastSyncId", string last)
    ∷ ("returnedModelsCount", members counts)
    ∷ ("schemaHash", string schema_hash)
    ∷ ("subscribedSyncGroups", items (map Values.text groups))
    ∷ []

unfoldable pub end_line : ℕ → RawLine
end_line count = plain_line (("rowCount", numeral (pos count)) ∷ ("type", string "end") ∷ [])

unfoldable pub row_lines : List (String × Dict Field) → List RawLine
row_lines [] = []
row_lines ((model_name, fields) ∷ rows) = serialize_batch_row model_name fields ∷ row_lines rows

-- `generateBootstrapNdjson`, from what the database has: the last id as a text, the counts, and the rows.
unfoldable pub generate_bootstrap :
    String → Row → String → List String → List (String × Dict Field) → List RawLine
generate_bootstrap last counts schema_hash groups rows =
    plain_line (json_object (metadata_fields last counts schema_hash groups))
    ∷ (row_lines rows ++ end_line (length rows) ∷ [])

texts_of-map : (groups : List String) → texts_of (map Values.text groups) ≡ groups
unfolding texts_of
texts_of-map [] = refl
texts_of-map (g ∷ groups) = ap (λ l. g ∷ l) (texts_of-map groups)

null_if_undefined-text :
    (groups : List String) → map null_if_undefined (map Values.text groups) ≡ map Values.text groups
unfolding null_if_undefined
null_if_undefined-text [] = refl
null_if_undefined-text (g ∷ groups) = ap (λ l. Values.text g ∷ l) (null_if_undefined-text groups)

has_key-json_object :
    (k : String) (fields : Dict Field)
    → has_key k fields ≡ false
    → has_key k (json_object fields) ≡ false
unfolding has_key json_object
has_key-json_object k [] h = refl
has_key-json_object k ((j, f) ∷ fields) h = ground (arith, has_key-json_object k fields)

-- The rows have no field of that name.
abbrev pub AreUnclassed : List (String × Dict Field) → Type 0
AreUnclassed [] = Unit
AreUnclassed ((model_name, fields) ∷ rows) = (has_key "__class" fields ≡ false) × AreUnclassed rows

abbrev pub parsed_rows : List (String × Dict Field) → List ParsedBootstrapLine
parsed_rows [] = []
parsed_rows ((model_name, fields) ∷ rows) = row model_name (json_object fields) ∷ parsed_rows rows

module _ (units : String → List ℕ) where
  unfoldable pub parse_objects : List RawLine → Decoded (List ParsedBootstrapLine)
  parse_objects [] = decoded []
  parse_objects (line ∷ lines) = do
    parsed ← parse_object units line
    rest ← parse_objects lines
    decoded (parsed ∷ rest)

  parse_object-row :
      (model_name : String) (fields : Dict Field)
      → has_key "__class" fields ≡ false
      → parse_object units (serialize_batch_row model_name fields)
        ≡ decoded (row model_name (json_object fields))
  unfolding serialize_batch_row json_object parse_object lookup remove same
  parse_object-row model_name fields h = rw (spread_one "__class" (string model_name) fields h) (
      ap (λ l. decoded (row model_name l))
        (remove_absent "__class" (json_object fields) (has_key-json_object "__class" fields h)))

  parse_object-end :
      (count : ℕ) → parse_object units (end_line count) ≡ decoded (end_marker (some (pos count)))
  unfolding parse_object end_line parse_typed lookup same
  parse_object-end count = refl

  parse_object-metadata :
      (n : ℕ) (last : String) (counts : Row) (schema_hash : String) (groups : List String)
      → units last ≡ serialize n
      → parse_object units
          (plain_line (json_object (metadata_fields last counts schema_hash groups)))
        ≡ decoded (
            meta (record {
              subscribed_sync_groups = groups;
              last_sync_id = some (serialize n);
              returned_models_count = some (members (json_row counts));
              schema_hash = some schema_hash;
              database_version = none;
              raw = metadata_fields last (json_row counts) schema_hash groups;
            }))
  unfolding parse_object json_object parse_typed parse_metadata normalize_bootstrap_metadata lookup
      has_key same
  parse_object-metadata n last counts schema_hash groups h =
      rw (h, parse_sync_id-serialize n, null_if_undefined-text groups)
        (rw (texts_of-map groups) refl)

  parse_objects-rows :
      (rows : List (String × Dict Field)) (count : ℕ)
      → AreUnclassed rows
      → parse_objects (row_lines rows ++ end_line count ∷ [])
        ≡ decoded (parsed_rows rows ++ end_marker (some (pos count)) ∷ [])
  unfolding parse_objects row_lines
  parse_objects-rows [] count u = rw (parse_object-end count) refl
  parse_objects-rows ((model_name, fields) ∷ rows) count u =
      rw (parse_object-row model_name fields u.0, parse_objects-rows rows count u.1) refl

  -- What the server writes of a bootstrap, a client reads as its metadata, the rows with their models,
  -- in order and as JSON carries them, and the end with their number, if no row has a field `__class`;
  -- where the code units of the id's text are the digits of the id.
  pub parse_objects-generate_bootstrap :
      (n : ℕ) (last : String) (counts : Row) (schema_hash : String) (groups : List String)
      (rows : List (String × Dict Field))
      → units last ≡ serialize n
      → AreUnclassed rows
      → parse_objects (generate_bootstrap last counts schema_hash groups rows)
        ≡ decoded (
            meta (record {
              subscribed_sync_groups = groups;
              last_sync_id = some (serialize n);
              returned_models_count = some (members (json_row counts));
              schema_hash = some schema_hash;
              database_version = none;
              raw = metadata_fields last (json_row counts) schema_hash groups;
            })
            ∷ (parsed_rows rows ++ end_marker (some (pos (length rows))) ∷ []))
  unfolding generate_bootstrap parse_objects
  parse_objects-generate_bootstrap n last counts schema_hash groups rows h u =
      rw
        (
          parse_object-metadata n last counts schema_hash groups h,
          parse_objects-rows rows (length rows) u,
        )
        refl
