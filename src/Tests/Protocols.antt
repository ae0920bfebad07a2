-- ===== src/Tests/Protocols.antt =====
-- Messages of the wire on concrete input.
use stratasync.Prelude.{
  ℕ, String, ◌≡◌, ◌↔◌, ◌⊎◌, refl, true, false, List, [], ◌∷◌, ◌++◌, map, Option, none, some, same,
}
use stratasync.Prelude.Int.{ℤ, pos}
use stratasync.SyncId.{
  text, serialize, value, parse, matches_sync_id, max_sync_id, compare_sync_id, normal, strip_zeros,
  lt_text, parse_sync_id,
}
use stratasync.Value.{Row, undefined, null}
use stratasync.Value as Values
use stratasync.SyncAction.{covering, row}
use stratasync.Transaction.{update}
use stratasync.Protocol.{
  RawAction, absent, nil, numeral, string, items, members, no_id, id_of, decoded, normalize_letter,
  parse_sync_action, read_date, FullAction,
}
use stratasync.Protocol.ServerAction.{
  RawSyncActionRow, ActionOutput, on_wire, to_sync_action_output, serialize_sync_action_output,
  json_row, parse_sync_action_output,
}
use stratasync.Protocol.Agreement.{
  client_view, letter_of, full_action, parse_sync_action-serialize, parse_sync_action-accepts,
}
use stratasync.Protocol.Packet.{
  RawPacket, array, object, FullPacket, parse_delta_packet, parse_listed, parse_actions, last_of,
}
use stratasync.Protocol.PacketCursor.{greatest, carried, parse_delta_packet-IsCursor}
use stratasync.Protocol.Ndjson.{
  chunk, fails, read_ndjson_lines, split_lines, yielded, trim, trim_start, trim_end,
}
use stratasync.Protocol.Chunks.{
  text_of, lines_of, read_ndjson_lines-lines_of, read_ndjson_lines-fails,
}
use stratasync.Prelude.{same, if◌then◌else◌}
use stratasync.Prelude.Dict.{Dict, has_key}
use stratasync.SyncId.{digits_from}
use stratasync.Protocol.{Field}
use stratasync.Protocol.BootstrapLine.{meta, end_marker}
use stratasync.Protocol.ServerLines.{
  generate_bootstrap, parse_objects, parsed_rows, metadata_fields, parse_objects-generate_bootstrap,
}

-- One instant, and its text.
abbrev iso : ℤ → String
iso t = "2026-01-01T00:00:00.000Z"

abbrev instant : String → Option ℤ
instant s = some (pos 1767225600000)

abbrev log_row : RawSyncActionRow
log_row = record {
  id = 12;
  model = "Task";
  model_id = "t1";
  action = "U";
  fields = members (("title", Values.text "Done") ∷ ("note", undefined) ∷ ("due", null) ∷ []);
  group_id = some "team";
  client_tx_id = some "tx";
  client_id = none;
  created_at = pos 1767225600000;
}

abbrev log_fields : Row
log_fields = ("title", Values.text "Done") ∷ ("note", undefined) ∷ ("due", null) ∷ []

parse_sync_action-serialize_example :
    (parse_sync_action instant
        (on_wire (serialize_sync_action_output iso (to_sync_action_output log_row)))
      ≡ decoded (full_action log_row log_fields (row update)))
    ↔ ("U" ≡ letter_of (row update))
parse_sync_action-serialize_example =
    parse_sync_action-serialize iso instant log_row (row update) log_fields refl refl

arrives :
    parse_sync_action instant
      (on_wire (serialize_sync_action_output iso (to_sync_action_output log_row)))
    ≡ decoded (full_action log_row log_fields (row update))
unfolding letter_of
arrives = (parse_sync_action-serialize iso instant log_row (row update) log_fields refl refl).1 refl

abbrev raw_action : RawAction
raw_action = record {
  sync_id = id_of (text (b'1' ∷ b'2' ∷ []));
  other_id = no_id;
  model_name = string "Task";
  model_id = string "t1";
  action = string "C";
  fields = items [];
  group_id = nil;
  groups = absent;
  client_tx_id = numeral (pos 3);
  client_id = string "me";
  created_at = string "2026-01-01";
}

abbrev output : ActionOutput ℤ
output = record {
  sync_id = b'1' ∷ b'2' ∷ [];
  model_name = "Task";
  model_id = "t1";
  action = "C";
  fields = items [];
  group_id = none;
  client_tx_id = none;
  client_id = some "me";
  created_at = pos 1767225600000;
}

server_accepts : parse_sync_action_output instant raw_action ≡ decoded output
unfolding parse_sync_action_output parse matches_sync_id
server_accepts = refl

letter_known : normalize_letter "C" ≡ decoded covering
unfolding normalize_letter same
letter_known = refl

parse_sync_action-accepts_example :
    parse_sync_action instant raw_action ≡ decoded (client_view raw_action output covering)
parse_sync_action-accepts_example =
    parse_sync_action-accepts instant raw_action output covering server_accepts letter_known

abbrev raw_with_id : ℕ → RawAction
raw_with_id c = record raw_action { sync_id = id_of (text (c ∷ [])) }

abbrev full_with_id : ℕ → FullAction
full_with_id c = client_view raw_action (record output { sync_id = c ∷ [] }) covering

-- An envelope with a packet that is an array: an action, something else, and another action.
abbrev envelope : RawPacket
envelope =
    object true (array (some (raw_with_id b'7') ∷ none ∷ some (raw_with_id b'3') ∷ [])) none no_id
      absent raw_action

abbrev packet : FullPacket
packet = record {
  actions = full_with_id b'7' ∷ full_with_id b'3' ∷ [];
  last_sync_id = b'7' ∷ [];
  has_more = none;
}

packet_parses : parse_delta_packet instant envelope ≡ decoded (some packet)
unfolding parse_delta_packet parse_listed parse_actions parse_sync_action normalize_letter same
    last_of max_sync_id compare_sync_id normal strip_zeros lt_text parse_sync_id matches_sync_id
    read_date
packet_parses = refl

parse_delta_packet-IsCursor_example :
    (value (b'7' ∷ []) ≡ greatest packet.actions) ⊎ (carried envelope ≡ id_of (text (b'7' ∷ [])))
parse_delta_packet-IsCursor_example =
    parse_delta_packet-IsCursor instant envelope packet packet_parses

-- "a", a line end and " b" in one chunk; a line end, white space and "c" in the next.
abbrev chunks : List (List ℕ)
chunks = (b'a' ∷ 10 ∷ 32 ∷ b'b' ∷ []) ∷ (10 ∷ 32 ∷ 10 ∷ b'c' ∷ []) ∷ []

read_ndjson_lines-lines_of_example :
    read_ndjson_lines [] (map chunk chunks) [] ≡ (lines_of (text_of chunks ++ []), true)
read_ndjson_lines-lines_of_example = read_ndjson_lines-lines_of chunks [] refl

three_lines :
    read_ndjson_lines [] (map chunk chunks) []
    ≡ ((b'a' ∷ []) ∷ (b'b' ∷ []) ∷ (b'c' ∷ []) ∷ [], true)
unfolding read_ndjson_lines split_lines yielded trim trim_start trim_end
three_lines = refl

read_ndjson_lines-fails_example :
    read_ndjson_lines [] (map chunk chunks ++ fails ∷ []) []
    ≡ (yielded (split_lines (text_of chunks)).0, false)
read_ndjson_lines-fails_example = read_ndjson_lines-fails chunks [] []

-- Only the ids of the example have code units here.
abbrev units : String → List ℕ
units s = if same s "12" then b'1' ∷ b'2' ∷ [] else []

twelve_units : units "12" ≡ serialize 12
unfolding same serialize digits_from
twelve_units = refl

abbrev db_rows : List (String × Dict Field)
db_rows =
    ("Task", ("title", string "Done") ∷ ("note", absent) ∷ ("id", string "t1") ∷ [])
    ∷ ("Team", ("id", string "a") ∷ [])
    ∷ []

parse_objects-generate_bootstrap_example :
    parse_objects units
      (generate_bootstrap "12" (("Task", Values.number (pos 1)) ∷ []) "hash" ("a" ∷ []) db_rows)
    ≡ decoded (
        meta (record {
          subscribed_sync_groups = "a" ∷ [];
          last_sync_id = some (serialize 12);
          returned_models_count = some (members (json_row (("Task", Values.number (pos 1)) ∷ [])));
          schema_hash = some "hash";
          database_version = none;
          raw =
              metadata_fields "12"
                (json_row (("Task", Values.number (pos 1)) ∷ []))
                "hash"
                ("a" ∷ []);
        })
        ∷ (parsed_rows db_rows ++ end_marker (some (pos 2)) ∷ []))
parse_objects-generate_bootstrap_example =
    parse_objects-generate_bootstrap units 12 "12" (("Task", Values.number (pos 1)) ∷ []) "hash"
      ("a" ∷ []) db_rows twelve_units (unfold has_key same in (refl, (refl, tt)))
