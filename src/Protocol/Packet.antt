-- ===== src/Protocol/Packet.antt =====
-- `parseDeltaPacket` of packages/core/src/protocol/delta-packet.ts. An array may hold what is no object;
-- an object is known by the fields that are read of it, as a packet, an envelope and an action.
use stratasync.Prelude.{
  String, Bool, true, false, ◌&&◌, not, List, [], ◌∷◌, Option, none, some, same, zero,
}
use stratasync.Prelude.Int.{ℤ, pos}
use stratasync.SyncId.{SyncId, zero_sync_id, max_sync_id}
use stratasync.Protocol.{
  Field, absent, nil, flag, numeral, string, IdField, no_id, null_id, id_of, RawAction, FullAction,
  Decoded, decoded, ◌>>=◌, read_id, parse_sync_action,
}

pub data RawPacket : Type 0 where
  scalar : RawPacket
  array : List (Option RawAction) → RawPacket
  -- whether `type` is "delta", then `packet`, `actions` if it is an array, `lastSyncId`, `hasMore` and
  -- the object as an action
  object :
      Bool → RawPacket → Option (List (Option RawAction)) → IdField → Field → RawAction → RawPacket

pub record FullPacket : Type 0 where
  pub actions : List FullAction
  pub last_sync_id : SyncId
  pub has_more : Option Bool

abbrev pub is_object : RawPacket → Bool
is_object scalar = false
is_object _ = true

-- Truthiness.
abbrev pub is_truthy : Field → Bool
is_truthy absent = false
is_truthy nil = false
is_truthy (flag b) = b
is_truthy (numeral (pos zero)) = false
is_truthy (string s) = not (same s "")
is_truthy _ = true

abbrev pub names_action : RawAction → Bool
names_action raw = is_truthy raw.action && is_truthy raw.model_name && is_truthy raw.model_id

abbrev pub optional_flag : Field → Option Bool
optional_flag (flag b) = some b
optional_flag _ = none

-- `actions.reduce((max, action) => maxSyncId(max, action.id), ...)`
unfoldable pub last_of : SyncId → List FullAction → SyncId
last_of last [] = last
last_of last (a ∷ actions) = last_of (max_sync_id last a.sync_action.id) actions

-- The reading of `lastSyncId`, where it is not missing.
abbrev pub cursor_or : List FullAction → IdField → Decoded SyncId
cursor_or actions no_id = decoded (last_of zero_sync_id actions)
cursor_or actions null_id = read_id null_id
cursor_or actions (id_of w) = read_id (id_of w)

module _ (date_of_text : String → Option ℤ) where
  -- The filter and the map.
  unfoldable pub parse_actions : List (Option RawAction) → Decoded (List FullAction)
  parse_actions [] = decoded []
  parse_actions (none ∷ raws) = parse_actions raws
  parse_actions (some raw ∷ raws) = do
    action ← parse_sync_action date_of_text raw
    actions ← parse_actions raws
    decoded (action ∷ actions)

  -- `null` is `none`.
  unfoldable pub parse_single : RawAction → Decoded (Option FullPacket)
  parse_single raw = elim (names_action raw) [
    | false ↦ decoded none
    | true ↦ do
      action ← parse_sync_action date_of_text raw
      decoded (
          some (record {
            actions = action ∷ [];
            last_sync_id = action.sync_action.id;
            has_more = none;
          }))
  ]

  unfoldable pub parse_listed :
      List (Option RawAction) → IdField → Option Bool → Decoded (Option FullPacket)
  parse_listed raws cursor has_more = do
    actions ← parse_actions raws
    last ← cursor_or actions cursor
    decoded (some (record { actions = actions; last_sync_id = last; has_more = has_more }))

  unfoldable pub parse_direct :
      Option (List (Option RawAction)) → IdField → Field → RawAction → Decoded (Option FullPacket)
  parse_direct (some raws) cursor has_more raw = parse_listed raws cursor (optional_flag has_more)
  parse_direct none cursor has_more raw = parse_single raw

  unfoldable pub parse_delta_packet : RawPacket → Decoded (Option FullPacket)
  parse_delta_packet scalar = decoded none
  parse_delta_packet (array raws) = parse_listed raws no_id none
  parse_delta_packet (object is_delta packet actions cursor has_more raw) =
      elim (is_delta && is_object packet) [
        | true ↦ parse_delta_packet packet
        | false ↦ parse_direct actions cursor has_more raw
      ]
