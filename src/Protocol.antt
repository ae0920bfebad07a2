-- ===== src/Protocol.antt =====
-- packages/core/src/protocol/delta-packet.ts, what a client makes of the messages of a server. What
-- arrives is the value that JSON.parse returns; an object that is an action or a packet is known by the
-- fields that are read of it.
pub mod ServerAction
pub mod Agreement
pub mod Packet
pub mod PacketCursor
pub mod Ndjson
pub mod Chunks
pub mod BootstrapLine
pub mod ServerLines
use stratasync.Prelude.{
  ℕ, ◌+◌, String, Bool, true, false, ◌≡◌, refl, arith, List, [], ◌∷◌, Option, none, some, same, leb,
  if◌then◌else◌,
}
use stratasync.Prelude.Int.{ℤ, pos_part, neg_part}
use stratasync.SyncId.{SyncId, Wire, Parsed, ok, throw, parse_sync_id, max_sync_id, zero_sync_id}
use stratasync.Value.{Row, Value, text}
use stratasync.Transaction.{insert, update, archive, delete, unarchive}
use stratasync.SyncAction.{
  SyncAction, SyncActionType, row, covering, groups_changed, groups_changed_too,
}

-- A field of unknown type: missing or `undefined`, `null`, a scalar, an array or an object.
pub data Field : Type 0 where
  absent nil : Field
  flag : Bool → Field
  numeral : ℤ → Field
  string : String → Field
  items : List Value → Field
  members : Row → Field

-- The same for a field that is read as a sync id.
pub data IdField : Type 0 where
  no_id null_id : IdField
  id_of : Wire → IdField

pub record RawAction : Type 0 where
  pub sync_id : IdField
  pub other_id : IdField
  pub model_name : Field
  pub model_id : Field
  pub action : Field
  pub fields : Field
  pub group_id : Field
  pub groups : Field
  pub client_tx_id : Field
  pub client_id : Field
  pub created_at : Field

-- A result, or an error that is thrown.
pub data Decoded {ℓ} (A : Type ℓ) : Type ℓ where
  decoded : A → Decoded A
  refused : String → Decoded A

infixl 5 ◌>>=◌
abbrev pub ◌>>=◌ {ℓ κ} : {A : Type ℓ} {B : Type κ} → Decoded A → (A → Decoded B) → Decoded B
decoded a >>= f = f a
refused e >>= f = refused e

-- The value of a call that ended well, and the parts of a chain that did.
pub decoded-injective : {A : Type 0} (a b : A) → decoded a ≡ decoded b → a ≡ b
decoded-injective a b h = ground arith

pub >>=-decoded :
    {A B : Type 0} (m : Decoded A) (f : A → Decoded B) {b : B}
    → (m >>= f) ≡ decoded b
    → (a : A) × (m ≡ decoded a) × (f a ≡ decoded b)
>>=-decoded (decoded a) f h = (a, refl, h)
>>=-decoded (refused e) f h = absurd (ground arith)

-- A `SyncAction` with the fields that the engine does not read.
pub record FullAction : Type 0 where
  pub sync_action : SyncAction
  pub group_id : Option String
  pub groups : Option (List String)
  pub created_at : Option ℤ

-- `normalizeAction`
unfoldable pub normalize_letter : String → Decoded SyncActionType
normalize_letter s =
    if same s "I"
    then decoded (row insert)
    else if same s "U"
    then decoded (row update)
    else if same s "D"
    then decoded (row delete)
    else if same s "A"
    then decoded (row archive)
    else if same s "V"
    then decoded (row unarchive)
    else if same s "C"
    then decoded covering
    else if same s "G"
    then decoded groups_changed
    else if same s "S"
    then decoded groups_changed_too
    else refused "Unknown action"

-- `raw.syncId ?? raw.id`
abbrev pub id_or : IdField → IdField → IdField
id_or no_id other = other
id_or null_id other = other
id_or (id_of w) other = id_of w

-- `parseSyncId` on a field.
abbrev pub parsed_id : Parsed SyncId → Decoded SyncId
parsed_id (ok id) = decoded id
parsed_id (throw e) = refused "invalid sync id"

abbrev pub read_id : IdField → Decoded SyncId
read_id no_id = refused "Sync action is missing syncId/id"
read_id null_id = refused "invalid sync id"
read_id (id_of w) = parsed_id (parse_sync_id w)

abbrev pub required_text : String → Field → Decoded String
required_text error (string s) = decoded s
required_text error _ = refused error

abbrev pub optional_text : Field → Option String
optional_text (string s) = some s
optional_text _ = none

unfoldable pub texts_of : List Value → List String
texts_of [] = []
texts_of (text s ∷ vs) = s ∷ texts_of vs
texts_of (_ ∷ vs) = texts_of vs

abbrev pub group_texts : Field → Option (List String)
group_texts (items vs) = some (texts_of vs)
group_texts _ = none

abbrev pub row_or_empty : Field → Row
row_or_empty (members r) = r
row_or_empty _ = []

-- A number of milliseconds that a Date can hold.
abbrev pub date_of_number : ℤ → Option ℤ
date_of_number n = if leb (pos_part n + neg_part n) 8640000000000000 then some n else none

-- `Date.parse`, a parameter, returns `none` for NaN.
module _ (date_of_text : String → Option ℤ) where
  unfoldable pub read_date : Field → Option ℤ
  read_date (string s) = date_of_text s
  read_date (numeral n) = date_of_number n
  read_date _ = none

  unfoldable pub parse_sync_action : RawAction → Decoded FullAction
  parse_sync_action raw = do
    id ← read_id (id_or raw.sync_id raw.other_id)
    model_name ← required_text "Sync action is missing modelName" raw.model_name
    model_id ← required_text "Sync action is missing modelId" raw.model_id
    letter ← required_text "Sync action is missing action" raw.action
    action ← normalize_letter letter
    decoded (record {
      sync_action = record {
        id = id;
        model_name = model_name;
        model_id = model_id;
        action = action;
        fields = row_or_empty raw.fields;
        client_tx_id = optional_text raw.client_tx_id;
        client_id = optional_text raw.client_id;
      };
      group_id = optional_text raw.group_id;
      groups = group_texts raw.groups;
      created_at = read_date raw.created_at;
    })
