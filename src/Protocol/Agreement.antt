-- ===== src/Protocol/Agreement.antt =====
-- The server's output against the client's decoder and the server's own.
use stratasync.Prelude.{
  String, ◌≡◌, refl, subst, inl, inr, Option, none, some, arith, Bool-cases, same, ◌↔◌, sym, ap,
  ◌∙◌, same_iff,
}
use stratasync.Prelude.Int.{ℤ}
use stratasync.SyncId.{SyncId, ok, parse, parse_sync_id, matches_sync_id, serialize, text, other}
use stratasync.SyncId.Codec.{parse-serialize, parse_sync_id-serialize}
use stratasync.Value.{Row}
use stratasync.SyncAction.{SyncActionType, row, covering, groups_changed, groups_changed_too}
use stratasync.Transaction.{insert, update, archive, delete, unarchive}
use stratasync.Protocol.{
  Field, absent, nil, flag, numeral, members, string, items, RawAction, IdField, id_of, no_id,
  null_id, FullAction, ◌>>=◌, decoded, >>=-decoded, decoded-injective, normalize_letter,
  row_or_empty, parse_sync_action, read_date, required_text, optional_text, group_texts,
}
use stratasync.Protocol.ServerAction.{
  RawSyncActionRow, ActionOutput, to_sync_action_output, serialize_sync_action_output, json_text,
  or_no_members, on_wire, required_record, required_id, checked_id, valid_date,
  parse_sync_action_output, json_row,
}

optional-json_text : (s : Option String) → optional_text (json_text s) ≡ s
optional-json_text none = refl
optional-json_text (some s) = refl

required_text-decoded :
    (error : String) (f : Field) (s : String) → required_text error f ≡ decoded s → f ≡ string s
required_text-decoded error (string t) s h = ground arith
required_text-decoded error absent s h = absurd (ground arith)
required_text-decoded error nil s h = absurd (ground arith)
required_text-decoded error (flag b) s h = absurd (ground arith)
required_text-decoded error (numeral n) s h = absurd (ground arith)
required_text-decoded error (items vs) s h = absurd (ground arith)
required_text-decoded error (members r) s h = absurd (ground arith)

required_record-decoded : (f g : Field) → required_record f ≡ decoded g → f ≡ g
required_record-decoded (members r) g h = ground arith
required_record-decoded (items vs) g h = ground arith
required_record-decoded (string t) g h = absurd (ground arith)
required_record-decoded absent g h = absurd (ground arith)
required_record-decoded nil g h = absurd (ground arith)
required_record-decoded (flag b) g h = absurd (ground arith)
required_record-decoded (numeral n) g h = absurd (ground arith)

required_id-decoded : (f : IdField) (s : SyncId) → required_id f ≡ decoded s → f ≡ id_of (text s)
required_id-decoded (id_of (text t)) s h = ground arith
required_id-decoded (id_of other) s h = absurd (ground arith)
required_id-decoded no_id s h = absurd (ground arith)
required_id-decoded null_id s h = absurd (ground arith)

-- The two checks of a sync id.
checked_id-decoded :
    (s t : SyncId) → checked_id s (parse s) ≡ decoded t → (s ≡ t) × (parse_sync_id (text s) ≡ ok s)
unfolding parse parse_sync_id
checked_id-decoded s t h = elim (Bool-cases (matches_sync_id s)) [
  | inl e ↦ (ground arith, rw e refl)
  | inr e ↦ absurd (ground arith)
]

valid_date-decoded : (d : Option ℤ) (t : ℤ) → valid_date d ≡ decoded t → d ≡ some t
valid_date-decoded none t h = absurd (ground arith)
valid_date-decoded (some u) t h = ground arith

-- The letters of the actions.
unfoldable pub letter_of : SyncActionType → String
letter_of (row insert) = "I"
letter_of (row update) = "U"
letter_of (row delete) = "D"
letter_of (row archive) = "A"
letter_of (row unarchive) = "V"
letter_of covering = "C"
letter_of groups_changed = "G"
letter_of groups_changed_too = "S"

normalize_letter-letter_of : (t : SyncActionType) → normalize_letter (letter_of t) ≡ decoded t
unfolding normalize_letter letter_of same
normalize_letter-letter_of (row insert) = refl
normalize_letter-letter_of (row update) = refl
normalize_letter-letter_of (row delete) = refl
normalize_letter-letter_of (row archive) = refl
normalize_letter-letter_of (row unarchive) = refl
normalize_letter-letter_of covering = refl
normalize_letter-letter_of groups_changed = refl
normalize_letter-letter_of groups_changed_too = refl

normalize_letter-decoded :
    (s : String) (t : SyncActionType) → normalize_letter s ≡ decoded t → s ≡ letter_of t
unfolding normalize_letter letter_of
normalize_letter-decoded s t h = ground (
  arith,
  same_iff s "I",
  same_iff s "U",
  same_iff s "D",
  same_iff s "A",
  same_iff s "V",
  same_iff s "C",
  same_iff s "G",
  same_iff s "S",
)

-- What the client reads of a row of the log, if its letter stands for an action.
abbrev pub full_action : RawSyncActionRow → Row → SyncActionType → FullAction
full_action r fields action = record {
  sync_action = record {
    id = serialize r.id;
    model_name = r.model;
    model_id = r.model_id;
    action = action;
    fields = json_row fields;
    client_tx_id = r.client_tx_id;
    client_id = r.client_id;
  };
  group_id = r.group_id;
  groups = none;
  created_at = some r.created_at;
}

module _ (to_iso : ℤ → String) (date_of_text : String → Option ℤ) where
  parse_row :
      (r : RawSyncActionRow) (fields : Row)
      → or_no_members r.fields ≡ members fields
      → date_of_text (to_iso r.created_at) ≡ some r.created_at
      → parse_sync_action date_of_text
          (on_wire (serialize_sync_action_output to_iso (to_sync_action_output r)))
        ≡ normalize_letter r.action >>= (λ action. decoded (full_action r fields action))
  unfolding parse_sync_action serialize_sync_action_output to_sync_action_output read_date
  parse_row r fields h date_of_iso = rw (parse_sync_id-serialize r.id) (
      rw h (
        rw date_of_iso rw
          (
            optional-json_text r.group_id,
            optional-json_text r.client_tx_id,
            optional-json_text r.client_id,
          )
          refl))

  -- A row of the log whose data is an object arrives at a client as an action, with its id, names,
  -- origin and date, and with its data as JSON carries it, exactly if its letter is the one of that
  -- action among the eight. A host's parsing of a date is taken to read what its `toISOString` writes.
  pub parse_sync_action-serialize :
      (r : RawSyncActionRow) (action : SyncActionType) (fields : Row)
      → or_no_members r.fields ≡ members fields
      → date_of_text (to_iso r.created_at) ≡ some r.created_at
      → (parse_sync_action date_of_text
            (on_wire (serialize_sync_action_output to_iso (to_sync_action_output r)))
          ≡ decoded (full_action r fields action))
        ↔ (r.action ≡ letter_of action)
  parse_sync_action-serialize r action fields h date_of_iso =
      let read = parse_row r fields h date_of_iso in
      (
        λ e.
            let (found, letter, same_action) =
              >>=-decoded (normalize_letter r.action) (λ a. decoded (full_action r fields a))
                (sym read ∙ e) in
            let found_is : found ≡ action =
              ap (λ f. f.sync_action.action) (decoded-injective _ _ same_action) in
            normalize_letter-decoded r.action action (letter ∙ ap (λ a. decoded a) found_is),
        λ e.
            read
            ∙ ap (λ m. m >>= (λ a. decoded (full_action r fields a)))
                (ap normalize_letter e ∙ normalize_letter-letter_of action),
      )

  -- The server reads back what it wrote, but for the `undefined` that JSON drops from the data.
  pub parse_sync_action_output-serialize :
      (r : RawSyncActionRow) (fields : Row)
      → or_no_members r.fields ≡ members fields
      → date_of_text (to_iso r.created_at) ≡ some r.created_at
      → parse_sync_action_output date_of_text
          (on_wire (serialize_sync_action_output to_iso (to_sync_action_output r)))
        ≡ decoded (record (to_sync_action_output r) { fields = members (json_row fields) })
  unfolding parse_sync_action_output serialize_sync_action_output to_sync_action_output
  parse_sync_action_output-serialize r fields h date_of_iso = rw h (
      rw (parse-serialize r.id) (
        rw date_of_iso rw
          (
            optional-json_text r.group_id,
            optional-json_text r.client_tx_id,
            optional-json_text r.client_id,
          )
          refl))

-- What the client reads of an action whose fields are these.
abbrev pub client_view : RawAction → ActionOutput ℤ → SyncActionType → FullAction
client_view raw out action = record {
  sync_action = record {
    id = out.sync_id;
    model_name = out.model_name;
    model_id = out.model_id;
    action = action;
    fields = row_or_empty out.fields;
    client_tx_id = out.client_tx_id;
    client_id = out.client_id;
  };
  group_id = out.group_id;
  groups = group_texts raw.groups;
  created_at = some out.created_at;
}

abbrev pub server_view : RawAction → SyncId → String → String → String → Field → ℤ → ActionOutput ℤ
server_view raw sync_id model_name model_id action fields created_at = record {
  sync_id = sync_id;
  model_name = model_name;
  model_id = model_id;
  action = action;
  fields = fields;
  group_id = optional_text raw.group_id;
  client_tx_id = optional_text raw.client_tx_id;
  client_id = optional_text raw.client_id;
  created_at = created_at;
}

client_reads :
    (date_of_text : String → Option ℤ) (raw : RawAction) (action : SyncActionType)
    (a written model_id model_name : String) (fields : Field) (s : SyncId) (t : ℤ)
    → raw.action ≡ string a
    → raw.created_at ≡ string written
    → raw.fields ≡ fields
    → raw.model_id ≡ string model_id
    → raw.model_name ≡ string model_name
    → raw.sync_id ≡ id_of (text s)
    → parse_sync_id (text s) ≡ ok s
    → date_of_text written ≡ some t
    → normalize_letter a ≡ decoded action
    → parse_sync_action date_of_text raw
      ≡ decoded (client_view raw (server_view raw s model_name model_id a fields t) action)
unfolding parse_sync_action read_date
client_reads date_of_text raw action a written model_id model_name fields s t ha hw hf hi hn hs hp
      hd letter =
    rw hs (rw hp (rw hn (rw hi (rw ha (rw letter (rw hw (rw hd (rw hf refl))))))))

-- What the server's own decoder accepts, a client accepts as well, if its letter is one of the eight,
-- and it reads the same id, names, origin, group and date, and the same data if that is an object.
pub parse_sync_action-accepts :
    (date_of_text : String → Option ℤ) (raw : RawAction) (out : ActionOutput ℤ)
    (action : SyncActionType)
    → parse_sync_action_output date_of_text raw ≡ decoded out
    → normalize_letter out.action ≡ decoded action
    → parse_sync_action date_of_text raw ≡ decoded (client_view raw out action)
unfolding parse_sync_action_output
parse_sync_action-accepts date_of_text raw out action h letter =
    let (a, ha, h1) =
      >>=-decoded (required_text "Sync action action must be a string" raw.action) _ h in
    let (written, hw, h2) =
      >>=-decoded (required_text "Sync action createdAt must be a string" raw.created_at) _ h1 in
    let (fields, hf, h3) = >>=-decoded (required_record raw.fields) _ h2 in
    let (model_id, hi, h4) =
      >>=-decoded (required_text "Sync action modelId must be a string" raw.model_id) _ h3 in
    let (model_name, hn, h5) =
      >>=-decoded (required_text "Sync action modelName must be a string" raw.model_name) _ h4 in
    let (sync_id, hs, h6) = >>=-decoded (required_id raw.sync_id) _ h5 in
    let (sync_id', hc, h7) = >>=-decoded (checked_id sync_id (parse sync_id)) _ h6 in
    let (created_at, hd, h8) = >>=-decoded (valid_date (date_of_text written)) _ h7 in
    let same_id = checked_id-decoded sync_id sync_id' hc in
    let read =
      decoded-injective (server_view raw sync_id' model_name model_id a fields created_at) out h8 in
    subst
      (λ out.
        normalize_letter out.action ≡ decoded action
        → parse_sync_action date_of_text raw ≡ decoded (client_view raw out action))
      read
      (λ l.
        subst
          (λ s.
            parse_sync_action date_of_text raw
            ≡ decoded (
                client_view raw (server_view raw s model_name model_id a fields created_at) action))
          same_id.0
          (client_reads date_of_text raw action a written model_id model_name fields sync_id
            created_at (required_text-decoded _ raw.action a ha)
            (required_text-decoded _ raw.created_at written hw)
            (required_record-decoded raw.fields fields hf)
            (required_text-decoded _ raw.model_id model_id hi)
            (required_text-decoded _ raw.model_name model_name hn)
            (required_id-decoded raw.sync_id sync_id hs) same_id.1
            (valid_date-decoded (date_of_text written) created_at hd) l))
      letter
