-- ===== src/Protocol/PacketCursor.antt =====
-- The cursor of a packet that a client has parsed.
use stratasync.Prelude.{
  ℕ, String, ◌≡◌, ◌≢◌, refl, sym, ap, subst, ◌∙◌, ◌⊎◌, inl, inr, Bool, true, false, ◌&&◌, List, [],
  ◌∷◌, Option, none, some, arith, Bool-cases,
}
use Prim.Native.Nat.{max}
use stratasync.Prelude.Int.{ℤ}
use stratasync.SyncId.{
  SyncId, Parsed, ok, throw, text, parse_sync_id, value, zero_sync_id, max_sync_id,
}
use stratasync.SyncId.Value.{IsDigits}
use stratasync.SyncId.Compare.{max_sync_id-value, max_sync_id-IsDigits}
use stratasync.SyncId.Codec.{parse_sync_id-IsDigits}
use stratasync.Protocol.{
  Field, IdField, no_id, null_id, id_of, RawAction, FullAction, decoded, ◌>>=◌, >>=-decoded,
  decoded-injective, id_or, read_id, parsed_id, required_text, normalize_letter, parse_sync_action,
}
use stratasync.Protocol.Packet.{
  RawPacket, scalar, array, object, FullPacket, is_object, names_action, optional_flag, last_of,
  cursor_or, parse_actions, parse_single, parse_listed, parse_direct, parse_delta_packet,
}

-- The largest number that an id among these stands for.
unfoldable pub greatest : List FullAction → ℕ
greatest [] = 0
greatest (a ∷ actions) = max (value a.sync_action.id) (greatest actions)

-- The `lastSyncId` that the packet carries itself.
unfoldable pub carried : RawPacket → IdField
carried scalar = no_id
carried (array raws) = no_id
carried (object is_delta packet actions cursor has_more raw) = elim (is_delta && is_object packet) [
  | true ↦ carried packet
  | false ↦ elim actions [ none ↦ no_id | some raws ↦ cursor ]
]

AreDigits : List FullAction → Type 0
AreDigits [] = Unit
AreDigits (a ∷ actions) = IsDigits a.sync_action.id × AreDigits actions

parsed_id-decoded : (p : Parsed SyncId) (id : SyncId) → parsed_id p ≡ decoded id → p ≡ ok id
parsed_id-decoded (ok i) id h = ground arith
parsed_id-decoded (throw e) id h = absurd (ground arith)

read_id-decoded :
    (f : IdField) (id : SyncId) → read_id f ≡ decoded id → (f ≡ id_of (text id)) × IsDigits id
read_id-decoded no_id id h = absurd (ground arith)
read_id-decoded null_id id h = absurd (ground arith)
read_id-decoded (id_of w) id h =
    let (w_is_id, d) = parse_sync_id-IsDigits w id (parsed_id-decoded (parse_sync_id w) id h) in
    (ap id_of w_is_id, d)

last_of-value :
    (last : SyncId) (actions : List FullAction)
    → IsDigits last
    → AreDigits actions
    → value (last_of last actions) ≡ max (value last) (greatest actions)
unfolding last_of greatest AreDigits
last_of-value last [] d ds = omega arith
last_of-value last (a ∷ actions) d ds = omega (
  arith,
  last_of-value (max_sync_id last a.sync_action.id) actions
      (max_sync_id-IsDigits last a.sync_action.id d ds.0) ds.1,
  (max_sync_id-value last a.sync_action.id d ds.0).0,
)

-- A packet's cursor against the ids of its actions and the cursor that it carries.
abbrev pub IsCursor : IdField → FullPacket → Type 0
IsCursor cursor p =
    (value p.last_sync_id ≡ greatest p.actions) ⊎ (cursor ≡ id_of (text p.last_sync_id))

zero-IsDigits : IsDigits zero_sync_id
zero-IsDigits = omega arith

zero-value : value zero_sync_id ≡ 0
unfolding value
zero-value = refl

cursor_or-IsCursor :
    (actions : List FullAction) (cursor : IdField) (last : SyncId) (has_more : Option Bool)
    → AreDigits actions
    → cursor_or actions cursor ≡ decoded last
    → IsCursor cursor (record { actions = actions; last_sync_id = last; has_more = has_more })
cursor_or-IsCursor actions null_id last has_more d h = absurd (ground arith)
cursor_or-IsCursor actions (id_of w) last has_more d h = inr (read_id-decoded (id_of w) last h).0
cursor_or-IsCursor actions no_id last has_more d h = inl (
    omega (
      arith,
      ap value (decoded-injective (last_of zero_sync_id actions) last h),
      last_of-value zero_sync_id actions zero-IsDigits d,
      zero-value,
    ))

greatest_one : (a : FullAction) → value a.sync_action.id ≡ greatest (a ∷ [])
unfolding greatest
greatest_one a = omega arith

module _ (date_of_text : String → Option ℤ) where
  parse_sync_action-IsDigits :
      (raw : RawAction) (a : FullAction)
      → parse_sync_action date_of_text raw ≡ decoded a
      → IsDigits a.sync_action.id
  unfolding parse_sync_action
  parse_sync_action-IsDigits raw a h =
      let (id, hi, h1) = >>=-decoded (read_id (id_or raw.sync_id raw.other_id)) _ h in
      let (name, hn, h2) =
        >>=-decoded (required_text "Sync action is missing modelName" raw.model_name) _ h1 in
      let (model, hm, h3) =
        >>=-decoded (required_text "Sync action is missing modelId" raw.model_id) _ h2 in
      let (letter, hl, h4) =
        >>=-decoded (required_text "Sync action is missing action" raw.action) _ h3 in
      let (action, ha, h5) = >>=-decoded (normalize_letter letter) _ h4 in
      subst (λ (f : FullAction). IsDigits f.sync_action.id) (decoded-injective _ a h5)
        (read_id-decoded (id_or raw.sync_id raw.other_id) id hi).1

  parse_actions-AreDigits :
      (raws : List (Option RawAction)) (actions : List FullAction)
      → parse_actions date_of_text raws ≡ decoded actions
      → AreDigits actions
  unfolding parse_actions AreDigits
  parse_actions-AreDigits [] actions h = subst AreDigits (decoded-injective [] actions h) tt
  parse_actions-AreDigits (none ∷ raws) actions h = parse_actions-AreDigits raws actions h
  parse_actions-AreDigits (some raw ∷ raws) actions h =
      let (a, ha, h1) = >>=-decoded (parse_sync_action date_of_text raw) _ h in
      let (rest, hr, h2) = >>=-decoded (parse_actions date_of_text raws) _ h1 in
      subst AreDigits (decoded-injective (a ∷ rest) actions h2)
        (parse_sync_action-IsDigits raw a ha, parse_actions-AreDigits raws rest hr)

  some-injective : (p q : FullPacket) → decoded (some p) ≡ decoded (some q) → p ≡ q
  some-injective p q h = ground arith

  some_is_not_none : (p : FullPacket) → decoded none ≢ decoded (some p)
  some_is_not_none p h = ground arith

  parse_listed-IsCursor :
      (raws : List (Option RawAction)) (cursor : IdField) (has_more : Option Bool) (p : FullPacket)
      → parse_listed date_of_text raws cursor has_more ≡ decoded (some p)
      → IsCursor cursor p
  unfolding parse_listed
  parse_listed-IsCursor raws cursor has_more p h =
      let (actions, ha, h1) = >>=-decoded (parse_actions date_of_text raws) _ h in
      let (last, hl, h2) = >>=-decoded (cursor_or actions cursor) _ h1 in
      subst (IsCursor cursor)
        (some-injective (record { actions = actions; last_sync_id = last; has_more = has_more }) p
          h2)
        (cursor_or-IsCursor actions cursor last has_more (parse_actions-AreDigits raws actions ha)
          hl)

  parse_single_named :
      (raw : RawAction)
      → names_action raw ≡ true
      → parse_single date_of_text raw ≡ (do
        action ← parse_sync_action date_of_text raw
        decoded (
            some (record {
              actions = action ∷ [];
              last_sync_id = action.sync_action.id;
              has_more = none;
            })))
  unfolding parse_single
  parse_single_named raw e = rw (e, parse_single) refl

  parse_single_unnamed :
      (raw : RawAction) → names_action raw ≡ false → parse_single date_of_text raw ≡ decoded none
  unfolding parse_single
  parse_single_unnamed raw e = rw (e, parse_single) refl

  parse_single-IsCursor :
      (raw : RawAction) (p : FullPacket)
      → parse_single date_of_text raw ≡ decoded (some p)
      → value p.last_sync_id ≡ greatest p.actions
  parse_single-IsCursor raw p h = elim (Bool-cases (names_action raw)) [
    | inr e ↦ absurd (some_is_not_none p (sym (parse_single_unnamed raw e) ∙ h))
    | inl e ↦
        let (a, ha, h1) =
          >>=-decoded (parse_sync_action date_of_text raw) _ (sym (parse_single_named raw e) ∙ h) in
        subst (λ (q : FullPacket). value q.last_sync_id ≡ greatest q.actions)
          (some-injective
            (record { actions = a ∷ []; last_sync_id = a.sync_action.id; has_more = none }) p h1)
          (greatest_one a)
  ]

  parse_wrapped :
      (is_delta : Bool) (packet : RawPacket) (actions : Option (List (Option RawAction)))
      (cursor : IdField) (has_more : Field) (raw : RawAction)
      → (is_delta && is_object packet) ≡ true
      → (parse_delta_packet date_of_text (object is_delta packet actions cursor has_more raw)
          ≡ parse_delta_packet date_of_text packet)
        × (carried (object is_delta packet actions cursor has_more raw) ≡ carried packet)
  unfolding parse_delta_packet carried
  parse_wrapped is_delta packet actions cursor has_more raw e =
      (rw (e, parse_delta_packet) refl, rw (e, carried) refl)

  parse_bare :
      (is_delta : Bool) (packet : RawPacket) (actions : Option (List (Option RawAction)))
      (cursor : IdField) (has_more : Field) (raw : RawAction)
      → (is_delta && is_object packet) ≡ false
      → (parse_delta_packet date_of_text (object is_delta packet actions cursor has_more raw)
          ≡ parse_direct date_of_text actions cursor has_more raw)
        × (carried (object is_delta packet actions cursor has_more raw)
            ≡ elim actions [ none ↦ no_id | some raws ↦ cursor ])
  unfolding parse_delta_packet carried
  parse_bare is_delta packet actions cursor has_more raw e =
      (rw (e, parse_delta_packet) refl, rw (e, carried) refl)

  parse_direct-IsCursor :
      (actions : Option (List (Option RawAction))) (cursor : IdField) (has_more : Field)
      (raw : RawAction) (p : FullPacket)
      → parse_direct date_of_text actions cursor has_more raw ≡ decoded (some p)
      → IsCursor (elim actions [ none ↦ no_id | some raws ↦ cursor ]) p
  unfolding parse_direct
  parse_direct-IsCursor none cursor has_more raw p h = inl (parse_single-IsCursor raw p h)
  parse_direct-IsCursor (some raws) cursor has_more raw p h =
      parse_listed-IsCursor raws cursor (optional_flag has_more) p h

  -- The cursor of a parsed packet, however it is wrapped, is one that the packet carries, or else the
  -- largest of the ids of its actions: it is behind no action unless the server says so.
  pub parse_delta_packet-IsCursor :
      (raw : RawPacket) (p : FullPacket)
      → parse_delta_packet date_of_text raw ≡ decoded (some p)
      → (value p.last_sync_id ≡ greatest p.actions) ⊎ (carried raw ≡ id_of (text p.last_sync_id))
  unfolding parse_delta_packet carried
  parse_delta_packet-IsCursor scalar p h = absurd (ground arith)
  parse_delta_packet-IsCursor (array raws) p h = parse_listed-IsCursor raws no_id none p h
  parse_delta_packet-IsCursor (object is_delta packet actions cursor has_more raw) p h =
      elim (Bool-cases (is_delta && is_object packet)) [
        | inl e ↦
            let (parsed, same_cursor) =
              parse_wrapped is_delta packet actions cursor has_more raw e in
            subst (λ c. IsCursor c p) (sym same_cursor)
              (parse_delta_packet-IsCursor packet p (sym parsed ∙ h))
        | inr e ↦
            let (parsed, same_cursor) = parse_bare is_delta packet actions cursor has_more raw e in
            subst (λ c. IsCursor c p) (sym same_cursor)
              (parse_direct-IsCursor actions cursor has_more raw p (sym parsed ∙ h))
      ]
