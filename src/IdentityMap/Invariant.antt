-- ===== src/IdentityMap/Invariant.antt =====
-- The instances and the access order hold the same ids, none twice.
use stratasync.Prelude.{
  ℕ, ◌+◌, String, ◌≡◌, inl, inr, true, [], ◌∷◌, arith, Bool-cases, Option-cases, ltb, ◌==◌,
  if◌then◌else◌, length, same, same_iff, same_refl, length-append, ap, subst,
}
use stratasync.Prelude.Dict.{Dict, keys, has_key, assign, remove}
use stratasync.Prelude.DictKeys.{
  contains-keys, keys-assign, keys-remove, length-keys, has_key-assign, has_key-remove,
  length-assign,
}
use stratasync.Prelude.TextSet.{
  TextSet, contains, discard, IsDistinct, contains-discard, contains-append, discard-IsDistinct,
  append-IsDistinct, length-discard, contains_one, add-IsDistinct, discard_absent,
}
use stratasync.IdentityMap.{IdentityMap, touch_order, evict_loop, evict_if_needed}

-- `entries` and `order` list the same ids, none twice.
pub record IsAligned {T : Type 0} (entries : Dict T) (order : TextSet) : Type 0 where
  pub distinct_keys : IsDistinct (keys entries)
  pub distinct : IsDistinct order
  pub same_ids : (id : String) → has_key id entries ≡ contains id order
  pub same_size : length entries ≡ length order

abbrev pub IsValid : {T : Type 0} → IdentityMap T → Type 0
IsValid m = IsAligned m.entries m.access_order

touch_order-IsDistinct :
    (id : String) (order : TextSet) → IsDistinct order → IsDistinct (touch_order id order)
unfolding touch_order
touch_order-IsDistinct id order d =
    append-IsDistinct id (discard id order)
      (ground (arith, contains-discard id id order, same_refl id)) (discard-IsDistinct id order d)

pub contains-touch_order :
    (id j : String) (order : TextSet)
    → contains j (touch_order id order) ≡ (if same id j then true else contains j order)
unfolding touch_order
contains-touch_order id j order = ground (
  arith,
  contains-append j (discard id order) (id ∷ []),
  contains-discard id j order,
  contains_one id j,
)

length-touch_order :
    (id : String) (order : TextSet)
    → IsDistinct order
    → length (touch_order id order) ≡ length order + (if contains id order then 0 else 1)
unfolding touch_order
length-touch_order id order d =
    ground (arith, length-append (discard id order) (id ∷ []), length-discard id order d)

module _ {T : Type 0} {entries : Dict T} {order : TextSet} (v : IsAligned entries order) where
  -- Writing an instance and touching its id.
  pub assign-touch_order-IsAligned :
      (id : String) (value : T) → IsAligned (assign id value entries) (touch_order id order)
  assign-touch_order-IsAligned id value = record {
    distinct_keys =
        rw (keys-assign id value entries) (add-IsDistinct id (keys entries) v.distinct_keys);
    distinct = touch_order-IsDistinct id order v.distinct;
    same_ids = λ j.
        ground
          (arith, has_key-assign id j value entries, contains-touch_order id j order, v.same_ids j);
    same_size = ground (
      arith,
      length-assign id value entries,
      length-touch_order id order v.distinct,
      v.same_ids id,
      v.same_size,
    );
  }

  -- Touching an id that is there.
  pub touch_order-IsAligned :
      (id : String) → has_key id entries ≡ true → IsAligned entries (touch_order id order)
  touch_order-IsAligned id h = record {
    distinct_keys = v.distinct_keys;
    distinct = touch_order-IsDistinct id order v.distinct;
    same_ids = λ j.
        ground (arith, contains-touch_order id j order, v.same_ids j, v.same_ids id, same_iff id j);
    same_size = ground (arith, length-touch_order id order v.distinct, v.same_ids id, v.same_size);
  }

  pub remove-discard-IsAligned : (id : String) → IsAligned (remove id entries) (discard id order)
  remove-discard-IsAligned id = record {
    distinct_keys =
        rw (keys-remove id entries) (discard-IsDistinct id (keys entries) v.distinct_keys);
    distinct = discard-IsDistinct id order v.distinct;
    same_ids =
        λ j. ground (arith, has_key-remove id j entries, contains-discard id j order, v.same_ids j);
    same_size = ground (
      arith,
      ap length (keys-remove id entries),
      length-keys (remove id entries),
      length-keys entries,
      length-discard id (keys entries) v.distinct_keys,
      length-discard id order v.distinct,
      contains-keys id entries,
      v.same_ids id,
      v.same_size,
    );
  }

module _ {T : Type 0} where
  -- Dropping the oldest.
  pub remove_oldest-IsAligned :
      (oldest : String) (order : TextSet) {entries : Dict T}
      → IsAligned entries (oldest ∷ order)
      → IsAligned (remove oldest entries) order
  unfolding discard
  remove_oldest-IsAligned oldest order {entries} v =
      let e : discard oldest (oldest ∷ order) ≡ order =
        ground (arith, same_refl oldest, discard_absent oldest order v.distinct.0) in
      subst (IsAligned (remove oldest entries)) e (remove-discard-IsAligned v oldest)

  pub evict_loop-IsAligned :
      (max : ℕ) (order : TextSet) (entries : Dict T)
      → IsAligned entries order
      → IsAligned (evict_loop max order entries).1 (evict_loop max order entries).0
  unfolding evict_loop
  evict_loop-IsAligned max [] entries v = v
  evict_loop-IsAligned max (oldest ∷ order) entries v =
      elim (Bool-cases (ltb max (length entries))) [
        | inl e ↦
            rw (e, evict_loop)
              (evict_loop-IsAligned max order (remove oldest entries)
                (remove_oldest-IsAligned oldest order v))
        | inr e ↦ rw (e, evict_loop) v
      ]

  pub evict_if_needed-IsValid : (m : IdentityMap T) → IsValid m → IsValid (evict_if_needed m).0
  unfolding evict_if_needed
  evict_if_needed-IsValid m v = elim (Option-cases m.max_size) [
    | inl e ↦ rw (e, evict_if_needed) v
    | inr (max, e) ↦ elim (Bool-cases (max == 0)) [
      | inl z ↦ rw (e, evict_if_needed) (rw z v)
      | inr z ↦ rw (e, evict_if_needed) (rw z (evict_loop-IsAligned max m.access_order m.entries v))
    ]
  ]
