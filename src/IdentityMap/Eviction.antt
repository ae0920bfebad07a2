-- ===== src/IdentityMap/Eviction.antt =====
-- What eviction drops: ids from the old end of the access order, just as many as needed.
use Prim.Native.Nat.{min}
use stratasync.Prelude.{
  ℕ, ◌<◌, String, ◌≡◌, refl, inl, inr, false, [], ◌∷◌, ◌++◌, Option, none, some, arith, Bool-cases,
  Option-cases, ◌==◌, if◌then◌else◌, length, same_refl,
}
use stratasync.Prelude.Dict.{Dict, lookup, remove, lookup-remove}
use stratasync.Prelude.TextSet.{TextSet, contains, discard, contains-discard}
use stratasync.IdentityMap.{IdentityMap, evict_loop, evict_if_needed, touch_order}
use stratasync.IdentityMap.Invariant.{IsAligned, IsValid, remove_oldest-IsAligned}

module _ {T : Type 0} where
  -- The evicted ids are the front of the access order.
  pub evict_loop-split :
      (max : ℕ) (order : TextSet) (entries : Dict T)
      → (evict_loop max order entries).2 ++ (evict_loop max order entries).0 ≡ order
  unfolding evict_loop
  evict_loop-split max [] entries = refl
  evict_loop-split max (oldest ∷ order) entries =
      ground (arith, evict_loop-split max order (remove oldest entries))

  -- What is left fits, and nothing more was dropped than that takes.
  pub length-evict_loop :
      (max : ℕ) (order : TextSet) (entries : Dict T)
      → IsAligned entries order
      → length (evict_loop max order entries).1 ≡ min max (length entries)
  unfolding evict_loop
  length-evict_loop max [] entries v = omega (arith, v.same_size)
  length-evict_loop max (oldest ∷ order) entries v =
      let w : IsAligned (remove oldest entries) order = remove_oldest-IsAligned oldest order v in
      ground
        (arith, length-evict_loop max order (remove oldest entries) w, v.same_size, w.same_size)

  -- The instances that are left are those whose ids were not evicted, as they were.
  pub lookup-evict_loop :
      (j : String) (max : ℕ) (order : TextSet) (entries : Dict T)
      → lookup j (evict_loop max order entries).1
        ≡ (if contains j (evict_loop max order entries).2 then none else lookup j entries)
  unfolding evict_loop contains
  lookup-evict_loop j max [] entries = refl
  lookup-evict_loop j max (oldest ∷ order) entries =
      ground (
        arith,
        lookup-evict_loop j max order (remove oldest entries),
        lookup-remove oldest j entries,
      )

  -- The id at the recent end stays.
  evict_loop-keeps_last :
      (id : String) (max : ℕ) (order : TextSet) (entries : Dict T)
      → 0 < max
      → contains id order ≡ false
      → IsAligned entries (order ++ id ∷ [])
      → contains id (evict_loop max (order ++ id ∷ []) entries).2 ≡ false
  unfolding evict_loop contains
  evict_loop-keeps_last id max [] entries p h v = ground (arith, v.same_size)
  evict_loop-keeps_last id max (oldest ∷ order) entries p h v =
      let w : IsAligned (remove oldest entries) (order ++ id ∷ []) =
        remove_oldest-IsAligned oldest (order ++ id ∷ []) v in
      ground (arith, evict_loop-keeps_last id max order (remove oldest entries) p (ground arith) w)

  -- The id that was just touched is not evicted.
  pub evict_loop-keeps_touched :
      (id : String) (max : ℕ) (order : TextSet) (entries : Dict T)
      → 0 < max
      → IsAligned entries (touch_order id order)
      → contains id (evict_loop max (touch_order id order) entries).2 ≡ false
  unfolding touch_order
  evict_loop-keeps_touched id max order entries p v =
      evict_loop-keeps_last id max (discard id order) entries p
        (ground (arith, contains-discard id id order, same_refl id)) v

  -- An id that was just touched survives `evictIfNeeded`.
  pub evict_if_needed-keeps_touched :
      (id : String) (entries : Dict T) (order : TextSet) (max : Option ℕ)
      → IsAligned entries (touch_order id order)
      → contains id
          (evict_if_needed
            (record { entries = entries; access_order = touch_order id order; max_size = max })).1
        ≡ false
  unfolding evict_if_needed
  evict_if_needed-keeps_touched id entries order none v = unfold contains in refl
  evict_if_needed-keeps_touched id entries order (some max) v = elim (Bool-cases (max == 0)) [
    | inl z ↦ rw z (unfold contains in refl)
    | inr z ↦ rw z (evict_loop-keeps_touched id max order entries (ground arith) v)
  ]

  -- With a positive bound, at most that many instances are left.
  pub length-evict_if_needed :
      (m : IdentityMap T) (max : ℕ)
      → m.max_size ≡ some max
      → 0 < max
      → IsValid m
      → length (evict_if_needed m).0.entries ≡ min max (length m.entries)
  unfolding evict_if_needed
  length-evict_if_needed m max e p v =
      ground (arith, length-evict_loop max m.access_order m.entries v)

  pub max_size-evict_if_needed : (m : IdentityMap T) → (evict_if_needed m).0.max_size ≡ m.max_size
  unfolding evict_if_needed
  max_size-evict_if_needed m = ground arith

  pub lookup-evict_if_needed :
      (j : String) (m : IdentityMap T)
      → lookup j (evict_if_needed m).0.entries
        ≡ (if contains j (evict_if_needed m).1 then none else lookup j m.entries)
  unfolding evict_if_needed
  lookup-evict_if_needed j m = elim (Option-cases m.max_size) [
    | inl e ↦ rw (e, evict_if_needed) (unfold contains in refl)
    | inr (max, e) ↦ elim (Bool-cases (max == 0)) [
      | inl z ↦ rw (e, evict_if_needed) (rw z (unfold contains in refl))
      | inr z ↦ rw (e, evict_if_needed) (rw z (lookup-evict_loop j max m.access_order m.entries))
    ]
  ]

  -- The access order splits into what was evicted and what is left, in order.
  pub evict_if_needed-split :
      (m : IdentityMap T)
      → (evict_if_needed m).1 ++ (evict_if_needed m).0.access_order ≡ m.access_order
  unfolding evict_if_needed
  evict_if_needed-split m = elim (Option-cases m.max_size) [
    | inl e ↦ rw (e, evict_if_needed)
    | inr (max, e) ↦ ground (arith, evict_loop-split max m.access_order m.entries)
  ]
