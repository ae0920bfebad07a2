-- ===== src/IdentityMap/Reads.antt =====
-- What can be read after a write, and what a history of calls keeps.
use stratasync.Prelude.{
  ℕ, ◌≤◌, ◌<◌, String, ◌≡◌, refl, inl, inr, Bool, true, false, ◌||◌, Bool-cases, ◌==◌, leb, List,
  [], ◌∷◌, Option, none, some, arith, Option-cases, if◌then◌else◌, length, same, same_iff,
}
use stratasync.Prelude.Dict.{lookup, has_key, assign, has_key-lookup, lookup-assign}
use stratasync.Prelude.DictKeys.{length-assign, length-remove-le}
use stratasync.Prelude.TextSet.{contains}
use stratasync.IdentityMap.{
  Instances, IdentityMap, empty, touch, store, evict_if_needed, get, set, update, merge, delete,
  clear, touch_order, set_max_size,
}
use stratasync.IdentityMap.Invariant.{
  IsValid, assign-touch_order-IsAligned, touch_order-IsAligned, remove-discard-IsAligned,
  evict_if_needed-IsValid,
}
use stratasync.IdentityMap.Eviction.{
  length-evict_if_needed, max_size-evict_if_needed, lookup-evict_if_needed,
  evict_if_needed-keeps_touched,
}

-- No more instances than a positive bound allows.
abbrev pub IsBounded : {T : Type 0} → IdentityMap T → Type 0
IsBounded m = (max : ℕ) → m.max_size ≡ some max → 0 < max → length m.entries ≤ max

-- A valid map, which is bounded as well if no new bound is still to be enforced.
pub record IsSound {T : Type 0} (unsettled : Bool) (m : IdentityMap T) : Type 0 where
  pub valid : IsValid m
  pub bounded : unsettled ≡ false → IsBounded m

-- The same as a test: any number fits no bound, or the bound zero, which never evicts.
abbrev pub fits : Option ℕ → ℕ → Bool
fits none n = true
fits (some max) n = if max == 0 then true else leb n max

IsBounded-fits :
    {T : Type 0} (m : IdentityMap T) → IsBounded m → fits m.max_size (length m.entries) ≡ true
IsBounded-fits m h = elim (Option-cases m.max_size) [
  | inl e ↦ rw e refl
  | inr (max, e) ↦ rw e (ground (arith, h max e))
]

-- One call of the class.
pub data Call (T O : Type 0) : Type 0 where
  gets deletes : String → Call T O
  sets updates merges : String → T → O → Call T O
  clears : Call T O
  resizes : Option ℕ → Call T O

-- Whether a new bound was set since the last call that enforces it: `setMaxSize` evicts nothing.
unfoldable pub unsettled : {T O : Type 0} → Bool → List (Call T O) → Bool
unsettled b [] = b
unsettled b (resizes max ∷ calls) = unsettled true calls
unsettled b (sets id value options ∷ calls) = unsettled false calls
unsettled b (clears ∷ calls) = unsettled false calls
unsettled b (_ ∷ calls) = unsettled b calls

module _ {T : Type 0} where
  evict-IsSound : {u : Bool} (m : IdentityMap T) → IsValid m → IsSound u (evict_if_needed m).0
  evict-IsSound m v = record {
    valid = evict_if_needed-IsValid m v;
    bounded = λ q max e p.
        let bound : m.max_size ≡ some max = ground (arith, max_size-evict_if_needed m) in
        omega (arith, length-evict_if_needed m max bound p v);
  }

  stored-IsValid :
      (id : String) (value : T) (m : IdentityMap T)
      → IsValid m
      → IsValid (touch id (store id value m))
  unfolding touch store
  stored-IsValid id value m v = assign-touch_order-IsAligned v id value

  touched-IsSound :
      {u : Bool} (id : String) (m : IdentityMap T)
      → has_key id m.entries ≡ true
      → IsSound u m
      → IsSound u (touch id m)
  unfolding touch
  touched-IsSound id m h s = record {
    valid = touch_order-IsAligned s.valid id h;
    bounded = s.bounded;
  }

  rewritten-IsSound :
      {u : Bool} (id : String) (value : T) (m : IdentityMap T)
      → has_key id m.entries ≡ true
      → IsSound u m
      → IsSound u (touch id (store id value m))
  unfolding touch store
  rewritten-IsSound id value m h s = record {
    valid = assign-touch_order-IsAligned s.valid id value;
    bounded = λ q max e p. ground (arith, length-assign id value m.entries, s.bounded q max e p);
  }

  delete-IsSound :
      {u : Bool} (id : String) (m : IdentityMap T) → IsSound u m → IsSound u (delete id m)
  unfolding delete
  delete-IsSound id m s = record {
    valid = remove-discard-IsAligned s.valid id;
    bounded = λ q max e p. omega (arith, length-remove-le id m.entries, s.bounded q max e p);
  }

  empty-IsSound : (max : Option ℕ) → IsSound false (empty {T = T} max)
  unfolding empty
  empty-IsSound max = record {
    valid = record {
      distinct_keys = tt;
      distinct = tt;
      same_ids = λ id. unfold has_key contains in refl;
      same_size = refl;
    };
    bounded = λ q m e p. omega arith;
  }

  clear-IsSound : {u : Bool} (m : IdentityMap T) → IsSound u (clear m)
  unfolding clear
  clear-IsSound m = record {
    valid = record {
      distinct_keys = tt;
      distinct = tt;
      same_ids = λ id. unfold has_key contains in refl;
      same_size = refl;
    };
    bounded = λ q max e p. omega arith;
  }

  found :
      (id : String) (m : IdentityMap T) {value : T}
      → lookup id m.entries ≡ some value
      → has_key id m.entries ≡ true
  found id m e = ground (arith, has_key-lookup id m.entries)

module _ {T O : Type 0} (inst : Instances T O) where
  -- The map after a call.
  unfoldable pub step : IdentityMap T → Call T O → IdentityMap T
  step m (gets id) = (get id m).1
  step m (deletes id) = delete id m
  step m (sets id value options) = (set inst id value options m).0
  step m (updates id changes options) = (update inst id changes options m).1
  step m (merges id fields options) = (merge inst id fields options m).0
  step m clears = clear m
  step m (resizes max) = set_max_size max m

  unfoldable pub run : IdentityMap T → List (Call T O) → IdentityMap T
  run m [] = m
  run m (c ∷ calls) = run (step m c) calls

  get-IsSound : {u : Bool} (id : String) (m : IdentityMap T) → IsSound u m → IsSound u (get id m).1
  unfolding get
  get-IsSound id m s = elim (Option-cases (lookup id m.entries)) [
    | inl e ↦ rw (e, get) s
    | inr (value, e) ↦ rw (e, get) (touched-IsSound id m (found id m e) s)
  ]

  update-IsSound :
      {u : Bool} (id : String) (changes : T) (options : O) (m : IdentityMap T)
      → IsSound u m
      → IsSound u (update inst id changes options m).1
  unfolding update
  update-IsSound id changes options m s = elim (Option-cases (lookup id m.entries)) [
    | inl e ↦ rw (e, update) s
    | inr (value, e) ↦ rw (e, update) (rewritten-IsSound id _ m (found id m e) s)
  ]

  merge-IsSound :
      {u : Bool} (id : String) (fields : T) (options : O) (m : IdentityMap T)
      → IsSound u m
      → IsSound u (merge inst id fields options m).0
  unfolding merge
  merge-IsSound id fields options m s = elim (Option-cases (lookup id m.entries)) [
    | inl e ↦ rw (e, merge) (evict-IsSound _ (stored-IsValid id _ m s.valid))
    | inr (value, e) ↦ rw (e, merge) (rewritten-IsSound id _ m (found id m e) s)
  ]

  resized-IsSound :
      (max : Option ℕ) (m : IdentityMap T) → IsValid m → IsSound true (set_max_size max m)
  unfolding set_max_size
  resized-IsSound max m v = record {
    valid = record {
      distinct_keys = v.distinct_keys;
      distinct = v.distinct;
      same_ids = v.same_ids;
      same_size = v.same_size;
    };
    bounded = λ q. absurd (ground arith);
  }

  set-IsSound :
      {u : Bool} (id : String) (value : T) (options : O) (m : IdentityMap T)
      → IsValid m
      → IsSound u (set inst id value options m).0
  unfolding set
  set-IsSound id value options m v =
      evict-IsSound _ (stored-IsValid id (inst.to_instance value options) m v)

  run-IsSound :
      (u : Bool) (m : IdentityMap T) (calls : List (Call T O))
      → IsSound u m
      → IsSound (unsettled u calls) (run m calls)
  unfolding run step unsettled
  run-IsSound u m [] s = s
  run-IsSound u m (gets id ∷ calls) s = run-IsSound u _ calls (get-IsSound id m s)
  run-IsSound u m (deletes id ∷ calls) s = run-IsSound u _ calls (delete-IsSound id m s)
  run-IsSound u m (sets id value options ∷ calls) s =
      run-IsSound false _ calls (set-IsSound id value options m s.valid)
  run-IsSound u m (updates id changes options ∷ calls) s =
      run-IsSound u _ calls (update-IsSound id changes options m s)
  run-IsSound u m (merges id fields options ∷ calls) s =
      run-IsSound u _ calls (merge-IsSound id fields options m s)
  run-IsSound u m (clears ∷ calls) s = run-IsSound false _ calls (clear-IsSound m)
  run-IsSound u m (resizes max ∷ calls) s = run-IsSound true _ calls (resized-IsSound max m s.valid)

  -- After any history of calls on a new map, the map and its access order hold the same ids, none
  -- twice, and, unless the bound was set anew and neither `set` nor `clear` has run since, no more of
  -- them than a positive bound allows.
  pub run-empty-IsValid :
      (max : Option ℕ) (calls : List (Call T O))
      → IsValid (run (empty max) calls)
        × ((unsettled false calls
              || fits (run (empty max) calls).max_size (length (run (empty max) calls).entries))
            ≡ true)
  run-empty-IsValid max calls =
      let sound = run-IsSound false (empty max) calls (empty-IsSound max) in
      (
        sound.valid,
        elim (Bool-cases (unsettled false calls)) [
          | inl e ↦ rw e refl
          | inr e ↦ rw e (IsBounded-fits (run (empty max) calls) (sound.bounded e))
        ],
      )

  -- What is read after `set`: the id itself has the new instance, so it
  -- is never the one evicted; another id has what it had, unless this call evicted it.
  pub lookup-set :
      (id j : String) (value : T) (options : O) (m : IdentityMap T)
      → IsValid m
      → lookup j (set inst id value options m).0.entries ≡ (
          if same id j
          then some (inst.to_instance value options)
          else if contains j (set inst id value options m).1
          then none
          else lookup j m.entries)
  unfolding set touch store
  lookup-set id j value options m v =
      let entries = assign id (inst.to_instance value options) m.entries in
      let stored : IdentityMap T = record {
        entries = entries;
        access_order = touch_order id m.access_order;
        max_size = m.max_size;
      } in
      ground (
        arith,
        lookup-evict_if_needed j stored,
        evict_if_needed-keeps_touched id entries m.access_order m.max_size
            (assign-touch_order-IsAligned v id (inst.to_instance value options)),
        lookup-assign id j (inst.to_instance value options) m.entries,
        same_iff id j,
      )
