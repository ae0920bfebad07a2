-- ===== src/IdentityMap.antt =====
-- packages/client/src/identity-map.ts: one instance per id, bounded by eviction of the least
-- recently used. A class map holds the instances in insertion order and the ids in access order.
-- What a model instance is, and how it takes changes, is the model layer's: the record `Instances`.
-- An in-place update of an instance is the write of its new value. A change notifies nobody here:
-- the evicted ids that the listener is called with are returned.
pub mod Invariant
pub mod Reads
pub mod Eviction
pub mod Registry
use stratasync.Prelude.{
  ℕ, zero, suc, String, Bool, true, false, List, [], ◌∷◌, ◌++◌, Option, none, some, ltb, ◌==◌,
  if◌then◌else◌, length,
}
use stratasync.Prelude.Dict.{Dict, lookup, has_key, assign, remove}
use stratasync.Prelude.TextSet.{TextSet, discard}
use stratasync.Value.{Row}

-- `toInstance` and `applyChanges`, with the options `O` that they hand on.
pub record Instances (T O : Type 0) : Type 0 where
  pub to_instance : T → O → T
  pub apply_changes : T → T → O → T

-- `maxSize` is `none` for `Infinity`.
pub record IdentityMap (T : Type 0) : Type 0 where
  pub entries : Dict T
  pub access_order : TextSet
  pub max_size : Option ℕ

unfoldable pub empty : {T : Type 0} → Option ℕ → IdentityMap T
empty max_size = record { entries = []; access_order = []; max_size = max_size }

-- Re-insertion moves an id to the most recently used end.
unfoldable pub touch_order : String → TextSet → TextSet
touch_order id order = discard id order ++ id ∷ []

module _ {T : Type 0} where
  unfoldable pub set_max_size : Option ℕ → IdentityMap T → IdentityMap T
  set_max_size max m = record m { max_size = max }

  unfoldable pub touch : String → IdentityMap T → IdentityMap T
  touch id m = record m { access_order = touch_order id m.access_order }

  -- The loop of `evictIfNeeded`: the order and the instances that are left, and the evicted ids.
  unfoldable pub evict_loop : ℕ → TextSet → Dict T → TextSet × Dict T × List String
  evict_loop max [] entries = ([], entries, [])
  evict_loop max (oldest ∷ order) entries =
      let (order', entries', evicted) = evict_loop max order (remove oldest entries) in
      if ltb max (length entries)
      then (order', entries', oldest ∷ evicted)
      else (oldest ∷ order, entries, [])

  unfoldable pub evict_if_needed : IdentityMap T → IdentityMap T × List String
  evict_if_needed m = elim m.max_size [
    | none ↦ (m, [])
    | some max ↦
        let (order', entries', evicted) = evict_loop max m.access_order m.entries in
        if max == 0
        then (m, [])
        else (record m { access_order = order'; entries = entries' }, evicted)
  ]

  unfoldable pub get : String → IdentityMap T → Option T × IdentityMap T
  get id m = elim (lookup id m.entries) [ none ↦ (none, m) | some value ↦ (some value, touch id m) ]

  unfoldable pub has : String → IdentityMap T → Bool
  has id m = has_key id m.entries

  unfoldable pub delete : String → IdentityMap T → IdentityMap T
  delete id m = record m { access_order = discard id m.access_order; entries = remove id m.entries }

  unfoldable pub clear : IdentityMap T → IdentityMap T
  clear m = record m { entries = []; access_order = [] }

  unfoldable pub store : String → T → IdentityMap T → IdentityMap T
  store id value m = record m { entries = assign id value m.entries }

module _ {T O : Type 0} (inst : Instances T O) where
  open inst use {to_instance, apply_changes}

  unfoldable pub set : String → T → O → IdentityMap T → IdentityMap T × List String
  set id instance_ options m =
      evict_if_needed (touch id (store id (to_instance instance_ options) m))

  unfoldable pub update : String → T → O → IdentityMap T → Option T × IdentityMap T
  update id changes options m = elim (lookup id m.entries) [
    | none ↦ (none, m)
    | some existing ↦
        let updated = apply_changes existing changes options in
        (some updated, touch id (store id updated m))
  ]

  unfoldable pub merge : String → T → O → IdentityMap T → IdentityMap T × List String
  merge id fields options m = elim (lookup id m.entries) [
    | none ↦ evict_if_needed (touch id (store id (to_instance fields options) m))
    | some existing ↦ (touch id (store id (apply_changes existing fields options) m), [])
  ]

-- `applyChanges` on a plain object: each key of the changes in turn. A value that is already there
-- (`Object.is`) is not written, which leaves the object as the write would.
unfoldable pub apply_plain : Row → Row → Row
apply_plain target [] = target
apply_plain target ((key, new_value) ∷ changes) = apply_plain (assign key new_value target) changes

-- Plain rows, with no model factory.
unfoldable pub plain : Instances Row (Unit {0})
plain = record {
  to_instance = λ fields _. fields;
  apply_changes = λ target changes _. apply_plain target changes;
}
