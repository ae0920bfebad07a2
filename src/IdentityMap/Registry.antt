-- ===== src/IdentityMap/Registry.antt =====
-- `IdentityMapRegistry`: the identity maps by model name, made on first use, and the policy that
-- says which models may be evicted.
use mathlib.Core.Option
use stratasync.Prelude.{
  ℕ, String, ◌≡◌, refl, ◌∙◌, Bool, false, [], ◌∷◌, Option, none, some, arith, if◌then◌else◌, same,
  same_iff,
}
use stratasync.Prelude.Dict.{Dict, lookup, assign, get_or, lookup-assign}
use stratasync.IdentityMap.{
  Instances, IdentityMap, empty, set_max_size, clear, set, evict_if_needed, touch, store,
}

-- `isEvictable` is `none` until `setEvictionPolicy` is called.
pub record Registry (T : Type 0) : Type 0 where
  pub maps : Dict (IdentityMap T)
  pub max_size : Option ℕ
  pub is_evictable : Option (String → Bool)

unfoldable pub empty_registry : {T : Type 0} → Option ℕ → Registry T
empty_registry max = record { maps = []; max_size = max; is_evictable = none }

abbrev pub size_by : Option (String → Bool) → Option ℕ → String → Option ℕ
size_by none max name = max
size_by (some p) max name = if p name then max else none

module _ {T : Type 0} where
  -- `maxSizeFor`
  unfoldable pub max_size_for : Registry T → String → Option ℕ
  max_size_for g name = size_by g.is_evictable g.max_size name

  -- The loop of `setEvictionPolicy` over the maps that exist.
  resize_all : (String → Bool) → Option ℕ → Dict (IdentityMap T) → Dict (IdentityMap T)
  resize_all p max [] = []
  resize_all p max ((name, m) ∷ maps) =
      (name, set_max_size (if p name then max else none) m) ∷ resize_all p max maps

  unfoldable pub set_eviction_policy : (String → Bool) → Registry T → Registry T
  unfolding resize_all
  set_eviction_policy p g = record g {
    is_evictable = some p;
    maps = resize_all p g.max_size g.maps;
  }

  -- The map that `getMap` returns, and the registry after the call.
  unfoldable pub map_of : Registry T → String → IdentityMap T
  map_of g name = get_or (lookup name g.maps) (empty (max_size_for g name))

  unfoldable pub put_map : String → IdentityMap T → Registry T → Registry T
  put_map name m g = record g { maps = assign name m g.maps }

  unfoldable pub get_map : String → Registry T → IdentityMap T × Registry T
  get_map name g = (map_of g name, put_map name (map_of g name) g)

  -- A call on the map of a model: `getMap(name)`, then the change of that map in place.
  unfoldable pub with_map : String → (IdentityMap T → IdentityMap T) → Registry T → Registry T
  with_map name f g = put_map name (f (map_of g name)) g

  clear_maps : Dict (IdentityMap T) → Dict (IdentityMap T)
  clear_maps [] = []
  clear_maps ((name, m) ∷ maps) = (name, clear m) ∷ clear_maps maps

  unfoldable pub clear_all : Registry T → Registry T
  unfolding clear_maps
  clear_all g = record g { maps = clear_maps g.maps }

  -- Each map has the bound that the policy gives its model.
  abbrev pub FollowsPolicy : Registry T → Type 0
  FollowsPolicy g = (name : String) → (map_of g name).max_size ≡ max_size_for g name

  lookup-resize_all :
      (p : String → Bool) (max : Option ℕ) (maps : Dict (IdentityMap T)) (name : String)
      → lookup name (resize_all p max maps)
        ≡ Option.map (set_max_size (if p name then max else none)) (lookup name maps)
  unfolding lookup resize_all
  lookup-resize_all p max [] name = refl
  lookup-resize_all p max ((j, k) ∷ maps) name =
      ground (arith, same_iff j name, lookup-resize_all p max maps name)

  -- `setEvictionPolicy` gives each map, made before or after it, the bound of the policy.
  pub set_eviction_policy-FollowsPolicy :
      (p : String → Bool) (g : Registry T) → FollowsPolicy (set_eviction_policy p g)
  unfolding set_eviction_policy map_of max_size_for set_max_size empty
  set_eviction_policy-FollowsPolicy p g name =
      ground (arith, lookup-resize_all p g.max_size g.maps name)

  max_size_for-with_map :
      (name j : String) (f : IdentityMap T → IdentityMap T) (g : Registry T)
      → max_size_for (with_map name f g) j ≡ max_size_for g j
  unfolding max_size_for with_map put_map
  max_size_for-with_map name j f g = refl

  pub map_of-with_map :
      (name j : String) (f : IdentityMap T → IdentityMap T) (g : Registry T)
      → map_of (with_map name f g) j ≡ (if same name j then f (map_of g name) else map_of g j)
  unfolding map_of with_map put_map max_size_for
  map_of-with_map name j f g = ground (arith, lookup-assign name j (f (map_of g name)) g.maps)

  -- So does any call on one map that leaves its bound alone.
  pub with_map-FollowsPolicy :
      (name : String) (f : IdentityMap T → IdentityMap T) (g : Registry T)
      → ((m : IdentityMap T) → (f m).max_size ≡ m.max_size)
      → FollowsPolicy g
      → FollowsPolicy (with_map name f g)
  with_map-FollowsPolicy name f g keep h j = ground (
    arith,
    map_of-with_map name j f g,
    keep (map_of g name),
    h j,
    same_iff name j,
    max_size_for-with_map name j f g,
  )

  pub not_evicted : (m : IdentityMap T) → m.max_size ≡ none → (evict_if_needed m).1 ≡ []
  unfolding evict_if_needed
  not_evicted m e = rw (e, evict_if_needed)

pub empty_registry-FollowsPolicy :
    (T : Type 0) (max : Option ℕ) → FollowsPolicy (empty_registry {T = T} max)
unfolding empty_registry map_of max_size_for empty lookup
empty_registry-FollowsPolicy T max name = refl

module _ {T O : Type 0} (inst : Instances T O) where
  -- Under a policy that every map follows, a write into the map of a model that may not be evicted
  -- evicts nothing, however large the map is.
  pub set-evicts_nothing :
      (g : Registry T) (p : String → Bool) (name id : String) (value : T) (options : O)
      → FollowsPolicy g
      → g.is_evictable ≡ some p
      → p name ≡ false
      → (set inst id value options (map_of g name)).1 ≡ []
  unfolding set touch store
  set-evicts_nothing g p name id value options h e q =
      not_evicted _ (h name ∙ unfold max_size_for in (ground arith))
