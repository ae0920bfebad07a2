-- ===== src/Prelude/Dict.antt =====
-- Plain objects and maps keyed by texts: association lists in insertion order. A key that is
-- assigned again keeps its place, as in a JavaScript object or `Map`.
use Prim.Native.String.{String}
use mathlib.Core.Path.{◌≡◌, refl, ap, ◌∙◌}
use mathlib.Core.Bool.{Bool, true, false}
use mathlib.Core.List.{List, [], ◌∷◌, ◌++◌, map}
use mathlib.Core.Option.{Option, none, some}
use native.Mathlib.Omega.{arith}
use stratasync.Prelude.Tests.{if◌then◌else◌}
use stratasync.Prelude.Texts.{same, same_iff}

abbrev pub Dict {ℓ} : Type ℓ → Type ℓ
Dict V = List (String × V)

module _ {ℓ} {V : Type ℓ} where
  -- `d[k]`, or `d.get(k)`
  unfoldable pub lookup : String → Dict V → Option V
  lookup k [] = none
  lookup k ((j, v) ∷ d) = if same j k then some v else lookup k d

  -- `k in d`, or `d.has(k)`
  unfoldable pub has_key : String → Dict V → Bool
  has_key k [] = false
  has_key k ((j, v) ∷ d) = if same j k then true else has_key k d

  -- `d[k] = v`, or `d.set(k, v)`
  unfoldable pub assign : String → V → Dict V → Dict V
  assign k v [] = (k, v) ∷ []
  assign k v ((j, w) ∷ d) = if same j k then (j, v) ∷ d else (j, w) ∷ assign k v d

  abbrev pub get_or : Option V → V → V
  get_or none d = d
  get_or (some v) d = v

  overwrite : Dict V → Dict V → Dict V
  overwrite over [] = []
  overwrite over ((k, v) ∷ d) = (k, get_or (lookup k over) v) ∷ overwrite over d

  missing : Dict V → Dict V → Dict V
  missing base [] = []
  missing base ((k, v) ∷ d) = if has_key k base then missing base d else (k, v) ∷ missing base d

  -- `{ ...base, ...over }`: the keys of `base` in their places, then the new ones of `over`
  unfoldable pub spread : Dict V → Dict V → Dict V
  unfolding overwrite missing
  spread base over = overwrite over base ++ missing base over

  -- `delete d[k]`, or `d.delete(k)`
  unfoldable pub remove : String → Dict V → Dict V
  remove k [] = []
  remove k ((j, v) ∷ d) = if same j k then remove k d else (j, v) ∷ remove k d

  abbrev pub keys : Dict V → List String
  keys = map (λ e. e.0)

  abbrev pub is_some : Option V → Bool
  is_some none = false
  is_some (some v) = true

  abbrev pub or_else : Option V → Option V → Option V
  or_else none o = o
  or_else (some v) o = some v

  pub lookup-assign :
      (k j : String) (v : V) (d : Dict V)
      → lookup j (assign k v d) ≡ (if same k j then some v else lookup j d)
  unfolding lookup assign
  lookup-assign k j v [] = refl
  lookup-assign k j v ((i, w) ∷ d) =
      ground (arith, same_iff k j, same_iff i k, same_iff i j, lookup-assign k j v d)

  pub lookup-remove :
      (k j : String) (d : Dict V) → lookup j (remove k d) ≡ (if same k j then none else lookup j d)
  unfolding lookup remove
  lookup-remove k j [] = ground arith
  lookup-remove k j ((i, w) ∷ d) =
      ground (arith, same_iff k j, same_iff i k, same_iff i j, lookup-remove k j d)

  pub has_key-lookup : (k : String) (d : Dict V) → has_key k d ≡ is_some (lookup k d)
  unfolding lookup has_key
  has_key-lookup k [] = refl
  has_key-lookup k ((j, w) ∷ d) = ground (arith, has_key-lookup k d)

  lookup-append :
      (k : String) (d e : Dict V) → lookup k (d ++ e) ≡ or_else (lookup k d) (lookup k e)
  unfolding lookup
  lookup-append k [] e = refl
  lookup-append k ((j, v) ∷ d) e = ground (arith, lookup-append k d e)

  lookup-overwrite :
      (k : String) (over d : Dict V)
      → lookup k (overwrite over d)
        ≡ (if has_key k d then or_else (lookup k over) (lookup k d) else none)
  unfolding lookup has_key overwrite
  lookup-overwrite k over [] = refl
  lookup-overwrite k over ((j, v) ∷ d) = ground (arith, same_iff j k, lookup-overwrite k over d)

  lookup-missing :
      (k : String) (base d : Dict V)
      → lookup k (missing base d) ≡ (if has_key k base then none else lookup k d)
  unfolding lookup missing
  lookup-missing k base [] = ground arith
  lookup-missing k base ((j, v) ∷ d) = ground (arith, same_iff j k, lookup-missing k base d)

  -- What `{ ...base, ...over }` holds: the values of `over`, and those of `base` elsewhere.
  pub lookup-spread :
      (k : String) (base over : Dict V)
      → lookup k (spread base over) ≡ or_else (lookup k over) (lookup k base)
  unfolding spread
  lookup-spread k base over = rw (lookup-append k (overwrite over base)) (
      ground
        (arith, lookup-overwrite k over base, lookup-missing k base over, has_key-lookup k base))

  pub remove_absent : (k : String) (d : Dict V) → has_key k d ≡ false → remove k d ≡ d
  unfolding has_key remove
  remove_absent k [] h = refl
  remove_absent k ((j, v) ∷ d) h = ground (arith, remove_absent k d)

  missing_one :
      (k : String) (v : V) (d : Dict V) → has_key k d ≡ false → missing ((k, v) ∷ []) d ≡ d
  unfolding has_key missing
  missing_one k v [] h = refl
  missing_one k v ((j, w) ∷ d) h = ground (arith, same_iff k j, same_iff j k, missing_one k v d)

  overwrite_one :
      (k : String) (v : V) (d : Dict V)
      → has_key k d ≡ false
      → overwrite d ((k, v) ∷ []) ≡ (k, v) ∷ []
  unfolding overwrite
  overwrite_one k v d h = ground (arith, has_key-lookup k d)

  pub spread_one :
      (k : String) (v : V) (d : Dict V) → has_key k d ≡ false → spread ((k, v) ∷ []) d ≡ (k, v) ∷ d
  unfolding spread
  spread_one k v d h =
      ap (λ l. l ++ missing ((k, v) ∷ []) d) (overwrite_one k v d h)
      ∙ ap (λ l. (k, v) ∷ l) (missing_one k v d h)
