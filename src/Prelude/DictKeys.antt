-- ===== src/Prelude/DictKeys.antt =====
-- The keys of a dictionary as a set of texts.
use Prim.Native.Nat.{◌+◌, ◌≤◌}
use Prim.Native.String.{String}
use mathlib.Core.Bool.{true, false}
use mathlib.Core.List.{[], ◌∷◌}
use mathlib.Core.Path.{◌≡◌, refl}
use native.Mathlib.Omega.{arith}
use stratasync.Prelude.Tests.{if◌then◌else◌}
use stratasync.Prelude.Lists.{length}
use stratasync.Prelude.Texts.{same, same_iff}
use stratasync.Prelude.Dict.{Dict, keys, has_key, assign, remove}
use stratasync.Prelude.TextSet.{contains, add, discard}

module _ {ℓ} {V : Type ℓ} where
  pub contains-keys : (k : String) (d : Dict V) → contains k (keys d) ≡ has_key k d
  unfolding contains has_key
  contains-keys k [] = refl
  contains-keys k ((j, v) ∷ d) = ground (arith, contains-keys k d)

  pub keys-assign : (k : String) (v : V) (d : Dict V) → keys (assign k v d) ≡ add k (keys d)
  unfolding assign add
  keys-assign k v [] = refl
  keys-assign k v ((j, w) ∷ d) = ground (arith, keys-assign k v d)

  pub keys-remove : (k : String) (d : Dict V) → keys (remove k d) ≡ discard k (keys d)
  unfolding remove discard
  keys-remove k [] = refl
  keys-remove k ((j, w) ∷ d) = ground (arith, keys-remove k d)

  pub length-keys : (d : Dict V) → length (keys d) ≡ length d
  length-keys [] = refl
  length-keys (e ∷ d) = ground (arith, length-keys d)

  pub has_key-assign :
      (k j : String) (v : V) (d : Dict V)
      → has_key j (assign k v d) ≡ (if same k j then true else has_key j d)
  unfolding has_key assign
  has_key-assign k j v [] = refl
  has_key-assign k j v ((i, w) ∷ d) =
      ground (arith, same_iff i k, same_iff k j, same_iff i j, has_key-assign k j v d)

  pub has_key-remove :
      (k j : String) (d : Dict V)
      → has_key j (remove k d) ≡ (if same k j then false else has_key j d)
  unfolding has_key remove
  has_key-remove k j [] = ground arith
  has_key-remove k j ((i, w) ∷ d) =
      ground (arith, same_iff i k, same_iff k j, same_iff i j, has_key-remove k j d)

  pub length-assign :
      (k : String) (v : V) (d : Dict V)
      → length (assign k v d) ≡ length d + (if has_key k d then 0 else 1)
  unfolding has_key assign
  length-assign k v [] = omega arith
  length-assign k v ((i, w) ∷ d) = ground (arith, length-assign k v d)

  pub length-remove-le : (k : String) (d : Dict V) → length (remove k d) ≤ length d
  unfolding remove
  length-remove-le k [] = omega arith
  length-remove-le k ((i, w) ∷ d) = ground (arith, length-remove-le k d)
