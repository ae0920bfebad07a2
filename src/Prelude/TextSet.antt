-- ===== src/Prelude/TextSet.antt =====
-- `Set<string>`: lists of texts in insertion order, none twice.
use mathlib.Core.List.{List, [], ◌∷◌, ◌++◌}
use mathlib.Core.Bool.{Bool, true, false}
use mathlib.Core.Path.{◌≡◌, refl}
use mathlib.Core.Logic.{inl, inr}
use Prim.Native.Nat.{◌+◌}
use Prim.Native.String.{String}
use native.Mathlib.Omega.{arith}
use stratasync.Prelude.Tests.{if◌then◌else◌, Bool-cases}
use stratasync.Prelude.Lists.{length}
use stratasync.Prelude.Texts.{same, same_iff}

abbrev pub TextSet : Type 0
TextSet = List String

-- `s.has(k)`
unfoldable pub contains : String → TextSet → Bool
contains k [] = false
contains k (j ∷ s) = if same j k then true else contains k s

-- `s.add(k)`
unfoldable pub add : String → TextSet → TextSet
add k [] = k ∷ []
add k (j ∷ s) = if same j k then j ∷ s else j ∷ add k s

-- `s.delete(k)`
unfoldable pub discard : String → TextSet → TextSet
discard k [] = []
discard k (j ∷ s) = if same j k then discard k s else j ∷ discard k s

-- `new Set(list)`, and adding all of a list
unfoldable pub add_all : List String → TextSet → TextSet
add_all [] s = s
add_all (k ∷ ks) s = add_all ks (add k s)

-- No text twice.
abbrev pub IsDistinct : List String → Type 0
IsDistinct [] = Unit
IsDistinct (k ∷ s) = (contains k s ≡ false) × IsDistinct s

pub contains-add :
    (k j : String) (s : TextSet) → contains j (add k s) ≡ (if same k j then true else contains j s)
unfolding contains add
contains-add k j [] = refl
contains-add k j (i ∷ s) =
    ground (arith, same_iff i k, same_iff k j, same_iff i j, contains-add k j s)

pub contains-discard :
    (k j : String) (s : TextSet)
    → contains j (discard k s) ≡ (if same k j then false else contains j s)
unfolding contains discard
contains-discard k j [] = ground arith
contains-discard k j (i ∷ s) =
    ground (arith, same_iff i k, same_iff k j, same_iff i j, contains-discard k j s)

pub contains-append :
    (k : String) (s t : List String)
    → contains k (s ++ t) ≡ (if contains k s then true else contains k t)
unfolding contains
contains-append k [] t = refl
contains-append k (j ∷ s) t = ground (arith, contains-append k s t)

pub contains-add_all :
    (j : String) (ks : List String) (s : TextSet)
    → contains j (add_all ks s) ≡ (if contains j ks then true else contains j s)
unfolding contains add_all
contains-add_all j [] s = refl
contains-add_all j (k ∷ ks) s = ground (arith, contains-add_all j ks (add k s), contains-add k j s)

pub discard_absent : (k : String) (s : TextSet) → contains k s ≡ false → discard k s ≡ s
unfolding contains discard
discard_absent k [] h = refl
discard_absent k (j ∷ s) h = ground (arith, discard_absent k s)

pub discard-IsDistinct : (k : String) (s : TextSet) → IsDistinct s → IsDistinct (discard k s)
unfolding discard
discard-IsDistinct k [] d = tt
discard-IsDistinct k (j ∷ s) d = elim (Bool-cases (same j k)) [
  | inl e ↦ rw (e, discard) (discard-IsDistinct k s d.1)
  | inr e ↦ rw (e, discard) (ground (arith, contains-discard k j s), discard-IsDistinct k s d.1)
]

pub add-IsDistinct : (k : String) (s : TextSet) → IsDistinct s → IsDistinct (add k s)
unfolding add
add-IsDistinct k [] d = (unfold contains in refl, tt)
add-IsDistinct k (j ∷ s) d = elim (Bool-cases (same j k)) [
  | inl e ↦ rw (e, add) d
  | inr e ↦
      rw (e, add)
        (ground (arith, contains-add k j s, same_iff k j, same_iff j k), add-IsDistinct k s d.1)
]

pub append-IsDistinct :
    (k : String) (s : TextSet) → contains k s ≡ false → IsDistinct s → IsDistinct (s ++ k ∷ [])
unfolding contains
append-IsDistinct k [] h d = (refl, tt)
append-IsDistinct k (j ∷ s) h d = (
  ground (arith, contains-append j s (k ∷ []), same_iff k j, same_iff j k),
  append-IsDistinct k s (ground arith) d.1,
)

pub length-discard :
    (k : String) (s : TextSet)
    → IsDistinct s
    → length (discard k s) + (if contains k s then 1 else 0) ≡ length s
unfolding contains discard
length-discard k [] d = omega arith
length-discard k (j ∷ s) d =
    ground (arith, same_iff j k, length-discard k s d.1, discard_absent k s)

pub contains_one : (k j : String) → contains j (k ∷ []) ≡ same k j
unfolding contains
contains_one k j = ground arith

pub length-add :
    (k : String) (s : TextSet) → length (add k s) ≡ length s + (if contains k s then 0 else 1)
unfolding contains add
length-add k [] = omega arith
length-add k (j ∷ s) = ground (arith, length-add k s)
