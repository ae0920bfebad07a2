-- ===== src/Hydration/Groups.antt =====
-- `areGroupsEqual` compares two lists as sets.
use stratasync.Prelude.{
  String, ◌≡◌, refl, sym, ◌∙◌, ◌↔◌, true, false, List, [], ◌∷◌, arith, ◌≤◌, length, same_iff,
  same_refl, if◌then◌else◌,
}
use stratasync.Prelude.TextSet.{
  TextSet, contains, add, discard, IsDistinct, contains-add, contains-discard, add-IsDistinct,
  discard-IsDistinct, length-discard,
}
use stratasync.Hydration.Privacy.{set_of, includes_all, are_groups_equal}

set_of-IsDistinct : (s : TextSet) (names : List String) → IsDistinct s → IsDistinct (set_of s names)
unfolding set_of
set_of-IsDistinct s [] d = d
set_of-IsDistinct s (a ∷ names) d = set_of-IsDistinct (add a s) names (add-IsDistinct a s d)

contains-set_of :
    (x : String) (s : TextSet) (names : List String)
    → contains x (set_of s names) ≡ (if contains x s then true else contains x names)
unfolding set_of contains
contains-set_of x s [] = ground arith
contains-set_of x s (a ∷ names) =
    contains-set_of x (add a s) names ∙ ground (arith, contains-add a x s, same_iff a x)

-- Dropping a name that is not asked for.
includes_all-discard :
    (b : String) (s t : TextSet)
    → contains b t ≡ false
    → includes_all s t ≡ true
    → includes_all (discard b s) t ≡ true
unfolding includes_all contains
includes_all-discard b s [] n h = refl
includes_all-discard b s (a ∷ t) n h =
    ground (arith, includes_all-discard b s t, contains-discard b a s, same_iff b a, same_iff a b)

length-includes_all :
    (s t : TextSet) → IsDistinct s → IsDistinct t → includes_all s t ≡ true → length t ≤ length s
unfolding includes_all
length-includes_all s [] ds dt h = omega arith
length-includes_all s (b ∷ t) ds dt h =
    let smaller =
      length-includes_all (discard b s) t (discard-IsDistinct b s ds) dt.1
        (includes_all-discard b s t dt.0 (ground arith)) in
    ground (arith, smaller, length-discard b s ds)

-- A set that holds all of another of its size holds nothing else.
contains-includes_all :
    (x : String) (s t : TextSet)
    → IsDistinct s
    → IsDistinct t
    → includes_all s t ≡ true
    → length s ≡ length t
    → contains x s ≡ contains x t
unfolding includes_all contains
contains-includes_all x [] [] ds dt h n = refl
contains-includes_all x (a ∷ s) [] ds dt h n = ground arith
contains-includes_all x s (b ∷ t) ds dt h n =
    let rest =
      contains-includes_all x (discard b s) t (discard-IsDistinct b s ds) dt.1
        (includes_all-discard b s t dt.0 (ground arith)) (ground (arith, length-discard b s ds)) in
    ground (arith, rest, contains-discard b x s, same_iff b x)

includes_all_of :
    (s t : TextSet)
    → ((x : String) → contains x t ≡ true → contains x s ≡ true)
    → includes_all s t ≡ true
unfolding includes_all contains
includes_all_of s [] h = refl
includes_all_of s (b ∷ t) h =
    let rest = includes_all_of s t (λ x e. h x (ground (arith, same_iff b x))) in
    ground (arith, rest, h b, same_refl b)

same_sets :
    (a b : List String)
    → ((x : String) → contains x a ≡ contains x b)
    → includes_all (set_of [] a) (set_of [] b) ≡ true
same_sets a b h =
    includes_all_of (set_of [] a) (set_of [] b)
      (λ x e. ground (arith, contains-set_of x [] a, contains-set_of x [] b, h x))

set_of_nil-IsDistinct : (a : List String) → IsDistinct (set_of [] a)
set_of_nil-IsDistinct a = set_of-IsDistinct [] a tt

same_lengths :
    (a b : List String)
    → ((x : String) → contains x a ≡ contains x b)
    → length (set_of [] a) ≡ length (set_of [] b)
same_lengths a b h = omega (
  arith,
  length-includes_all (set_of [] a) (set_of [] b) (set_of_nil-IsDistinct a)
      (set_of_nil-IsDistinct b) (same_sets a b h),
  length-includes_all (set_of [] b) (set_of [] a) (set_of_nil-IsDistinct b)
      (set_of_nil-IsDistinct a) (same_sets b a (λ x. sym (h x))),
)

-- Two group lists are equal just when they have the same members, in any order and however often.
pub are_groups_equal_iff :
    (a b : List String)
    → (are_groups_equal a b ≡ true) ↔ ((x : String) → contains x a ≡ contains x b)
unfolding are_groups_equal contains
are_groups_equal_iff a b = (
  (λ h x. ground (
    arith,
    contains-includes_all x (set_of [] a) (set_of [] b) (set_of_nil-IsDistinct a)
        (set_of_nil-IsDistinct b) (ground arith) (ground arith),
    contains-set_of x [] a,
    contains-set_of x [] b,
  )),
  (λ h. ground (arith, same_sets a b h, same_lengths a b h)),
)
