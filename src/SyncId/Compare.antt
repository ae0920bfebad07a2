-- ===== src/SyncId/Compare.antt =====
-- Comparing two sync ids as texts is comparing the numbers that they stand for.
use Prim.Native.Nat.{compare, max}
use native.Mathlib.Nat.{pow-suc, pow-le-pow_right, mul-le-mul_right}
use stratasync.Prelude.{
  ℕ, suc, ◌+◌, ◌-◌, ◌*◌, ◌^◌, ◌≤◌, ◌<◌, ◌≡◌, ap, ◌⊎◌, inl, inr, List, [], ◌∷◌, arith, Bool-cases,
  ltb, ◌==◌, if◌then◌else◌, length,
}
use stratasync.Prelude.Int.{pos, negsuc, sub_ℕ}
use stratasync.SyncId.{
  SyncId, normal, lt_text, compare_sync_id, max_sync_id, is_sync_id_greater_than, value, sign,
  is_nonnegative,
}
use stratasync.SyncId.Value.{IsDigits, IsNormal, value-lt-pow, value-normal, normal-IsNormal}

-- A shorter normal text stands for a smaller number.
pub value-lt_of_shorter :
    (xs ys : List ℕ) → IsNormal xs → IsNormal ys → length xs < length ys → value xs < value ys
value-lt_of_shorter xs ys nx ny h = omega (
  arith,
  value-lt-pow xs nx.digits,
  pow-suc 10 (length xs),
  pow-le-pow_right {n = 10} (omega arith) {i = suc (length xs)} {j = length ys} h,
  ny.floor,
  nx.not_empty,
)

-- Of two heads the smaller decides.
pub value-lt_of_head :
    (x y : ℕ) (xs ys : List ℕ)
    → IsDigits (x ∷ xs)
    → IsDigits (y ∷ ys)
    → length xs ≡ length ys
    → x < y
    → value (x ∷ xs) < value (y ∷ ys)
unfolding value
value-lt_of_head x y xs ys dx dy e h =
    let p : ℕ = 10 ^ length xs in
    let q : ℕ = 10 ^ length ys in
    let p_eq_q : p ≡ q = ap (λ k. 10 ^ k) e in
    let step : suc (x - b'0') * q ≤ (y - b'0') * q = mul-le-mul_right q (omega arith) in
    let scaled : (x - b'0') * p ≡ (x - b'0') * q = ap (λ k. (x - b'0') * k) p_eq_q in
    omega (arith, step, value-lt-pow xs dx.1, p_eq_q, scaled)

-- Equal heads do not matter.
pub value-eq_of_head :
    (x y : ℕ) (xs ys : List ℕ)
    → length xs ≡ length ys
    → x ≡ y
    → value (x ∷ xs) + value ys ≡ value (y ∷ ys) + value xs
unfolding value
value-eq_of_head x y xs ys e h =
    let scaled : (x - b'0') * 10 ^ length xs ≡ (y - b'0') * 10 ^ length ys = cc in
    omega (arith, scaled)

-- Among texts of one length the order of texts is the order of numbers.
pub lt_text-value :
    (xs ys : List ℕ)
    → IsDigits xs
    → IsDigits ys
    → length xs ≡ length ys
    → lt_text xs ys ≡ ltb (value xs) (value ys)
unfolding lt_text
lt_text-value [] [] dx dy e = ground arith
lt_text-value [] (y ∷ ys) dx dy e = absurd (omega arith)
lt_text-value (x ∷ xs) [] dx dy e = absurd (omega arith)
lt_text-value (x ∷ xs) (y ∷ ys) dx dy e = ground (
  arith,
  lt_text-value xs ys dx.1 dy.1 (omega arith),
  value-lt_of_head x y xs ys,
  value-lt_of_head y x ys xs,
  value-eq_of_head x y xs ys,
)

-- A comparison by what is known of the lengths and of the order of the texts.
compare_normal :
    (a b : List ℕ)
    → IsNormal a
    → IsNormal b
    → sign (
        if length a == length b
        then if lt_text a b then negsuc 0 else if lt_text b a then pos 1 else pos 0
        else sub_ℕ (length a) (length b))
      ≡ compare (value a) (value b)
compare_normal a b na nb = ground (
  arith,
  lt_text-value a b na.digits nb.digits,
  lt_text-value b a nb.digits na.digits,
  value-lt_of_shorter a b na nb,
  value-lt_of_shorter b a nb na,
)

-- The sign of `compareSyncId` on two texts of digits is the order of the numbers that they stand
-- for, leading zeros or not.
pub sign-compare_sync_id :
    (a b : SyncId)
    → IsDigits a
    → IsDigits b
    → sign (compare_sync_id a b) ≡ compare (value a) (value b)
unfolding compare_sync_id
sign-compare_sync_id a b da db =
    rw (← value-normal a, ← value-normal b)
      (compare_normal (normal a) (normal b) (normal-IsNormal a da) (normal-IsNormal b db))

-- `isSyncIdGreaterThan` is the strict order of the numbers.
pub is_sync_id_greater_than-value :
    (a b : SyncId) → IsDigits a → IsDigits b → is_sync_id_greater_than a b ≡ ltb (value b) (value a)
unfolding is_sync_id_greater_than
is_sync_id_greater_than-value a b da db = ground (arith, sign-compare_sync_id a b da db)

-- `maxSyncId` returns one of its arguments, a text of digits, that stands for the larger number.
pub max_sync_id-value :
    (a b : SyncId)
    → IsDigits a
    → IsDigits b
    → (value (max_sync_id a b) ≡ max (value a) (value b))
      × ((max_sync_id a b ≡ a) ⊎ (max_sync_id a b ≡ b))
unfolding max_sync_id
max_sync_id-value a b da db = ground (arith, sign-compare_sync_id a b da db)

pub max_sync_id-IsDigits : (a b : SyncId) → IsDigits a → IsDigits b → IsDigits (max_sync_id a b)
unfolding max_sync_id
max_sync_id-IsDigits a b da db = elim (Bool-cases (is_nonnegative (compare_sync_id a b))) [
  | inl e ↦ rw (e, max_sync_id) da
  | inr e ↦ rw (e, max_sync_id) db
]
