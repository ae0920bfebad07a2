-- ===== src/SyncId/Value.antt =====
-- The number behind a text of digits, and what stripping zeros does to it.
use native.Mathlib.Nat.{pow-suc, mul-le-mul_right}
use stratasync.Prelude.{
  ℕ, suc, ◌-◌, ◌*◌, ◌^◌, ◌≤◌, ◌<◌, ◌≡◌, refl, ◌∙◌, ◌⊎◌, inl, inr, true, List, [], ◌∷◌, arith,
  Bool-cases, ◌==◌, length,
}
use stratasync.SyncId.{strip_zeros, normal, or_zero, value, matches_sync_id, all_digits}

-- A digit, and a text of digits.
abbrev pub IsDigit : ℕ → Type 0
IsDigit c = (b'0' ≤ c) × (c ≤ b'9')

abbrev pub IsDigits : List ℕ → Type 0
IsDigits [] = Unit
IsDigits (c ∷ cs) = IsDigit c × IsDigits cs

all_digits-IsDigits : (cs : List ℕ) → all_digits cs ≡ true → IsDigits cs
unfolding all_digits
all_digits-IsDigits [] h = tt
all_digits-IsDigits (c ∷ cs) h = (ground arith, all_digits-IsDigits cs (ground arith))

pub matches_sync_id-IsDigits : (cs : List ℕ) → matches_sync_id cs ≡ true → IsDigits cs
unfolding matches_sync_id
matches_sync_id-IsDigits [] h = tt
matches_sync_id-IsDigits (c ∷ cs) h = all_digits-IsDigits (c ∷ cs) h

-- A text of `k` digits stands for less than `10 ^ k`.
pub value-lt-pow : (cs : List ℕ) → IsDigits cs → value cs < 10 ^ length cs
unfolding value
value-lt-pow [] h = omega arith
value-lt-pow (c ∷ cs) h =
    let p : ℕ = 10 ^ length cs in
    let step : (c - b'0') * p ≤ 9 * p = mul-le-mul_right p (omega arith) in
    omega (arith, value-lt-pow cs h.1, pow-suc 10 (length cs), step)

pub value-strip_zeros : (cs : List ℕ) → value (strip_zeros cs) ≡ value cs
unfolding value strip_zeros
value-strip_zeros [] = refl
value-strip_zeros (c ∷ cs) = ground (arith, value-strip_zeros cs)

-- What `normal` leaves: no leading zero unless it is the whole text.
pub record IsNormal (cs : List ℕ) : Type 0 where
  pub digits : IsDigits cs
  pub not_empty : 1 ≤ length cs
  pub floor : (length cs ≡ 1) ⊎ (10 ^ length cs ≤ 10 * value cs)

floor_of_head : (c : ℕ) (cs : List ℕ) → b'0' < c → 10 ^ suc (length cs) ≤ 10 * value (c ∷ cs)
unfolding value
floor_of_head c cs h =
    let p : ℕ = 10 ^ length cs in
    let step : 1 * p ≤ (c - b'0') * p = mul-le-mul_right p (omega arith) in
    omega (arith, step, pow-suc 10 (length cs))

value-or_zero : (cs : List ℕ) → value (or_zero cs) ≡ value cs
unfolding value
value-or_zero [] = refl
value-or_zero (c ∷ cs) = refl

pub value-normal : (cs : List ℕ) → value (normal cs) ≡ value cs
unfolding normal
value-normal cs = value-or_zero (strip_zeros cs) ∙ value-strip_zeros cs

pub normal-IsNormal : (cs : List ℕ) → IsDigits cs → IsNormal (normal cs)
unfolding normal strip_zeros
normal-IsNormal [] h = record { digits = omega arith; not_empty = omega arith; floor = inl refl }
normal-IsNormal (c ∷ cs) h = elim (Bool-cases (c == b'0')) [
  | inl e ↦ rw (e, normal, strip_zeros) (normal-IsNormal cs h.1)
  | inr e ↦
      rw (e, normal, strip_zeros)
        (record {
          digits = h;
          not_empty = omega arith;
          floor = inr (floor_of_head c cs (ground arith));
        })
]
