-- ===== src/SyncId/Codec.antt =====
-- Writing a sync id as a text and reading it back, on both sides of the wire.
use native.Mathlib.Nat.{pow-suc, mul-le-mul_right}
use stratasync.Prelude.{
  ℕ, zero, suc, ◌+◌, ◌-◌, ◌*◌, ◌/◌, ◌%◌, ◌^◌, ◌≤◌, ◌<◌, ◌≡◌, refl, sym, ap, ap₂, subst, ◌∙◌, inl,
  inr, true, List, [], ◌∷◌, arith, Bool-cases, ltb, length,
}
use stratasync.SyncId.{
  Wire, text, other, ok, all_digits, matches_sync_id, normal, value, parse, parse_sync_id,
  compare_sync_id, compare_bigint, digits_from, serialize, sign,
}
use stratasync.SyncId.Value.{
  IsDigits, IsNormal, matches_sync_id-IsDigits, value-normal, normal-IsNormal,
}
use stratasync.SyncId.Compare.{
  value-lt_of_shorter, value-lt_of_head, value-eq_of_head, sign-compare_sync_id,
}

split_digit : (m p : ℕ) → m * p ≡ m / 10 * (p * 10) + m % 10 * p
split_digit m p = let e : m ≡ m / 10 * 10 + m % 10 = omega arith in omega (arith, ap (λ k. k * p) e)

-- What `digits_from` writes: the digits of `n` in front of `tail`.
digits_from-value :
    (f n : ℕ) (tail : List ℕ)
    → n < f
    → value (digits_from f n tail) ≡ n * 10 ^ length tail + value tail
unfolding digits_from value
digits_from-value zero n tail h = elim h [ ]
digits_from-value (suc f) n tail h = ground (
  arith,
  digits_from-value f (n / 10) ((b'0' + n % 10) ∷ tail),
  pow-suc 10 (length tail),
  split_digit n (10 ^ length tail),
)

digits_from-IsDigits :
    (f n : ℕ) (tail : List ℕ) → IsDigits tail → n < f → IsDigits (digits_from f n tail)
unfolding digits_from
digits_from-IsDigits zero n tail d h = elim h [ ]
digits_from-IsDigits (suc f) n tail d h = elim (Bool-cases (ltb n 10)) [
  | inl small ↦ rw small ((ground arith, ground arith), d)
  | inr big ↦ rw big (
      digits_from-IsDigits f (n / 10) ((b'0' + n % 10) ∷ tail) ((omega arith, omega arith), d)
        (ground arith))
]

-- It writes a digit at least, and no leading zero for a positive number.
digits_from-floor :
    (f n : ℕ) (tail : List ℕ)
    → 0 < n
    → n < f
    → 10 ^ length (digits_from f n tail) ≤ 10 * value (digits_from f n tail)
unfolding digits_from value
digits_from-floor zero n tail p h = elim h [ ]
digits_from-floor (suc f) n tail p h = elim (Bool-cases (ltb n 10)) [
  | inl small ↦
      let q : ℕ = 10 ^ length tail in
      let step : 1 * q ≤ (b'0' + n - b'0') * q = mul-le-mul_right q (omega arith) in
      rw small (omega (arith, step, pow-suc 10 (length tail)))
  | inr big ↦
      rw big (digits_from-floor f (n / 10) ((b'0' + n % 10) ∷ tail) (ground arith) (ground arith))
]

digits_from-not_empty : (f n : ℕ) (tail : List ℕ) → n < f → 1 ≤ length (digits_from f n tail)
unfolding digits_from
digits_from-not_empty zero n tail h = elim h [ ]
digits_from-not_empty (suc f) n tail h =
    ground (arith, digits_from-not_empty f (n / 10) ((b'0' + n % 10) ∷ tail))

pub value-serialize : (n : ℕ) → value (serialize n) ≡ n
unfolding serialize
value-serialize n = digits_from-value (suc n) n [] (omega arith) ∙ unfold value in omega arith

pub serialize-IsDigits : (n : ℕ) → IsDigits (serialize n)
unfolding serialize
serialize-IsDigits n = digits_from-IsDigits (suc n) n [] tt (omega arith)

pub serialize-IsNormal : (n : ℕ) → IsNormal (serialize n)
unfolding serialize
serialize-IsNormal zero = record {
  digits = serialize-IsDigits 0;
  not_empty = digits_from-not_empty 1 0 [] (omega arith);
  floor = inl (unfold digits_from in refl);
}
serialize-IsNormal (suc n) = record {
  digits = serialize-IsDigits (suc n);
  not_empty = digits_from-not_empty (suc (suc n)) (suc n) [] (omega arith);
  floor = inr (digits_from-floor (suc (suc n)) (suc n) [] (omega arith) (omega arith));
}

all_digits_of_IsDigits : (cs : List ℕ) → IsDigits cs → all_digits cs ≡ true
unfolding all_digits
all_digits_of_IsDigits [] h = refl
all_digits_of_IsDigits (c ∷ cs) h = ground (arith, all_digits_of_IsDigits cs h.1)

matches_of_IsNormal : (cs : List ℕ) → IsNormal cs → matches_sync_id cs ≡ true
unfolding matches_sync_id
matches_of_IsNormal [] h = absurd (omega (arith, h.not_empty))
matches_of_IsNormal (c ∷ cs) h = all_digits_of_IsDigits (c ∷ cs) h.digits

-- Two texts of one length that stand for one number are the same.
eq_of_value :
    (xs ys : List ℕ)
    → IsDigits xs
    → IsDigits ys
    → length xs ≡ length ys
    → value xs ≡ value ys
    → xs ≡ ys
eq_of_value [] [] dx dy e v = refl
eq_of_value [] (y ∷ ys) dx dy e v = absurd (omega arith)
eq_of_value (x ∷ xs) [] dx dy e v = absurd (omega arith)
eq_of_value (x ∷ xs) (y ∷ ys) dx dy e v =
    let same_length : length xs ≡ length ys = omega arith in
    let x_eq_y : x ≡ y =
      ground
        (arith, value-lt_of_head x y xs ys dx dy same_length, value-lt_of_head y x ys xs dy dx) in
    let rest : xs ≡ ys =
      eq_of_value xs ys dx.1 dy.1 same_length
        (omega (arith, value-eq_of_head x y xs ys same_length x_eq_y)) in
    ap₂ (λ c cs. c ∷ cs) x_eq_y rest

eq_of_value_normal : (xs ys : List ℕ) → IsNormal xs → IsNormal ys → value xs ≡ value ys → xs ≡ ys
eq_of_value_normal xs ys nx ny v =
    eq_of_value xs ys nx.digits ny.digits
      (ground (arith, value-lt_of_shorter xs ys nx ny, value-lt_of_shorter ys xs ny nx)) v

-- The server reads back every sync id that it writes.
pub parse-serialize : (n : ℕ) → parse (serialize n) ≡ ok n
unfolding parse
parse-serialize n =
    rw (matches_of_IsNormal (serialize n) (serialize-IsNormal n)) (ap ok (value-serialize n))

-- A text of digits, read by the server and written again, comes out without its leading zeros.
pub serialize-value : (cs : List ℕ) → IsDigits cs → serialize (value cs) ≡ normal cs
serialize-value cs d =
    eq_of_value_normal (serialize (value cs)) (normal cs) (serialize-IsNormal (value cs))
      (normal-IsNormal cs d) (value-serialize (value cs) ∙ sym (value-normal cs))

-- The client accepts every sync id that the server writes, as it stands.
pub parse_sync_id-serialize : (n : ℕ) → parse_sync_id (text (serialize n)) ≡ ok (serialize n)
unfolding parse_sync_id
parse_sync_id-serialize n = rw (matches_of_IsNormal (serialize n) (serialize-IsNormal n))

-- What `parseSyncId` accepts is a text of digits, unchanged.
pub parse_sync_id-IsDigits :
    (w : Wire) (s : List ℕ) → parse_sync_id w ≡ ok s → (w ≡ text s) × IsDigits s
unfolding parse_sync_id
parse_sync_id-IsDigits other s h = cc
parse_sync_id-IsDigits (text v) s h = elim (Bool-cases (matches_sync_id v)) [
  | inl e ↦
      let v_eq_s : v ≡ s = ground arith in
      (ap text v_eq_s, subst IsDigits v_eq_s (matches_sync_id-IsDigits v e))
  | inr e ↦ absurd (ground arith)
]

-- The order of sync ids is the same on both sides: the client's `compareSyncId` on what the server
-- writes has the sign of the server's `SyncId.compare`.
pub sign-compare_sync_id-serialize :
    (m n : ℕ) → sign (compare_sync_id (serialize m) (serialize n)) ≡ sign (compare_bigint m n)
unfolding compare_bigint
sign-compare_sync_id-serialize m n = ground (
  arith,
  sign-compare_sync_id (serialize m) (serialize n) (serialize-IsDigits m) (serialize-IsDigits n),
  value-serialize m,
  value-serialize n,
)
