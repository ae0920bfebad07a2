-- ===== src/SyncId.antt =====
-- packages/core/src/sync/sync-id.ts and packages/server/src/core/sync-id.ts. A sync id on the
-- wire is a text, here the list of its code units; the server holds it as a bigint, here a number.
pub mod Value
pub mod Compare
pub mod Codec
use Prim.Native.Nat.{compare, Ordering}
use stratasync.Prelude.{
  ℕ, zero, suc, ◌+◌, ◌-◌, ◌*◌, ◌/◌, ◌%◌, ◌^◌, Bool, true, false, ◌&&◌, List, [], ◌∷◌, ltb, leb,
  ◌==◌, if◌then◌else◌, length,
}
use stratasync.Prelude.Int.{ℤ, pos, negsuc, sub_ℕ}

abbrev pub SyncId : Type 0
SyncId = List ℕ

-- "0"
abbrev pub zero_sync_id : SyncId
zero_sync_id = b'0' ∷ []

-- `a.replace(/^0+/, "")`
unfoldable pub strip_zeros : SyncId → SyncId
strip_zeros [] = []
strip_zeros (c ∷ cs) = if c == b'0' then strip_zeros cs else c ∷ cs

abbrev or_zero : SyncId → SyncId
or_zero [] = zero_sync_id
or_zero (c ∷ cs) = c ∷ cs

-- `a.replace(LEADING_ZEROS, "") || "0"`
unfoldable pub normal : SyncId → SyncId
normal a = or_zero (strip_zeros a)

-- `<` on texts: by code units, a proper prefix first
unfoldable pub lt_text : List ℕ → List ℕ → Bool
lt_text [] [] = false
lt_text [] (y ∷ ys) = true
lt_text (x ∷ xs) [] = false
lt_text (x ∷ xs) (y ∷ ys) = if ltb x y then true else if ltb y x then false else lt_text xs ys

unfoldable pub compare_sync_id : SyncId → SyncId → ℤ
compare_sync_id a b =
    let a' = normal a in
    let b' = normal b in
    if length a' == length b'
    then if lt_text a' b' then negsuc 0 else if lt_text b' a' then pos 1 else pos 0
    else sub_ℕ (length a') (length b')

-- `n > 0` and `n >= 0`
abbrev is_positive : ℤ → Bool
is_positive (pos zero) = false
is_positive (pos (suc n)) = true
is_positive (negsuc n) = false

abbrev is_nonnegative : ℤ → Bool
is_nonnegative (pos n) = true
is_nonnegative (negsuc n) = false

unfoldable pub max_sync_id : SyncId → SyncId → SyncId
max_sync_id a b = if is_nonnegative (compare_sync_id a b) then a else b

unfoldable pub is_sync_id_greater_than : SyncId → SyncId → Bool
is_sync_id_greater_than a b = is_positive (compare_sync_id a b)

abbrev is_digit : ℕ → Bool
is_digit c = leb b'0' c && leb c b'9'

all_digits : List ℕ → Bool
all_digits [] = true
all_digits (c ∷ cs) = is_digit c && all_digits cs

-- `/^\d+$/.test(value)`
unfoldable pub matches_sync_id : List ℕ → Bool
unfolding all_digits
matches_sync_id [] = false
matches_sync_id (c ∷ cs) = all_digits (c ∷ cs)

-- What arrives in place of a sync id: a text, or a value of another type.
pub data Wire : Type 0 where
  text : List ℕ → Wire
  other : Wire

pub data ParseError : Type 0 where
  not_a_string not_an_integer : ParseError

pub data Parsed (A : Type 0) : Type 0 where
  ok : A → Parsed A
  throw : ParseError → Parsed A

-- `parseSyncId` of the client.
unfoldable pub parse_sync_id : Wire → Parsed SyncId
parse_sync_id other = throw not_a_string
parse_sync_id (text value) = if matches_sync_id value then ok value else throw not_an_integer

-- The number that a text of decimal digits stands for: `BigInt(value)`.
unfoldable pub value : List ℕ → ℕ
value [] = 0
value (c ∷ cs) = (c - b'0') * 10 ^ length cs + value cs

-- `SyncId.parse` of the server.
unfoldable pub parse : List ℕ → Parsed ℕ
parse wire = if matches_sync_id wire then ok (value wire) else throw not_an_integer

-- The digits of `n` before `tail`: `n.toString()`, with `f` rounds at most.
unfoldable pub digits_from : ℕ → ℕ → List ℕ → List ℕ
digits_from zero n tail = tail
digits_from (suc f) n tail =
    let rest = digits_from f (n / 10) ((b'0' + n % 10) ∷ tail) in
    if ltb n 10 then (b'0' + n) ∷ tail else rest

-- `SyncId.serialize` of the server; a number has fewer digits than itself plus one.
unfoldable pub serialize : ℕ → List ℕ
serialize n = digits_from (suc n) n []

-- `SyncId.compare` and `SyncId.isAfter` of the server.
unfoldable pub compare_bigint : ℕ → ℕ → ℤ
compare_bigint left right =
    if left == right then pos 0 else if ltb left right then negsuc 0 else pos 1

unfoldable pub is_after : ℕ → ℕ → Bool
is_after left right = ltb right left

-- Which side of zero a comparison's result lies on.
abbrev pub sign : ℤ → Ordering
sign (pos zero) = Ordering.eq
sign (pos (suc n)) = Ordering.gt
sign (negsuc n) = Ordering.lt
