-- ===== src/Tests/SyncIds.antt =====
-- Sync ids on concrete input.
use Prim.Native.Nat.{compare}
use stratasync.Prelude.{◌≡◌, refl, [], ◌∷◌, arith, ltb}
use stratasync.SyncId.{
  SyncId, compare_sync_id, is_sync_id_greater_than, text, ok, matches_sync_id, parse_sync_id, value,
  serialize, compare_bigint, sign,
}
use stratasync.SyncId.Value.{IsDigits}
use stratasync.SyncId.Compare.{sign-compare_sync_id, is_sync_id_greater_than-value}
use stratasync.SyncId.Codec.{sign-compare_sync_id-serialize}

-- "007" and "12"
abbrev seven : SyncId
seven = b'0' ∷ b'0' ∷ b'7' ∷ []

abbrev twelve : SyncId
twelve = b'1' ∷ b'2' ∷ []

seven-IsDigits : IsDigits seven
seven-IsDigits = omega arith

twelve-IsDigits : IsDigits twelve
twelve-IsDigits = omega arith

sign-compare_sync_id_example :
    sign (compare_sync_id seven twelve) ≡ compare (value seven) (value twelve)
sign-compare_sync_id_example = sign-compare_sync_id seven twelve seven-IsDigits twelve-IsDigits

is_sync_id_greater_than-value_example :
    is_sync_id_greater_than seven twelve ≡ ltb (value twelve) (value seven)
is_sync_id_greater_than-value_example =
    is_sync_id_greater_than-value seven twelve seven-IsDigits twelve-IsDigits

twelve_parses : parse_sync_id (text twelve) ≡ ok twelve
unfolding parse_sync_id matches_sync_id
twelve_parses = refl

sign-compare_sync_id-serialize_example :
    sign (compare_sync_id (serialize 9) (serialize 10)) ≡ sign (compare_bigint 9 10)
sign-compare_sync_id-serialize_example = sign-compare_sync_id-serialize 9 10
