-- ===== src/Value.antt =====
-- Values that the engine passes through without knowing their type (`unknown`), and plain objects
-- of them (`Record<string, unknown>`). packages/core/src/utils/records.ts.
pub mod Laws
use stratasync.Prelude.{ℕ, String, Bool, List, [], ◌∷◌, Option, none, some}
use stratasync.Prelude.Int.{ℤ}
use stratasync.Prelude.Dict.{Dict}

-- `number` is an integral number: the engine reads timestamps, and computes with no other.
-- `object` is an array or a nested object, which the engine never opens, under some name for it.
pub data Value : Type 0 where
  undefined null : Value
  boolean : Bool → Value
  number : ℤ → Value
  text : String → Value
  object : ℕ → Value

abbrev pub Row : Type 0
Row = Dict Value

unfoldable pub null_if_undefined : Value → Value
null_if_undefined undefined = null
null_if_undefined v = v

unfoldable pub replace_undefined_with_null : Row → Row
unfolding null_if_undefined
replace_undefined_with_null [] = []
replace_undefined_with_null ((k, v) ∷ r) = (k, null_if_undefined v) ∷ replace_undefined_with_null r
