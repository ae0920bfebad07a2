-- ===== src/Value/Laws.antt =====
-- What reading a field gives after `replaceUndefinedWithNull`.
use mathlib.Core.Option
use stratasync.Prelude.{String, ◌≡◌, refl, ◌≢◌, ◌∷◌, [], arith}
use stratasync.Prelude.Dict.{lookup, has_key}
use stratasync.Value.{Value, Row, undefined, null_if_undefined, replace_undefined_with_null}

pub null_if_undefined-ne : (v : Value) → null_if_undefined v ≢ undefined
unfolding null_if_undefined
null_if_undefined-ne v = ground arith

-- Each field keeps its place, and `undefined` becomes `null`.
pub lookup-replace_undefined_with_null :
    (k : String) (r : Row)
    → lookup k (replace_undefined_with_null r) ≡ Option.map null_if_undefined (lookup k r)
unfolding lookup replace_undefined_with_null
lookup-replace_undefined_with_null k [] = refl
lookup-replace_undefined_with_null k ((j, v) ∷ r) =
    ground (arith, lookup-replace_undefined_with_null k r)

pub has_key-replace_undefined_with_null :
    (k : String) (r : Row) → has_key k (replace_undefined_with_null r) ≡ has_key k r
unfolding has_key replace_undefined_with_null
has_key-replace_undefined_with_null k [] = refl
has_key-replace_undefined_with_null k ((j, v) ∷ r) =
    ground (arith, has_key-replace_undefined_with_null k r)
