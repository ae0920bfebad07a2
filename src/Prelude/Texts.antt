-- ===== src/Prelude/Texts.antt =====
-- Equality of texts as a Boolean test, `===` on strings in the program, kept shut behind its laws.
use Prim.Native.String.{String}
use mathlib.Core.Path.{◌≡◌, refl}
use mathlib.Core.Logic.{◌↔◌, ◌≢◌}
use mathlib.Core.Bool.{Bool, true, false}
use native.Mathlib.Omega.{arith}
use text.Mathlib.Text.{◌==◌ as str_eq}
use text.Mathlib.TextEquality.{eq_iff}

unfoldable pub same : String → String → Bool
same s t = str_eq s t

pub same_iff : (s t : String) → (same s t ≡ true) ↔ (s ≡ t)
unfolding same
same_iff s t = eq_iff s t

pub same_refl : (s : String) → same s s ≡ true
same_refl s = (same_iff s s).1 refl

pub same-false : (s t : String) → s ≢ t → same s t ≡ false
same-false s t h = ground (arith, same_iff s t)

pub same_comm : (s t : String) → same s t ≡ same t s
same_comm s t = ground (arith, same_iff s t, same_iff t s)
