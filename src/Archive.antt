-- ===== src/Archive.antt =====
-- packages/core/src/transaction/archive.ts: the `archivedAt` field of a row, and how it is read.
-- `Date.parse` is the host's: a parameter, with `none` for NaN. The clock is an argument.
use Prim.Native.Char.{code}
use stratasync.Prelude.{
  ℕ, zero, suc, String, Bool, true, false, ◌&&◌, ◌||◌, List, [], ◌∷◌, Option, none, some, leb, ◌==◌,
  if◌then◌else◌,
}
use stratasync.Prelude.Int.{ℤ}
use stratasync.Prelude.Dict.{lookup, get_or}
use stratasync.Prelude.Maybe.{◌>>=◌}
use stratasync.Value.{Value, Row, undefined, null, number, text}

abbrev codes : String → List ℕ
codes String.[] = []
codes (String.◌∷◌ c s) = code c ∷ codes s

abbrev is_digit : ℕ → Bool
is_digit c = leb b'0' c && leb c b'9'

-- One character that passes the test, then the rest.
abbrev eat : (ℕ → Bool) → List ℕ → Option (List ℕ)
eat test [] = none
eat test (c ∷ cs) = if test c then some cs else none

-- `\d{k}`
eat_digits : ℕ → List ℕ → Option (List ℕ)
eat_digits zero cs = some cs
eat_digits (suc k) cs = do rest ← eat is_digit cs; eat_digits k rest

-- `[0-9:.+Z-]`
is_time_char : ℕ → Bool
is_time_char c = is_digit c || c == b':' || c == b'.' || c == b'+' || c == b'Z' || c == b'-'

all_time_chars : List ℕ → Bool
unfolding is_time_char
all_time_chars [] = true
all_time_chars (c ∷ cs) = is_time_char c && all_time_chars cs

-- `(?:[T ][0-9:.+Z-]+)?$`
matches_time : List ℕ → Bool
unfolding all_time_chars
matches_time [] = true
matches_time (c ∷ []) = false
matches_time (c ∷ d ∷ cs) = (c == b'T' || c == b' ') && all_time_chars (d ∷ cs)

-- `ISO_ARCHIVE_TIMESTAMP_REGEX.test(value)`
unfoldable pub is_iso_timestamp : List ℕ → Bool
unfolding eat_digits matches_time
is_iso_timestamp cs =
    elim (do
      a ← eat_digits 4 cs
      b ← eat (λ c. c == b'-') a
      d ← eat_digits 2 b
      e ← eat (λ c. c == b'-') d
      eat_digits 2 e) [ none ↦ false | some time ↦ matches_time time ]

abbrev pub archived_at : String
archived_at = "archivedAt"

-- `record?.archivedAt`
abbrev pub field_of : Option Row → String → Value
field_of none k = undefined
field_of (some r) k = get_or (lookup k r) undefined

module _ (date_parse : String → Option ℤ) where
  unfoldable pub read_timestamp : Value → Option ℤ
  read_timestamp (number t) = some t
  read_timestamp (text s) = if is_iso_timestamp (codes s) then date_parse s else none
  read_timestamp _ = none

  unfoldable pub read_archived_at : Option Row → Option ℤ
  read_archived_at record_ = read_timestamp (field_of record_ archived_at)

  abbrev or_null : Option ℤ → Value
  or_null none = null
  or_null (some t) = number t

  unfoldable pub capture_archive_state : Option Row → Row
  capture_archive_state record_ = (archived_at, or_null (read_archived_at record_)) ∷ []

-- `createArchivePayload`: the clock is read only where no time is given.
unfoldable pub create_archive_payload : Option ℤ → ℤ → Row
create_archive_payload time now = (archived_at, number (get_or time now)) ∷ []

unfoldable pub create_unarchive_patch : Row
create_unarchive_patch = (archived_at, null) ∷ []

unfoldable pub create_unarchive_payload : Row
create_unarchive_payload = []
