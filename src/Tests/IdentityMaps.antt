-- ===== src/Tests/IdentityMaps.antt =====
-- Identity maps on concrete input.
use stratasync.Prelude.{
  ℕ, String, ◌≡◌, Bool, true, false, ◌||◌, List, [], ◌∷◌, none, some, length, same, if◌then◌else◌,
}
use stratasync.Prelude.Int.{pos}
use stratasync.Prelude.Dict.{lookup}
use stratasync.Prelude.TextSet.{contains}
use stratasync.Value.{Row, number}
use stratasync.IdentityMap.{IdentityMap, empty, plain, set}
use stratasync.IdentityMap.Invariant.{IsValid}
use stratasync.IdentityMap.Reads.{
  Call, gets, sets, merges, run, fits, unsettled, run-empty-IsValid, lookup-set,
}
use stratasync.IdentityMap.Registry.{Registry, empty_registry, set_eviction_policy}

abbrev count_row : ℕ → Row
count_row n = ("count", number (pos n)) ∷ []

-- Four calls on a map for two instances.
abbrev four_calls : List (Call Row (Unit {0}))
four_calls =
    sets "a" (count_row 1) tt
    ∷ sets "b" (count_row 2) tt
    ∷ gets "a"
    ∷ merges "c" (count_row 3) tt
    ∷ []

abbrev small_map : IdentityMap Row
small_map = run plain (empty (some 2)) four_calls

run-empty-IsValid_example :
    IsValid small_map
    × ((unsettled false four_calls || fits small_map.max_size (length small_map.entries)) ≡ true)
run-empty-IsValid_example = run-empty-IsValid plain (some 2) four_calls

small_map-IsValid : IsValid small_map
small_map-IsValid = (run-empty-IsValid plain (some 2) four_calls).0

-- Two instances, held in a map whose bound was lowered to one.
abbrev crowded : IdentityMap Row
crowded = record small_map { max_size = some 1 }

crowded-IsValid : IsValid crowded
crowded-IsValid = small_map-IsValid

lookup-set_example : lookup "a" (set plain "d" (count_row 4) tt small_map).0.entries ≡ (
    if same "d" "a"
    then some (count_row 4)
    else if contains "a" (set plain "d" (count_row 4) tt small_map).1
    then none
    else lookup "a" small_map.entries)
unfolding plain
lookup-set_example = lookup-set plain "d" "a" (count_row 4) tt small_map small_map-IsValid

-- A registry in which only issues may be evicted, with one issue in a map of one.
abbrev only_issues : String → Bool
only_issues name = same name "Issue"

abbrev registry : Registry Row
registry = set_eviction_policy only_issues (empty_registry (some 1))
