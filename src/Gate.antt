-- ===== src/Gate.antt =====
-- packages/client/src/internal/gate.ts: a counting barrier. A releaser is known by its number, the
-- place of its `released` flag; a waiter by a number for its promise. `resolved` are the promises
-- that are settled, in the order in which they are.
pub mod Barrier
use stratasync.Prelude.{
  ℕ, zero, suc, ◌+◌, ◌-◌, Bool, true, false, not, List, [], ◌∷◌, ◌++◌, ltb, ◌==◌, length,
  if◌then◌else◌,
}

pub record Gate : Type 0 where
  pub holds : ℕ
  pub released : List Bool
  pub waiters : List ℕ
  pub resolved : List ℕ

abbrev pub open_gate : Gate
open_gate = record { holds = 0; released = []; waiters = []; resolved = [] }

-- The releaser is the number of holds before.
unfoldable pub hold : Gate → ℕ × Gate
hold g = (length g.released, record g { holds = g.holds + 1; released = g.released ++ false ∷ [] })

-- The flag of a releaser; there is no releaser that `hold` has not returned.
unfoldable pub is_released : ℕ → List Bool → Bool
is_released k [] = true
is_released zero (b ∷ flags) = b
is_released (suc k) (b ∷ flags) = is_released k flags

unfoldable pub mark_released : ℕ → List Bool → List Bool
mark_released k [] = []
mark_released zero (b ∷ flags) = true ∷ flags
mark_released (suc k) (b ∷ flags) = b ∷ mark_released k flags

-- The last part of a releaser: at zero holds the waiters are resolved.
unfoldable pub open_if_free : Gate → Gate
open_if_free g =
    if g.holds == 0 then record g { waiters = []; resolved = g.resolved ++ g.waiters } else g

unfoldable pub release : ℕ → Gate → Gate
release k g =
    if is_released k g.released
    then g
    else open_if_free (record g { released = mark_released k g.released; holds = g.holds - 1 })

unfoldable pub is_closed : Gate → Bool
is_closed g = ltb 0 g.holds

unfoldable pub when_open : ℕ → Gate → Gate
when_open w g =
    if g.holds == 0
    then record g { resolved = g.resolved ++ w ∷ [] }
    else record g { waiters = g.waiters ++ w ∷ [] }
