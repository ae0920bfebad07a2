-- ===== src/Gate/Barrier.antt =====
-- What the barrier keeps over any history of calls.
use mathlib.Core.List.{append-nil, append_assoc}
use stratasync.Prelude.{
  ℕ, zero, suc, ◌+◌, ◌-◌, ◌≡◌, refl, sym, ap, ◌∙◌, inl, inr, Bool, true, false, List, [], ◌∷◌, ◌++◌,
  arith, ltb, ◌==◌, Bool-cases, if◌then◌else◌,
}
use stratasync.Gate.{
  Gate, open_gate, hold, is_released, mark_released, open_if_free, release, when_open, is_closed,
}

pub data Call : Type 0 where
  holds_ : Call
  releases waits : ℕ → Call

unfoldable pub step : Gate → Call → Gate
step g holds_ = (hold g).1
step g (releases k) = release k g
step g (waits w) = when_open w g

unfoldable pub run : Gate → List Call → Gate
run g [] = g
run g (c ∷ calls) = run (step g c) calls

-- How many flags are not set.
unfoldable pub unreleased : List Bool → ℕ
unreleased [] = 0
unreleased (true ∷ flags) = unreleased flags
unreleased (false ∷ flags) = suc (unreleased flags)

-- Those that waited, in order.
unfoldable pub waited : List Call → List ℕ
waited [] = []
waited (waits w ∷ calls) = w ∷ waited calls
waited (holds_ ∷ calls) = waited calls
waited (releases k ∷ calls) = waited calls

pub record IsValid (g : Gate) : Type 0 where
  pub counted : g.holds ≡ unreleased g.released
  pub nobody_waits : (if g.holds == 0 then [] else g.waiters) ≡ g.waiters

unreleased-append : (flags : List Bool) → unreleased (flags ++ false ∷ []) ≡ unreleased flags + 1
unfolding unreleased
unreleased-append [] = refl
unreleased-append (true ∷ flags) = unreleased-append flags
unreleased-append (false ∷ flags) = omega (arith, unreleased-append flags)

unreleased-mark_released :
    (k : ℕ) (flags : List Bool)
    → is_released k flags ≡ false
    → unreleased (mark_released k flags) + 1 ≡ unreleased flags
unfolding unreleased is_released mark_released
unreleased-mark_released k [] h = cc
unreleased-mark_released zero (true ∷ flags) h = cc
unreleased-mark_released zero (false ∷ flags) h = omega arith
unreleased-mark_released (suc k) (true ∷ flags) h = unreleased-mark_released k flags h
unreleased-mark_released (suc k) (false ∷ flags) h =
    omega (arith, unreleased-mark_released k flags h)

step-IsValid : (g : Gate) (c : Call) → IsValid g → IsValid (step g c)
unfolding step hold release open_if_free when_open
step-IsValid g holds_ v = record {
  counted = omega (arith, v.counted, unreleased-append g.released);
  nobody_waits = ground arith;
}
step-IsValid g (releases k) v = elim (Bool-cases (is_released k g.released)) [
  | inl e ↦ rw e v
  | inr e ↦ rw e (elim (Bool-cases (g.holds - 1 == 0)) [
    | inl z ↦ rw z (record {
      counted = omega (arith, v.counted, unreleased-mark_released k g.released e);
      nobody_waits = ground arith;
    })
    | inr z ↦ rw z (record {
      counted = omega (arith, v.counted, unreleased-mark_released k g.released e);
      nobody_waits = ground arith;
    })
  ])
]
step-IsValid g (waits w) v = elim (Bool-cases (g.holds == 0)) [
  | inl z ↦ rw z (record { counted = v.counted; nobody_waits = v.nobody_waits })
  | inr z ↦ rw z (record { counted = v.counted; nobody_waits = ground arith })
]

-- Where the gate is left after a history, and who has been served.
pub run-IsValid : (g : Gate) (calls : List Call) → IsValid g → IsValid (run g calls)
unfolding run
run-IsValid g [] v = v
run-IsValid g (c ∷ calls) v = run-IsValid (step g c) calls (step-IsValid g c v)

step-served :
    (g : Gate) (c : Call)
    → IsValid g
    → (step g c).resolved ++ (step g c).waiters ≡ (g.resolved ++ g.waiters) ++ waited (c ∷ [])
unfolding step hold release open_if_free when_open waited
step-served g holds_ v = sym (append-nil _)
step-served g (releases k) v = elim (Bool-cases (is_released k g.released)) [
  | inl e ↦ rw e (sym (append-nil _))
  | inr e ↦ rw e (elim (Bool-cases (g.holds - 1 == 0)) [
    | inl z ↦ rw z refl
    | inr z ↦ rw z (sym (append-nil _))
  ])
]
step-served g (waits w) v = elim (Bool-cases (g.holds == 0)) [
  | inl z ↦ rw z (
      let e : g.waiters ≡ [] = sym v.nobody_waits ∙ ground arith in
      rw e (append-nil _ ∙ ground (arith, append-nil g.resolved)))
  | inr z ↦ rw z (sym (append_assoc g.resolved g.waiters (w ∷ [])))
]

waited-step : (c : Call) (calls : List Call) → waited (c ∷ calls) ≡ waited (c ∷ []) ++ waited calls
unfolding waited
waited-step holds_ calls = refl
waited-step (releases k) calls = refl
waited-step (waits w) calls = refl

run-served :
    (g : Gate) (calls : List Call)
    → IsValid g
    → (run g calls).resolved ++ (run g calls).waiters ≡ (g.resolved ++ g.waiters) ++ waited calls
unfolding run
run-served g [] v = unfold waited in sym (append-nil _)
run-served g (c ∷ calls) v =
    run-served (step g c) calls (step-IsValid g c v)
    ∙ ap (λ l. l ++ waited calls) (step-served g c v)
    ∙ append_assoc (g.resolved ++ g.waiters) (waited (c ∷ [])) (waited calls)
    ∙ ap (λ l. (g.resolved ++ g.waiters) ++ l) (sym (waited-step c calls))

open_gate-IsValid : IsValid open_gate
unfolding unreleased
open_gate-IsValid = record { counted = refl; nobody_waits = refl }

-- After any history of calls on a new gate, it is closed just when a hold is not released yet,
-- however often the others were; at an open gate nobody waits; and those that were let through,
-- with those that wait behind them, are all that called `whenOpen`, in order.
pub run-barrier :
    (calls : List Call)
    → (is_closed (run open_gate calls) ≡ ltb 0 (unreleased (run open_gate calls).released))
      × ((run open_gate calls).waiters
          ≡ (if is_closed (run open_gate calls) then (run open_gate calls).waiters else []))
      × ((run open_gate calls).resolved ++ (run open_gate calls).waiters ≡ waited calls)
unfolding is_closed
run-barrier calls =
    let v = run-IsValid open_gate calls open_gate-IsValid in
    (
      ground (arith, v.counted),
      ground (arith, v.nobody_waits),
      run-served open_gate calls open_gate-IsValid,
    )
