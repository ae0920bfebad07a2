-- ===== src/History/Rollback.antt =====
-- What an undo or a redo that fails leaves behind.
use stratasync.Prelude.{
  String, ◌≡◌, refl, ap, ◌∙◌, inl, inr, true, false, List, [], ◌∷◌, ◌++◌, Option, none, some,
  Bool-cases, Option-cases,
}
use stratasync.History.{HistoryOperation, HistoryEntry, HistoryGroup, HistoryManager, ids_of}
use stratasync.History.Replay.{
  Direction, operation_of, rollback_of, in_order, stack_of, replay, rollback_entries, step_history,
}

-- At each state that the replay comes to, an operation that throws leaves the state alone, and the
-- opposite operation of an entry takes the entry's operation back.
unfoldable pub Reverts :
    {S : Type 0}
    → Direction
    → (HistoryOperation → S → Option (Option String) × S)
    → List HistoryEntry
    → S
    → Type 0
Reverts d apply_op [] s = Unit
Reverts d apply_op (e ∷ entries) s =
    let (outcome, next) = apply_op (operation_of d e) s in
    elim outcome [
      | none ↦ next ≡ s
      | some id ↦ ((apply_op (rollback_of d e) next).1 ≡ s) × Reverts d apply_op entries next
    ]

module _ {S : Type 0} (apply_op : HistoryOperation → S → Option (Option String) × S) where
  replay-rollback_entries :
      (d : Direction) (entries applied : List HistoryEntry) (ids : List String) (s start : S)
      → Reverts d apply_op entries s
      → rollback_entries apply_op d applied s ≡ start
      → (replay apply_op d entries applied ids s).0 ≡ true
      → rollback_entries apply_op d
          (replay apply_op d entries applied ids s).1
          (replay apply_op d entries applied ids s).3
        ≡ start
  unfolding replay rollback_entries Reverts
  replay-rollback_entries d [] applied ids s start back e f = cc
  replay-rollback_entries d (x ∷ entries) applied ids s start back e f =
      elim (Option-cases (apply_op (operation_of d x) s).0) [
        | inl stuck ↦
            rw (stuck, replay)
              (ap (rollback_entries apply_op d applied) (rw (stuck, Reverts) at back) ∙ e)
        | inr (id, done) ↦
            let (restored, more) = rw (done, Reverts) at back in
            rw (done, replay)
              (replay-rollback_entries d entries (x ∷ applied) (ids ++ ids_of id)
                (apply_op (operation_of d x) s).1 start more
                (ap (rollback_entries apply_op d applied) restored ∙ e) (rw (done, replay) at f))
      ]

  -- An undo or redo that throws leaves both stacks, the open groups and the state as they were, if,
  -- at the states that it comes to, an operation that throws leaves the state alone and the opposite
  -- operation of an entry takes the entry's operation back.
  pub step_history-restores :
      (d : Direction) (m : HistoryManager) (g : HistoryGroup) (rest : List HistoryGroup) (s : S)
      → stack_of d m ≡ g ∷ rest
      → Reverts d apply_op (in_order d g.entries) s
      → (step_history apply_op d m s).0 ≡ true
      → ((step_history apply_op d m s).1 ≡ record m { suppress_history = false })
        × ((step_history apply_op d m s).2 ≡ s)
  unfolding step_history rollback_entries
  step_history-restores d m g rest s e back f =
      let entries = in_order d g.entries in
      elim (Bool-cases (replay apply_op d entries [] [] s).0) [
        | inl failed ↦
            rw (e, step_history)
              (rw failed (refl, replay-rollback_entries d entries [] [] s s back refl failed))
        | inr fine ↦ let no : false ≡ true = rw fine at (rw (e, step_history) at f) in cc
      ]
