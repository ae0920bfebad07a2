-- ===== src/History/Roundtrip.antt =====
-- A redo that follows an undo.
use stratasync.Prelude.{
  String, ◌≡◌, refl, sym, ap, ◌∙◌, inl, inr, Bool, true, false, List, [], ◌∷◌, ◌++◌, map, Option,
  none, some, Bool-cases, Option-cases, if◌then◌else◌,
}
use stratasync.Prelude.Dict.{is_some}
use stratasync.History.{HistoryOperation, HistoryEntry, HistoryGroup, HistoryManager, ids_of}
use stratasync.History.Replay.{
  Direction, undoing, redoing, operation_of, backwards, in_order, stack_of, moved, replay,
  step_history,
}

-- The state once the entries are undone, the last one first.
unfoldable pub undo_all :
    {S : Type 0} → (HistoryOperation → S → Option (Option String) × S) → List HistoryEntry → S → S
undo_all apply_op [] s = s
undo_all apply_op (e ∷ entries) s = (apply_op e.undo (undo_all apply_op entries s)).1

-- At the state that each entry's undo leaves, its redo succeeds and brings back the state before.
unfoldable pub Redo :
    {S : Type 0}
    → (HistoryOperation → S → Option (Option String) × S)
    → List HistoryEntry
    → S
    → Type 0
Redo apply_op [] s = Unit
Redo apply_op (e ∷ entries) s =
    (is_some (apply_op e.redo (undo_all apply_op (e ∷ entries) s)).0 ≡ true)
    × ((apply_op e.redo (undo_all apply_op (e ∷ entries) s)).1 ≡ undo_all apply_op entries s)
    × Redo apply_op entries s

-- The entries of the groups of a stack, without the transactions' ids.
abbrev pub stack_entries : List HistoryGroup → List (List HistoryEntry)
stack_entries = map (λ g. g.entries)

module _ {S : Type 0} (apply_op : HistoryOperation → S → Option (Option String) × S) where
  abbrev replay_last :
      Direction
      → HistoryEntry
      → Bool × List HistoryEntry × List String × S
      → Bool × List HistoryEntry × List String × S
  replay_last d x (failed, applied, ids, s) =
      if failed then (failed, applied, ids, s) else replay apply_op d (x ∷ []) applied ids s

  replay_failed :
      (d : Direction) (x : HistoryEntry) (entries applied : List HistoryEntry) (ids : List String)
      (s : S)
      → (apply_op (operation_of d x) s).0 ≡ none
      → replay apply_op d (x ∷ entries) applied ids s
        ≡ (true, applied, ids, (apply_op (operation_of d x) s).1)
  unfolding replay
  replay_failed d x entries applied ids s e = rw (e, replay) refl

  replay_done :
      (d : Direction) (x : HistoryEntry) (entries applied : List HistoryEntry) (ids : List String)
      (s : S) (id : Option String)
      → (apply_op (operation_of d x) s).0 ≡ some id
      → replay apply_op d (x ∷ entries) applied ids s
        ≡ replay apply_op d entries
            (x ∷ applied)
            (ids ++ ids_of id)
            (apply_op (operation_of d x) s).1
  unfolding replay
  replay_done d x entries applied ids s id e = rw (e, replay) refl

  replay-append :
      (d : Direction) (xs : List HistoryEntry) (x : HistoryEntry) (applied : List HistoryEntry)
      (ids : List String) (s : S)
      → replay apply_op d (xs ++ x ∷ []) applied ids s
        ≡ replay_last d x (replay apply_op d xs applied ids s)
  replay-append d [] x applied ids s = unfold replay in refl
  replay-append d (y ∷ xs) x applied ids s = elim (Option-cases (apply_op (operation_of d y) s).0) [
    | inl e ↦
        replay_failed d y (xs ++ x ∷ []) applied ids s e
        ∙ sym (ap (replay_last d x) (replay_failed d y xs applied ids s e))
    | inr (id, e) ↦
        replay_done d y (xs ++ x ∷ []) applied ids s id e
        ∙ replay-append d xs x (y ∷ applied) (ids ++ ids_of id) (apply_op (operation_of d y) s).1
        ∙ sym (ap (replay_last d x) (replay_done d y xs applied ids s id e))
  ]

  redo_first :
      (x : HistoryEntry) (entries again : List HistoryEntry) (new_ids : List String)
      (undone middle s : S)
      → (is_some (apply_op x.redo undone).0 ≡ true) × ((apply_op x.redo undone).1 ≡ middle)
      → ((new : List String)
          → ((replay apply_op redoing entries (x ∷ again) new middle).0 ≡ false)
            × ((replay apply_op redoing entries (x ∷ again) new middle).3 ≡ s))
      → ((replay apply_op redoing (x ∷ entries) again new_ids undone).0 ≡ false)
        × ((replay apply_op redoing (x ∷ entries) again new_ids undone).3 ≡ s)
  redo_first x entries again new_ids undone middle s (ok, back) rest =
      elim (Option-cases (apply_op x.redo undone).0) [
        | inl e ↦ let no : false ≡ true = rw e at ok in cc
        | inr (id, e) ↦
            rw (replay_done redoing x entries again new_ids undone id e)
              (rw back (rest (new_ids ++ ids_of id)))
      ]

  step_done :
      (d : Direction) (m : HistoryManager) (g : HistoryGroup) (rest : List HistoryGroup) (s : S)
      → stack_of d m ≡ g ∷ rest
      → (replay apply_op d (in_order d g.entries) [] [] s).0 ≡ false
      → step_history apply_op d m s ≡ (
        false,
        record (moved d
            (record g { tx_ids = (replay apply_op d (in_order d g.entries) [] [] s).2 })
            rest
            m) { suppress_history = false },
        (replay apply_op d (in_order d g.entries) [] [] s).3,
      )
  unfolding step_history
  step_done d m g rest s e fine = rw (e, step_history) (rw fine refl)

  step_failed :
      (d : Direction) (m : HistoryManager) (g : HistoryGroup) (rest : List HistoryGroup) (s : S)
      → stack_of d m ≡ g ∷ rest
      → (replay apply_op d (in_order d g.entries) [] [] s).0 ≡ true
      → (step_history apply_op d m s).0 ≡ true
  unfolding step_history
  step_failed d m g rest s e failed = rw (e, step_history) (rw failed refl)

  -- The undo of the top group, and then a redo.
  abbrev pub after_both : HistoryManager → S → Bool × HistoryManager × S
  after_both m s =
      let (failed, m', s') = step_history apply_op undoing m s in
      step_history apply_op redoing m' s'

  replay-undo_all :
      (entries applied : List HistoryEntry) (ids : List String) (s : S)
      → (replay apply_op undoing (backwards entries) applied ids s).0 ≡ false
      → (replay apply_op undoing (backwards entries) applied ids s).3 ≡ undo_all apply_op entries s
  unfolding undo_all
  replay-undo_all [] applied ids s f = unfold backwards replay in refl
  replay-undo_all (x ∷ entries) applied ids s f =
      let before = replay apply_op undoing (backwards entries) applied ids s in
      let undone = (apply_op x.undo before.3).1 in
      let split = replay-append undoing (backwards entries) x applied ids s in
      let f' : (replay_last undoing x before).0 ≡ false =
        sym (ap (λ q. q.0) split) ∙ (unfold backwards in f) in
      elim (Bool-cases before.0) [
        | inl failed ↦ let no : true ≡ false = rw failed at f' in cc
        | inr fine ↦ elim (Option-cases (apply_op x.undo before.3).0) [
          | inl stuck ↦
              let e1 : (replay_last undoing x before).0 ≡ true =
                rw fine
                  (ap (λ q. q.0) (replay_failed undoing x [] before.1 before.2 before.3 stuck)) in
              cc
          | inr (id, done) ↦
              let e1 : (replay_last undoing x before).3 ≡ undone = rw fine (
                ap (λ q. q.3) (replay_done undoing x [] before.1 before.2 before.3 id done)
                ∙ unfold replay in refl) in
              let e2 =
                ap (λ t. (apply_op x.undo t).1) (replay-undo_all entries applied ids s fine) in
              let e3 : (replay apply_op undoing (backwards (x ∷ entries)) applied ids s).3
                  ≡ undone =
                unfold backwards in ap (λ q. q.3) split ∙ e1 in
              e3 ∙ e2
        ]
      ]

  replay_forwards :
      (entries again : List HistoryEntry) (new_ids : List String) (s : S)
      → Redo apply_op entries s
      → ((replay apply_op redoing entries again new_ids (undo_all apply_op entries s)).0 ≡ false)
        × ((replay apply_op redoing entries again new_ids (undo_all apply_op entries s)).3 ≡ s)
  unfolding Redo
  replay_forwards [] again new_ids s h = unfold undo_all replay in (refl, refl)
  replay_forwards (x ∷ entries) again new_ids s h =
      redo_first x entries again new_ids (undo_all apply_op (x ∷ entries) s)
        (undo_all apply_op entries s) s (h.0, h.1)
        (λ new. replay_forwards entries (x ∷ again) new s h.2)

  -- An undo of a group that throws nothing, then a redo: the redo throws nothing, and the state and
  -- the entries on both stacks are as before the undo, if, at the state that the undo of each entry
  -- of the group leaves, the entry's redo succeeds and brings back the state before.
  pub after_both_restores :
      (m : HistoryManager) (g : HistoryGroup) (rest : List HistoryGroup) (s : S)
      → m.undo_stack ≡ g ∷ rest
      → Redo apply_op g.entries s
      → (step_history apply_op undoing m s).0 ≡ false
      → (after_both m s).0 ≡ false
        × ((after_both m s).2 ≡ s)
        × (stack_entries (after_both m s).1.undo_stack ≡ stack_entries m.undo_stack)
        × ((after_both m s).1.redo_stack ≡ m.redo_stack)
  after_both_restores m g rest s e h f =
      let undone = replay apply_op undoing (backwards g.entries) [] [] s in
      elim (Bool-cases undone.0) [
        | inl failed ↦
            let no : true ≡ false = sym (step_failed undoing m g rest s e failed) ∙ f in cc
        | inr fine ↦
            let state_after = replay-undo_all g.entries [] [] s fine in
            let (again, state) = rw (sym state_after) at (replay_forwards g.entries [] [] s h) in
            let group = record g { tx_ids = undone.2 } in
            let m1 = record (moved undoing group rest m) { suppress_history = false } in
            let both =
              ap (λ q. step_history apply_op redoing q.1 q.2) (step_done undoing m g rest s e fine)
              ∙ step_done redoing m1 group m.redo_stack undone.3 refl again in
            rw both (refl, state, ap stack_entries (sym e), refl)
      ]
