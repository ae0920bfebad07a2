-- ===== src/History/Grouping.antt =====
-- What is recorded, and what is forgotten.
use mathlib.Core.List.{append-nil, append_assoc}
use stratasync.Prelude.{
  String, ◌≡◌, refl, sym, ap, ap₂, ◌∙◌, inl, inr, Bool, true, false, List, [], ◌∷◌, ◌++◌, Option,
  some, arith, Bool-cases, if◌then◌else◌,
}
use stratasync.Prelude.TextSet.{contains}
use stratasync.History.{
  HistoryEntry, HistoryGroup, CapturedGroup, HistoryManager, ids_of, push_group, capture,
  record_entry, record_history, hand_over, close_group, run_as_group, captures, invalidate_all,
  remove_matches, remove_by_tx_id,
}

-- Whether a group of the stack has a transaction with this id.
unfoldable pub mentions : String → List HistoryGroup → Bool
mentions id [] = false
mentions id (g ∷ stack) = if contains id g.tx_ids then true else mentions id stack

mentions-remove_matches :
    (id : String) (stack : List HistoryGroup) → mentions id (remove_matches id stack) ≡ false
unfolding mentions remove_matches
mentions-remove_matches id [] = refl
mentions-remove_matches id (g ∷ stack) = elim (Bool-cases (contains id g.tx_ids)) [
  | inl e ↦ rw e (mentions-remove_matches id stack)
  | inr e ↦ rw e (rw e (mentions-remove_matches id stack))
]

captures-invalidate_all :
    (id : String) (groups : List CapturedGroup) → captures id (invalidate_all groups) ≡ false
unfolding captures invalidate_all contains
captures-invalidate_all id [] = refl
captures-invalidate_all id (g ∷ groups) = captures-invalidate_all id groups

-- After `removeByTxId`, nothing that can be undone or redone, and no open group, is of that
-- transaction.
pub remove_by_tx_id-forgets :
    (id : String) (m : HistoryManager)
    → (mentions id (remove_by_tx_id id m).undo_stack ≡ false)
      × (mentions id (remove_by_tx_id id m).redo_stack ≡ false)
      × (captures id (remove_by_tx_id id m).capture_stack ≡ false)
unfolding remove_by_tx_id
remove_by_tx_id-forgets id m = (
  mentions-remove_matches id m.undo_stack,
  mentions-remove_matches id m.redo_stack,
  ground (arith, captures-invalidate_all id m.capture_stack),
)

-- Mutations with the ids of their transactions, recorded one after the other.
unfoldable pub record_all : List (HistoryEntry × Option String) → HistoryManager → HistoryManager
record_all [] m = m
record_all ((entry, id) ∷ mutations) m = record_all mutations (record_history (some entry) id m)

unfoldable pub entries_of : List (HistoryEntry × Option String) → List HistoryEntry
entries_of [] = []
entries_of ((entry, id) ∷ mutations) = entry ∷ entries_of mutations

unfoldable pub all_ids : List (HistoryEntry × Option String) → List String
all_ids [] = []
all_ids ((entry, id) ∷ mutations) = ids_of id ++ all_ids mutations

-- No group is open, and then one.
abbrev pub idle : List HistoryGroup → List HistoryGroup → HistoryManager
idle undos redos = record {
  undo_stack = undos;
  redo_stack = redos;
  capture_stack = [];
  suppress_history = false;
}

-- The entries as one group on top of the undo stack, and nothing to redo; no change for no entry.
abbrev pub with_group :
    List HistoryEntry → List String → List HistoryGroup → List HistoryGroup → HistoryManager
with_group [] ids undos redos = idle undos redos
with_group (e ∷ entries) ids undos redos =
    idle (record { entries = e ∷ entries; tx_ids = ids } ∷ undos) []

abbrev capturing :
    List HistoryGroup → List HistoryGroup → List HistoryEntry → List String → HistoryManager
capturing undos redos entries ids = record {
  undo_stack = undos;
  redo_stack = redos;
  capture_stack = record { entries = entries; tx_ids = ids; invalidated = false } ∷ [];
  suppress_history = false;
}

record_all-capturing :
    (mutations : List (HistoryEntry × Option String)) (undos redos : List HistoryGroup)
    (entries : List HistoryEntry) (ids : List String)
    → record_all mutations (capturing undos redos entries ids)
      ≡ capturing undos redos (entries ++ entries_of mutations) (ids ++ all_ids mutations)
unfolding record_all entries_of all_ids record_history record_entry capture
record_all-capturing [] undos redos entries ids =
    ap₂ (capturing undos redos) (sym (append-nil entries)) (sym (append-nil ids))
record_all-capturing ((entry, id) ∷ mutations) undos redos entries ids =
    record_all-capturing mutations undos redos (entries ++ entry ∷ []) (ids ++ ids_of id)
    ∙ ap₂ (capturing undos redos) (append_assoc entries (entry ∷ []) (entries_of mutations))
        (append_assoc ids (ids_of id) (all_ids mutations))

close_group-capturing :
    (undos redos : List HistoryGroup) (entries : List HistoryEntry) (ids : List String)
    → close_group (capturing undos redos entries ids) ≡ with_group entries ids undos redos
unfolding close_group push_group hand_over
close_group-capturing undos redos [] ids = refl
close_group-capturing undos redos (e ∷ entries) ids = refl

-- With no group open and history not suppressed, the mutations that are recorded while `runAsGroup`
-- runs become one group on top of the undo stack, with their entries and ids in order, and nothing
-- is left to redo; where there are none, both stacks are as before.
pub run_as_group-record_all :
    (mutations : List (HistoryEntry × Option String)) (undos redos : List HistoryGroup)
    → (run_as_group {A = Unit} (λ m. (tt, record_all mutations m)) (idle undos redos)).1
      ≡ with_group (entries_of mutations) (all_ids mutations) undos redos
unfolding run_as_group
run_as_group-record_all mutations undos redos =
    ap close_group (record_all-capturing mutations undos redos [] [])
    ∙ close_group-capturing undos redos (entries_of mutations) (all_ids mutations)
