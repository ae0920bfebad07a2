-- ===== src/History.antt =====
-- packages/client/src/history-manager.ts: the undo and redo stacks of a client. A stack is a list
-- with its top first. A call runs to its end before the next one starts.
pub mod Entry
pub mod Replay
pub mod Grouping
pub mod Rollback
pub mod Roundtrip
pub mod Agreement
use stratasync.Prelude.{
  String, Bool, true, false, not, List, [], ◌∷◌, ◌++◌, Option, none, some, same, if◌then◌else◌,
}
use stratasync.Prelude.TextSet.{TextSet, contains}
use stratasync.Value.{Row}
use stratasync.Transaction.{Action}

pub record HistoryOperation : Type 0 where
  pub action : Action
  pub model_name : String
  pub model_id : String
  pub payload : Row
  pub original : Option Row

pub record HistoryEntry : Type 0 where
  pub undo : HistoryOperation
  pub redo : HistoryOperation

pub record HistoryGroup : Type 0 where
  pub entries : List HistoryEntry
  pub tx_ids : List String

pub record CapturedGroup : Type 0 where
  pub entries : List HistoryEntry
  pub tx_ids : List String
  pub invalidated : Bool

pub record HistoryManager : Type 0 where
  pub undo_stack : List HistoryGroup
  pub redo_stack : List HistoryGroup
  pub capture_stack : List CapturedGroup
  pub suppress_history : Bool

abbrev pub new_history : HistoryManager
new_history = record {
  undo_stack = [];
  redo_stack = [];
  capture_stack = [];
  suppress_history = false;
}

-- `txId ? [txId] : []`: an empty id is falsy.
unfoldable pub ids_of : Option String → List String
ids_of none = []
ids_of (some id) = if same id "" then [] else id ∷ []

unfoldable pub push_group : HistoryGroup → HistoryManager → HistoryManager
push_group g m = elim g.entries [
  | [] ↦ m
  | _ ∷ _ ↦ record m { undo_stack = g ∷ m.undo_stack; redo_stack = [] }
]

unfoldable pub capture : HistoryEntry → Option String → CapturedGroup → CapturedGroup
capture entry id g =
    if g.invalidated
    then g
    else record g { entries = g.entries ++ entry ∷ []; tx_ids = g.tx_ids ++ ids_of id }

-- `record` for an entry, with history not suppressed: into the innermost group, if one is open.
unfoldable pub record_entry : HistoryEntry → Option String → HistoryManager → HistoryManager
record_entry entry id m = elim m.capture_stack [
  | [] ↦ push_group (record { entries = entry ∷ []; tx_ids = ids_of id }) m
  | active ∷ outer ↦ record m { capture_stack = capture entry id active ∷ outer }
]

unfoldable pub record_history :
    Option HistoryEntry → Option String → HistoryManager → HistoryManager
record_history none id m = m
record_history (some entry) id m = if m.suppress_history then m else record_entry entry id m

abbrev fresh_group : CapturedGroup
fresh_group = record { entries = []; tx_ids = []; invalidated = false }

abbrev pub as_group : CapturedGroup → HistoryGroup
as_group g = record { entries = g.entries; tx_ids = g.tx_ids }

-- What a group that is done adds to the one around it, or to the history.
unfoldable pub hand_over : CapturedGroup → List CapturedGroup → HistoryManager → HistoryManager
hand_over done [] m = push_group (as_group done) (record m { capture_stack = [] })
hand_over done (parent ∷ outer) m = record m {
  capture_stack =
      record parent {
        entries = parent.entries ++ done.entries;
        tx_ids = parent.tx_ids ++ done.tx_ids;
      }
      ∷ outer;
}

unfoldable pub close_group : HistoryManager → HistoryManager
close_group m = elim m.capture_stack [
  | [] ↦ m
  | done ∷ outer ↦ elim done.entries [
    | [] ↦ record m { capture_stack = outer }
    | _ ∷ _ ↦ hand_over done outer m
  ]
]

-- What the operation returns is handed on, an error like any other result.
unfoldable pub run_as_group :
    {A : Type 0} → (HistoryManager → A × HistoryManager) → HistoryManager → A × HistoryManager
run_as_group operation m =
    if m.suppress_history
    then operation m
    else let (result, m') =
        operation (record m { capture_stack = fresh_group ∷ m.capture_stack }) in
      (result, close_group m')

unfoldable pub captures : String → List CapturedGroup → Bool
captures id [] = false
captures id (g ∷ groups) = if contains id g.tx_ids then true else captures id groups

unfoldable pub invalidate_all : List CapturedGroup → List CapturedGroup
invalidate_all [] = []
invalidate_all (g ∷ groups) =
    record { entries = []; tx_ids = []; invalidated = true } ∷ invalidate_all groups

-- `removeMatches`
unfoldable pub remove_matches : String → List HistoryGroup → List HistoryGroup
remove_matches id [] = []
remove_matches id (g ∷ stack) =
    if contains id g.tx_ids then remove_matches id stack else g ∷ remove_matches id stack

unfoldable pub remove_by_tx_id : String → HistoryManager → HistoryManager
remove_by_tx_id id m = record m {
  capture_stack =
      if captures id m.capture_stack then invalidate_all m.capture_stack else m.capture_stack;
  undo_stack = remove_matches id m.undo_stack;
  redo_stack = remove_matches id m.redo_stack;
}

unfoldable pub clear_history : HistoryManager → HistoryManager
clear_history m = record m { undo_stack = []; redo_stack = []; capture_stack = [] }
