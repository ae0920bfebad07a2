-- ===== src/Delta/Table.antt =====
-- What `applyDeltas` relies on in a store: a table of rows by model and id, of which the four
-- operations of `DeltaTarget` change one row each.
use stratasync.Prelude.{String, ◌≡◌, refl, Bool, ◌&&◌, Option, none, some, same, if◌then◌else◌}
use stratasync.Prelude.Dict.{spread}
use stratasync.Value.{Row}
use stratasync.Delta.{DeltaTarget}

-- The rows that are stored, by model name and id.
abbrev pub Table : Type 0
Table = String → String → Option Row

abbrev pub is_row : String → String → String → String → Bool
is_row m i m' i' = same m m' && same i i'

-- One row given anew.
abbrev pub with_row : String → String → Option Row → Table → Table
with_row m i r t m' i' = if is_row m i m' i' then r else t m' i'

-- `patch` on a row: nothing where there is none.
abbrev pub patched : Option Row → Row → Option Row
patched none changes = none
patched (some e) changes = some (spread e changes)

-- A store whose rows are the table `view`. What is put has the fields `fixed m i` on top, such as
-- the primary key. (Each law is stated at every row, since a table is a function.)
pub record IsStore {S : Type 0} (target : DeltaTarget S) (view : S → Table)
    (fixed : String → String → Row) : Type 0 where
  pub get_view : (m i : String) (s : S) → (target.get m i s).0 ≡ view s m i
  pub get_keeps :
      (m i : String) (s : S) (m' i' : String) → view (target.get m i s).1 m' i' ≡ view s m' i'
  pub put_view :
      (m i : String) (r : Row) (s : S) (m' i' : String)
      → view (target.put m i r s) m' i' ≡ with_row m i (some (spread r (fixed m i))) (view s) m' i'
  pub remove_view :
      (m i : String) (s : S) (m' i' : String)
      → view (target.remove m i s) m' i' ≡ with_row m i none (view s) m' i'
  pub patch_view :
      (m i : String) (changes : Row) (s : S) (m' i' : String)
      → view (target.patch m i changes s) m' i'
        ≡ with_row m i (patched (view s m i) changes) (view s) m' i'

-- The table itself as a store.
unfoldable pub table_target : (String → String → Row) → DeltaTarget Table
table_target fixed = record {
  put = λ m i r t. with_row m i (some (spread r (fixed m i))) t;
  remove = λ m i t. with_row m i none t;
  patch = λ m i changes t. with_row m i (patched (t m i) changes) t;
  get = λ m i t. (t m i, t);
}

pub table_target-IsStore :
    (fixed : String → String → Row) → IsStore (table_target fixed) (λ t. t) fixed
unfolding table_target
table_target-IsStore fixed = record {
  get_view = λ m i s. refl;
  get_keeps = λ m i s m' i'. refl;
  put_view = λ m i r s m' i'. refl;
  remove_view = λ m i s m' i'. refl;
  patch_view = λ m i changes s m' i'. refl;
}
