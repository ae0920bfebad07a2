-- ===== src/Cursor.antt =====
-- packages/client/src/sync/cursor.ts: the last applied sync id and the floor of the bootstrap
-- window. What `advance` hands to the storage's `setMeta` is returned.
pub mod Monotone
use stratasync.Prelude.{ℕ, ◌+◌, Bool, true, false, List, [], ◌∷◌, Option, none, some, if◌then◌else◌}
use stratasync.Prelude.Int.{ℤ}
use stratasync.Prelude.Dict.{get_or}
use stratasync.SyncId.{SyncId, zero_sync_id, is_sync_id_greater_than}
use stratasync.Transaction.{Runtime}

pub record SyncCursor : Type 0 where
  pub last_sync_id : SyncId
  pub first_sync_id : SyncId
  pub snapshot : ℕ

-- What `setMeta` is called with.
pub record CursorMeta : Type 0 where
  pub last_sync_at : ℤ
  pub last_sync_id : SyncId
  pub updated_at : ℤ

abbrev pub new_cursor : SyncCursor
new_cursor = record { last_sync_id = zero_sync_id; first_sync_id = zero_sync_id; snapshot = 0 }

unfoldable pub hydrate : Option SyncId → Option SyncId → SyncCursor → SyncCursor
hydrate last first c =
    let last' = get_or last zero_sync_id in
    record c { last_sync_id = last'; first_sync_id = get_or first last' }

unfoldable pub reset : SyncCursor → SyncCursor
reset c = record c { last_sync_id = zero_sync_id; first_sync_id = zero_sync_id }

unfoldable pub reset_first_to_last : SyncCursor → SyncCursor
reset_first_to_last c = record c { first_sync_id = c.last_sync_id }

unfoldable pub set_first_sync_id : SyncId → SyncCursor → SyncCursor
set_first_sync_id id c = record c { first_sync_id = id }

unfoldable pub set_from_bootstrap : SyncId → SyncCursor → SyncCursor
set_from_bootstrap id c = record c {
  last_sync_id = id;
  first_sync_id = id;
  snapshot = c.snapshot + 1;
}

abbrev pub with_write :
    Option CursorMeta → SyncCursor × List CursorMeta → SyncCursor × List CursorMeta
with_write none (c, writes) = (c, writes)
with_write (some w) (c, writes) = (c, w ∷ writes)

module _ {R : Type 0} (rt : Runtime R) where
  -- The two times are read in the order of the object's fields.
  unfoldable pub cursor_meta : SyncId → R → CursorMeta × R
  cursor_meta id r =
      let (at, r1) = rt.now r in
      let (updated, r2) = rt.now r1 in
      (record { last_sync_at = at; last_sync_id = id; updated_at = updated }, r2)

  -- Whether the cursor moved, the cursor, and the write to the storage.
  unfoldable pub advance : SyncId → SyncCursor → R → Bool × SyncCursor × Option CursorMeta × R
  advance id c r =
      let (meta, r') = cursor_meta id r in
      if is_sync_id_greater_than id c.last_sync_id
      then (true, record c { last_sync_id = id }, some meta, r')
      else (false, c, none, r)

  -- A sequence of calls, with the storage's writes in order.
  unfoldable pub advance_all : List SyncId → SyncCursor → R → SyncCursor × List CursorMeta
  advance_all [] c r = (c, [])
  advance_all (id ∷ ids) c r =
      let (moved, c', meta, r') = advance id c r in with_write meta (advance_all ids c' r')
