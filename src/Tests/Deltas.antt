-- ===== src/Tests/Deltas.antt =====
-- Packets of server actions on concrete input.
use Prim.Native.Nat.{max}
use stratasync.Prelude.{
  String, ◌≡◌, refl, Bool, true, [], ◌∷◌, Option, none, some, arith, length, same,
}
use stratasync.Prelude.Int.{ℤ, pos}
use stratasync.Prelude.Dict.{lookup}
use stratasync.Value.{Row, number, text}
use stratasync.SyncId.{SyncId, value}
use stratasync.Archive.{read_archived_at, read_timestamp}
use stratasync.Transaction.{insert, update, archive}
use stratasync.SyncAction.{SyncAction, SyncActionType, DeltaPacket, row, covering}
use stratasync.Delta.{ApplyOptions, apply_deltas}
use stratasync.Delta.Table.{Table, table_target, table_target-IsStore}
use stratasync.Delta.Counts.{counter, times_applied, times_skipped, total, counter-apply_deltas}
use stratasync.Delta.Cursor.{newest, last-apply_deltas}
use stratasync.Delta.Effect.{row_after, apply_deltas-view}
use stratasync.Delta.Redelivery.{SameRow, AreTimed, apply_deltas_twice}

-- A host that parses no date, and two clocks.
abbrev no_date : String → Option ℤ
no_date s = none

abbrev noon : SyncAction → ℤ
noon a = pos 12

abbrev evening : SyncAction → ℤ
evening a = pos 18

abbrev with_id : String → String → Row
with_id m i = ("id", text i) ∷ []

abbrev no_rows : Table
no_rows m i = none

abbrev knows : String → Bool
knows m = true

abbrev options : ApplyOptions
options = record { client_id = some "me"; merge_updates = true }

abbrev action_of : SyncId → SyncActionType → Row → SyncAction
action_of id t fields = record {
  id = id;
  model_name = "Task";
  model_id = "t1";
  action = t;
  fields = fields;
  client_tx_id = none;
  client_id = none;
}

-- A task is inserted, renamed and archived at a given time, and a covering action follows.
abbrev packet : DeltaPacket
packet = record {
  last_sync_id = b'9' ∷ [];
  actions =
      action_of (b'7' ∷ []) (row insert) (("title", text "Draft") ∷ [])
      ∷ action_of (b'8' ∷ []) (row update) (("title", text "Final") ∷ [])
      ∷ action_of (b'1' ∷ b'0' ∷ []) (row archive) (("archivedAt", number (pos 5)) ∷ [])
      ∷ action_of (b'9' ∷ []) covering []
      ∷ [];
}

apply_deltas-view_example :
    (apply_deltas (table_target with_id) no_date noon knows options packet no_rows).1 "Task" "t1"
    ≡ row_after no_date noon with_id knows options "Task" "t1" packet.actions none
apply_deltas-view_example =
    apply_deltas-view no_date noon with_id (table_target with_id) (λ t. t)
      (table_target-IsStore with_id) knows options packet no_rows "Task" "t1"

counter-apply_deltas_example :
    (counter update
        (apply_deltas (table_target with_id) no_date noon knows options packet no_rows).0
      ≡ times_applied
          (table_target with_id)
          no_date
          noon
          knows
          options
          update
          packet.actions
          no_rows)
    × ((apply_deltas (table_target with_id) no_date noon knows options packet no_rows).0.skipped
        ≡ times_skipped (table_target with_id) no_date noon knows options packet.actions no_rows)
    × (total (apply_deltas (table_target with_id) no_date noon knows options packet no_rows).0
        ≡ length packet.actions)
counter-apply_deltas_example =
    counter-apply_deltas (table_target with_id) no_date noon knows options update packet no_rows

last-apply_deltas_example :
    value
      (apply_deltas (table_target with_id) no_date noon knows options packet no_rows).0.last_sync_id
    ≡ max (newest 0 packet.actions) (value packet.last_sync_id)
last-apply_deltas_example =
    last-apply_deltas (table_target with_id) no_date noon knows options packet no_rows (omega arith)
      (omega arith)

packet-AreTimed : AreTimed no_date packet.actions
unfolding read_archived_at read_timestamp lookup same
packet-AreTimed =
    ((λ e. ground arith), ((λ e. ground arith), ((λ e. refl), ((λ e. ground arith), tt))))

apply_deltas_twice_example :
    SameRow
      ((apply_deltas
          (table_target with_id)
          no_date
          evening
          knows
          options
          packet
          (apply_deltas (table_target with_id) no_date noon knows options packet no_rows).1).1
        "Task" "t1")
      ((apply_deltas (table_target with_id) no_date noon knows options packet no_rows).1 "Task"
        "t1")
apply_deltas_twice_example =
    apply_deltas_twice no_date noon evening with_id (table_target with_id) (λ t. t)
      (table_target-IsStore with_id) knows options packet no_rows "Task" "t1" packet-AreTimed
