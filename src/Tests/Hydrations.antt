-- ===== src/Tests/Hydrations.antt =====
-- Pending transactions over the identity maps, on concrete input.
use stratasync.Prelude.{map, String, ◌≡◌, refl, ◌↔◌, true, List, [], ◌∷◌, Option, none, some}
use stratasync.Prelude.Int.{ℤ, pos}
use stratasync.Prelude.Dict.{lookup}
use stratasync.Prelude.TextSet.{contains}
use stratasync.Value.{Row, text}
use stratasync.Transaction.{Action, Transaction, insert, update, archive, queued}
use stratasync.IdentityMap.{empty, plain}
use stratasync.IdentityMap.Registry.{Registry, empty_registry, map_of, max_size_for}
use stratasync.Hydration.{apply_pending}
use stratasync.Hydration.Overlay.{Unbounded, overlay_all, apply_pending-overlay}
use stratasync.Hydration.Privacy.{
  prepare_pending, forget, with_row, without_row, with_rollback, AreWithheld, ArePresent,
  prepare_pending-splits, are_groups_equal,
}
use stratasync.Hydration.Groups.{are_groups_equal_iff}

abbrev no_date : String → Option ℤ
no_date s = none

abbrev noon : Transaction → ℤ
noon tx = pos 12

abbrev pending_tx : Action → Row → Transaction
pending_tx action payload = record {
  client_tx_id = "x1";
  client_id = "me";
  model_name = "Task";
  model_id = "t1";
  action = action;
  payload = payload;
  original = some (("title", text "Old") ∷ []);
  state = queued;
  created_at = pos 1;
  retry_count = 0;
  last_error = none;
  sync_id_needed = none;
  batch_index = none;
}

-- A task is made, renamed and archived.
abbrev pending : List Transaction
pending =
    pending_tx insert (("title", text "Draft") ∷ [])
    ∷ pending_tx update (("title", text "Final") ∷ [])
    ∷ pending_tx archive []
    ∷ []

abbrev no_maps : Registry Row
no_maps = empty_registry none

no_maps-Unbounded : Unbounded no_maps
no_maps-Unbounded name = unfold empty_registry map_of max_size_for empty lookup in refl

apply_pending-overlay_example :
    lookup "t1"
      (map_of (apply_pending plain (λ r. r) tt no_date noon pending no_maps) "Task").entries
    ≡ overlay_all plain
        (λ r. r)
        tt
        no_date
        noon
        "Task"
        "t1"
        pending
        (lookup "t1" (map_of no_maps "Task").entries)
apply_pending-overlay_example =
    apply_pending-overlay plain (λ r. r) tt no_date noon pending no_maps "Task" "t1"
      no_maps-Unbounded

prepare_pending-splits_example :
    ArePresent no_maps (prepare_pending no_maps pending).replayable
    × AreWithheld no_maps (prepare_pending no_maps pending).withheld
    × ((prepare_pending no_maps pending).replayable ≡ with_row no_maps pending)
    × ((prepare_pending no_maps pending).withheld ≡ map forget (without_row no_maps pending))
    × ((prepare_pending no_maps pending).changed
        ≡ map forget (with_rollback (without_row no_maps pending)))
prepare_pending-splits_example = prepare_pending-splits no_maps pending

are_groups_equal_iff_example :
    (are_groups_equal ("a" ∷ "b" ∷ []) ("b" ∷ "a" ∷ "b" ∷ []) ≡ true)
    ↔ ((x : String) → contains x ("a" ∷ "b" ∷ []) ≡ contains x ("b" ∷ "a" ∷ "b" ∷ []))
are_groups_equal_iff_example = are_groups_equal_iff ("a" ∷ "b" ∷ []) ("b" ∷ "a" ∷ "b" ∷ [])
