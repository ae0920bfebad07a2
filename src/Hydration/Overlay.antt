-- ===== src/Hydration/Overlay.antt =====
-- What is in the identity maps after the pending transactions went over them.
use stratasync.Prelude.{
  String, ◌≡◌, refl, sym, ap, ◌∙◌, inl, inr, ◌&&◌, List, [], ◌∷◌, Option, none, some, arith,
  Option-cases, same, same_iff, if◌then◌else◌,
}
use stratasync.Prelude.Int.{ℤ}
use stratasync.Prelude.Dict.{lookup, lookup-assign, lookup-remove, has_key-lookup}
use stratasync.Value.{Row}
use stratasync.Archive.{read_archived_at, create_archive_payload, create_unarchive_patch}
use stratasync.Transaction.{Action, Transaction, insert, update, archive, delete, unarchive}
use stratasync.IdentityMap
use stratasync.IdentityMap.{Instances, IdentityMap, has, merge, touch, store, evict_if_needed}
use stratasync.IdentityMap.Registry.{Registry, map_of, with_map, map_of-with_map}
use stratasync.Hydration.{merge_row, hydrate_map, apply_pending}

-- No map evicts.
abbrev pub Unbounded : {T : Type 0} → Registry T → Type 0
Unbounded g = (name : String) → (map_of g name).max_size ≡ none

module _ {T O : Type 0} (inst : Instances T O) (as_data : Row → T) (defaults : O)
    (date_parse : String → Option ℤ) (now : Transaction → ℤ) where
  -- An instance that is there takes the changes.
  abbrev changed : Row → Option T → Option T
  changed fields none = none
  changed fields (some x) = some (inst.apply_changes x (as_data fields) defaults)

  abbrev made_once : Row → Option T → Option T
  made_once fields none = some (inst.to_instance (as_data fields) defaults)
  made_once fields (some x) = some x

  -- A transaction on the one instance that it is for: it makes a missing one, or changes or drops
  -- one that is there.
  abbrev pub overlay : Action → Transaction → Option T → Option T
  overlay insert tx x = made_once tx.payload x
  overlay update tx x = changed tx.payload x
  overlay delete tx x = none
  overlay archive tx x =
      changed (create_archive_payload (read_archived_at date_parse (some tx.payload)) (now tx)) x
  overlay unarchive tx x = changed create_unarchive_patch x

  -- All pending transactions on one instance, in order.
  unfoldable pub overlay_all : String → String → List Transaction → Option T → Option T
  overlay_all name id [] x = x
  overlay_all name id (tx ∷ pending) x =
      overlay_all name id pending
        (if same tx.model_name name && same tx.model_id id then overlay tx.action tx x else x)

  keeps_all : (m : IdentityMap T) → m.max_size ≡ none → (evict_if_needed m).0 ≡ m
  unfolding evict_if_needed
  keeps_all m free = elim (Option-cases m.max_size) [
    | inl e ↦ unfold evict_if_needed in ground arith
    | inr (n, e) ↦ let no : some n ≡ none = sym e ∙ free in cc
  ]

  merge_row_missing :
      (id : String) (fields : Row) (m : IdentityMap T)
      → lookup id m.entries ≡ none
      → m.max_size ≡ none
      → merge_row inst as_data defaults id fields m
        ≡ touch id (store id (inst.to_instance (as_data fields) defaults) m)
  unfolding merge_row merge
  merge_row_missing id fields m e free =
      rw (e, merge_row, merge)
        (keeps_all (touch id (store id (inst.to_instance (as_data fields) defaults) m))
          (unfold touch store in free))

  merge_row-unbounded :
      (id j : String) (fields : Row) (m : IdentityMap T)
      → m.max_size ≡ none
      → ((merge_row inst as_data defaults id fields m).max_size ≡ none)
        × (lookup j (merge_row inst as_data defaults id fields m).entries ≡ (
            if same id j
            then (elim (lookup id m.entries) [
              | none ↦ some (inst.to_instance (as_data fields) defaults)
              | some x ↦ some (inst.apply_changes x (as_data fields) defaults)
            ])
            else lookup j m.entries))
  unfolding merge_row merge evict_if_needed touch store
  merge_row-unbounded id j fields m free = elim (Option-cases (lookup id m.entries)) [
    | inl e ↦
        rw (merge_row_missing id fields m e free, e)
          (free, lookup-assign id j (inst.to_instance (as_data fields) defaults) m.entries)
    | inr (x, e) ↦
        rw (e, merge_row, merge)
          (free, lookup-assign id j (inst.apply_changes x (as_data fields) defaults) m.entries)
  ]

  hydrate_map-overlay :
      (t : Action) (tx : Transaction) (m : IdentityMap T) (j : String)
      → m.max_size ≡ none
      → ((hydrate_map inst as_data defaults date_parse now t tx m).max_size ≡ none)
        × (lookup j (hydrate_map inst as_data defaults date_parse now t tx m).entries ≡ (
            if same tx.model_id j then overlay t tx (lookup j m.entries) else lookup j m.entries))
  unfolding hydrate_map has
  hydrate_map-overlay insert tx m j free = ground (
    arith,
    merge_row-unbounded tx.model_id j tx.payload m free,
    same_iff tx.model_id j,
    has_key-lookup tx.model_id m.entries,
  )
  hydrate_map-overlay update tx m j free = ground (
    arith,
    merge_row-unbounded tx.model_id j tx.payload m free,
    same_iff tx.model_id j,
    has_key-lookup tx.model_id m.entries,
  )
  hydrate_map-overlay delete tx m j free =
      unfold IdentityMap.delete in ground (arith, free, lookup-remove tx.model_id j m.entries)
  hydrate_map-overlay archive tx m j free = ground (
    arith,
    merge_row-unbounded tx.model_id j
        (create_archive_payload (read_archived_at date_parse (some tx.payload)) (now tx)) m free,
    same_iff tx.model_id j,
    has_key-lookup tx.model_id m.entries,
  )
  hydrate_map-overlay unarchive tx m j free = ground (
    arith,
    merge_row-unbounded tx.model_id j create_unarchive_patch m free,
    same_iff tx.model_id j,
    has_key-lookup tx.model_id m.entries,
  )

  apply_one-overlay :
      (tx : Transaction) (g : Registry T) (name id : String)
      → Unbounded g
      → ((map_of
            (with_map tx.model_name
              (hydrate_map inst as_data defaults date_parse now tx.action tx)
              g)
            name).max_size
          ≡ none)
        × (lookup id
              (map_of
                (with_map tx.model_name
                  (hydrate_map inst as_data defaults date_parse now tx.action tx)
                  g)
                name).entries
            ≡ (if same tx.model_name name && same tx.model_id id
                then overlay tx.action tx (lookup id (map_of g name).entries)
                else lookup id (map_of g name).entries))
  apply_one-overlay tx g name id free =
      rw
        (map_of-with_map tx.model_name name
          (hydrate_map inst as_data defaults date_parse now tx.action tx) g)
        (ground (
          arith,
          same_iff tx.model_name name,
          free name,
          free tx.model_name,
          hydrate_map-overlay tx.action tx (map_of g tx.model_name) id (free tx.model_name),
        ))

  -- Where no map evicts, `applyPendingTransactionsToIdentityMaps` leaves each instance of each model
  -- as the pending transactions on it, in order, make it out of what was there.
  pub apply_pending-overlay :
      (pending : List Transaction) (g : Registry T) (name id : String)
      → Unbounded g
      → lookup id
          (map_of (apply_pending inst as_data defaults date_parse now pending g) name).entries
        ≡ overlay_all name id pending (lookup id (map_of g name).entries)
  unfolding apply_pending overlay_all
  apply_pending-overlay [] g name id free = refl
  apply_pending-overlay (tx ∷ pending) g name id free =
      let f = hydrate_map inst as_data defaults date_parse now tx.action tx in
      apply_pending-overlay pending (with_map tx.model_name f g) name id
        (λ n. (apply_one-overlay tx g n id free).0)
      ∙ ap (overlay_all name id pending) (apply_one-overlay tx g name id free).1
