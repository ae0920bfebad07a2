-- ===== src/Delta/Effect.antt =====
-- What one action does to one row of the store, and a packet's effect as their composition.
use stratasync.Prelude.{
  String, ◌≡◌, refl, ap, ◌∙◌, inl, inr, Bool, false, List, [], ◌∷◌, Option, none, some, arith,
  Bool-cases, Option-cases, same_iff, if◌then◌else◌,
}
use stratasync.Prelude.Int.{ℤ}
use stratasync.Prelude.Dict.{spread}
use stratasync.Value.{Row}
use stratasync.Archive.{read_archived_at, create_archive_payload, create_unarchive_patch}
use stratasync.Transaction.{insert, update, archive, delete, unarchive}
use stratasync.SyncAction.{SyncAction, SyncActionType, DeltaPacket, row}
use stratasync.Delta.{
  DeltaTarget, ApplyResult, ApplyOptions, no_result, is_own, apply_by, apply_one, apply_all,
  apply_deltas, merge_and_put, update_existing,
}
use stratasync.Delta.Table.{Table, IsStore, is_row, with_row, patched}

-- Whether the packet's loop applies the action, and to the row in question.
unfoldable pub concerns : (String → Bool) → ApplyOptions → String → String → SyncAction → Bool
concerns has_model o m i a =
    if is_own o a
    then false
    else if has_model a.model_name
    then is_row a.model_name a.model_id m i
    else false

module _ (date_parse : String → Option ℤ) (clock : SyncAction → ℤ)
    (fixed : String → String → Row) where
  -- The row after an action on it.
  unfoldable pub effect : SyncActionType → ApplyOptions → SyncAction → Option Row → Option Row
  effect (row insert) o a x = some (spread a.fields (fixed a.model_name a.model_id))
  effect (row update) o a x =
      if o.merge_updates
      then patched x a.fields
      else patched (patched x a.fields) (fixed a.model_name a.model_id)
  effect (row delete) o a x = none
  effect (row archive) o a x =
      patched
        (patched (patched x a.fields)
          (create_archive_payload (read_archived_at date_parse (some a.fields)) (clock a)))
        (fixed a.model_name a.model_id)
  effect (row unarchive) o a x =
      patched (patched (patched x a.fields) create_unarchive_patch) (fixed a.model_name a.model_id)
  effect _ o a x = x

  unfoldable pub row_after_one :
      (String → Bool) → ApplyOptions → String → String → SyncAction → Option Row → Option Row
  row_after_one has_model o m i a x =
      if concerns has_model o m i a then effect a.action o a x else x

  -- The row after all of the actions.
  unfoldable pub row_after :
      (String → Bool) → ApplyOptions → String → String → List SyncAction → Option Row → Option Row
  row_after has_model o m i [] x = x
  row_after has_model o m i (a ∷ actions) x =
      row_after has_model o m i actions (row_after_one has_model o m i a x)

  module _ {S : Type 0} (target : DeltaTarget S) (view : S → Table)
      (st : IsStore target view fixed) where
    missing_row :
        (m i : String) (s : S) (m' i' : String)
        → view s m i ≡ none
        → view s m' i' ≡ with_row m i none (view s) m' i'
    missing_row m i s m' i' e = ground (arith, same_iff m m', same_iff i i')

    merge_and_put-view :
        (m i : String) (fields overrides : Row) (s : S) (m' i' : String)
        → view (merge_and_put target m i fields overrides s).1 m' i'
          ≡ with_row m i
              (patched (patched (patched (view s m i) fields) overrides) (fixed m i))
              (view s)
              m'
              i'
    unfolding merge_and_put
    merge_and_put-view m i fields overrides s m' i' = elim (Option-cases (target.get m i s).0) [
      | inl e ↦
          rw (e, merge_and_put)
            (st.get_keeps m i s m' i' ∙ ground (arith, st.get_view m i s, missing_row m i s m' i'))
      | inr (x, e) ↦
          rw (e, merge_and_put)
            (st.put_view m i (spread (spread x fields) overrides) (target.get m i s).1 m' i'
              ∙ ground (arith, st.get_view m i s, st.get_keeps m i s m' i'))
    ]

    update_existing-view :
        (m i : String) (fields : Row) (s : S) (m' i' : String)
        → view (update_existing target m i fields s).1 m' i'
          ≡ with_row m i (patched (patched (view s m i) fields) (fixed m i)) (view s) m' i'
    unfolding update_existing
    update_existing-view m i fields s m' i' = elim (Option-cases (target.get m i s).0) [
      | inl e ↦
          rw (e, update_existing)
            (st.get_keeps m i s m' i' ∙ ground (arith, st.get_view m i s, missing_row m i s m' i'))
      | inr (x, e) ↦
          rw (e, update_existing)
            (st.put_view m i (spread x fields) (target.get m i s).1 m' i'
              ∙ ground (arith, st.get_view m i s, st.get_keeps m i s m' i'))
    ]

    unchanged :
        (m i : String) (s : S) (m' i' : String)
        → view s m' i' ≡ (if is_row m i m' i' then view s m' i' else view s m' i')
    unchanged m i s m' i' = ground arith

    -- At any row, an action on a row of its own is `effect` there and nothing elsewhere.
    apply_by-view :
        (t : SyncActionType) (a : SyncAction) (o : ApplyOptions) (s : S) (m' i' : String)
        → view (apply_by target date_parse clock t a o s).1 m' i' ≡ (
            if is_row a.model_name a.model_id m' i'
            then effect t o a (view s m' i')
            else view s m' i')
    unfolding apply_by effect
    apply_by-view (row insert) a o s m' i' = st.put_view a.model_name a.model_id a.fields s m' i'
    apply_by-view (row update) a o s m' i' = elim (Bool-cases o.merge_updates) [
      | inl e ↦ rw e (
          st.patch_view a.model_name a.model_id a.fields s m' i'
          ∙ ground (arith, same_iff a.model_name m', same_iff a.model_id i'))
      | inr e ↦ rw e (
          update_existing-view a.model_name a.model_id a.fields s m' i'
          ∙ ground (arith, same_iff a.model_name m', same_iff a.model_id i'))
    ]
    apply_by-view (row delete) a o s m' i' = st.remove_view a.model_name a.model_id s m' i'
    apply_by-view (row archive) a o s m' i' =
        merge_and_put-view a.model_name a.model_id a.fields
          (create_archive_payload (read_archived_at date_parse (some a.fields)) (clock a)) s m' i'
        ∙ ground (arith, same_iff a.model_name m', same_iff a.model_id i')
    apply_by-view (row unarchive) a o s m' i' =
        merge_and_put-view a.model_name a.model_id a.fields create_unarchive_patch s m' i'
        ∙ ground (arith, same_iff a.model_name m', same_iff a.model_id i')
    apply_by-view _ a o s m' i' = unchanged a.model_name a.model_id s m' i'

    apply_one-view :
        (has_model : String → Bool) (o : ApplyOptions) (a : SyncAction) (r : ApplyResult) (s : S)
        (m' i' : String)
        → view (apply_one target date_parse clock has_model o a (r, s)).1 m' i'
          ≡ row_after_one has_model o m' i' a (view s m' i')
    unfolding apply_one row_after_one concerns
    apply_one-view has_model o a r s m' i' = ground (arith, apply_by-view a.action a o s m' i')

    apply_all-view :
        (has_model : String → Bool) (o : ApplyOptions) (actions : List SyncAction)
        (rs : ApplyResult × S) (m' i' : String)
        → view (apply_all target date_parse clock has_model o actions rs).1 m' i'
          ≡ row_after has_model o m' i' actions (view rs.1 m' i')
    unfolding apply_all row_after
    apply_all-view has_model o [] rs m' i' = refl
    apply_all-view has_model o (a ∷ actions) (r, s) m' i' =
        apply_all-view has_model o actions (apply_one target date_parse clock has_model o a (r, s))
          m' i'
        ∙ ap (row_after has_model o m' i' actions) (apply_one-view has_model o a r s m' i')

    -- In any store with the four laws, `applyDeltas` leaves each row as the actions on it, in order
    -- and without those that are skipped, would leave that row alone.
    pub apply_deltas-view :
        (has_model : String → Bool) (o : ApplyOptions) (packet : DeltaPacket) (s : S) (m i : String)
        → view (apply_deltas target date_parse clock has_model o packet s).1 m i
          ≡ row_after has_model o m i packet.actions (view s m i)
    unfolding apply_deltas
    apply_deltas-view has_model o packet s m i =
        apply_all-view has_model o packet.actions (no_result, s) m i
