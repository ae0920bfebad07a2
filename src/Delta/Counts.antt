-- ===== src/Delta/Counts.antt =====
-- What the counters of `applyDeltas` count, and add up to.
use stratasync.Prelude.{
  ℕ, ◌+◌, String, ◌≡◌, refl, ap, ap₂, ◌∙◌, Bool, true, false, not, ◌&&◌, ◌||◌, List, [], ◌∷◌,
  Option, some, arith, length, same, if◌then◌else◌,
}
use stratasync.Prelude.Dict.{is_some}
use stratasync.Transaction.{Action, insert, update, delete, archive, unarchive}
use stratasync.Prelude.Int.{ℤ}
use stratasync.SyncId.{SyncId, max_sync_id}
use stratasync.SyncAction.{SyncAction, SyncActionType, DeltaPacket, row}
use stratasync.Delta.{
  DeltaTarget, ApplyResult, ApplyOptions, no_result, update_result, mark_skipped, apply_by,
  apply_one, apply_all, apply_deltas, record_applied, is_own, update_existing, merge_and_put,
}

-- The actions that a result accounts for.
unfoldable pub total : ApplyResult → ℕ
total r = r.inserts + r.updates + r.deletes + r.archives + r.unarchives + r.skipped

last-update_result :
    (r : ApplyResult) (a : SyncAction)
    → (update_result r a).last_sync_id ≡ max_sync_id r.last_sync_id a.id
unfolding update_result
last-update_result r a = ground arith

total-mark_skipped : (r : ApplyResult) (id : SyncId) → total (mark_skipped r id) ≡ total r + 1
unfolding total mark_skipped
total-mark_skipped r id = omega arith

-- An action that the client itself sent: it has an id, and the action carries that.
abbrev pub comes_from : Option String → Option String → Bool
comes_from (some c) (some sender) = same sender c && not (same c "")
comes_from _ _ = false

is_own-comes_from :
    (o : ApplyOptions) (a : SyncAction) → is_own o a ≡ comes_from o.client_id a.client_id
unfolding is_own
is_own-comes_from o a = ground arith

-- The counter of a letter.
abbrev pub counter : Action → ApplyResult → ℕ
counter insert r = r.inserts
counter update r = r.updates
counter delete r = r.deletes
counter archive r = r.archives
counter unarchive r = r.unarchives

abbrev pub has_letter : Action → SyncActionType → Bool
has_letter insert (row insert) = true
has_letter update (row update) = true
has_letter delete (row delete) = true
has_letter archive (row archive) = true
has_letter unarchive (row unarchive) = true
has_letter _ _ = false

-- Whether an action with this letter is applied, where its row is there or not.
abbrev pub takes_effect : Bool → Bool → SyncActionType → Bool
takes_effect merge_updates found (row insert) = true
takes_effect merge_updates found (row delete) = true
takes_effect merge_updates found (row update) = merge_updates || found
takes_effect merge_updates found (row archive) = found
takes_effect merge_updates found (row unarchive) = found
takes_effect merge_updates found _ = false

module _ {S : Type 0} (target : DeltaTarget S) (date_parse : String → Option ℤ)
    (clock : SyncAction → ℤ) where
  -- An action that is applied has one of the five letters.
  total-apply_by :
      (t : SyncActionType) (a : SyncAction) (o : ApplyOptions) (r : ApplyResult) (s : S)
      → a.action ≡ t
      → total
          (record_applied target date_parse clock a r (apply_by target date_parse clock t a o s)).0
        ≡ total r + 1
  unfolding total update_result mark_skipped apply_by
  total-apply_by t a o r s e = ground arith

  -- Whether the action is applied to a store: it is another client's, of a known model, and its row
  -- is there where it needs one.
  abbrev pub is_applied : (String → Bool) → ApplyOptions → SyncAction → S → Bool
  is_applied has_model o a s =
      not (comes_from o.client_id a.client_id)
      && has_model a.model_name
      && takes_effect o.merge_updates (is_some (target.get a.model_name a.model_id s).0) a.action

  abbrev pub store_after : (String → Bool) → ApplyOptions → SyncAction → S → S
  store_after has_model o a s = (apply_one target date_parse clock has_model o a (no_result, s)).1

  -- How many of the actions are applied and have the letter, each at the store that it finds.
  unfoldable pub times_applied : (String → Bool) → ApplyOptions → Action → List SyncAction → S → ℕ
  times_applied has_model o letter [] s = 0
  times_applied has_model o letter (a ∷ actions) s =
      (if is_applied has_model o a s && has_letter letter a.action then 1 else 0)
      + times_applied has_model o letter actions (store_after has_model o a s)

  -- How many are not applied.
  unfoldable pub times_skipped : (String → Bool) → ApplyOptions → List SyncAction → S → ℕ
  times_skipped has_model o [] s = 0
  times_skipped has_model o (a ∷ actions) s =
      (if is_applied has_model o a s then 0 else 1)
      + times_skipped has_model o actions (store_after has_model o a s)

  applied-apply_by :
      (t : SyncActionType) (a : SyncAction) (o : ApplyOptions) (s : S)
      → (apply_by target date_parse clock t a o s).0
        ≡ takes_effect o.merge_updates (is_some (target.get a.model_name a.model_id s).0) t
  unfolding apply_by update_existing merge_and_put
  applied-apply_by t a o s = ground arith

  counter-update_result :
      (letter : Action) (t : SyncActionType) (r : ApplyResult) (a : SyncAction)
      → a.action ≡ t
      → (counter letter (update_result r a)
          ≡ (if has_letter letter t then 1 else 0) + counter letter r)
        × ((update_result r a).skipped ≡ r.skipped)
  unfolding update_result
  counter-update_result letter t r a e = ground arith

  counter-mark_skipped :
      (letter : Action) (r : ApplyResult) (id : SyncId)
      → (counter letter (mark_skipped r id) ≡ counter letter r)
        × ((mark_skipped r id).skipped ≡ r.skipped + 1)
  unfolding mark_skipped
  counter-mark_skipped letter r id = ground arith

  store-apply_one :
      (has_model : String → Bool) (o : ApplyOptions) (a : SyncAction) (r : ApplyResult) (s : S)
      → (apply_one target date_parse clock has_model o a (r, s)).1 ≡ store_after has_model o a s
  unfolding apply_one
  store-apply_one has_model o a r s = ground arith

  counter-apply_one :
      (has_model : String → Bool) (o : ApplyOptions) (letter : Action) (a : SyncAction)
      (r : ApplyResult) (s : S)
      → (counter letter (apply_one target date_parse clock has_model o a (r, s)).0
          ≡ (if is_applied has_model o a s && has_letter letter a.action then 1 else 0)
            + counter letter r)
        × ((apply_one target date_parse clock has_model o a (r, s)).0.skipped
            ≡ (if is_applied has_model o a s then 0 else 1) + r.skipped)
  unfolding apply_one
  counter-apply_one has_model o letter a r s = ground (
    arith,
    is_own-comes_from o a,
    applied-apply_by a.action a o s,
    counter-update_result letter a.action r a refl,
    counter-mark_skipped letter r a.id,
  )

  counter-apply_all :
      (has_model : String → Bool) (o : ApplyOptions) (letter : Action) (actions : List SyncAction)
      (rs : ApplyResult × S)
      → (counter letter (apply_all target date_parse clock has_model o actions rs).0
          ≡ times_applied has_model o letter actions rs.1 + counter letter rs.0)
        × ((apply_all target date_parse clock has_model o actions rs).0.skipped
            ≡ times_skipped has_model o actions rs.1 + rs.0.skipped)
  unfolding apply_all times_applied times_skipped
  counter-apply_all has_model o letter [] rs = omega arith
  counter-apply_all has_model o letter (a ∷ actions) (r, s) =
      let next = apply_one target date_parse clock has_model o a (r, s) in
      let (same_letter, same_skipped) = counter-apply_one has_model o letter a r s in
      let (letters, skipped) = counter-apply_all has_model o letter actions next in
      let same_store = store-apply_one has_model o a r s in
      (
        letters
            ∙ ap₂ (λ n m. n + m) (ap (λ u. times_applied has_model o letter actions u) same_store)
                same_letter
            ∙ omega arith,
        skipped
            ∙ ap₂ (λ n m. n + m) (ap (λ u. times_skipped has_model o actions u) same_store)
                same_skipped
            ∙ omega arith,
      )

  pub last-apply_one :
      (has_model : String → Bool) (o : ApplyOptions) (a : SyncAction) (r : ApplyResult) (s : S)
      → (apply_one target date_parse clock has_model o a (r, s)).0.last_sync_id
        ≡ max_sync_id r.last_sync_id a.id
  unfolding apply_one mark_skipped
  last-apply_one has_model o a r s = ground (arith, last-update_result r a)

  total-apply_one :
      (has_model : String → Bool) (o : ApplyOptions) (a : SyncAction) (r : ApplyResult) (s : S)
      → total (apply_one target date_parse clock has_model o a (r, s)).0 ≡ total r + 1
  unfolding apply_one
  total-apply_one has_model o a r s =
      ground (arith, total-apply_by a.action a o r s refl, total-mark_skipped r a.id)

  total-apply_all :
      (has_model : String → Bool) (o : ApplyOptions) (actions : List SyncAction)
      (rs : ApplyResult × S)
      → total (apply_all target date_parse clock has_model o actions rs).0
        ≡ total rs.0 + length actions
  unfolding apply_all
  total-apply_all has_model o [] rs = omega arith
  total-apply_all has_model o (a ∷ actions) (r, s) = omega (
    arith,
    total-apply_all has_model o actions (apply_one target date_parse clock has_model o a (r, s)),
    total-apply_one has_model o a r s,
  )

  counter-of_all :
      (has_model : String → Bool) (o : ApplyOptions) (letter : Action) (packet : DeltaPacket)
      (s : S)
      → (counter letter
            (apply_all target date_parse clock has_model o packet.actions (no_result, s)).0
          ≡ times_applied has_model o letter packet.actions s + counter letter no_result)
        × ((apply_all target date_parse clock has_model o packet.actions (no_result, s)).0.skipped
            ≡ times_skipped has_model o packet.actions s + 0)
      → (counter letter (apply_deltas target date_parse clock has_model o packet s).0
          ≡ times_applied has_model o letter packet.actions s)
        × ((apply_deltas target date_parse clock has_model o packet s).0.skipped
            ≡ times_skipped has_model o packet.actions s)
  unfolding apply_deltas
  counter-of_all has_model o letter packet s h = ground arith

  total-apply_deltas :
      (has_model : String → Bool) (o : ApplyOptions) (packet : DeltaPacket) (s : S)
      → total (apply_deltas target date_parse clock has_model o packet s).0 ≡ length packet.actions
  unfolding apply_deltas total
  total-apply_deltas has_model o packet s =
      omega (arith, total-apply_all has_model o packet.actions (no_result, s))

  -- Each of the five counters is the number of the packet's actions with its letter that are
  -- applied, each at the store that it finds: those of another client and a known model, and, for
  -- an archive, an unarchive and an update that is not to be merged, with a row. The others are
  -- skipped, and every action is counted once.
  pub counter-apply_deltas :
      (has_model : String → Bool) (o : ApplyOptions) (letter : Action) (packet : DeltaPacket)
      (s : S)
      → (counter letter (apply_deltas target date_parse clock has_model o packet s).0
          ≡ times_applied has_model o letter packet.actions s)
        × ((apply_deltas target date_parse clock has_model o packet s).0.skipped
            ≡ times_skipped has_model o packet.actions s)
        × (total (apply_deltas target date_parse clock has_model o packet s).0
            ≡ length packet.actions)
  counter-apply_deltas has_model o letter packet s =
      let (letters, skipped) =
        counter-of_all has_model o letter packet s
          (counter-apply_all has_model o letter packet.actions (no_result, s)) in
      (letters, skipped, total-apply_deltas has_model o packet s)
