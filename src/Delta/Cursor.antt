-- ===== src/Delta/Cursor.antt =====
-- The cursor that `applyDeltas` reports.
use Prim.Native.Nat.{max}
use stratasync.Prelude.{ℕ, String, ◌≡◌, refl, ◌∙◌, ap, Bool, List, [], ◌∷◌, Option, arith}
use stratasync.Prelude.Int.{ℤ}
use stratasync.SyncId.{value, max_sync_id}
use stratasync.SyncId.Value.{IsDigits}
use stratasync.SyncId.Compare.{max_sync_id-value, max_sync_id-IsDigits}
use stratasync.SyncAction.{SyncAction, DeltaPacket}
use stratasync.Delta.{
  DeltaTarget, ApplyResult, ApplyOptions, no_result, apply_one, apply_all, apply_deltas,
}
use stratasync.Delta.Counts.{last-apply_one}

-- The ids are texts of digits, as `parseSyncId` leaves them.
abbrev pub HaveIds : List SyncAction → Type 0
HaveIds [] = Unit
HaveIds (a ∷ actions) = IsDigits a.id × HaveIds actions

-- The largest of `n` and the ids' numbers.
unfoldable pub newest : ℕ → List SyncAction → ℕ
newest n [] = n
newest n (a ∷ actions) = newest (max n (value a.id)) actions

module _ {S : Type 0} (target : DeltaTarget S) (date_parse : String → Option ℤ)
    (clock : SyncAction → ℤ) where
  last-apply_all :
      (has_model : String → Bool) (o : ApplyOptions) (actions : List SyncAction) (r : ApplyResult)
      (s : S)
      → IsDigits r.last_sync_id
      → HaveIds actions
      → IsDigits (apply_all target date_parse clock has_model o actions (r, s)).0.last_sync_id
        × (value (apply_all target date_parse clock has_model o actions (r, s)).0.last_sync_id
            ≡ newest (value r.last_sync_id) actions)
  unfolding apply_all newest
  last-apply_all has_model o [] r s d h = (d, refl)
  last-apply_all has_model o (a ∷ actions) r s d h =
      let next = apply_one target date_parse clock has_model o a (r, s) in
      let e : next.0.last_sync_id ≡ max_sync_id r.last_sync_id a.id =
        last-apply_one target date_parse clock has_model o a r s in
      let (rest_digits, rest_value) =
        last-apply_all has_model o actions next.0 next.1
          (rw e (max_sync_id-IsDigits r.last_sync_id a.id d h.0)) h.1 in
      (
        rest_digits,
        rest_value
            ∙ ap (λ n. newest n actions)
                (ap value e ∙ (max_sync_id-value r.last_sync_id a.id d h.0).0),
      )

  -- Where all ids are texts of digits, the reported cursor is the largest of the packet's own
  -- `lastSyncId` and of the ids of all actions, skipped ones included.
  pub last-apply_deltas :
      (has_model : String → Bool) (o : ApplyOptions) (packet : DeltaPacket) (s : S)
      → IsDigits packet.last_sync_id
      → HaveIds packet.actions
      → value (apply_deltas target date_parse clock has_model o packet s).0.last_sync_id
        ≡ max (newest 0 packet.actions) (value packet.last_sync_id)
  unfolding apply_deltas
  last-apply_deltas has_model o packet s d h =
      let (digits, e) = last-apply_all has_model o packet.actions no_result s (omega arith) h in
      (max_sync_id-value _ packet.last_sync_id digits d).0
      ∙ ap (λ n. max n (value packet.last_sync_id)) (e ∙ unfold value in refl)
