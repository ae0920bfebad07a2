-- ===== src/Cursor/Monotone.antt =====
-- The cursor only moves forward, and the storage sees each of its moves.
use Prim.Native.Nat.{max}
use stratasync.Prelude.{
  ℕ, ◌<◌, ◌≡◌, refl, sym, ap, ◌∙◌, inl, inr, Bool, true, false, List, [], ◌∷◌, Option, none, some,
  arith, ltb, Bool-cases,
}
use stratasync.SyncId.{SyncId, value, is_sync_id_greater_than}
use stratasync.SyncId.Value.{IsDigits}
use stratasync.SyncId.Compare.{is_sync_id_greater_than-value}
use stratasync.Transaction.{Runtime}
use stratasync.Cursor.{SyncCursor, CursorMeta, cursor_meta, advance, advance_all, with_write}

abbrev pub AllDigits : List SyncId → Type 0
AllDigits [] = Unit
AllDigits (id ∷ ids) = IsDigits id × AllDigits ids

-- The largest of `n` and the ids' numbers.
unfoldable pub largest : ℕ → List SyncId → ℕ
largest n [] = n
largest n (id ∷ ids) = largest (max n (value id)) ids

-- The writes hold ever larger ids, all above `n`, the last of which is `last`, or `last` is `n`.
abbrev pub Rises : ℕ → List CursorMeta → ℕ → Type 0
Rises n [] last = last ≡ n
Rises n (w ∷ writes) last = (n < value w.last_sync_id) × Rises (value w.last_sync_id) writes last

module _ {R : Type 0} (rt : Runtime R) where
  -- `advance` says that it moved just when the id is the larger number; the cursor then stands at
  -- the larger of the two numbers.
  pub advance-value :
      (id : SyncId) (c : SyncCursor) (r : R)
      → IsDigits id
      → IsDigits c.last_sync_id
      → ((advance rt id c r).0 ≡ ltb (value c.last_sync_id) (value id))
        × (value (advance rt id c r).1.last_sync_id ≡ max (value c.last_sync_id) (value id))
  unfolding advance
  advance-value id c r d e = ground (arith, is_sync_id_greater_than-value id c.last_sync_id d e)

  advance_newer :
      (id : SyncId) (c : SyncCursor) (r : R)
      → is_sync_id_greater_than id c.last_sync_id ≡ true
      → advance rt id c r ≡ (
        true,
        record c { last_sync_id = id },
        some (cursor_meta rt id r).0,
        (cursor_meta rt id r).1,
      )
  unfolding advance
  advance_newer id c r e = rw e refl

  advance_older :
      (id : SyncId) (c : SyncCursor) (r : R)
      → is_sync_id_greater_than id c.last_sync_id ≡ false
      → advance rt id c r ≡ (false, c, none, r)
  unfolding advance
  advance_older id c r e = rw e refl

  advance_all_step :
      (id : SyncId) (ids : List SyncId) (c : SyncCursor) (r : R)
      (q : Bool × SyncCursor × Option CursorMeta × R)
      → advance rt id c r ≡ q
      → advance_all rt (id ∷ ids) c r ≡ with_write q.2 (advance_all rt ids q.1 q.3)
  unfolding advance_all
  advance_all_step id ids c r q e = ap (λ p. with_write p.2 (advance_all rt ids p.1 p.3)) e

  -- However the ids arrive, stale ones and repeats included, the cursor ends at the largest number,
  -- and the numbers that are written to the storage rise to it.
  pub advance_all-value :
      (ids : List SyncId) (c : SyncCursor) (r : R)
      → AllDigits ids
      → IsDigits c.last_sync_id
      → (value (advance_all rt ids c r).0.last_sync_id ≡ largest (value c.last_sync_id) ids)
        × Rises
            (value c.last_sync_id)
            (advance_all rt ids c r).1
            (value (advance_all rt ids c r).0.last_sync_id)
  unfolding largest cursor_meta
  advance_all-value [] c r h d = unfold advance_all in (refl, refl)
  advance_all-value (id ∷ ids) c r h d =
      elim (Bool-cases (is_sync_id_greater_than id c.last_sync_id)) [
        | inl e ↦
            let c' = record c { last_sync_id = id } in
            let newer : value c.last_sync_id < value id =
              ground (arith, is_sync_id_greater_than-value id c.last_sync_id h.0 d) in
            let e' : max (value c.last_sync_id) (value id) ≡ value id = omega arith in
            let (last, rises) = advance_all-value ids c' (cursor_meta rt id r).1 h.1 h.0 in
            rw (advance_all_step id ids c r _ (advance_newer id c r e))
              (last ∙ ap (λ n. largest n ids) (sym e'), (newer, rises))
        | inr e ↦
            let older : max (value c.last_sync_id) (value id) ≡ value c.last_sync_id =
              ground (arith, is_sync_id_greater_than-value id c.last_sync_id h.0 d) in
            let (last, rises) = advance_all-value ids c r h.1 d in
            rw (advance_all_step id ids c r _ (advance_older id c r e))
              (last ∙ ap (λ n. largest n ids) (sym older), rises)
      ]
