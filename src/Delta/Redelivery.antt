-- ===== src/Delta/Redelivery.antt =====
-- A packet that is delivered twice leaves the rows as it does when delivered once.
use stratasync.Prelude.{
  String, ◌≡◌, refl, sym, subst, ap, ◌∙◌, inl, inr, Bool, true, List, [], ◌∷◌, Option, none, some,
  arith, Bool-cases, if◌then◌else◌,
}
use stratasync.Prelude.Int.{ℤ}
use stratasync.Prelude.Dict.{lookup, spread, lookup-spread, is_some}
use stratasync.Value.{Value, Row}
use stratasync.Archive.{read_archived_at, create_archive_payload, create_unarchive_patch}
use stratasync.Transaction.{insert, update, archive, delete, unarchive}
use stratasync.SyncAction.{SyncAction, SyncActionType, DeltaPacket, row}
use stratasync.Delta.{DeltaTarget, ApplyOptions, apply_deltas}
use stratasync.Delta.Table.{Table, IsStore, patched}
use stratasync.Delta.Effect.{effect, concerns, row_after_one, row_after, apply_deltas-view}

-- Two rows with the same fields, or no row twice.
abbrev pub SameRow : Option Row → Option Row → Type 0
SameRow none none = Unit
SameRow none (some s) = ⊥
SameRow (some r) none = ⊥
SameRow (some r) (some s) = (k : String) → lookup k r ≡ lookup k s

SameRow-refl : (x : Option Row) → SameRow x x
SameRow-refl none = tt
SameRow-refl (some r) = λ k. refl

SameRow-sym : (x y : Option Row) → SameRow x y → SameRow y x
SameRow-sym none none h = tt
SameRow-sym none (some s) h = h
SameRow-sym (some r) none h = h
SameRow-sym (some r) (some s) h = λ k. sym (h k)

SameRow-trans : (x y z : Option Row) → SameRow x y → SameRow y z → SameRow x z
SameRow-trans none none z h g = g
SameRow-trans none (some s) z h g = absurd h
SameRow-trans (some r) none z h g = absurd h
SameRow-trans (some r) (some s) none h g = g
SameRow-trans (some r) (some s) (some t) h g = λ k. h k ∙ g k

SameRow-of_eq : (x y : Option Row) → x ≡ y → SameRow x y
SameRow-of_eq x y e = subst (SameRow x) e (SameRow-refl x)

patched-SameRow : (x y : Option Row) (d : Row) → SameRow x y → SameRow (patched x d) (patched y d)
patched-SameRow none none d h = tt
patched-SameRow none (some s) d h = h
patched-SameRow (some r) none d h = h
patched-SameRow (some r) (some s) d h =
    λ k. ground (arith, lookup-spread k r d, lookup-spread k s d, h k)

-- What a run of actions does to a row: it replaces it, or lays fields over it.
data Summary : Type 0 where
  replaced : Option Row → Summary
  merged : Row → Summary

eval : Summary → Option Row → Option Row
eval (replaced r) x = r
eval (merged d) x = patched x d

then_merge : Summary → Row → Summary
then_merge (replaced r) d = replaced (patched r d)
then_merge (merged e) d = merged (spread e d)

eval-then_merge :
    (s : Summary) (d : Row) (x : Option Row)
    → SameRow (patched (eval s x) d) (eval (then_merge s d) x)
unfolding eval then_merge
eval-then_merge (replaced r) d x = SameRow-refl (patched r d)
eval-then_merge (merged e) d none = tt
eval-then_merge (merged e) d (some r) = λ k. ground (
  arith,
  lookup-spread k (spread r e) d,
  lookup-spread k r e,
  lookup-spread k r (spread e d),
  lookup-spread k e d,
)

eval_idem : (s : Summary) (x : Option Row) → SameRow (eval s (eval s x)) (eval s x)
unfolding eval
eval_idem (replaced r) x = SameRow-refl r
eval_idem (merged d) none = tt
eval_idem (merged d) (some r) =
    λ k. ground (arith, lookup-spread k (spread r d) d, lookup-spread k r d)

eval-SameRow : (s : Summary) (x y : Option Row) → SameRow x y → SameRow (eval s x) (eval s y)
unfolding eval
eval-SameRow (replaced r) x y h = SameRow-refl r
eval-SameRow (merged d) x y h = patched-SameRow x y d h

and_then : Summary → Summary → Summary
unfolding then_merge
and_then s (replaced r) = replaced r
and_then s (merged d) = then_merge s d

eval-and_then :
    (s t : Summary) (x : Option Row) → SameRow (eval t (eval s x)) (eval (and_then s t) x)
unfolding and_then
eval-and_then s (replaced r) x = unfold eval in SameRow-refl r
eval-and_then s (merged d) x = unfold eval in eval-then_merge s d x

nothing : Summary
nothing = merged []

eval-nothing : (x : Option Row) → SameRow x (eval nothing x)
unfolding nothing eval
eval-nothing none = tt
eval-nothing (some r) = λ k. ground (arith, lookup-spread k r [], unfold_lookup k)
  where
    unfold_lookup : (k : String) → lookup {V = Value} k [] ≡ none
    unfold_lookup k = unfold lookup in refl

module _ (date_parse : String → Option ℤ) (clock : SyncAction → ℤ)
    (fixed : String → String → Row) where
  overlay : Row → Row → Row → Row
  overlay fields overrides top = spread (spread fields overrides) top

  summary_of : SyncActionType → ApplyOptions → SyncAction → Summary
  unfolding overlay
  summary_of (row insert) o a = replaced (some (spread a.fields (fixed a.model_name a.model_id)))
  summary_of (row update) o a =
      if o.merge_updates
      then merged a.fields
      else merged (spread a.fields (fixed a.model_name a.model_id))
  summary_of (row delete) o a = replaced none
  summary_of (row archive) o a = merged (
      overlay a.fields
        (create_archive_payload (read_archived_at date_parse (some a.fields)) (clock a))
        (fixed a.model_name a.model_id))
  summary_of (row unarchive) o a =
      merged (overlay a.fields create_unarchive_patch (fixed a.model_name a.model_id))
  summary_of _ o a = nothing

  patched_twice :
      (x : Option Row) (d e : Row) → SameRow (patched (patched x d) e) (patched x (spread d e))
  patched_twice x d e = unfold eval then_merge in eval-then_merge (merged d) e x

  patched_thrice :
      (x : Option Row) (d e f : Row)
      → SameRow (patched (patched (patched x d) e) f) (patched x (overlay d e f))
  unfolding overlay
  patched_thrice x d e f =
      SameRow-trans (patched (patched (patched x d) e) f) (patched (patched x (spread d e)) f)
        (patched x (spread (spread d e) f))
        (patched-SameRow (patched (patched x d) e) (patched x (spread d e)) f (patched_twice x d e))
        (patched_twice x (spread d e) f)

  effect-summary :
      (t : SyncActionType) (o : ApplyOptions) (a : SyncAction) (x : Option Row)
      → SameRow (effect date_parse clock fixed t o a x) (eval (summary_of t o a) x)
  unfolding effect summary_of eval
  effect-summary (row insert) o a x =
      SameRow-refl (effect date_parse clock fixed (row insert) o a x)
  effect-summary (row update) o a x = elim (Bool-cases o.merge_updates) [
    | inl e ↦ rw e (SameRow-refl (patched x a.fields))
    | inr e ↦ rw e (patched_twice x a.fields (fixed a.model_name a.model_id))
  ]
  effect-summary (row delete) o a x = tt
  effect-summary (row archive) o a x = patched_thrice x a.fields _ (fixed a.model_name a.model_id)
  effect-summary (row unarchive) o a x =
      patched_thrice x a.fields create_unarchive_patch (fixed a.model_name a.model_id)
  effect-summary _ o a x = eval-nothing x

  module _ (has_model : String → Bool) (o : ApplyOptions) (m i : String) where
    summary_one : SyncAction → Summary
    summary_one a = if concerns has_model o m i a then summary_of a.action o a else nothing

    one-summary :
        (a : SyncAction) (x : Option Row)
        → SameRow
            (row_after_one date_parse clock fixed has_model o m i a x)
            (eval (summary_one a) x)
    unfolding row_after_one summary_one
    one-summary a x = elim (Bool-cases (concerns has_model o m i a)) [
      | inl e ↦ rw e (effect-summary a.action o a x)
      | inr e ↦ rw e (eval-nothing x)
    ]

    summary_after : List SyncAction → Summary
    summary_after [] = nothing
    summary_after (a ∷ actions) = and_then (summary_one a) (summary_after actions)

    after-summary :
        (actions : List SyncAction) (x : Option Row)
        → SameRow
            (row_after date_parse clock fixed has_model o m i actions x)
            (eval (summary_after actions) x)
    unfolding row_after summary_after
    after-summary [] x = eval-nothing x
    after-summary (a ∷ actions) x =
        let y = row_after_one date_parse clock fixed has_model o m i a x in
        let rest = summary_after actions in
        SameRow-trans (row_after date_parse clock fixed has_model o m i actions y) (eval rest y)
          (eval (and_then (summary_one a) rest) x) (after-summary actions y)
          (SameRow-trans (eval rest y) (eval rest (eval (summary_one a) x))
            (eval (and_then (summary_one a) rest) x)
            (eval-SameRow rest y (eval (summary_one a) x) (one-summary a x))
            (eval-and_then (summary_one a) rest x))

    after_twice :
        (actions : List SyncAction) (x : Option Row)
        → SameRow
            (row_after date_parse clock fixed has_model o m i actions
              (row_after date_parse clock fixed has_model o m i actions x))
            (row_after date_parse clock fixed has_model o m i actions x)
    after_twice actions x =
        let s = summary_after actions in
        let y = row_after date_parse clock fixed has_model o m i actions x in
        let y_is : SameRow y (eval s x) = after-summary actions x in
        SameRow-trans _ (eval s y) y (after-summary actions y) (
          SameRow-trans (eval s y) (eval s (eval s x)) y (eval-SameRow s y (eval s x) y_is) (
            SameRow-trans (eval s (eval s x)) (eval s x) y (eval_idem s x)
              (SameRow-sym y (eval s x) y_is)))

-- An archive that carries its time, so that the clock is not read for it.
abbrev pub IsTimed : (String → Option ℤ) → SyncAction → Type 0
IsTimed date_parse a =
    a.action ≡ row archive → is_some (read_archived_at date_parse (some a.fields)) ≡ true

abbrev pub AreTimed : (String → Option ℤ) → List SyncAction → Type 0
AreTimed date_parse [] = Unit
AreTimed date_parse (a ∷ actions) = IsTimed date_parse a × AreTimed date_parse actions

module _ (date_parse : String → Option ℤ) (clock later : SyncAction → ℤ)
    (fixed : String → String → Row) where
  timed_effect :
      (t : SyncActionType) (o : ApplyOptions) (a : SyncAction) (x : Option Row)
      → IsTimed date_parse a
      → a.action ≡ t
      → effect date_parse clock fixed t o a x ≡ effect date_parse later fixed t o a x
  unfolding effect create_archive_payload
  timed_effect t o a x h e = ground arith

  timed_row_after :
      (has_model : String → Bool) (o : ApplyOptions) (m i : String) (actions : List SyncAction)
      (x : Option Row)
      → AreTimed date_parse actions
      → row_after date_parse later fixed has_model o m i actions x
        ≡ row_after date_parse clock fixed has_model o m i actions x
  unfolding row_after row_after_one
  timed_row_after has_model o m i [] x h = refl
  timed_row_after has_model o m i (a ∷ actions) x h =
      let y = row_after_one date_parse later fixed has_model o m i a x in
      timed_row_after has_model o m i actions y h.1
      ∙ ap (row_after date_parse clock fixed has_model o m i actions)
          (ground (arith, timed_effect a.action o a x h.0 refl))

  module _ {S : Type 0} (target : DeltaTarget S) (view : S → Table)
      (st : IsStore target view fixed) where
    -- A packet that arrives again, at any later time, changes no field of any row, if each archive
    -- in it carries its time: applying it twice leaves the rows as applying it once.
    pub apply_deltas_twice :
        (has_model : String → Bool) (o : ApplyOptions) (packet : DeltaPacket) (s : S) (m i : String)
        → AreTimed date_parse packet.actions
        → SameRow
            (view
              (apply_deltas target date_parse later has_model o packet
                (apply_deltas target date_parse clock has_model o packet s).1).1
              m
              i)
            (view (apply_deltas target date_parse clock has_model o packet s).1 m i)
    apply_deltas_twice has_model o packet s m i h =
        let once = apply_deltas target date_parse clock has_model o packet s in
        let x = view s m i in
        let y = row_after date_parse clock fixed has_model o m i packet.actions x in
        let y_is : view once.1 m i ≡ y =
          apply_deltas-view date_parse clock fixed target view st has_model o packet s m i in
        let again = row_after date_parse clock fixed has_model o m i packet.actions in
        rw
          (
            apply_deltas-view date_parse later fixed target view st has_model o packet once.1 m i,
            timed_row_after has_model o m i packet.actions (view once.1 m i) h,
            y_is,
          )
          (after_twice date_parse clock fixed has_model o m i packet.actions x)
