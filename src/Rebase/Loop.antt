-- ===== src/Rebase/Loop.antt =====
-- What the loop of `rebaseTransactions` keeps: which transactions are processed, and as what.
use mathlib.Core.List.{map-append}
use stratasync.Prelude.{
  String, ◌≡◌, refl, ap, ◌∙◌, inl, inr, true, false, ◌&&◌, ◌||◌, List, [], ◌∷◌, ◌++◌, map, some,
  arith, Bool-cases, Option-cases, same, same_iff, if◌then◌else◌,
}
use stratasync.Prelude.Dict.{Dict, lookup, get_or}
use stratasync.Prelude.TextSet.{TextSet, contains, contains-add, contains-append, contains_one}
use stratasync.Transaction.{Transaction}
use stratasync.SyncAction.{SyncAction, model_key}
use stratasync.Conflict.{RebaseConflict, RebaseOptions, detect_conflict, is_in_flight}
use stratasync.Conflict.Detection.{detect_conflict-parts, detect_conflict_self}
use stratasync.Rebase.{
  Progress, is_echo_of, find_echo, add_conflict, check_one, check_related, confirm, process_action,
  process_actions, no_progress,
}

abbrev pub tx_ids : List Transaction → List String
tx_ids = map (λ tx. tx.client_tx_id)

abbrev pub conflict_ids : List RebaseConflict → List String
conflict_ids = map (λ c. c.local_transaction.client_tx_id)

-- A reported conflict: what `detectConflict` says of a transaction that is not in flight.
abbrev pub IsGenuine : RebaseOptions → RebaseConflict → Type 0
IsGenuine o c =
    (is_in_flight c.local_transaction ≡ false)
    × (detect_conflict c.local_transaction c.server_action o ≡ some c)

abbrev pub AreGenuine : RebaseOptions → List RebaseConflict → Type 0
AreGenuine o [] = Unit
AreGenuine o (c ∷ cs) = IsGenuine o c × AreGenuine o cs

pub record Inv (o : RebaseOptions) (echoed : TextSet) (p : Progress) : Type 0 where
  pub accounted :
      (id : String)
      → contains id p.processed
        ≡ contains id (tx_ids p.confirmed) || contains id (conflict_ids p.conflicts)
  pub disjoint :
      (id : String)
      → contains id (tx_ids p.confirmed) && contains id (conflict_ids p.conflicts) ≡ false
  pub not_echoed :
      (id : String) → contains id (conflict_ids p.conflicts) && contains id echoed ≡ false
  pub kept :
      (id : String)
      → contains id p.kept_after_conflict ≡ true
      → contains id (conflict_ids p.conflicts) ≡ true
  pub genuine : AreGenuine o p.conflicts

pub contains-map-append {ℓ} :
    {A : Type ℓ} (f : A → String) (id : String) (xs : List A) (x : A)
    → contains id (map f (xs ++ x ∷ [])) ≡ (if contains id (map f xs) then true else same (f x) id)
contains-map-append f id xs x =
    ap (contains id) (map-append f xs (x ∷ []))
    ∙ contains-append id (map f xs) (f x ∷ [])
    ∙ ground (arith, contains_one (f x) id)

AreGenuine-append :
    (o : RebaseOptions) (cs : List RebaseConflict) (c : RebaseConflict)
    → AreGenuine o cs
    → IsGenuine o c
    → AreGenuine o (cs ++ c ∷ [])
AreGenuine-append o [] c h g = (g, tt)
AreGenuine-append o (d ∷ cs) c h g = (h.0, AreGenuine-append o cs c h.1 g)

pub find_echo-is_echo :
    (o : RebaseOptions) (processed : TextSet) (a : SyncAction) (related : List Transaction)
    (own : Transaction)
    → find_echo o processed a related ≡ some own
    → is_echo_of o processed a own ≡ true
unfolding find_echo
find_echo-is_echo o processed a [] own h = cc
find_echo-is_echo o processed a (tx ∷ related) own h =
    ground (arith, find_echo-is_echo o processed a related own)

module _ (o : RebaseOptions) (echoed : TextSet) where
  confirm-Inv :
      (p : Progress) (tx : Transaction)
      → contains tx.client_tx_id p.processed ≡ false
      → Inv o echoed p
      → Inv o echoed (confirm p tx)
  unfolding confirm
  confirm-Inv p tx fresh v = record {
    accounted = λ id. ground (
      arith,
      v.accounted id,
      contains-add tx.client_tx_id id p.processed,
      contains-map-append (λ t. t.client_tx_id) id p.confirmed tx,
    );
    disjoint = λ id. ground (
      arith,
      v.accounted id,
      v.disjoint id,
      same_iff tx.client_tx_id id,
      contains-map-append (λ t. t.client_tx_id) id p.confirmed tx,
    );
    not_echoed = v.not_echoed;
    kept = v.kept;
    genuine = v.genuine;
  }

  add_conflict-Inv :
      (p : Progress) (tx : Transaction) (a : SyncAction) (c : RebaseConflict)
      → contains tx.client_tx_id p.processed ≡ false
      → contains tx.client_tx_id echoed ≡ false
      → is_in_flight tx ≡ false
      → detect_conflict tx a o ≡ some c
      → Inv o echoed p
      → Inv o echoed (add_conflict p tx (some c))
  unfolding add_conflict
  add_conflict-Inv p tx a c fresh silent settled e v =
      let (c_tx, c_action) = detect_conflict-parts tx a o e in
      let id_eq : c.local_transaction.client_tx_id ≡ tx.client_tx_id =
        ap (λ t. t.client_tx_id) c_tx in
      record {
        accounted = λ id. ground (
          arith,
          v.accounted id,
          contains-add tx.client_tx_id id p.processed,
          contains-map-append (λ d. d.local_transaction.client_tx_id) id p.conflicts c,
        );
        disjoint = λ id. ground (
          arith,
          v.accounted id,
          v.disjoint id,
          same_iff tx.client_tx_id id,
          contains-map-append (λ d. d.local_transaction.client_tx_id) id p.conflicts c,
        );
        not_echoed = λ id. ground (
          arith,
          v.not_echoed id,
          same_iff tx.client_tx_id id,
          contains-map-append (λ d. d.local_transaction.client_tx_id) id p.conflicts c,
        );
        kept = λ id h. ground (
          arith,
          v.kept id,
          contains-add tx.client_tx_id id p.kept_after_conflict,
          contains-map-append (λ d. d.local_transaction.client_tx_id) id p.conflicts c,
        );
        genuine =
            AreGenuine-append o p.conflicts c v.genuine
              (rw c_tx settled, detect_conflict_self tx a o e);
      }

  check_one-Inv :
      (a : SyncAction) (p : Progress) (tx : Transaction)
      → Inv o echoed p
      → Inv o echoed (check_one o echoed a p tx)
  unfolding check_one
  check_one-Inv a p tx v =
      elim (Bool-cases (
        contains tx.client_tx_id p.processed
        || contains tx.client_tx_id echoed
        || is_in_flight tx)) [
          | inl e ↦ rw e v
          | inr e ↦ elim (Option-cases (detect_conflict tx a o)) [
            | inl none_found ↦ rw e (rw none_found (unfold add_conflict in v))
            | inr (c, found) ↦ rw e (
                rw found
                  (add_conflict-Inv p tx a c (ground arith) (ground arith) (ground arith) found v))
          ]
        ]

  check_related-Inv :
      (a : SyncAction) (p : Progress) (related : List Transaction)
      → Inv o echoed p
      → Inv o echoed (check_related o echoed a p related)
  unfolding check_related
  check_related-Inv a p [] v = v
  check_related-Inv a p (tx ∷ related) v =
      check_related-Inv a (check_one o echoed a p tx) related (check_one-Inv a p tx v)

  pub process_action-Inv :
      (index : Dict (List Transaction)) (p : Progress) (a : SyncAction)
      → Inv o echoed p
      → Inv o echoed (process_action o echoed index p a)
  unfolding process_action
  process_action-Inv index p a v =
      let related = get_or (lookup (model_key a.model_name a.model_id) index) [] in
      elim (Option-cases (find_echo o p.processed a related)) [
        | inl e ↦ rw (e, process_action) (check_related-Inv a p related v)
        | inr (own, e) ↦
            rw (e, process_action)
              (confirm-Inv p own
                (unfold is_echo_of in
                  ground (arith, find_echo-is_echo o p.processed a related own e))
                v)
      ]

  pub process_actions-Inv :
      (index : Dict (List Transaction)) (p : Progress) (actions : List SyncAction)
      → Inv o echoed p
      → Inv o echoed (process_actions o echoed index p actions)
  unfolding process_actions
  process_actions-Inv index p [] v = v
  process_actions-Inv index p (a ∷ actions) v =
      process_actions-Inv index (process_action o echoed index p a) actions
        (process_action-Inv index p a v)

  pub no_progress-Inv : Inv o echoed no_progress
  unfolding contains
  no_progress-Inv = record {
    accounted = λ id. refl;
    disjoint = λ id. refl;
    not_echoed = λ id. refl;
    kept = λ id h. h;
    genuine = tt;
  }
