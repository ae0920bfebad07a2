-- ===== src/Outbox/Selection.antt =====
-- Lists of transactions by a test, and by the ids that a test selects.
use stratasync.Prelude.{
  ◌+◌, String, ◌≡◌, refl, ap, ◌∙◌, inl, inr, Bool, true, false, not, List, [], ◌∷◌, arith,
  Bool-cases, length, ◌==◌, same_comm, same_refl, if◌then◌else◌,
}
use stratasync.Prelude.TextSet.{contains, add_all, IsDistinct, contains-add_all}
use stratasync.Transaction.{Transaction}
use stratasync.Outbox.{drop_id, without_ids, ids_of_all}
use stratasync.Outbox.Confirm.{}

abbrev pub All : (Transaction → Type 0) → List Transaction → Type 0
All P [] = Unit
All P (tx ∷ txs) = P tx × All P txs

-- The transactions that pass a test, and the others.
unfoldable pub select : (Transaction → Bool) → List Transaction → List Transaction
select test [] = []
select test (tx ∷ txs) = let rest = select test txs in if test tx then tx ∷ rest else rest

abbrev pub others : (Transaction → Bool) → List Transaction → List Transaction
others test txs = select (λ tx. not (test tx)) txs

pub select-ap :
    (p q : Transaction → Bool) (txs : List Transaction)
    → ((tx : Transaction) → p tx ≡ q tx)
    → select p txs ≡ select q txs
unfolding select
select-ap p q [] h = refl
select-ap p q (tx ∷ txs) h = rw (h tx, select-ap p q txs h) refl

-- The same where the two tests agree on the transactions of the list only.
pub select-ap_on :
    (p q : Transaction → Bool) (P : Transaction → Type 0) (txs : List Transaction)
    → ((tx : Transaction) → P tx → p tx ≡ q tx)
    → All P txs
    → select p txs ≡ select q txs
unfolding select
select-ap_on p q P [] h a = refl
select-ap_on p q P (tx ∷ txs) h a = rw (h tx a.0, select-ap_on p q P txs h a.1) refl

pub without_ids-drop_id :
    (id : String) (ids : List String) (txs : List Transaction)
    → without_ids ids (drop_id id txs) ≡ without_ids (id ∷ ids) txs
unfolding without_ids drop_id contains
without_ids-drop_id id ids [] = refl
without_ids-drop_id id ids (tx ∷ txs) =
    ground (arith, without_ids-drop_id id ids txs, same_comm id tx.client_tx_id)

pub without_ids-empty : (txs : List Transaction) → without_ids [] txs ≡ txs
unfolding without_ids contains
without_ids-empty [] = refl
without_ids-empty (tx ∷ txs) = rw (without_ids-empty txs) refl

without_ids-absent :
    (id : String) (ids : List String) (txs : List Transaction)
    → contains id (ids_of_all txs) ≡ false
    → without_ids (id ∷ ids) txs ≡ without_ids ids txs
unfolding without_ids contains
without_ids-absent id ids [] h = refl
without_ids-absent id ids (tx ∷ txs) h =
    ground (arith, without_ids-absent id ids txs, same_comm id tx.client_tx_id)

contains-select :
    (id : String) (test : Transaction → Bool) (txs : List Transaction)
    → contains id (ids_of_all txs) ≡ false
    → contains id (ids_of_all (select test txs)) ≡ false
unfolding select contains
contains-select id test [] h = refl
contains-select id test (tx ∷ txs) h = ground (arith, contains-select id test txs)

without_ids-head :
    (tx : Transaction) (ids : List String) (txs : List Transaction)
    → without_ids (tx.client_tx_id ∷ ids) (tx ∷ txs) ≡ without_ids (tx.client_tx_id ∷ ids) txs
unfolding without_ids contains
without_ids-head tx ids txs = rw (same_refl tx.client_tx_id) refl

without_ids-keeps :
    (tx : Transaction) (ids : List String) (txs : List Transaction)
    → contains tx.client_tx_id ids ≡ false
    → without_ids ids (tx ∷ txs) ≡ tx ∷ without_ids ids txs
unfolding without_ids
without_ids-keeps tx ids txs h = rw h refl

pub without_ids-select :
    (test : Transaction → Bool) (txs : List Transaction)
    → IsDistinct (ids_of_all txs)
    → without_ids (ids_of_all (select test txs)) txs ≡ others test txs
unfolding select
without_ids-select test [] d = unfold without_ids in refl
without_ids-select test (tx ∷ txs) d = elim (Bool-cases (test tx)) [
  | inl e ↦
      rw (e, select)
        (without_ids-head tx (ids_of_all (select test txs)) txs
          ∙ without_ids-absent tx.client_tx_id (ids_of_all (select test txs)) txs d.0
          ∙ without_ids-select test txs d.1)
  | inr e ↦
      rw (e, select)
        (without_ids-keeps tx (ids_of_all (select test txs)) txs
            (contains-select tx.client_tx_id test txs d.0)
          ∙ ap (λ l. tx ∷ l) (without_ids-select test txs d.1))
]

pub contains-new_set :
    (id : String) (ids : List String) → contains id (add_all ids []) ≡ contains id ids
unfolding contains
contains-new_set id ids = ground (arith, contains-add_all id ids [])

pub length-select :
    (test : Transaction → Bool) (txs : List Transaction)
    → length (select test txs) + length (others test txs) ≡ length txs
unfolding select
length-select test [] = refl
length-select test (tx ∷ txs) = ground (arith, length-select test txs)

pub empty_of_length : {A : Type 0} (l : List A) → (length l == 0) ≡ true → l ≡ []
empty_of_length [] h = refl
empty_of_length (x ∷ l) h = ground arith

pub select_none :
    (test : Transaction → Bool) (txs : List Transaction)
    → ((tx : Transaction) → test tx ≡ false)
    → select test txs ≡ []
unfolding select
select_none test [] h = refl
select_none test (tx ∷ txs) h = rw (h tx, select_none test txs h) refl

pub others_none :
    (test : Transaction → Bool) (txs : List Transaction)
    → ((tx : Transaction) → test tx ≡ false)
    → others test txs ≡ txs
unfolding select
others_none test [] h = refl
others_none test (tx ∷ txs) h = rw (h tx, others_none test txs h) refl
