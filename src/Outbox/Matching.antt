-- ===== src/Outbox/Matching.antt =====
-- The tests of `confirmFromActions` against what they mean of the actions.
use stratasync.Prelude.{
  String, ◌≡◌, refl, sym, ap, ◌∙◌, inl, inr, Bool, true, false, ◌&&◌, ◌||◌, List, [], ◌∷◌, Option,
  none, some, arith, Bool-cases, Option-cases, length, ◌==◌, same, same_iff, if◌then◌else◌,
}
use stratasync.Prelude.Dict.{Dict, lookup, get_or, lookup-assign}
use stratasync.Prelude.TextSet.{TextSet, contains, add, contains-add}
use stratasync.SyncAction.{SyncAction, is_text}
use stratasync.Transaction.{Transaction}
use stratasync.Outbox.Confirm.{
  collect_client_tx_ids, Creates, no_creates, with_create, is_none, is_create, is_outbox_create,
  record_create, collect_creates_by_model_id, entry_confirms, is_confirmed,
}
use stratasync.Outbox.Selection.{empty_of_length}

-- An action names the transaction, or is a create of its model id that names none.
abbrev pub confirms : SyncAction → Transaction → Bool
confirms a tx =
    is_text a.client_tx_id tx.client_tx_id
    || (is_create a && is_outbox_create tx && same a.model_id tx.model_id && is_none a.client_tx_id)

abbrev pub confirmed_by : List SyncAction → Transaction → Bool
confirmed_by [] tx = false
confirmed_by (a ∷ actions) tx = confirms a tx || confirmed_by actions tx

named_by : List SyncAction → Transaction → Bool
named_by [] tx = false
named_by (a ∷ actions) tx = is_text a.client_tx_id tx.client_tx_id || named_by actions tx

abbrev creates_it : SyncAction → Transaction → Bool
creates_it a tx =
    is_create a
    && same a.model_id tx.model_id
    && (is_none a.client_tx_id || is_text a.client_tx_id tx.client_tx_id)

created_by : List SyncAction → Transaction → Bool
created_by [] tx = false
created_by (a ∷ actions) tx = creates_it a tx || created_by actions tx

contains-collect :
    (tx : Transaction) (actions : List SyncAction) (ids : TextSet)
    → contains tx.client_tx_id (collect_client_tx_ids actions ids)
      ≡ (named_by actions tx || contains tx.client_tx_id ids)
unfolding collect_client_tx_ids named_by
contains-collect tx [] ids = refl
contains-collect tx (a ∷ actions) ids = elim (Option-cases a.client_tx_id) [
  | inl e ↦ rw (e, collect_client_tx_ids, named_by) (contains-collect tx actions ids)
  | inr (id, e) ↦
      rw (e, collect_client_tx_ids, named_by)
        (ground
          (arith, contains-collect tx actions (add id ids), contains-add id tx.client_tx_id ids))
]

entry-with_create :
    (tx : Transaction) (id : Option String) (entry : Option Creates)
    → entry_confirms (some (with_create id (get_or entry no_creates))) tx
      ≡ (is_none id || is_text id tx.client_tx_id || entry_confirms entry tx)
unfolding contains
entry-with_create tx none none = refl
entry-with_create tx none (some entry) = refl
entry-with_create tx (some id) none = ground (arith, contains-add id tx.client_tx_id [])
entry-with_create tx (some id) (some entry) =
    ground (arith, contains-add id tx.client_tx_id entry.client_tx_ids)

entry-record_create :
    (tx : Transaction) (a : SyncAction) (creates : Dict Creates)
    → entry_confirms (lookup tx.model_id (record_create a creates)) tx
      ≡ (creates_it a tx || entry_confirms (lookup tx.model_id creates) tx)
unfolding record_create
entry-record_create tx a creates = elim (Bool-cases (is_create a)) [
  | inr e ↦ rw (e, record_create) refl
  | inl e ↦ elim (Bool-cases (same a.model_id tx.model_id)) [
    | inr d ↦
        rw (e, record_create)
          (rw
            (lookup-assign a.model_id tx.model_id
              (with_create a.client_tx_id (get_or (lookup a.model_id creates) no_creates)) creates)
            (rw d refl))
    | inl d ↦
        rw (e, record_create)
          (rw
            (lookup-assign a.model_id tx.model_id
              (with_create a.client_tx_id (get_or (lookup a.model_id creates) no_creates)) creates)
            (rw d (
              entry-with_create tx a.client_tx_id (lookup a.model_id creates)
              ∙ ap
                  (λ k.
                    is_none a.client_tx_id
                    || is_text a.client_tx_id tx.client_tx_id
                    || entry_confirms (lookup k creates) tx)
                  (ground (arith, same_iff a.model_id tx.model_id)))))
  ]
]

or_swap : (a b c : Bool) → (a || (b || c)) ≡ ((b || a) || c)
or_swap false false c = refl
or_swap false true c = refl
or_swap true false c = refl
or_swap true true c = refl

entry-collect :
    (tx : Transaction) (actions : List SyncAction) (creates : Dict Creates)
    → entry_confirms (lookup tx.model_id (collect_creates_by_model_id actions creates)) tx
      ≡ (created_by actions tx || entry_confirms (lookup tx.model_id creates) tx)
unfolding collect_creates_by_model_id created_by
entry-collect tx [] creates = refl
entry-collect tx (a ∷ actions) creates =
    entry-collect tx actions (record_create a creates)
    ∙ ap (λ b. created_by actions tx || b) (entry-record_create tx a creates)
    ∙ or_swap (created_by actions tx) (creates_it a tx)
        (entry_confirms (lookup tx.model_id creates) tx)

-- One action more, named (`t`) or a create (`c`) that names no transaction (`n`).
or_step :
    (t c i s n named created confirmed : Bool)
    → (named || (i && created)) ≡ confirmed
    → ((t || named) || (i && ((c && s && (n || t)) || created)))
      ≡ ((t || (c && i && s && n)) || confirmed)
or_step true c i s n named created confirmed h = refl
or_step false false i s n named created confirmed h = h
or_step false true false s n named created confirmed h = h
or_step false true true false n named created confirmed h = h
or_step false true true true false named created confirmed h = h
or_step false true true true true false created confirmed h = refl
or_step false true true true true true created confirmed h = refl

if_or :
    (named i created : Bool)
    → (if named || false then true else if i then created || false else false)
      ≡ (named || (i && created))
if_or true i created = refl
if_or false false created = refl
if_or false true true = refl
if_or false true false = refl

named_or_created :
    (actions : List SyncAction) (tx : Transaction)
    → (named_by actions tx || (is_outbox_create tx && created_by actions tx))
      ≡ confirmed_by actions tx
unfolding named_by created_by
named_or_created [] tx = ground arith
named_or_created (a ∷ actions) tx =
    or_step (is_text a.client_tx_id tx.client_tx_id) (is_create a) (is_outbox_create tx)
      (same a.model_id tx.model_id) (is_none a.client_tx_id) (named_by actions tx)
      (created_by actions tx) (confirmed_by actions tx) (named_or_created actions tx)

pub is_confirmed-confirmed_by :
    (actions : List SyncAction) (tx : Transaction)
    → is_confirmed (collect_client_tx_ids actions []) (collect_creates_by_model_id actions []) tx
      ≡ confirmed_by actions tx
unfolding is_confirmed contains lookup
is_confirmed-confirmed_by actions tx = rw (contains-collect tx actions []) (
    rw (entry-collect tx actions []) (
      if_or (named_by actions tx) (is_outbox_create tx) (created_by actions tx)
      ∙ named_or_created actions tx))

-- Where the actions have no ids and no creates, they confirm nothing.
pub nothing_confirmed :
    (actions : List SyncAction) (tx : Transaction)
    → (length (collect_client_tx_ids actions []) == 0
        && length (collect_creates_by_model_id actions []) == 0)
      ≡ true
    → confirmed_by actions tx ≡ false
nothing_confirmed actions tx h =
    sym (is_confirmed-confirmed_by actions tx)
    ∙ rw
        (
          empty_of_length (collect_client_tx_ids actions []) (ground arith),
          empty_of_length (collect_creates_by_model_id actions []) (ground arith),
        )
        (unfold is_confirmed contains lookup in ground arith)
