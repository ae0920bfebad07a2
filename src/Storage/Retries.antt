-- ===== src/Storage/Retries.antt =====
-- How often a transaction can be requeued in the storage.
use stratasync.Prelude.{
  ℕ, suc, ◌+◌, ◌-◌, ◌≤◌, String, ◌≡◌, refl, sym, ap, subst, ◌∙◌, inl, inr, Bool, true, false, List,
  [], ◌∷◌, Option, none, some, arith, Bool-cases, Option-cases, leb, same, same_iff, same_refl,
  if◌then◌else◌,
}
use stratasync.Transaction.{Transaction, queued, failed}
use stratasync.Outbox.{is_sent, add_stored, has_id}
use stratasync.Outbox.Settling.{find_id}
use stratasync.Storage.{
  Db, max_retry_count, get_transaction, mark_transaction_failed, requeue_transaction, reset_rows,
  reset_sent_to_queued,
}

pub data StorageCall : Type 0 where
  requeues : String → StorageCall
  fails : String → String → StorageCall
  resets : StorageCall

-- What a call returns about `id` being requeued, and the database.
unfoldable pub storage_call : String → StorageCall → Db → Bool × Db
storage_call id (requeues j) db =
    let (done, db') = requeue_transaction j db in (if same j id then done else false, db')
storage_call id (fails j error) db = (false, mark_transaction_failed j error db)
storage_call id resets db = (false, (reset_sent_to_queued db).1)

-- How many calls requeue it.
unfoldable pub times_requeued : String → List StorageCall → Db → ℕ
times_requeued id [] db = 0
times_requeued id (c ∷ calls) db =
    let (done, db') = storage_call id c db in
    let rest = times_requeued id calls db' in if done then suc rest else rest

-- The requeues that are left.
abbrev pub retries_left : Option Transaction → ℕ
retries_left none = 0
retries_left (some tx) = max_retry_count - tx.retry_count

find_id-add_stored :
    (id : String) (tx : Transaction) (rows : List Transaction)
    → find_id id (add_stored tx rows) ≡ (if has_id id tx then some tx else find_id id rows)
unfolding find_id add_stored
find_id-add_stored id tx [] = refl
find_id-add_stored id tx (t ∷ rows) = ground (
  arith,
  same_iff tx.client_tx_id id,
  same_iff t.client_tx_id tx.client_tx_id,
  same_iff t.client_tx_id id,
  find_id-add_stored id tx rows,
)

find_id-has_id :
    (id : String) (rows : List Transaction) (tx : Transaction)
    → find_id id rows ≡ some tx
    → tx.client_tx_id ≡ id
unfolding find_id
find_id-has_id id [] tx h = ground arith
find_id-has_id id (t ∷ rows) tx h =
    ground (arith, same_iff t.client_tx_id id, find_id-has_id id rows tx)

if_retries :
    (b : Bool) (tx' tx : Transaction) (o' o : Option Transaction)
    → tx'.retry_count ≡ tx.retry_count
    → retries_left o' ≡ retries_left o
    → retries_left (if b then some tx' else o') ≡ retries_left (if b then some tx else o)
if_retries true tx' tx o' o h k = ap (λ n. max_retry_count - n) h
if_retries false tx' tx o' o h k = k

retries_left-reset_rows :
    (id : String) (rows : List Transaction)
    → retries_left (find_id id (reset_rows rows)) ≡ retries_left (find_id id rows)
unfolding find_id reset_rows
retries_left-reset_rows id [] = refl
retries_left-reset_rows id (tx ∷ rows) = elim (Bool-cases (is_sent tx)) [
  | inl e ↦ rw e (if_retries (has_id id tx) _ tx _ _ refl (retries_left-reset_rows id rows))
  | inr e ↦ rw e (if_retries (has_id id tx) _ tx _ _ refl (retries_left-reset_rows id rows))
]

-- A row that is put back with one retry more.
retries_left-add_stored :
    (id j : String) (existing tx : Transaction) (rows : List Transaction)
    → find_id j rows ≡ some existing
    → tx.client_tx_id ≡ existing.client_tx_id
    → tx.retry_count ≡ existing.retry_count + 1
    → retries_left (find_id id (add_stored tx rows))
        + (if same j id then if leb max_retry_count existing.retry_count then 0 else 1 else 0)
      ≤ retries_left (find_id id rows)
retries_left-add_stored id j existing tx rows h same_id more = elim (Bool-cases (same j id)) [
  | inl e ↦
      let j_is_id : j ≡ id = ground (arith, same_iff j id) in
      let found : find_id id rows ≡ some existing =
        subst (λ k. find_id k rows ≡ some existing) j_is_id h in
      let tx_is_id : tx.client_tx_id ≡ id = same_id ∙ find_id-has_id j rows existing h ∙ j_is_id in
      let has : has_id id tx ≡ true = rw tx_is_id (same_refl id) in
      rw (find_id-add_stored id tx rows) (rw has (rw found (rw e (rw more (ground arith)))))
  | inr e ↦
      rw (find_id-add_stored id tx rows) (
        ground
          (arith, find_id-has_id j rows existing h, same_iff j id, same_iff tx.client_tx_id id))
]

requeue-missing :
    (id : String) (rows : List Transaction)
    → find_id id rows ≡ none
    → requeue_transaction id (some rows) ≡ (false, some rows)
unfolding requeue_transaction
requeue-missing id rows e = rw (e, requeue_transaction) refl

requeue-refused :
    (id : String) (rows : List Transaction) (existing : Transaction)
    → find_id id rows ≡ some existing
    → leb max_retry_count existing.retry_count ≡ true
    → requeue_transaction id (some rows) ≡ (false, some rows)
unfolding requeue_transaction
requeue-refused id rows existing e full = rw (e, requeue_transaction) (rw full refl)

requeue-done :
    (id : String) (rows : List Transaction) (existing : Transaction)
    → find_id id rows ≡ some existing
    → leb max_retry_count existing.retry_count ≡ false
    → requeue_transaction id (some rows) ≡ (
      true,
      some (
          add_stored
            (record existing { retry_count = existing.retry_count + 1; state = queued })
            rows),
    )
unfolding requeue_transaction
requeue-done id rows existing e more = rw (e, requeue_transaction) (rw more refl)

fail-missing :
    (id error : String) (rows : List Transaction)
    → find_id id rows ≡ none
    → mark_transaction_failed id error (some rows) ≡ some rows
unfolding mark_transaction_failed
fail-missing id error rows e = rw (e, mark_transaction_failed) refl

fail-done :
    (id error : String) (rows : List Transaction) (existing : Transaction)
    → find_id id rows ≡ some existing
    → mark_transaction_failed id error (some rows)
      ≡ some (
          add_stored
            (record existing {
              last_error = some error;
              retry_count = existing.retry_count + 1;
              state = failed;
            })
            rows)
unfolding mark_transaction_failed
fail-done id error rows existing e = rw (e, mark_transaction_failed) refl

-- What one requeue of `j` costs `id`, by what it returns.
abbrev Costs : String → String → List Transaction → Bool × Db → Type 0
Costs id j rows p =
    retries_left (get_transaction id p.1) + (if (if same j id then p.0 else false) then 1 else 0)
    ≤ retries_left (find_id id rows)

requeue-Costs :
    (id j : String) (rows : List Transaction) → Costs id j rows (requeue_transaction j (some rows))
unfolding get_transaction
requeue-Costs id j rows = elim (Option-cases (find_id j rows)) [
  | inl e ↦ subst (Costs id j rows) (sym (requeue-missing j rows e)) (ground arith)
  | inr (existing, e) ↦ elim (Bool-cases (leb max_retry_count existing.retry_count)) [
    | inl full ↦
        subst (Costs id j rows) (sym (requeue-refused j rows existing e full)) (ground arith)
    | inr more ↦ subst (Costs id j rows) (sym (requeue-done j rows existing e more)) (
        ground (
          arith,
          retries_left-add_stored id j existing
              (record existing { retry_count = existing.retry_count + 1; state = queued }) rows e
              refl refl,
        ))
  ]
]

storage_call-retries_left :
    (id : String) (c : StorageCall) (db : Db)
    → retries_left (get_transaction id (storage_call id c db).1)
        + (if (storage_call id c db).0 then 1 else 0)
      ≤ retries_left (get_transaction id db)
unfolding storage_call get_transaction requeue_transaction mark_transaction_failed
    reset_sent_to_queued
storage_call-retries_left id (requeues j) none = ground arith
storage_call-retries_left id (fails j error) none = omega arith
storage_call-retries_left id resets none = omega arith
storage_call-retries_left id resets (some rows) = omega (arith, retries_left-reset_rows id rows)
storage_call-retries_left id (fails j error) (some rows) = elim (Option-cases (find_id j rows)) [
  | inl e ↦
      subst (λ db. retries_left (get_transaction id db) + 0 ≤ retries_left (find_id id rows))
        (sym (fail-missing j error rows e)) (omega arith)
  | inr (existing, e) ↦
      subst (λ db. retries_left (get_transaction id db) + 0 ≤ retries_left (find_id id rows))
        (sym (fail-done j error rows existing e))
        (omega (
          arith,
          retries_left-add_stored id j existing
              (record existing {
                last_error = some error;
                retry_count = existing.retry_count + 1;
                state = failed;
              })
              rows e refl refl,
        ))
]
storage_call-retries_left id (requeues j) (some rows) = requeue-Costs id j rows

-- Whatever else marks rows as failed or resets them, a transaction is requeued at most as often as
-- it has retries left of five, and never if it is not there.
pub times_requeued-le :
    (id : String) (calls : List StorageCall) (db : Db)
    → times_requeued id calls db ≤ retries_left (get_transaction id db)
unfolding times_requeued
times_requeued-le id [] db = omega arith
times_requeued-le id (c ∷ calls) db =
    ground (
      arith,
      times_requeued-le id calls (storage_call id c db).1,
      storage_call-retries_left id c db,
    )
