-- ===== src/Conflict/Detection.antt =====
-- What `detectConflict` reports, and when.
use stratasync.Prelude.{◌≡◌, sym, subst, Option, none, some, arith}
use stratasync.Transaction.{Transaction}
use stratasync.SyncAction.{SyncAction}
use stratasync.Conflict.{
  ConflictType, RebaseConflict, RebaseOptions, detect_conflict, conflict_with, type_against,
  normalize_action,
}

conflict_with-parts :
    (tx : Transaction) (a : SyncAction) (o : RebaseOptions) (t : Option ConflictType)
    {c : RebaseConflict}
    → conflict_with tx a o t ≡ some c
    → (c.local_transaction ≡ tx) × (c.server_action ≡ a)
unfolding conflict_with
conflict_with-parts tx a o none h = cc
conflict_with-parts tx a o (some t) h = ground arith

-- A conflict names the transaction and the action that it is about.
pub detect_conflict-parts :
    (tx : Transaction) (a : SyncAction) (o : RebaseOptions) {c : RebaseConflict}
    → detect_conflict tx a o ≡ some c
    → (c.local_transaction ≡ tx) × (c.server_action ≡ a)
unfolding detect_conflict
detect_conflict-parts tx a o h =
    conflict_with-parts tx a o (type_against (normalize_action a.action) tx a o) h

pub detect_conflict_self :
    (tx : Transaction) (a : SyncAction) (o : RebaseOptions) {c : RebaseConflict}
    → detect_conflict tx a o ≡ some c
    → detect_conflict c.local_transaction c.server_action o ≡ some c
detect_conflict_self tx a o {c} h =
    let (c_tx, c_action) = detect_conflict-parts tx a o h in
    subst (λ t. detect_conflict t c.server_action o ≡ some c) (sym c_tx)
      (subst (λ b. detect_conflict tx b o ≡ some c) (sym c_action) h)
