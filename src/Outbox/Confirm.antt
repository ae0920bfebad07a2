-- ===== src/Outbox/Confirm.antt =====
-- `confirmFromActions` and `completeUpToSyncId` of packages/client/src/outbox-manager.ts: the
-- transactions that the server's actions, or its cursor, show to be applied leave the outbox.
use stratasync.Prelude.{
  ℕ, String, Bool, true, false, not, ◌&&◌, ◌||◌, List, [], ◌∷◌, Option, none, some, length, ◌==◌,
  if◌then◌else◌,
}
use stratasync.Prelude.Dict.{Dict, lookup, assign, get_or}
use stratasync.Prelude.TextSet.{TextSet, contains, add, add_all}
use stratasync.SyncId.{SyncId, is_sync_id_greater_than}
use stratasync.SyncAction.{SyncAction, row}
use stratasync.Transaction.{Transaction, insert, awaiting_sync}
use stratasync.Outbox.{ids_of_all}
use stratasync.Outbox.Await.{Options, Task, await_after}
use stratasync.Outbox.Settling.{discard_transaction}

-- `collectClientTxIds`
unfoldable pub collect_client_tx_ids : List SyncAction → TextSet → TextSet
collect_client_tx_ids [] ids = ids
collect_client_tx_ids (a ∷ actions) ids =
    collect_client_tx_ids actions (elim a.client_tx_id [ none ↦ ids | some id ↦ add id ids ])

-- An entry of `createsByModelId`.
pub record Creates : Type 0 where
  pub client_tx_ids : TextSet
  pub has_legacy_create : Bool

abbrev pub no_creates : Creates
no_creates = record { client_tx_ids = []; has_legacy_create = false }

abbrev pub with_create : Option String → Creates → Creates
with_create none entry = record entry { has_legacy_create = true }
with_create (some id) entry = record entry { client_tx_ids = add id entry.client_tx_ids }

abbrev pub is_none : Option String → Bool
is_none none = true
is_none (some id) = false

abbrev pub is_create : SyncAction → Bool
is_create a = elim a.action [ row insert ↦ true | _ ↦ false ]

abbrev pub is_outbox_create : Transaction → Bool
is_outbox_create tx = elim tx.action [ insert ↦ true | _ ↦ false ]

-- `collectCreatesByModelId`: an action, and all of them.
unfoldable pub record_create : SyncAction → Dict Creates → Dict Creates
record_create a creates =
    if is_create a
    then assign a.model_id
        (with_create a.client_tx_id (get_or (lookup a.model_id creates) no_creates)) creates
    else creates

unfoldable pub collect_creates_by_model_id : List SyncAction → Dict Creates → Dict Creates
collect_creates_by_model_id [] creates = creates
collect_creates_by_model_id (a ∷ actions) creates =
    collect_creates_by_model_id actions (record_create a creates)

-- The tests of the loop of `confirmFromActions`.
abbrev pub entry_confirms : Option Creates → Transaction → Bool
entry_confirms none tx = false
entry_confirms (some entry) tx =
    entry.has_legacy_create || contains tx.client_tx_id entry.client_tx_ids

unfoldable pub is_confirmed : TextSet → Dict Creates → Transaction → Bool
is_confirmed ids creates tx =
    if contains tx.client_tx_id ids
    then true
    else if is_outbox_create tx
    then entry_confirms (lookup tx.model_id creates) tx
    else false

-- The test of the loop of `completeUpToSyncId`.
unfoldable pub is_reached : SyncId → Transaction → Bool
is_reached last tx = elim tx.state [
  | awaiting_sync ↦ elim tx.sync_id_needed [
    | none ↦ false
    | some id ↦ not (is_sync_id_greater_than id last)
  ]
  | _ ↦ false
]

module _ (o : Options) where
  -- Both loops: each transaction of the outbox that passes the test is discarded, one after another.
  unfoldable pub discard_where : (Transaction → Bool) → List Transaction → Task (List Transaction)
  discard_where test [] w = ([], w)
  discard_where test (tx ∷ txs) w = elim (test tx) [
    | false ↦ discard_where test txs w
    | true ↦
        let (discarded, w') = discard_where test txs (discard_transaction o tx.client_tx_id w) in
        (tx ∷ discarded, w')
  ]

  -- `confirmFromActions`
  unfoldable pub confirm_from_actions : List SyncAction → Task TextSet
  confirm_from_actions actions w =
      let ids = collect_client_tx_ids actions [] in
      let creates = collect_creates_by_model_id actions [] in
      if (length ids == 0) && (length creates == 0)
      then ([], w)
      else let (discarded, w') =
          discard_where (is_confirmed ids creates) w.box.stored (await_after o (λ box. box) w) in
        (add_all (ids_of_all discarded) [], w')

  -- `completeUpToSyncId`
  unfoldable pub complete_up_to_sync_id : SyncId → Task ℕ
  complete_up_to_sync_id last w =
      let (discarded, w') =
        discard_where (is_reached last) w.box.stored (await_after o (λ box. box) w) in
      (length discarded, w')
