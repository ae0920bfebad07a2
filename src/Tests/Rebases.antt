-- ===== src/Tests/Rebases.antt =====
-- Rebasing pending transactions on concrete input.
use stratasync.Prelude.{
  ◌⊎◌, ℕ, String, ◌≡◌, refl, true, false, ◌&&◌, ◌||◌, ◌↔◌, List, [], ◌∷◌, Option, none, some, same,
  if◌then◌else◌,
}
use stratasync.Prelude.Int.{pos}
use stratasync.Prelude.Dict.{lookup}
use stratasync.Prelude.TextSet.{contains}
use stratasync.Value.{Row, text}
use stratasync.Transaction.{Transaction, TxState, update, queued, sent}
use stratasync.SyncAction.{SyncAction, row, model_key}
use stratasync.Conflict.{
  RebaseOptions, RebaseConflict, local_conflict_fields, server_wins, client_wins, manual,
  keeps_local_transaction, update_update,
}
use stratasync.Rebase.{rebase_transactions}
use stratasync.Rebase.Loop.{tx_ids, conflict_ids, AreGenuine}
use stratasync.Rebase.Outcome.{rebase_transactions-accounts, rebase_transactions-AreGenuine}
use stratasync.Rebase.Echo.{
  has_echo, has_echo_on, is_pending_on, echo-not_in_conflict, echo-confirms,
}
use stratasync.Rebase.Originals.{actions_from, resolve_conflict_effect, drop_local}
use stratasync.Rebase.Snapshots.{
  newest_value, on_row, original_after, is_patch, lookup-original_after,
  resolve_conflict_effect-keeps,
}

abbrev title : String → Row
title s = ("title", text s) ∷ []

abbrev rename : String → String → TxState → Transaction
rename id s state = record {
  client_tx_id = id;
  client_id = "me";
  model_name = "Task";
  model_id = "t1";
  action = update;
  payload = title s;
  original = some (title "Old");
  state = state;
  created_at = pos 1;
  retry_count = 0;
  last_error = none;
  sync_id_needed = none;
  batch_index = none;
}

abbrev renamed : ℕ → Option String → Option String → String → SyncAction
renamed n client_id client_tx_id s = record {
  id = n ∷ [];
  model_name = "Task";
  model_id = "t1";
  action = row update;
  fields = title s;
  client_tx_id = client_tx_id;
  client_id = client_id;
}

abbrev options : RebaseOptions
options = record { client_id = "me"; default_resolution = none; field_level_conflicts = true }

-- Two renames wait; someone else's rename comes before the echo of the second.
abbrev pending : List Transaction
pending = rename "x1" "Mine" queued ∷ rename "x2" "Mine too" sent ∷ []

abbrev batch : List SyncAction
batch =
    renamed b'4' (some "you") (some "y1") "Yours"
    ∷ renamed b'5' (some "me") (some "x2") "Mine too"
    ∷ []

rebase_transactions-accounts_example :
    (contains "x1" (tx_ids (rebase_transactions pending batch options).confirmed)
        || contains "x1" (conflict_ids (rebase_transactions pending batch options).conflicts)
        || contains "x1" (tx_ids (rebase_transactions pending batch options).pending)
      ≡ true)
    × (contains "x1" (tx_ids (rebase_transactions pending batch options).confirmed)
          && contains "x1" (conflict_ids (rebase_transactions pending batch options).conflicts)
        ≡ false)
    × (contains "x1" (tx_ids (rebase_transactions pending batch options).confirmed)
          && contains "x1" (tx_ids (rebase_transactions pending batch options).pending)
        ≡ false)
rebase_transactions-accounts_example =
    rebase_transactions-accounts pending batch options "x1" (unfold contains same in refl)

rebase_transactions-AreGenuine_example :
    AreGenuine options (rebase_transactions pending batch options).conflicts
rebase_transactions-AreGenuine_example = rebase_transactions-AreGenuine pending batch options

echo-not_in_conflict_example :
    contains "x2" (conflict_ids (rebase_transactions pending batch options).conflicts) ≡ false
echo-not_in_conflict_example =
    echo-not_in_conflict pending batch options "x2" (unfold has_echo same in refl)
      (unfold same in refl)

echo-confirms_example :
    contains "x2" (tx_ids (rebase_transactions pending batch options).confirmed) ≡ true
echo-confirms_example =
    echo-confirms pending batch options "Task:t1" "x2" (unfold is_pending_on model_key same in refl)
      (unfold has_echo_on model_key same in refl) (unfold same in refl)

lookup-original_after_example :
    lookup "title" (original_after (actions_from [] batch) (rename "x1" "Mine" queued)) ≡ (
      if contains "title" (local_conflict_fields (rename "x1" "Mine" queued))
      then newest_value "title" (on_row "Task:t1" batch) (lookup "title" (title "Old"))
      else lookup "title" (title "Old"))
unfolding model_key
lookup-original_after_example = lookup-original_after (rename "x1" "Mine" queued) batch "title" refl

abbrev conflict : RebaseConflict
conflict = record {
  local_transaction = rename "x1" "Mine" queued;
  server_action = renamed b'4' (some "you") (some "y1") "Yours";
  conflict_type = update_update;
  resolution = client_wins;
}

resolve_conflict_effect-keeps_example :
    (is_patch (resolve_conflict_effect conflict) ≡ keeps_local_transaction conflict)
    × ((resolve_conflict_effect conflict ≡ drop_local)
        ↔ ((client_wins ≡ server_wins) ⊎ (client_wins ≡ manual)))
resolve_conflict_effect-keeps_example = resolve_conflict_effect-keeps conflict
