-- ===== src/Storage/ReplayOrder.antt =====
-- The order in which the outbox is replayed, and the index that a queued transaction is given.
use stratasync.Prelude.{ℕ, ◌<◌, List, [], ◌∷◌, Option, none, some}
use stratasync.Transaction.{Transaction}
use stratasync.Outbox.{Outbox}

-- Without a batch index, or with one below `n`.
abbrev pub IsBelow : ℕ → Option ℕ → Type 0
IsBelow n none = Unit
IsBelow n (some i) = i < n

unfoldable pub AreBelow : ℕ → List Transaction → Type 0
AreBelow n [] = Unit
AreBelow n (tx ∷ txs) = IsBelow n tx.batch_index × AreBelow n txs
