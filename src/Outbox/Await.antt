-- ===== src/Outbox/Await.antt =====
-- What else happens while a send waits: at each `await`, the calls that run before it goes on.
use stratasync.Prelude.{ℕ, String, Bool, List, [], ◌∷◌}
use stratasync.Transaction.{Transaction}
use stratasync.Outbox.{Outbox, queue_transaction, flush_batch, discard_now, discard_rest, dispose}

-- A mutation is queued; the batch timer fires; a transaction is discarded, in two parts; the
-- manager is disposed.
pub data Call : Type 0 where
  queues : Transaction → Call
  fires disposes : Call
  discards settles : String → Call

pub record Options : Type 0 where
  pub batch_mutations : Bool
  pub max_batch_size : ℕ

-- The manager, and the calls at each await that is to come; then there are none.
pub record World : Type 0 where
  pub box : Outbox
  pub meanwhile : List (List Call)

abbrev pub Task : Type 0 → Type 0
Task A = World → A × World

module _ (o : Options) where
  unfoldable pub call : Call → Outbox → Outbox
  call (queues tx) box = queue_transaction o.batch_mutations o.max_batch_size tx box
  call fires box = flush_batch box
  call disposes box = dispose box
  call (discards id) box = discard_now id box
  call (settles id) box = discard_rest id box

  unfoldable pub call_all : List Call → Outbox → Outbox
  call_all [] box = box
  call_all (c ∷ calls) box = call_all calls (call c box)

  unfoldable pub pass : List (List Call) → Outbox → World
  pass [] box = record { box = box; meanwhile = [] }
  pass (calls ∷ later) box = record { box = call_all calls box; meanwhile = later }

  -- A change of the manager, then an await.
  unfoldable pub await_after : (Outbox → Outbox) → World → World
  unfolding pass
  await_after change w = pass w.meanwhile (change w.box)

-- A change that nothing waits for.
abbrev pub at_once : (Outbox → Outbox) → World → World
at_once change w = record w { box = change w.box }
