-- ===== src/Lib.antt =====
-- Stratasync keeps a copy of a server's rows on each client. Local mutations are applied at once
-- and wait as transactions until the server takes them; what the server did comes back as a log of
-- sync actions, each with a sync id. This library models the parts of the engine in packages/core,
-- packages/client, packages/storage-idb and packages/server that decide what the client's rows are
-- in the end, and what is sent of its mutations.
--
-- The parts, each in the file of that name with its theorems in the modules below it:
--
-- SyncId: packages/core/src/sync/sync-id.ts (compareSyncId, maxSyncId, isSyncIdGreaterThan,
-- parseSyncId) and the codec of packages/server/src/core/sync-id.ts (SyncId.parse, serialize,
-- compare, isAfter). A wire id is the list of its code units, a bigint is a number.
-- Value, Archive: packages/core/src/utils/records.ts and transaction/archive.ts. Values that the
-- engine never opens stay opaque; Date.parse is a parameter.
-- Transaction: packages/core/src/transaction/types.ts and create.ts, over a runtime (clock and id
-- source) whose two operations are a parameter.
-- SyncAction, Delta: packages/core/src/sync/types.ts and delta-applier.ts. applyDeltas runs against
-- any store with the four operations of DeltaTarget; Delta.Table says what it relies on in one.
-- Conflict, Rebase: packages/core/src/sync/rebase.ts. Conflict is detectConflict and its helpers,
-- Rebase is rebaseTransactions, Rebase.Originals is rebaseOriginals and resolveConflictEffect.
-- IdentityMap: packages/client/src/identity-map.ts, the class and (IdentityMap.Registry) the
-- registry. How a model instance is made and changed is the parameter Instances.
-- Hydration: packages/client/src/sync/pending-hydration.ts, which lays pending transactions over
-- the identity maps; Hydration.Privacy is its second half.
-- Cursor, Gate, SyncState: packages/client/src/sync/cursor.ts, internal/gate.ts and sync/state.ts.
-- Outbox: packages/client/src/outbox-manager.ts. Outbox has the state and what runs without
-- waiting, Outbox.Settling and Outbox.Sending the send of a batch with every branch of the answer,
-- Outbox.Replay the replay after a reconnect, Outbox.Confirm what the server's log takes out of it.
-- The transport is a parameter.
-- Storage: packages/storage-idb/src/stores/outbox.ts, the rows of the outbox in the database.
-- Protocol: packages/core/src/protocol. Protocol is parseSyncAction and Protocol.Packet is
-- parseDeltaPacket of delta-packet.ts, Protocol.Ndjson is readNdjsonLines of ndjson.ts, and
-- Protocol.BootstrapLine is bootstrap-line.ts. Protocol.ServerAction is
-- packages/server/src/core/sync-action.ts, and Protocol.ServerLines the lines of generateBootstrapNdjson
-- in packages/server/src/bootstrap. An object that arrives is known by the fields that are read of it, a
-- text of a stream by its code units.
-- History: packages/client/src/history-manager.ts; History.Entry is buildEntry, History.Replay is
-- undo and redo. What applies an operation is a parameter that works on a state.
--
-- How they meet: a packet is read by Protocol and goes through Delta into the store and through
-- Rebase against the pending transactions; those that stay pending go over the identity maps by
-- Hydration; the cursor of the packet is compared by SyncId and kept by Cursor; Gate holds packets
-- back during a catch-up. History makes operations that undo a mutation, as Transaction makes
-- transactions that do. Outbox sends the transactions, in the order in which Storage returns them,
-- and drops those that a packet confirms.
--
-- A call is a function of the state, and a sequence of calls is a list. The sends of Outbox wait at
-- every await: a World holds, beside the manager, the calls of other tasks that run at each await
-- to come (a mutation is queued, the timer fires, a transaction is discarded, the manager is
-- disposed), so that a theorem on any World is one on any interleaving. The seeding of the index,
-- the persisting and the claim of a queued transaction are one step there, as are the two halves of
-- a look at the storage; writes to the storage do not fail. Elsewhere promises are run to their end. Objects that are
-- changed in place are states that are passed on. Maps and sets are lists in insertion order
-- (Prelude.Dict, Prelude.TextSet). SyncId.digits_from has as fuel one round more than the number,
-- which has at most as many digits. Outbox.Sending.send_batch has fuel for the rounds after a
-- rejection, each of which has fewer transactions: more fuel than the requested and the owed
-- together never runs out (Outbox.Fuel), and the replay gives that to each send. It cuts a list
-- into at most as many slices as it has elements. Every other loop is structural.
--
-- Not modelled: the delta pipeline and the bootstrap runner; the orchestrator and the client, which
-- put the parts together; the other storage and transport, reactivity, views, and
-- the server's services beyond its sync ids and what it writes of an action and a bootstrap.
pub mod Prelude
pub mod SyncId
pub mod Value
pub mod Archive
pub mod Transaction
pub mod IdentityMap
pub mod SyncAction
pub mod Delta
pub mod Conflict
pub mod Rebase
pub mod Tests
pub mod Cursor
pub mod Gate
pub mod History
pub mod Hydration
pub mod Outbox
pub mod Storage
pub mod Protocol
pub mod SyncState
