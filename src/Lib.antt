-- ===== src/Lib.antt =====
-- dbdock backs databases up to object storage, keeps backups within a retention policy, guards
-- every deletion in that storage, synchronises metadata with a cloud service, runs changes of a
-- database behind a checkpoint and restores it, and plans migrations between two databases.
--
-- Base        What the other modules share: numbers, lists, texts as lists of UTF-16 code units
--             (a JavaScript string), a stable sort (Array.prototype.sort), and Effect: a method
--             that changes a state and may throw, where what was written before a throw stays.
--             Base/Triple states what such a method does on its return and on its throw.
-- Storage     src/storage. Guard models deletion-guard.ts: validateKeyStructure,
--             isWithinAllowedPrefix, assertDeletableKey, resolveDeletionGuardPolicy and
--             DeletionRateLimiter.record (record_deletion). Adapter is the interface of
--             storage.interface.ts as a record of operations, with IsObjectStore for what a backend
--             promises; a deletion may take the object's metadata with it, as that of
--             adapters/local.adapter.ts does. Safe models safe-storage.adapter.ts over such a backend: deleteObject,
--             moveToTrash, restoreFromTrash, purgeTrash and the methods that they call. Its state is
--             the backend's store, the limiter and the events emitted.
-- Retention   Cli models src/cli/utils/retention.ts: evaluateRetention and applyRetention. Service
--             models src/wal/retention.service.ts with cleanupOldWalFiles of
--             src/wal/wal-archiver.service.ts: applyRetentionPolicy runs the clean-up of backups,
--             that of WAL files and the purge of the trash. Both call an adapter, which is the safe
--             one in the program; here listing and deleting are parameters. Marks has the lemmas on
--             a sorted list marked by index.
-- Cloud       src/cloud. Types has the records of types.ts; Queue models queue.ts, Diff diff.ts,
--             Conflict conflict.ts, and Sync sync-engine.ts: drain, syncPush, syncPull and
--             syncStatus. A push compares the snapshot with the hashes last synchronised (Diff),
--             queues a job (Queue) and drains the queue against a client, which is a parameter.
-- Schedules   src/scheduler/schedule-manager.ts: Manager has the operations of ScheduleManager on the
--             configuration file, and Cron its validateCronExpression. A write of the file may be
--             refused, or fail half-way and leave a file that does not parse.
-- Changes     src/changes. Record models records.ts with the types of types.ts: a record is saved in a
--             directory on this machine and sent to the cloud. Guard models guard.ts:
--             runGuardedChange takes the database's lock, makes a checkpoint, saves a record, runs the
--             change, and saves and sends the record again. Calls says what a call of the outside has
--             shown once it is back. Delivery is about syncRecords. History
--             models history.ts: readHistory merges the saved records with those that the cloud lists,
--             and findUndoTarget looks for a checkpoint that can be read. Restore models restore.ts:
--             restoreCheckpoint runs a guarded change whose check asks what may be replaced (Lock) and
--             whether the caller confirms. Summary and Metadata model schema-summary.ts and
--             metadata.ts, the texts that go into a record.
-- Lock        src/standalone/database-lock.ts. Schemas has the schemas that may be replaced and the
--             statements that empty one; Postgres has lockPostgres with reset and close, and
--             resetPostgres, and Mysql lockMysql, over the queries of a client, which is a parameter.
--             What a transaction promises is the hypothesis IsTransactional of Postgres/Reset.
-- Migration   src/migration. Names and Values model type.mapper.ts, References models
--             reference.detector.ts, ToPostgres models mappers/mongo-to-postgres.mapper.ts and ToMongo
--             mappers/postgres-to-mongo.mapper.ts, over an analysis of the database, whose records are
--             those of types.ts (Types).
--
-- Times are milliseconds since the epoch, where the source keeps dates or ISO texts. The clock, the
-- random draws and the random ids are arguments. Numbers have no upper bound: the source's are
-- counts, sizes and times far below 2^53. Every loop of these parts runs over a list and recurses on
-- it, so no fuel is needed, but for the digits of a number and the verbs of a summary (Summary),
-- which take the number and the length of the text as fuel: more than they have digits and verbs. No result holds the source's log lines. The error messages are
-- constructors that say which test failed. The names of collections, tables and columns have letters
-- with a case in ASCII only, and a frequency is counted in thousandths of a percent.
--
-- Not modelled: the storage backends, the dump and restore tools, the database engines, the
-- analyzers of a migration and the engines that copy its rows, the conversion of single values, the
-- scheduler's timers, the storage of checkpoints, encryption, alerts,
-- configuration, the command line, and the accounts of the cloud service. The SQL of a query, the
-- options of a connection and the digest of SHA-256 are parameters. A write of the local state file
-- does not fail here, nor does the reading of the directory of records in History. linkProject is left out of
-- Sync, and the hashing of snapshots out of Diff.
pub mod Base
pub mod Storage
pub mod Retention
pub mod Cloud
pub mod Schedules
pub mod Changes
pub mod Lock
pub mod Migration
