-- ===== src/Lib.antt =====
-- pi-mobile-photobackup: the backup engine of the appliance.
--
-- The appliance copies the photos of a memory card to a disk. The part modelled here is the
-- portable core under src/aethereal/backup and the manifest under src/aethereal/db. A run goes
-- through these parts in turn.
--
-- - backup/state_machine.py, in Machine.antt: `BackupState`, the transition map
--   `allowed_targets` and `JobStateMachine.transition`, which calls its hook exactly when it
--   moves. The map as a graph is in Machine/Graph.antt, sequences of attempts are in
--   Machine/Guard.antt.
--
-- - backup/preflight.py, in Preflight.antt: `run_preflight` from the scanned files on. It uses
--   backup/classification.py (Classification.antt), backup/planner.py (Planner.antt) and
--   backup/capacity.py (Capacity.antt). The walk of the card, `_scan_source`, is in Scan.antt,
--   over a tree of folders, with `normalize_relative_path` of backup/snapshot.py in
--   Snapshot.antt; `run_preflight` takes the inputs of a scan. The snapshot digest is not
--   modelled. Numbers of the capacity assessment are integers, since its callers may pass
--   negative ones, which it refuses.
--
-- - backup/identity.py, in Identity.antt: `hash_stream`, chunk by chunk. SHA-256 is a parameter,
--   a function from bytes to a text of four characters or more without a dot; nothing else is
--   assumed of it, in particular not that it has no collisions.
--
-- - backup/object_store.py, in ObjectStore.antt: the sharded path of a digest and the path of
--   its partial copy. A `Path` is its text.
--
-- - backup/copier.py, in Copier.antt: `copy_verify_finalize`, `_copy_and_verify_once`,
--   `link_verified_object`, `_link_into_session`. backup/manifest_journal.py is in Journal.antt,
--   db/manifest_repo.py in Manifest.antt. backup/runner.py, in Runner.antt, runs a plan file by
--   file; backup/recovery.py, in Recovery.antt, reconciles what an interruption left.
--
-- - led/patterns.py and led/controller.py, in Led.antt: the LED's state for each state of the
--   machine, the patterns and their rendering.
--
-- - backup/engine.py, in Engine.antt: `run_backup`, `dry_run`, `reset`, `recover_on_startup`,
--   the job ids and session paths.
--
-- - common/events.py and the websocket of web/app.py, in Bus.antt: publish, subscribe, the
--   buffer of recent events, and what a client that reconnects is sent. Bus/Replay.antt relates
--   the bus to the log of all that was published.
--
-- - linux/devices.py, in Linux/Devices.antt and Linux/Parsing.antt: block devices as trees, as
--   lsblk prints them. linux/validation.py, in Linux/Validation.antt: the destination and the
--   possible sources among them.
--
-- - linux/mountinfo.py and linux/mount.py, in Linux/MountInfo.antt and Linux/Mounts.antt: the
--   read-only mount of a source. Commands, the text of the mount table and what blkid finds are
--   parameters, over a state of any type. linux/media.py, in Linux/Media.antt: the media manager
--   over any mount service; Linux/Media/Mounted.antt fills the law that it wants of the service
--   with the Linux one. Each call takes the devices that the lister returns to it.
--
-- - db/migrations.py, in Migrations.antt: the migrations in their transactions, over a schema of
--   any type. SQLite is a parameter: what a statement of a migration makes of the schema, or
--   that it fails, and where it fails on one of the code's own statements; ROLLBACK brings back
--   the database as it was at BEGIN, and so does a loss of power. A statement that fails leaves
--   the transaction open, so SQLite's own rollback after some errors is not modelled.
--
-- - web/app.py, in Web.antt: `BackupService`, which runs one backup at a time, and the endpoints
--   for a backup, a dry run and an ejection; Web/Serving.antt composes them with the engine.
--
-- The programs of the copier, the runner, the recovery and the engine are of type `Exec S A`
-- (Effects.antt): from a state to a value or an exception, and the state after it. The state of
-- the first three is the `World` (World.antt): the destination's names and contents (Files.antt:
-- names are hard links to inodes), the manifest's rows, and the `power` left. Each effect on the
-- files or the rows takes one unit of power, and without any left it does not take place and the
-- program stops there; no handler sees this. So a theorem about every world is one about every
-- point at which the power may fail. A write to a partial copy is one effect, whose outcome the
-- environment chooses, and so is each SQL statement, since the connection is in autocommit mode.
-- The `Environment` gives what the n-th opening of a source file delivers, a failing read
-- included, and what the device keeps of the n-th write. Directories, fsync and the eviction of
-- the page cache change no file and are left out; the other failures of the file system (a full
-- disk, a denied permission) are not modelled.
--
-- Proofs about these programs use the rules of World/Rules.antt: a `Spec` says what holds of
-- files and rows when a program returns, and what when it raises or loses power. World/Store.antt
-- has the invariant of the object store and what each file operation keeps of it, World/Rows.antt
-- the same for the rows. Engine/Rules.antt has rules for the machine's state.
--
-- The two reading loops run on fuel: one more than the length of the content, which is enough for
-- a positive chunk size, since every chunk but the last takes at least one byte. `digits` has
-- fuel one above its number. All other recursion is structural.
--
-- Deviations: the progress events of a job are emitted when the job has ended, not in between;
-- texts of exceptions and time stamps are left out; a row id is one more than the greatest in
-- use; whether cancellation was requested is asked of a function of the number of files done; the
-- query that counts the jobs of a day does not fail, and the subscribers that an event or a
-- transition calls do not raise; the bus numbers and dispatches an event in one step, where the
-- source calls the subscribers after it has released the lock.
--
-- Not modelled: the digest of snapshot.py, the web service's endpoints that only read or pass a
-- call on, the watch service, the LED's GPIO driver, the lines of blkid, configuration, the
-- schema of the databases, and the scripts.
pub mod Prelude
pub mod Machine
pub mod Capacity
pub mod Identity
pub mod ObjectStore
pub mod Classification
pub mod Planner
pub mod Effects
pub mod Files
pub mod Manifest
pub mod World
pub mod Journal
pub mod Copier
pub mod Runner
pub mod Recovery
pub mod Preflight
pub mod Engine
pub mod Led
pub mod Bus
pub mod Linux
pub mod Web
pub mod Migrations
pub mod Snapshot
pub mod Scan
pub mod Tests
