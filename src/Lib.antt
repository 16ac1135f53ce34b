-- ===== src/Lib.antt =====
-- A verification library for be-backup, a program that backs up block devices by cutting them into
-- blocks and keeping each block once, in a storage, under a UID.
--
-- The parts and how they meet. A database (src/benji/database.py) has a row for each version, a row
-- for each block of a version that is not fully sparse, a row for each deleted block, and the locks.
-- Benji (src/benji/benji.py) prepares a version by cloning the rows of a base version under locks,
-- reads the blocks that the hints name, and cleans up. A storage (src/benji/storage/base.py) keeps an
-- object and its metadata for the UID of a block, through a chain of transforms. Executors
-- (src/benji/jobexecutor.py) run the reads and writes of a backup or a restore, whose results come
-- back in any order. The NBD server presents a version as a device, and copies the blocks that it
-- writes to.
--
-- Which file models what; a method has the name of its function here:
--   Prelude      Boolean tests, lists and sets, and the names of the libraries
--   Errors       src/benji/exception.py, Python's exceptions, and results
--   Hints        Benji._blocks_from_hints, and hints_from_rbd_diff of src/benji/utils.py
--   Uid          BlockUid of database.py (new_block_uid, uid_eqb, uid_lt, is_set) and
--                src/benji/storage/key.py (to_path, from_path)
--   Database     the tables; Version.blocks (version_blocks), get_block_by_idx, blocks_count
--   Versions     Version.set_block, create_blocks, set (set_version), set_block_valid, remove
--                (remove_version), get_by_uid, get_block_by_checksum
--   Locking      _Locking of database.py; the table of locks is the state, and the host and process
--                id of the caller are an argument
--   Clone        the loop of Benji.update_version over the blocks
--   Update       Benji.update_version: checks (make_plan), locks and handlers (prepare, on_error)
--   Cleanup      DeletedBlock.get_unused_block_uids, Benji.cleanup and Benji.clean
--   Transforms   _encapsulate and _decapsulate, src/benji/transform/base.py and factory.py
--   Storage      StorageBase: write_block, read_block, rm_block, check_block_metadata, the metadata
--                and its HMAC (src/benji/storage/dicthmac.py); list_blocks; write_version, read_version
--                and rm_version; and src/benji/storage/file.py
--   Retention    RetentionFilter of src/benji/retentionfilter.py: _parse_rules (parse_rules) and _filter
--                (retention_filter), on versions that have a date
--   Remove       Benji.protect and Benji.rm
--   History      BlockUidHistory of src/benji/blockuidhistory.py
--   BlockList    BenjiStore._block_list of benji.py
--   NbdStore     _BlockStore (store_read, store_write, store_update, store_rm) and BenjiStore.read
--                and write
--   Wire         struct.pack, struct.unpack and readexactly, as nbdserver.py uses them
--   NbdServer    NbdServer.handler of src/benji/nbdserver.py: a turn of the negotiation
--                (negotiate_turn) and of the transmission (request_turn), the loops (negotiate,
--                transmit), the end (end_session); the methods of BenjiStore are its ExportStore
--   Io           src/benji/io/file.py: _read (file_read), _write (file_write), open_w
--   JobExecutor  src/benji/jobexecutor.py: submit, get_completed (collect), shutdown (cancel)
--   Backup       Benji.backup once the version is prepared: the hints (choose_sets), the loop that
--                submits the blocks (queue_blocks), the loops over completed reads (handle_read) and
--                writes (handle_written), and the end (finish); Backup.Steps has the orders
--   Restore      Benji.restore between the opening and the closing of its target
--   Scrub        Benji._scrub_prepare (scrub_prepare), scrub and deep_scrub: a turn of the loop
--                (scrub_entry, deep_entry), the end (deep_verdict), the lock (locked_scrub)
--   Tests        data, and each theorem at a concrete input
-- Each file has beneath it the files of its lemmas and theorems.
--
-- State is passed explicitly: a table is the list of its rows, a primary key is a property of the
-- list, and a query is a function of it. A method that raises returns an error; where what it did
-- before it raised stays, the state is returned beside the result. Numbers are natural numbers, as
-- no size, index or count is negative but the length of a part of `_block_list`, whose amount below 0
-- is a field of its own, and the age of a version in days, an integer (ℤ of Remove.antt); `end_block`
-- of the hints is kept as its successor, since it is -1 for an empty hint at 0.
--
-- Bounds and fuel. The windows of Version.blocks have blocks_count + 1 as fuel: each but the last
-- takes at least one index. The rounds of the cleanup have the number of deleted blocks + 1, as each
-- takes at least one row away. The size of a window is 10000 rows, and that of a work package is an
-- argument. The loop of _block_list has the length of the access, the block size and 2 more: every
-- turn within the version takes a byte. math.ceil of a quotient of floats is the rounded up quotient
-- below 2 ** 53.
--
-- The loops of the NBD server's handler have one round more than the client sends bytes, and each
-- round reads some. The loop over the chunks of an access is on their list. A backup is a relation of
-- steps, with no fuel, and what bounds its steps is proved.
--
-- Parameters: the source of a backup, and the operations of the storage on a block (World); the
-- order in which an executor completes jobs; the block cache of diskcache, which gives back at most
-- what was put in; the hash of a block's data, of which a theorem assumes at most that no two data
-- that occur share it; the counts of hours, days and so on that _Timedelta takes from the calendar;
-- MD5, JSON, the HMAC of a text, and the test of a metadata version, each a field of the
-- configuration of a storage or an argument; a transform, with its encapsulate and decapsulate;
-- UTF-8; the bit field of a history; a backend of a storage that may fail to write; the numbers
-- drawn in a partial scrub; and for the handler of the NBD server the methods of its store. A
-- theorem on a connection to a read-only export takes the reads of NbdStore for the store's
-- (with_reads of NbdServer/Export.antt). A storage is named by its id, and a date is
-- a number of seconds.
--
-- Not modelled: failures of the SQL connection, and rollbacks between the timed commits of written
-- packages; the forms of a number that int(s, 16) takes besides digits (signs, spaces, underscores
-- and 0x), which are errors here; messages, logging and notifications; the thread pools and the
-- throttling of a storage; metadata whose JSON values have another type than the program writes;
-- create_version, whose call of Version.create cannot succeed; of a backup the sanity check of the
-- hints, and of backup and restore the locks round them, the progress and the durations; the lock
-- round the cleanup; a block size of 0, for which the program divides by 0; fixate and
-- create_cow_version of the NBD server, which its handler takes as operations; the batches of scrubs;
-- the retention policy over a database; import and export, the services and the command line;
-- src/benji/aes_keywrap.py, a copy of another project.
pub mod Prelude
pub mod Errors
pub mod Hints
pub mod Uid
pub mod Database
pub mod Versions
pub mod Locking
pub mod Clone
pub mod Update
pub mod Cleanup
pub mod Io
pub mod JobExecutor
pub mod Transforms
pub mod Storage
pub mod Retention
pub mod Remove
pub mod History
pub mod Backup
pub mod BlockList
pub mod NbdStore
pub mod Restore
pub mod Scrub
pub mod Wire
pub mod NbdServer
pub mod Tests
