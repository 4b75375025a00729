-- ===== src/Lib.antt =====
-- The sidecar of Obsidian Backup: content-defined chunks, an erasure-coded object store with
-- packfiles, a block index with reference counts, transactions, the engine that joins them, the server
-- that its clients talk to, and the synchronisation with another sidecar.
--
-- A backup streams each file through the chunker (sidecar/src/backup/chunker.rs), asks the index
-- (sidecar/src/storage/index.rs) whether it has a chunk, and writes new ones to the object store
-- (sidecar/src/storage/object_store.rs), where erasure.rs splits an object into shards or loose
-- objects are sealed into packfiles. The transaction (sidecar/src/backup/transaction.rs) tracks the new
-- chunks for a rollback. A restore reads the chunk list of a file and joins its objects. The commands
-- of the client (client-cli/src/main.rs) reach the engine through sidecar/src/ipc/server.rs, and a
-- snapshot reaches another engine through sidecar/src/remote_sync.rs.
--
-- Prelude: the shared names, lists, association lists, decimal numbers, texts and machine words.
-- Config: the records and the defaults of sidecar/src/config.rs, and `SidecarConfig::load`.
-- Glob: `is_excluded` and the module `glob_match` of config.rs. `match_segments` takes the segments
--   that are left in place of two positions; the loop of `single_match` is `run_loop`.
-- Chunker: `chunk_file`, `chunk_reader` and `find_boundary_at` of chunker.rs. A `Read`er is the list of
--   what its calls return. Boundary has the rolling hash, Whole and Stream the two chunkers.
-- Erasure: `ErasureCodec::encode` and `reconstruct` of sidecar/src/erasure.rs.
-- Store: `ObjectStore` and `PackfileWriter` of object_store.rs with the files below the store's root
--   as part of the state. Objects has the operations, Invariant what a sound store is, Sealing and
--   Views what sealing does, Writing what a write does, Repair `verify_object`.
-- Index: `BlockIndex` of index.rs. Refs has the reference counts, Files the lists.
-- Transaction: `TransactionManager` of transaction.rs. Rollback has what a rollback releases.
-- Backup: of sidecar/src/backup/mod.rs the closure that `run_backup` gives to the chunker, `restore` of
--   a single file (Single; its loop over the chunks is `restore_file`), `store_object`,
--   `delete_snapshot`, `cancel`. Refs follows the counts through a backup, Restore the reading of a
--   file, Prune and Newest `prune_snapshots`. Run has `run_backup` from the scan to the commit,
--   Faithful what a restore makes of a backup, Duration `parse_duration` and `rollback`, Paths
--   `validate_safe_path`.
-- Ipc: `handle_connection`, `verify_token`, `dispatch` and the handlers of ipc/server.rs, with the engine
--   as the interface `Engine`. A connection is the list of what `next_line` returns.
-- Client: the commands, `build_request`, and the errors of `display_response` of the client.
-- RemoteSync: remote_sync.rs. Wire and Frames have the encrypted frames, Sender and Receiver both sides
--   of a push and of a pull on the payloads that arrive, Gate the first frame, Copy what is transferred:
--   Sessions on a given transcript, Turns and PullTurns on a link that carries the frames of both sides.
-- Signing: the key files, `sign` and `verify_signature` of sidecar/src/signing.rs.
-- Tests: concrete parameters and an example for each result.
--
-- Parameters: the digests of blake3, the CRC of crc32c, the Reed-Solomon code, RocksDB, serde_json
-- and the YAML parser, XChaCha20-Poly1305, Ed25519, base64 and chrono. The laws are the fields of `ReedSolomon`, `RocksDb`,
-- `Json`, `FrameJson`, `Cipher`, `Ed25519` and `Reads`.
-- Fuel: `chunk_file` has one round more than the file has bytes, and `chunk_reader` needs one more
-- than the reader delivers; each round takes a byte. The loop of `single_match` has the fuel that
-- its caller gives, and `none` means that it has not ended.
-- Words: u64 and u32 sums wrap as in a release build; usize has 64 bits.
-- Texts are lists of bytes; a `HashMap` is an association list; floating-point settings are given in
-- tenths or hundredths. Log messages and error texts are left out. File-system calls of the store
-- succeed, except for reading what is not there.
--
-- On an error of a database write the index is the one before the call: where `insert_chunk`, `insert_file_chunks` or
-- `delete_snapshot` fails after it has written, what it had written is not followed.
--
-- Not modelled: the scanner's walk, the sockets with their accept loops, what the client
-- prints on success, and the start of the process, which are I/O around the core; in the engine the
-- files that a restore writes, diff, browse, clone, pin, import and export, its own `verify` and the loading of
-- manifests; in the store `load_index`; in the index the iterators. The tasks of `run_backup` are taken
-- one after another; of its semaphore only the case without a permit is seen, in which the run is `none`.
pub mod Backup
pub mod Chunker
pub mod Config
pub mod Erasure
pub mod Glob
pub mod Index
pub mod Ipc
pub mod Client
pub mod RemoteSync
pub mod Signing
pub mod Prelude
pub mod Store
pub mod Tests
pub mod Transaction
