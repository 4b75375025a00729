-- ===== src/Tests/Counts.antt =====
-- The theorems on the index, on transactions and on backups at concrete values.
use obsidian_backup_server.Prelude.{
  drop, Result, Bool, ℕ, ◌+◌, ◌-◌, ◌≡◌, ◌≢◌, refl, none, some, List, [], ◌∷◌, Bytes, length,
  flatten, ok, err, missing_chunks, arith,
}
use obsidian_backup_server.Prelude.Text.{codes, bytes_eq}
use obsidian_backup_server.Config.{default_storage}
use obsidian_backup_server.Store.{ObjectStore}
use obsidian_backup_server.Chunker.{Chunk}
use obsidian_backup_server.Index.{
  ColumnFamily, get_ref_count, increment_ref, decrement_ref, insert_chunk, insert_file_chunks,
  get_file_chunks, insert_snapshot_files, get_snapshot_files, delete_snapshot_files,
}
use obsidian_backup_server.Index.Refs.{
  Counts, increment_ref-Counts, decrement_ref-Counts, insert_chunk-Counts,
}
use obsidian_backup_server.Index.Files.{Recorded, insert_file_chunks-Recorded, snapshot_files_lem}
use obsidian_backup_server.Transaction.{Transaction, TransactionState, TransactionManager, rollback}
use obsidian_backup_server.Transaction.Rollback.{Counted, tracked, rollback-Counted}
use obsidian_backup_server.Backup.{FileTask, backup_chunks, restore_file}
use mathlib.Core.List.{Perm}
use obsidian_backup_server.Backup.Newest.{SnapshotInfo, NewestFirst}
use obsidian_backup_server.Backup.Prune.{
  prune_snapshots, unpinned, delete_all, prune_snapshots-delete_all,
}
use obsidian_backup_server.Backup.Refs.{deduped, rollback-backup_chunks}
use obsidian_backup_server.Backup.Restore.{Reads, Lacks, restore_file-Reads}
use obsidian_backup_server.Tests.Database
use obsidian_backup_server.Tests.Database.{rocks, json, empty_table, put}
use obsidian_backup_server.Tests.Code.{code_of_numbers}

abbrev a_hash : Bytes
a_hash = codes "abc"

-- a table in which `a_hash` is counted once
abbrev one_chunk : rocks.Db
one_chunk =
    put empty_table ColumnFamily.chunk_refs a_hash (some (1 ∷ 0 ∷ 0 ∷ 0 ∷ 0 ∷ 0 ∷ 0 ∷ 0 ∷ []))

one_chunk-count : get_ref_count rocks one_chunk a_hash ≡ ok 1
unfolding get_ref_count
one_chunk-count = refl

increment_ref-Counts_example :
    (db' : rocks.Db) × (increment_ref rocks one_chunk a_hash ≡ ok db')
    × Counts rocks one_chunk db' a_hash (1 + 1)
increment_ref-Counts_example =
    increment_ref-Counts rocks one_chunk a_hash 1 tt one_chunk-count (omega arith)

decrement_ref-Counts_example :
    (db' : rocks.Db) × (decrement_ref rocks one_chunk a_hash ≡ ok (1 - 1, db'))
    × Counts rocks one_chunk db' a_hash (1 - 1)
decrement_ref-Counts_example =
    decrement_ref-Counts rocks one_chunk a_hash 1 tt one_chunk-count (omega arith)

insert_chunk-Counts_example :
    (db' : rocks.Db) × (insert_chunk rocks json one_chunk a_hash (codes "level.dat") 0 3 ≡ ok db')
    × Counts rocks one_chunk db' a_hash (1 + 1)
insert_chunk-Counts_example =
    insert_chunk-Counts rocks json one_chunk a_hash (codes "level.dat") 0 3 1 tt one_chunk-count
      (omega arith)

insert_file_chunks-Recorded_example :
    (db' : rocks.Db) × (insert_file_chunks rocks json one_chunk
        (codes "level.dat")
        (a_hash ∷ [])
        3
        0
      ≡ ok db')
    × Recorded rocks json one_chunk db' (codes "level.dat") (a_hash ∷ []) 3
insert_file_chunks-Recorded_example =
    insert_file_chunks-Recorded rocks json one_chunk (codes "level.dat") (a_hash ∷ []) 3 0 tt

abbrev snap : Bytes
snap = codes "snap_1"

snapshot_files_lem_example :
    ((db' : rocks.Db) × (insert_snapshot_files rocks json one_chunk snap (codes "level.dat" ∷ [])
        ≡ ok db')
      × (get_snapshot_files rocks json db' snap ≡ ok (codes "level.dat" ∷ []))
      × ((k : Bytes)
          → snap ≢ k
          → get_snapshot_files rocks json db' k ≡ get_snapshot_files rocks json one_chunk k))
    × ((db' : rocks.Db) × (delete_snapshot_files rocks one_chunk snap ≡ ok db')
        × (get_snapshot_files rocks json db' snap ≡ ok [])
        × ((k : Bytes)
            → snap ≢ k
            → get_snapshot_files rocks json db' k ≡ get_snapshot_files rocks json one_chunk k))
snapshot_files_lem_example =
    snapshot_files_lem rocks json one_chunk snap (codes "level.dat" ∷ []) tt

-- the empty table, with no count
abbrev no_counts : Bytes → ℕ
no_counts h = 0

empty_table-Counted : Counted rocks empty_table no_counts
unfolding get_ref_count
empty_table-Counted = record { healthy = tt; counted = λ h. refl; small = λ h. omega arith }

abbrev a_transaction : Transaction
a_transaction = record {
  tx_id = codes "tx_1";
  state = TransactionState.active;
  created_at = [];
  completed_at = none;
  files_processed = 0;
  bytes_processed = 0;
  chunks_total = 0;
}

abbrev a_manager : TransactionManager rocks
a_manager = record {
  block_index = empty_table;
  transient_objects = record { chunk_hash = a_hash; object_path = [] } ∷ [];
}

rollback-Counted_example :
    Counted rocks
      (rollback rocks a_transaction a_manager).block_index
      (λ h. 0 - tracked h a_manager.transient_objects)
    × ((rollback rocks a_transaction a_manager).transient_objects ≡ [])
    × (rollback rocks a_transaction (rollback rocks a_transaction a_manager)
        ≡ rollback rocks a_transaction a_manager)
rollback-Counted_example =
    rollback-Counted rocks a_transaction a_manager no_counts empty_table-Counted

abbrev no_objects : ObjectStore
no_objects = record {
  config = default_storage;
  object_index = [];
  next_pack_id = 0;
  total_bytes = 0;
  total_raw_bytes = 0;
  files = [];
}

abbrev new_task : FileTask rocks
new_task = record {
  index = empty_table;
  store = no_objects;
  transients = [];
  file_chunk_hashes = [];
  file_chunks_deduped = 0;
  file_chunks_new = 0;
}

-- the same chunk twice
abbrev two_chunks : List Chunk
two_chunks =
    record { hash = a_hash; offset = 0; size = 2; content = 1 ∷ 2 ∷ [] }
    ∷ record { hash = a_hash; offset = 2; size = 2; content = 1 ∷ 2 ∷ [] }
    ∷ []

abbrev same_bytes : Bytes → Bytes
same_bytes bs = bs

abbrev sum_crc : ℕ → Bytes → ℕ
sum_crc crc bs = crc + length bs

abbrev done_task : FileTask rocks
done_task =
    backup_chunks rocks json code_of_numbers same_bytes sum_crc (codes "level.dat") two_chunks
      new_task

rollback-backup_chunks_example :
    Counted rocks
      (rollback rocks a_transaction (record {
        block_index = done_task.index;
        transient_objects = done_task.transients;
      })).block_index
      (λ k.
        0
        + deduped rocks json code_of_numbers same_bytes sum_crc
            (codes "level.dat")
            two_chunks
            new_task
            k)
rollback-backup_chunks_example =
    rollback-backup_chunks rocks json code_of_numbers same_bytes sum_crc (codes "level.dat")
      two_chunks new_task no_counts a_transaction empty_table-Counted refl (λ k. omega arith)

-- a file whose one chunk is not in the store
abbrev a_file : rocks.Db
a_file = put empty_table ColumnFamily.file_chunks (codes "level.dat") (some (98 ∷ 0 ∷ []))

a_file-chunks : get_file_chunks rocks json a_file (codes "level.dat") ≡ ok ((97 ∷ []) ∷ [])
unfolding get_file_chunks Database.read_texts Database.before_first
a_file-chunks = refl

restore_file-Reads_example :
    ((contents : List Bytes)
      → Reads no_objects ((97 ∷ []) ∷ []) contents
      → restore_file rocks json a_file no_objects (codes "level.dat") ≡ ok (flatten contents))
    × (Lacks no_objects ((97 ∷ []) ∷ [])
        → restore_file rocks json a_file no_objects (codes "level.dat") ≡ err missing_chunks)
restore_file-Reads_example =
    restore_file-Reads rocks json a_file no_objects (codes "level.dat") ((97 ∷ []) ∷ [])
      a_file-chunks

abbrev a_snapshot : Bytes → Bytes → SnapshotInfo
a_snapshot id time = record {
  snapshot_id = id;
  timestamp = time;
  tag = none;
  files_scanned = 0;
  bytes_processed = 0;
  chunks_total = 0;
  chunks_deduped = 0;
}

abbrev three_snapshots : List SnapshotInfo
three_snapshots =
    a_snapshot (codes "a") (codes "2024")
    ∷ a_snapshot (codes "b") (codes "2025")
    ∷ a_snapshot (codes "c") (codes "2023")
    ∷ []

-- `c` is pinned, and a deletion is logged
abbrev c_is_pinned : List Bytes → Bytes → Bool
c_is_pinned log id = bytes_eq id (codes "c")

abbrev log_delete : Bytes → List Bytes → Result (Unit {0}) × List Bytes
log_delete id log = (ok tt, id ∷ log)

prune_snapshots-delete_all_example :
    (sorted : List SnapshotInfo) × Perm sorted three_snapshots
    × NewestFirst sorted
    × (prune_snapshots c_is_pinned log_delete 1 three_snapshots []
        ≡ delete_all c_is_pinned log_delete
            (drop 1 (unpinned c_is_pinned log_delete [] sorted))
            (0, []))
prune_snapshots-delete_all_example =
    prune_snapshots-delete_all c_is_pinned log_delete (λ s id j n. refl) 1 three_snapshots []
