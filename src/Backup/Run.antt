-- ===== src/Backup/Run.antt =====
-- `run_backup` of backup/mod.rs from the scan to the committed snapshot. The tasks of the files run one after another,
-- each before the next is started, which is one of their orders; each holds all locks for its whole file. Directories
-- and manifests can be written.
pub mod Phases
pub mod Loop
pub mod Outcome
pub mod Waits
use obsidian_backup_server.Prelude.{
  ℕ, zero, suc, ◌+◌, ◌≡◌, Bool, true, false, Option, none, some, List, [], ◌∷◌, ◌++◌, Bytes, length,
  ◌==◌, if◌then◌else◌, Result, ok, err, Error, aborted,
}
use obsidian_backup_server.Prelude.Text.{codes}
use obsidian_backup_server.Prelude.Words.{add64}
use obsidian_backup_server.Erasure.{ReedSolomon}
use obsidian_backup_server.Chunker.{Chunk}
use obsidian_backup_server.Store.{ObjectStore, ObjectLocation}
use obsidian_backup_server.Index.{RocksDb, Json}
use obsidian_backup_server.Transaction.{
  Transaction, TransactionState, TransientObject, TransactionManager, begin, commit, rollback,
}
use obsidian_backup_server.Ipc.{BackupResult, SystemState}
use obsidian_backup_server.Backup.{FileTask, backup_chunks, backup_file, was_aborted}
use obsidian_backup_server.Backup.Newest.{SnapshotInfo}

-- scanner.rs
pub record FileEntry : Type 0 where
  pub path : Bytes
  pub size : ℕ
  pub modified : ℕ

-- what the task of a file returns
pub data FileOutcome : Type 0 where
  taken : (path : Bytes) → (bytes : ℕ) → (dedup : ℕ) → (new : ℕ) → FileOutcome
  skipped : (path : Bytes) → FileOutcome

-- the manifest of a snapshot
pub record Manifest : Type 0 where
  pub snapshot_id : Bytes
  pub timestamp : Bytes
  pub tag : Option Bytes
  pub tx_id : Bytes
  pub files_scanned : ℕ
  pub files_changed : ℕ
  pub files_skipped : ℕ
  pub bytes_processed : ℕ
  pub chunks_total : ℕ
  pub chunks_deduped : ℕ
  pub chunks_new : ℕ

-- the counters of `run_backup`
pub record Tally : Type 0 where
  pub paths : List Bytes
  pub files_changed : ℕ
  pub files_skipped : ℕ
  pub total_bytes : ℕ
  pub chunks_deduped : ℕ
  pub chunks_new : ℕ
  pub total_chunks : ℕ

abbrev pub no_tally : Tally
no_tally = record {
  paths = [];
  files_changed = 0;
  files_skipped = 0;
  total_bytes = 0;
  chunks_deduped = 0;
  chunks_new = 0;
  total_chunks = 0;
}

-- one result of a task
abbrev pub count_file : FileOutcome → Tally → Tally
count_file (FileOutcome.taken path bytes dedup new) t = record {
  paths = t.paths ++ path ∷ [];
  files_changed = add64 t.files_changed 1;
  files_skipped = t.files_skipped;
  total_bytes = add64 t.total_bytes bytes;
  chunks_deduped = add64 t.chunks_deduped dedup;
  chunks_new = add64 t.chunks_new new;
  total_chunks = add64 t.total_chunks (add64 dedup new);
}
count_file (FileOutcome.skipped path) t = record t { files_skipped = add64 t.files_skipped 1 }

abbrev pub count_files : List FileOutcome → Tally → Tally
count_files [] t = t
count_files (o ∷ os) t = count_files os (count_file o t)

-- `packfile_count` of the store
abbrev packfile_count : List (Bytes × ObjectLocation) → ℕ
packfile_count [] = 0
packfile_count ((h, ObjectLocation.packfile id offset size) ∷ index) = suc (packfile_count index)
packfile_count ((h, loc) ∷ index) = packfile_count index

-- the timestamp of the last snapshot
abbrev pub last_timestamp : List SnapshotInfo → Option Bytes
last_timestamp [] = none
last_timestamp (s ∷ []) = some s.timestamp
last_timestamp (s ∷ t ∷ ss) = last_timestamp (t ∷ ss)

abbrev is_running : Option Bytes → Bool
is_running none = false
is_running (some tx) = true

-- What a run meets: `config.storage.concurrency`, its identifier and times, what the scan gives, the chunks that the stream of a file delivers
-- before it ends or fails, whether a `cancel` has come before the check for the n-th file, the signature of a manifest,
-- and the ratio of the statistics.
pub record World : Type 0 where
  pub concurrency : ℕ
  pub tx_id : Bytes
  pub now : Bytes
  pub timestamp : Bytes
  pub duration_ms : ℕ
  pub scan : Option Bytes → Result (List FileEntry)
  pub relative : Bytes → Bytes
  pub stream : FileEntry → Result (List Chunk × Option Error)
  pub cancelled : ℕ → Bool
  pub sign : Option (Manifest → Bytes)
  pub dedup_ratio : ObjectStore → ℕ

module _ (rocks : RocksDb) where
  -- The engine.
  pub record EngineState : Type 0 where
    pub index : rocks.Db
    pub store : ObjectStore
    pub transients : List TransientObject
    pub active : Option Transaction
    pub status : SystemState
    pub snapshots : List SnapshotInfo
    pub manifests : List (Bytes × Manifest)
    pub signatures : List (Bytes × Bytes)

  unfoldable pub set_state : Bytes → Option Bytes → EngineState → EngineState
  set_state state tx s = record s {
    status = record s.status { state = state; current_tx = tx; running = is_running tx };
  }

  unfoldable pub update_queues : ℕ → ℕ → ℕ → ℕ → ℕ → EngineState → EngineState
  update_queues scanner chunk compress encrypt upload s = record s {
    status = record s.status {
      scanner_queue = scanner;
      chunk_queue = chunk;
      compress_queue = compress;
      encrypt_queue = encrypt;
      upload_queue = upload;
    };
  }

  unfoldable pub update_storage_stats : (ObjectStore → ℕ) → EngineState → EngineState
  update_storage_stats ratio s = record s {
    status = record s.status {
      total_snapshots = length s.snapshots;
      total_size_bytes = s.store.total_bytes;
      dedup_ratio = ratio s.store;
      packfile_count = packfile_count s.store.object_index;
    };
  }

  -- a `cancel` on the active transaction
  abbrev pub abort : Option Transaction → Option Transaction
  abort none = none
  abort (some tx) = some (record tx { state = TransactionState.aborted })

  abbrev pub note_cancel : Bool → EngineState → EngineState
  note_cancel false s = s
  note_cancel true s = record s { active = abort s.active }

  abbrev pub manager_of : EngineState → TransactionManager rocks
  manager_of s = record { block_index = s.index; transient_objects = s.transients }

  abbrev pub with_manager : TransactionManager rocks → EngineState → EngineState
  with_manager m s = record s { index = m.block_index; transients = m.transient_objects }

  abbrev pub task_of : EngineState → FileTask rocks
  task_of s = record {
    index = s.index;
    store = s.store;
    transients = s.transients;
    file_chunk_hashes = [];
    file_chunks_deduped = 0;
    file_chunks_new = 0;
  }

  abbrev pub after_task : FileTask rocks → EngineState → EngineState
  after_task t s = record s { index = t.index; store = t.store; transients = t.transients }

  module _ (json : Json) (rs : ReedSolomon) (digest : Bytes → Bytes) (crc32c_append : ℕ → Bytes → ℕ)
      (world : World) where
    -- the end of a task, whose stream may have failed
    abbrev pub end_task :
        Bytes → FileEntry → List Chunk → Option Error → EngineState → FileOutcome × EngineState
    end_task rel entry chunks (some e) s = (
      FileOutcome.skipped rel,
      after_task (backup_chunks rocks json rs digest crc32c_append rel chunks (task_of s)) s,
    )
    end_task rel entry chunks none s =
        let t =
          backup_file rocks json rs digest crc32c_append rel chunks entry.size entry.modified
            (task_of s) in
        (FileOutcome.taken rel entry.size t.file_chunks_deduped t.file_chunks_new, after_task t s)

    abbrev pub opened :
        FileEntry → Result (List Chunk × Option Error) → EngineState → FileOutcome × EngineState
    opened entry (err e) s = (FileOutcome.skipped (world.relative entry.path), s)
    opened entry (ok (chunks, failure)) s =
        end_task (world.relative entry.path) entry chunks failure s

    -- the task of one file
    unfoldable pub run_file : FileEntry → EngineState → FileOutcome × EngineState
    run_file entry s = opened entry (world.stream entry) s

    abbrev put_outcome :
        FileOutcome
        → Option (List FileOutcome × EngineState)
        → Option (List FileOutcome × EngineState)
    put_outcome outcome none = none
    put_outcome outcome (some (outcomes, s)) = some (outcome ∷ outcomes, s)

    -- The loop over the files, from the n-th check on. Each task takes a permit of the semaphore and gives it back
    -- when it ends; without any permit the first of them waits for ever, which is `none`.
    unfoldable pub run_files :
        ℕ → List FileEntry → EngineState → Option (List FileOutcome × EngineState)
    run_files n [] s = some ([], s)
    run_files n (entry ∷ entries) s =
        let s1 = note_cancel (world.cancelled n) s in
        let (outcome, s2) = run_file entry s1 in
        let later = run_files (suc n) entries s2 in
        if was_aborted s1.active
        then some ([], s1)
        else if world.concurrency == 0
        then none
        else put_outcome outcome later
