-- ===== src/Backup/Run/Phases.antt =====
-- The phases of `run_backup` of backup/mod.rs: begin, scan, the files, and the commit or the rollback.
use obsidian_backup_server.Prelude.{
  ℕ, Bool, Option, none, some, List, [], ◌∷◌, ◌++◌, Bytes, length, if◌then◌else◌, Result, ok, err,
  aborted,
}
use obsidian_backup_server.Prelude.Text.{codes}
use obsidian_backup_server.Erasure.{ReedSolomon}
use obsidian_backup_server.Index.{RocksDb, Json, insert_snapshot_files}
use obsidian_backup_server.Transaction.{Transaction, TransactionManager, begin, commit, rollback}
use obsidian_backup_server.Ipc.{BackupResult}
use obsidian_backup_server.Backup.{was_aborted}
use obsidian_backup_server.Backup.Newest.{SnapshotInfo}
use obsidian_backup_server.Backup.Run.{
  FileEntry, FileOutcome, Manifest, Tally, no_tally, count_files, last_timestamp, World,
  EngineState, set_state, update_queues, update_storage_stats, note_cancel, manager_of,
  with_manager, run_files,
}

-- `format!("snap_{}", tx_id_short)`
abbrev pub snapshot_id_of : World → Bytes
snapshot_id_of world = codes "snap_" ++ world.tx_id

abbrev pub manifest_of : World → Option Bytes → ℕ → Tally → Manifest
manifest_of world tag files_scanned tally = record {
  snapshot_id = snapshot_id_of world;
  timestamp = world.timestamp;
  tag = tag;
  tx_id = world.tx_id;
  files_scanned = files_scanned;
  files_changed = tally.files_changed;
  files_skipped = tally.files_skipped;
  bytes_processed = tally.total_bytes;
  chunks_total = tally.total_chunks;
  chunks_deduped = tally.chunks_deduped;
  chunks_new = tally.chunks_new;
}

abbrev pub info_of : World → Option Bytes → ℕ → Tally → SnapshotInfo
info_of world tag files_scanned tally = record {
  snapshot_id = snapshot_id_of world;
  timestamp = world.timestamp;
  tag = tag;
  files_scanned = files_scanned;
  bytes_processed = tally.total_bytes;
  chunks_total = tally.total_chunks;
  chunks_deduped = tally.chunks_deduped;
}

abbrev pub result_of : World → ℕ → Tally → BackupResult
result_of world files_scanned tally = record {
  snapshot_id = snapshot_id_of world;
  files_scanned = files_scanned;
  files_changed = tally.files_changed;
  files_skipped = tally.files_skipped;
  bytes_processed = tally.total_bytes;
  chunks_deduped = tally.chunks_deduped;
  chunks_new = tally.chunks_new;
  duration_ms = world.duration_ms;
}

module _ (rocks : RocksDb) (world : World) where
  abbrev pub Ran : Type 0
  Ran = Result BackupResult × EngineState rocks

  abbrev pub idle : EngineState rocks → EngineState rocks
  idle s = set_state rocks (codes "idle") none s

  -- the signature, where a signer is set up
  abbrev pub signed : Option (Manifest → Bytes) → Manifest → EngineState rocks → EngineState rocks
  signed none manifest s = s
  signed (some sign) manifest s = record s {
    signatures = s.signatures ++ (manifest.snapshot_id, sign manifest) ∷ [];
  }

  -- the manifest, and its signature
  abbrev pub write_manifest : Manifest → EngineState rocks → EngineState rocks
  write_manifest manifest s =
      signed world.sign manifest
        (record s { manifests = s.manifests ++ (manifest.snapshot_id, manifest) ∷ [] })

  -- `commit(..)?`, and what follows it
  abbrev pub committed :
      Result (TransactionManager rocks) → (EngineState rocks → Ran) → EngineState rocks → Ran
  committed (err e) next s = (err e, s)
  committed (ok m) next s = next (with_manager rocks m s)

  -- after the commit: the cache of snapshots, the status and the statistics
  abbrev pub finish : Option Bytes → ℕ → Tally → EngineState rocks → Ran
  finish tag files_scanned tally s = (
    ok (result_of world files_scanned tally),
    update_storage_stats rocks world.dedup_ratio
        (idle (record s { snapshots = s.snapshots ++ info_of world tag files_scanned tally ∷ [] })),
  )

  -- `insert_snapshot_files(..)?`, and the commit
  abbrev pub indexed :
      Result rocks.Db → Option Bytes → ℕ → Tally → Transaction → EngineState rocks → Ran
  indexed (err e) tag files_scanned tally tx s = (err e, s)
  indexed (ok db) tag files_scanned tally tx s =
      committed (commit rocks tx (record (manager_of rocks s) { block_index = db }))
        (finish tag files_scanned tally) (record s { index = db })

  module _ (json : Json) where
    -- from the phase COMMIT on
    abbrev pub commit_phase : Option Bytes → ℕ → Tally → Transaction → EngineState rocks → Ran
    commit_phase tag files_scanned tally tx s =
        let s1 =
          write_manifest (manifest_of world tag files_scanned tally)
            (update_queues rocks 0 0 0 0 0 s) in
        indexed (insert_snapshot_files rocks json s1.index (snapshot_id_of world) tally.paths) tag
          files_scanned tally tx s1

    -- where the run has been cancelled
    abbrev pub abort_phase : Transaction → EngineState rocks → Ran
    abort_phase tx s =
        (err aborted, idle (with_manager rocks (rollback rocks tx (manager_of rocks s)) s))

    -- the results have been collected
    unfoldable pub end_phase : Option Bytes → ℕ → Tally → Transaction → EngineState rocks → Ran
    end_phase tag files_scanned tally tx s =
        if was_aborted s.active then abort_phase tx s else commit_phase tag files_scanned tally tx s

    module _ (rs : ReedSolomon) (digest : Bytes → Bytes) (crc32c_append : ℕ → Bytes → ℕ) where
      -- after the loop, if that has ended
      abbrev pub after_files :
          Option Bytes
          → ℕ
          → Transaction
          → Option (List FileOutcome × EngineState rocks)
          → Option Ran
      after_files tag n tx none = none
      after_files tag n tx (some (outcomes, s)) = some (
          end_phase tag n (count_files outcomes no_tally) tx
            (note_cancel rocks (world.cancelled n) s))

      abbrev pub file_phase :
          Option Bytes → List FileEntry → Transaction → EngineState rocks → Option Ran
      file_phase tag files tx s = after_files tag (length files) tx (
          run_files rocks json rs digest crc32c_append world 0 files
            (update_queues rocks 0 1 0 0 0 s))

      -- the scan has found nothing
      abbrev pub nothing_to_do : Transaction → EngineState rocks → Ran
      nothing_to_do tx s =
          committed (commit rocks tx (manager_of rocks s))
            (λ s1. (ok (result_of world 0 no_tally), idle s1)) s

      abbrev pub scanned :
          Result (List FileEntry) → Option Bytes → Transaction → EngineState rocks → Option Ran
      scanned (err e) tag tx s = some (err e, s)
      scanned (ok []) tag tx s = some (nothing_to_do tx s)
      scanned (ok (f ∷ fs)) tag tx s = file_phase tag (f ∷ fs) tx s

      -- `none` is a run that waits for ever
      unfoldable pub run_backup : Option Bytes → Bool → EngineState rocks → Option Ran
      run_backup tag incremental s =
          let s1 = set_state rocks (codes "backing_up") (some world.tx_id) s in
          let (tx, m) = begin rocks world.now world.tx_id (manager_of rocks s1) in
          let s2 = record (with_manager rocks m s1) { active = some tx } in
          let since = if incremental then last_timestamp s2.snapshots else none in
          scanned (world.scan since) tag tx (update_queues rocks 1 0 0 0 0 s2)
