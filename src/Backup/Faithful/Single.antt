-- ===== src/Backup/Faithful/Single.antt =====
-- A file that is backed up and restored by backup/mod.rs, with the checks that the restore makes.
use obsidian_backup_server.Prelude.{ℕ, Bool, ◌≡◌, ap, List, [], Bytes, Result, ok, ◌>>=◌}
use obsidian_backup_server.Erasure.{ReedSolomon}
use obsidian_backup_server.Signing.{Ed25519}
use obsidian_backup_server.Chunker.{Chunk, ChunkEngine}
use obsidian_backup_server.Chunker.Pieces.{IsChunking}
use obsidian_backup_server.Index.{RocksDb, Json}
use obsidian_backup_server.Backup.{FileTask, backup_file}
use obsidian_backup_server.Backup.Paths.{validate_safe_path}
use obsidian_backup_server.Backup.Single.{SnapshotFiles, check_snapshot, restore_single}
use obsidian_backup_server.Backup.Faithful.{Sound, StaysReadable, Roomy}
use obsidian_backup_server.Backup.Faithful.Whole.{Distinctive, restore_file-backup_file}

module _ (ed : Ed25519) (is_alphanumeric : ℕ → Bool) (parse_json : Bytes → Result (Unit {0}))
    (canonicalize : Bytes → Result Bytes) (content_of : Bytes → Bytes) (rocks : RocksDb)
    (json : Json) (rs : ReedSolomon) (hash digest : Bytes → Bytes) (crc32c_append : ℕ → Bytes → ℕ)
    (rel : Bytes) where
  -- A file whose chunks partition it is backed up on a sound index and store, whatever chunks these have already. A
  -- restore of the file then fails where the check of the snapshot (its id, manifest and signature) or the check of
  -- the path fails, with that error, and otherwise has the bytes of the file to write to the path that is accepted. What
  -- could be read of the store before still can, and index and store are sound again. No other content in play has
  -- the hash of a part of the file, and each write finds room in the words of the store.
  pub restore_single-backup_file :
      (engine : ChunkEngine) (input : Bytes) (chunks : List Chunk) (size modified : ℕ)
      (t : FileTask rocks) (files : SnapshotFiles) (sandbox snapshot_id : Bytes)
      → IsChunking hash engine 0 input chunks
      → t.file_chunk_hashes ≡ []
      → Sound content_of rocks t
      → Distinctive content_of hash input
      → Roomy rocks json rs digest crc32c_append rel chunks t
      → let t' = backup_file rocks json rs digest crc32c_append rel chunks size modified t in
        (restore_single ed is_alphanumeric parse_json canonicalize rocks json files sandbox t'.index
            t'.store snapshot_id rel
          ≡ (check_snapshot ed is_alphanumeric parse_json files snapshot_id >>= λ _.
              validate_safe_path canonicalize sandbox rel >>= λ dest. ok (dest, input)))
        × StaysReadable t.store t'.store
        × Sound content_of rocks t'
  unfolding restore_single
  restore_single-backup_file engine input chunks size modified t files sandbox snapshot_id chunking
        new sound distinctive room =
      let (restored, stays, sound') =
        restore_file-backup_file content_of rocks json rs digest crc32c_append rel hash engine input
          chunks size modified t chunking new sound distinctive room in
      (
        ap
            (λ (r : Result Bytes).
              check_snapshot ed is_alphanumeric parse_json files snapshot_id >>= λ _.
              validate_safe_path canonicalize sandbox rel >>= λ dest.
              r >>= λ content. ok (dest, content))
            restored,
        stays,
        sound',
      )
