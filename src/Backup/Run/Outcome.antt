-- ===== src/Backup/Run/Outcome.antt =====
-- How a `run_backup` of backup/mod.rs ends.
use obsidian_backup_server.Prelude.{
  ℕ, ◌+◌, ◌<◌, ◌≡◌, ◌∙◌, refl, sym, ap, Bool, true, false, ◌⊎◌, inl, inr, Option, none, some, List,
  [], ◌∷◌, ◌++◌, Bytes, length, Bool-cases, Result, ok, err, Error, aborted, arith,
}
use obsidian_backup_server.Prelude.Text.{codes}
use obsidian_backup_server.Prelude.Words.{u64_mod}
use obsidian_backup_server.Erasure.{ReedSolomon}
use obsidian_backup_server.Index.{RocksDb, Json, insert_snapshot_files}
use obsidian_backup_server.Transaction.{Transaction, TransactionManager, begin, commit, rollback}
use obsidian_backup_server.Ipc.{BackupResult, SystemState}
use obsidian_backup_server.Backup.{was_aborted}
use obsidian_backup_server.Backup.Newest.{SnapshotInfo}
use obsidian_backup_server.Backup.Run.{
  FileEntry, Manifest, Tally, no_tally, count_files, World, EngineState, set_state, update_queues,
  update_storage_stats, note_cancel, manager_of,
}
use obsidian_backup_server.Backup.Run.Phases.{
  Ran, signed, manifest_of, info_of, result_of, committed, indexed, end_phase, finish, after_files,
  file_phase, scanned, run_backup,
}
use obsidian_backup_server.Backup.Run.Loop.{
  count_files-length, note_cancel-Keeps, note_cancel-was_aborted, run_files-Looped,
}

-- No backup runs.
pub record IsIdle (status : SystemState) : Type 0 where
  pub running : status.running ≡ false
  pub current_tx : status.current_tx ≡ none
  pub state : status.state ≡ codes "idle"

still : true ≡ false → ⊥
still e = cc

module _ (rocks : RocksDb) (world : World) (s0 : EngineState rocks) where
  -- A result: the engine is idle, each file counts once, and the snapshot is the last of the cache, if there is a file.
  pub record Completed (ran : Ran rocks world) : Type 0 where
    pub result : BackupResult
    pub returned : ran.0 ≡ ok result
    pub idle : IsIdle ran.1.status
    pub counted : result.files_changed + result.files_skipped ≡ result.files_scanned
    pub cached :
        ((result.files_scanned ≡ 0) × (ran.1.snapshots ≡ s0.snapshots))
        ⊎ ((info : SnapshotInfo) × (info.snapshot_id ≡ result.snapshot_id)
            × (ran.1.snapshots ≡ s0.snapshots ++ info ∷ []))

  -- A cancel: the engine is idle, and there is no new snapshot.
  pub record Cancelled (ran : Ran rocks world) : Type 0 where
    pub returned : ran.0 ≡ err aborted
    pub idle : IsIdle ran.1.status
    pub snapshots : ran.1.snapshots ≡ s0.snapshots
    pub manifests : ran.1.manifests ≡ s0.manifests
    pub released : ran.1.transients ≡ []

  -- Another error: there is no new snapshot in the cache, and the engine still says that a backup runs.
  pub record Failed (ran : Ran rocks world) : Type 0 where
    pub error : Error
    pub returned : ran.0 ≡ err error
    pub busy : ran.1.status.running ≡ true
    pub snapshots : ran.1.snapshots ≡ s0.snapshots

  abbrev pub Ended : Ran rocks world → Type 0
  Ended ran = Completed ran ⊎ (Cancelled ran ⊎ Failed ran)

  -- The run returns, in one of these ways.
  abbrev pub EndsIn : Option (Ran rocks world) → Type 0
  EndsIn r = (ran : Ran rocks world) × (r ≡ some ran) × Ended ran

  -- A run in progress: the status says so, and the snapshots are those of the start.
  record Busy (s : EngineState rocks) : Type 0 where
    running : s.status.running ≡ true
    snapshots : s.snapshots ≡ s0.snapshots
    manifests : s.manifests ≡ s0.manifests

  committed-Ended :
      (tag : Option Bytes) (n : ℕ) (tally : Tally) (r : Result (TransactionManager rocks))
      (s : EngineState rocks)
      → s.status.running ≡ true
      → s.snapshots ≡ s0.snapshots
      → tally.files_changed + tally.files_skipped ≡ n
      → Ended (committed rocks world r (finish rocks world tag n tally) s)
  unfolding set_state update_storage_stats
  committed-Ended tag n tally (err e) s run same count =
      inr (inr (record { error = e; returned = refl; busy = run; snapshots = same }))
  committed-Ended tag n tally (ok m) s run same count = inl (record {
    result = result_of world n tally;
    returned = refl;
    idle = record { running = refl; current_tx = refl; state = refl };
    counted = count;
    cached =
        inr (info_of world tag n tally, refl, ap (λ l. l ++ info_of world tag n tally ∷ []) same);
  })

  indexed-Ended :
      (tag : Option Bytes) (n : ℕ) (tally : Tally) (tx : Transaction) (r : Result rocks.Db)
      (s : EngineState rocks)
      → s.status.running ≡ true
      → s.snapshots ≡ s0.snapshots
      → tally.files_changed + tally.files_skipped ≡ n
      → Ended (indexed rocks world r tag n tally tx s)
  indexed-Ended tag n tally tx (err e) s run same count =
      inr (inr (record { error = e; returned = refl; busy = run; snapshots = same }))
  indexed-Ended tag n tally tx (ok db) s run same count =
      committed-Ended tag n tally
        (commit rocks tx (record (manager_of rocks s) { block_index = db }))
        (record s { index = db }) run same count

  signed-same :
      (o : Option (Manifest → Bytes)) (manifest : Manifest) (s : EngineState rocks)
      → ((signed rocks world o manifest s).status ≡ s.status)
        × ((signed rocks world o manifest s).snapshots ≡ s.snapshots)
  signed-same none manifest s = (refl, refl)
  signed-same (some sign) manifest s = (refl, refl)

  module _ (json : Json) where
    end_phase-Ended :
        (tag : Option Bytes) (n : ℕ) (tally : Tally) (tx : Transaction) (s : EngineState rocks)
        → Busy s
        → (was_aborted s.active ≡ false → tally.files_changed + tally.files_skipped ≡ n)
        → Ended (end_phase rocks world json tag n tally tx s)
    unfolding end_phase set_state update_queues rollback
    end_phase-Ended tag n tally tx s b count = elim (Bool-cases (was_aborted s.active)) [
      | inl t ↦ rw t (
          inr (
            inl (record {
              returned = refl;
              idle = record { running = refl; current_tx = refl; state = refl };
              snapshots = b.snapshots;
              manifests = b.manifests;
              released = refl;
            })))
      | inr f ↦
          let (status, snapshots) = signed-same world.sign (manifest_of world tag n tally) _ in
          rw f (
            indexed-Ended tag n tally tx (insert_snapshot_files rocks json _ _ tally.paths) _
              (ap (λ (x : SystemState). x.running) status ∙ b.running) (snapshots ∙ b.snapshots)
              (count f))
    ]

    module _ (rs : ReedSolomon) (digest : Bytes → Bytes) (crc32c_append : ℕ → Bytes → ℕ) where
      file_phase-Ended :
          (tag : Option Bytes) (files : List FileEntry) (tx : Transaction) (s : EngineState rocks)
          → Busy s
          → length files < u64_mod
          → 0 < world.concurrency
          → EndsIn (file_phase rocks world json rs digest crc32c_append tag files tx s)
      unfolding update_queues
      file_phase-Ended tag files tx s b small pos =
          let started = update_queues rocks 0 1 0 0 0 s in
          let (out, run, l) =
            run_files-Looped rocks json rs digest crc32c_append world 0 files started pos in
          let k = note_cancel-Keeps rocks (world.cancelled (length files)) out.1 in
          (
            end_phase rocks world json tag (length files) (count_files out.0 no_tally) tx
                (note_cancel rocks (world.cancelled (length files)) out.1),
            ap (after_files rocks world json rs digest crc32c_append tag (length files) tx) run,
            end_phase-Ended tag (length files) (count_files out.0 no_tally) tx
                (note_cancel rocks (world.cancelled (length files)) out.1)
                (record {
                  running =
                      ap (λ (x : SystemState). x.running) (k.status ∙ l.kept.status) ∙ b.running;
                  snapshots = k.snapshots ∙ l.kept.snapshots ∙ b.snapshots;
                  manifests = k.manifests ∙ l.kept.manifests ∙ b.manifests;
                })
                (λ go. elim l.ended [
                  | inl a ↦ absurd (
                      still (
                        sym (note_cancel-was_aborted rocks (world.cancelled (length files)) out.1 a)
                        ∙ go))
                  | inr same ↦
                      omega (
                        arith,
                        count_files-length out.0 no_tally (omega (arith, same, small)),
                        same,
                      )
                ]),
          )

      nothing-Ended :
          (r : Result (TransactionManager rocks)) (s : EngineState rocks)
          → Busy s
          → Ended (
              committed rocks world r
                (λ s1. (ok (result_of world 0 no_tally), set_state rocks (codes "idle") none s1))
                s)
      unfolding set_state
      nothing-Ended (err e) s b =
          inr
            (inr (record { error = e; returned = refl; busy = b.running; snapshots = b.snapshots }))
      nothing-Ended (ok m) s b = inl (record {
        result = result_of world 0 no_tally;
        returned = refl;
        idle = record { running = refl; current_tx = refl; state = refl };
        counted = refl;
        cached = inl (refl, b.snapshots);
      })

      scanned-Ended :
          (r : Result (List FileEntry)) (tag : Option Bytes) (tx : Transaction)
          (s : EngineState rocks)
          → Busy s
          → ((files : List FileEntry) → r ≡ ok files → length files < u64_mod)
          → 0 < world.concurrency
          → EndsIn (scanned rocks world json rs digest crc32c_append r tag tx s)
      scanned-Ended (err e) tag tx s b small pos = (
        (err e, s),
        refl,
        inr (
            inr (record { error = e; returned = refl; busy = b.running; snapshots = b.snapshots })),
      )
      scanned-Ended (ok []) tag tx s b small pos =
          (_, refl, nothing-Ended (commit rocks tx (manager_of rocks s)) s b)
      scanned-Ended (ok (f ∷ fs)) tag tx s b small pos =
          file_phase-Ended tag (f ∷ fs) tx s b (small (f ∷ fs) refl) pos

      -- With a permit for at least one task, a backup returns, whatever the scan, the streams, the database and the
      -- cancels do, in one of three ways. With a result, the engine is idle, every scanned file counts once, as
      -- changed or as skipped, and the cache has one more snapshot, the one that the result names, or the scan has
      -- found no file. Cancelled, the engine is idle with the snapshots and manifests of before, and its list of
      -- tracked objects is empty. With any other error the cache has the snapshots of before, and the status still
      -- says that a backup runs. A scan finds less than 2^64 files; a stream delivers its chunks or fails.
      pub run_backup-Ended :
          (tag : Option Bytes) (incremental : Bool)
          → 0 < world.concurrency
          → ((since : Option Bytes) (files : List FileEntry)
              → world.scan since ≡ ok files
              → length files < u64_mod)
          → EndsIn (run_backup rocks world json rs digest crc32c_append tag incremental s0)
      unfolding run_backup set_state update_queues begin
      run_backup-Ended tag incremental pos small =
          scanned-Ended (world.scan _) tag _ _
            (record { running = refl; snapshots = refl; manifests = refl }) (small _) pos
