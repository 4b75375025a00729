-- ===== src/Backup/Run/Loop.antt =====
-- The loop over the files in `run_backup` of backup/mod.rs.
use obsidian_backup_server.Prelude.{
  ℕ, suc, ◌+◌, ◌<◌, ◌≡◌, ◌∙◌, refl, ap, Bool, true, false, ◌⊎◌, inl, inr, Option, none, some, List,
  [], ◌∷◌, Bytes, length, ◌==◌, if_true, if_false, Bool-cases, Result, ok, err, Error, arith,
}
use obsidian_backup_server.Prelude.Words.{add64, u64_mod}
use obsidian_backup_server.Erasure.{ReedSolomon}
use obsidian_backup_server.Chunker.{Chunk}
use obsidian_backup_server.Index.{RocksDb, Json}
use obsidian_backup_server.Transaction.{Transaction}
use obsidian_backup_server.Backup.{was_aborted}
use obsidian_backup_server.Backup.Run.{
  FileEntry, FileOutcome, Tally, count_file, count_files, World, EngineState, note_cancel, abort,
  opened, run_file, put_outcome, run_files,
}

-- Every result is counted once, as changed or as skipped.
pub count_files-length :
    (os : List FileOutcome) (t : Tally)
    → t.files_changed + t.files_skipped + length os < u64_mod
    → (count_files os t).files_changed + (count_files os t).files_skipped
      ≡ t.files_changed + t.files_skipped + length os
count_files-length [] t h = omega arith
count_files-length (FileOutcome.taken path bytes dedup new ∷ os) t h =
    let e : add64 t.files_changed 1 ≡ t.files_changed + 1 = omega (arith, h) in
    omega (
      arith,
      h,
      e,
      count_files-length os (count_file (FileOutcome.taken path bytes dedup new) t)
          (omega (arith, h, e)),
    )
count_files-length (FileOutcome.skipped path ∷ os) t h =
    let e : add64 t.files_skipped 1 ≡ t.files_skipped + 1 = omega (arith, h) in
    omega (
      arith,
      h,
      e,
      count_files-length os (count_file (FileOutcome.skipped path) t) (omega (arith, h, e)),
    )

module _ (rocks : RocksDb) where
  -- What the tasks leave as it is.
  pub record Keeps (s s' : EngineState rocks) : Type 0 where
    pub status : s'.status ≡ s.status
    pub snapshots : s'.snapshots ≡ s.snapshots
    pub manifests : s'.manifests ≡ s.manifests

  pub note_cancel-Keeps : (b : Bool) (s : EngineState rocks) → Keeps s (note_cancel rocks b s)
  note_cancel-Keeps false s = record { status = refl; snapshots = refl; manifests = refl }
  note_cancel-Keeps true s = record { status = refl; snapshots = refl; manifests = refl }

  abort-was_aborted :
      (a : Option Transaction) → was_aborted a ≡ true → was_aborted (abort rocks a) ≡ true
  unfolding was_aborted
  abort-was_aborted none h = h
  abort-was_aborted (some tx) h = refl

  -- A backup that has been cancelled stays so.
  pub note_cancel-was_aborted :
      (b : Bool) (s : EngineState rocks)
      → was_aborted s.active ≡ true
      → was_aborted (note_cancel rocks b s).active ≡ true
  note_cancel-was_aborted false s h = h
  note_cancel-was_aborted true s h = abort-was_aborted s.active h

  module _ (json : Json) (rs : ReedSolomon) (digest : Bytes → Bytes) (crc32c_append : ℕ → Bytes → ℕ)
      (world : World) where
    opened-Keeps :
        (entry : FileEntry) (r : Result (List Chunk × Option Error)) (s : EngineState rocks)
        → Keeps s (opened rocks json rs digest crc32c_append world entry r s).1
          × ((opened rocks json rs digest crc32c_append world entry r s).1.active ≡ s.active)
    opened-Keeps entry (err e) s =
        (record { status = refl; snapshots = refl; manifests = refl }, refl)
    opened-Keeps entry (ok (chunks, none)) s =
        (record { status = refl; snapshots = refl; manifests = refl }, refl)
    opened-Keeps entry (ok (chunks, some e)) s =
        (record { status = refl; snapshots = refl; manifests = refl }, refl)

    -- The loop has been left because of a cancel, or has taken every file.
    pub record Looped (entries : List FileEntry) (s : EngineState rocks)
        (out : List FileOutcome × EngineState rocks) : Type 0 where
      pub kept : Keeps s out.1
      pub ended : (was_aborted out.1.active ≡ true) ⊎ (length out.0 ≡ length entries)

    put_outcome-Looped :
        (outcome : FileOutcome) (entry : FileEntry) (entries : List FileEntry)
        (s s2 : EngineState rocks) (r : Option (List FileOutcome × EngineState rocks))
        → Keeps s s2
        → ((out : List FileOutcome × EngineState rocks) × (r ≡ some out) × Looped entries s2 out)
        → (out : List FileOutcome × EngineState rocks) × (put_outcome rocks json rs digest
              crc32c_append world outcome r
            ≡ some out)
          × Looped (entry ∷ entries) s out
    put_outcome-Looped outcome entry entries s s2 r k ((outcomes, s3), e, l) = (
      (outcome ∷ outcomes, s3),
      ap (put_outcome rocks json rs digest crc32c_append world outcome) e,
      record {
        kept = record {
          status = l.kept.status ∙ k.status;
          snapshots = l.kept.snapshots ∙ k.snapshots;
          manifests = l.kept.manifests ∙ k.manifests;
        };
        ended = elim l.ended [ inl a ↦ inl a | inr same ↦ inr (ap suc same) ];
      },
    )

    -- With a permit the loop ends.
    pub run_files-Looped :
        (n : ℕ) (entries : List FileEntry) (s : EngineState rocks)
        → 0 < world.concurrency
        → (out : List FileOutcome × EngineState rocks) × (run_files rocks json rs digest
              crc32c_append world n entries s
            ≡ some out)
          × Looped entries s out
    unfolding run_files run_file
    run_files-Looped n [] s pos = (
      ([], s),
      refl,
      record {
        kept = record { status = refl; snapshots = refl; manifests = refl };
        ended = inr refl;
      },
    )
    run_files-Looped n (entry ∷ entries) s pos =
        let s1 = note_cancel rocks (world.cancelled n) s in
        let k1 = note_cancel-Keeps (world.cancelled n) s in
        elim (Bool-cases (was_aborted s1.active)) [
          | inl t ↦ (([], s1), if_true _ _ t, record { kept = k1; ended = inl t })
          | inr f ↦
              let outcome = (run_file rocks json rs digest crc32c_append world entry s1).0 in
              let s2 = (run_file rocks json rs digest crc32c_append world entry s1).1 in
              let (k2, _) = opened-Keeps entry (world.stream entry) s1 in
              let permit : (world.concurrency == 0) ≡ false = ground (arith, pos) in
              let (out, e, l) =
                put_outcome-Looped outcome entry entries s s2 _
                  (record {
                    status = k2.status ∙ k1.status;
                    snapshots = k2.snapshots ∙ k1.snapshots;
                    manifests = k2.manifests ∙ k1.manifests;
                  })
                  (run_files-Looped (suc n) entries s2 pos) in
              (out, if_false _ _ f ∙ if_false _ _ permit ∙ e, l)
        ]
