-- ===== src/Tests/Files.antt =====
-- The theorem on whole files of a backup at concrete values.
use obsidian_backup_server.Prelude.{
  ◌>>=◌, ℕ, ◌-◌, ◌*◌, ◌%◌, ◌≡◌, ◌⊎◌, refl, false, Option, none, some, List, [], ◌∷◌, ◌++◌, Bytes,
  Result, ok, err, no_snapshot_before, arith,
}
use obsidian_backup_server.Prelude.Text.{codes}
use obsidian_backup_server.Config.{default_storage}
use obsidian_backup_server.Store.{ObjectStore}
use obsidian_backup_server.Store.Objects.{
  read_object, contains_object, individuals, write_object, write_individual_object,
  maybe_seal_packfiles, sum_sizes,
}
use obsidian_backup_server.Chunker.{Chunk, with_sizes}
use obsidian_backup_server.Chunker.Pieces.{IsChunking}
use obsidian_backup_server.Index.{chunk_exists}
use obsidian_backup_server.Backup.{
  FileTask, backup_chunk, index_chunk, exists_or_false, backup_file,
}
use obsidian_backup_server.Backup.Duration.{
  parse_duration, TimeUnit, letter, unit_seconds, parse_duration-show, rollback_by, IsLastBefore,
  AllNotBefore, done, rollback_by-IsLastBefore,
}
use obsidian_backup_server.Backup.Newest.{SnapshotInfo}
use obsidian_backup_server.Backup.Paths.{validate_safe_path, join}
use obsidian_backup_server.Backup.Paths.Inside.{IsInside, validate_safe_path-IsInside}
use obsidian_backup_server.Glob.{split_segments}
use obsidian_backup_server.Prelude.Decimal.{is_digit, show, parse_u64, parse_digits}
use obsidian_backup_server.Prelude.Words.{u64_mod}
use obsidian_backup_server.Backup.Faithful.{Sound, Roomy, StaysReadable}
use obsidian_backup_server.Backup.Faithful.Single.{restore_single-backup_file}
use obsidian_backup_server.Backup.Single.{SnapshotFiles, check_snapshot, restore_single}
use obsidian_backup_server.Tests.Keys.{one_signature}
use obsidian_backup_server.Tests.Database.{rocks, json, empty_table}
use obsidian_backup_server.Tests.Code.{code_of_numbers}

abbrev pub same_bytes : Bytes → Bytes
same_bytes x = x

abbrev pub sum_crc : ℕ → Bytes → ℕ
sum_crc crc bytes = crc

abbrev pub loose_store : ObjectStore
loose_store = record {
  config = record default_storage { erasure_coding = record { enabled = false } };
  object_index = [];
  next_pack_id = 0;
  total_bytes = 0;
  total_raw_bytes = 0;
  files = [];
}

abbrev new_task : FileTask rocks
new_task = record {
  index = empty_table;
  store = loose_store;
  transients = [];
  file_chunk_hashes = [];
  file_chunks_deduped = 0;
  file_chunks_new = 0;
}

new_task-Sound : Sound same_bytes rocks new_task
unfolding exists_or_false chunk_exists read_object
new_task-Sound = record {
  healthy = tt;
  valid = record { distinct = tt; located = λ h loc e. absurd cc };
  honest = λ h x e. absurd cc;
  has_content = λ h e. absurd cc;
}

-- the same two bytes, twice
abbrev pub twice : List Chunk
twice =
    record { hash = 5 ∷ 6 ∷ []; offset = 0; size = 2; content = 5 ∷ 6 ∷ [] }
    ∷ record { hash = 5 ∷ 6 ∷ []; offset = 2; size = 2; content = 5 ∷ 6 ∷ [] }
    ∷ []

twice-IsChunking : IsChunking same_bytes (with_sizes 1 2 4) 0 (5 ∷ 6 ∷ 5 ∷ 6 ∷ []) twice
twice-IsChunking = record {
  joined = refl;
  laid = (refl, refl, refl, (refl, refl, refl, tt));
  sized = ((omega arith, omega arith), ((omega arith, omega arith), tt));
}

twice-Roomy : Roomy rocks json code_of_numbers same_bytes sum_crc (codes "level.dat") twice new_task
unfolding backup_chunk index_chunk exists_or_false chunk_exists write_object contains_object
    individuals write_individual_object maybe_seal_packfiles sum_sizes
twice-Roomy = ((omega arith, omega arith), ((omega arith, omega arith), tt))

abbrev no_links : Bytes → Result Bytes
no_links path = ok path

-- an unsigned snapshot whose manifest is a text that is parsed
abbrev unsigned : SnapshotFiles
unsigned = record {
  manifest_text = λ id. some (codes "{}");
  signature_text = λ id. none;
  signer = none;
  key_files = [];
  key_path = codes "sign.key";
}

abbrev any_text : Bytes → Result (Unit {0})
any_text text = ok tt

abbrev after_backup : FileTask rocks
after_backup =
    backup_file rocks json code_of_numbers same_bytes sum_crc (codes "level.dat") twice 4 0 new_task

restore_single-backup_file_example :
    (restore_single one_signature is_digit any_text no_links rocks json unsigned
        (codes "/srv/a")
        after_backup.index
        after_backup.store
        (codes "1")
        (codes "level.dat")
      ≡ (check_snapshot one_signature is_digit any_text unsigned (codes "1") >>= λ _.
          validate_safe_path no_links (codes "/srv/a") (codes "level.dat") >>= λ dest.
          ok (dest, 5 ∷ 6 ∷ 5 ∷ 6 ∷ [])))
    × StaysReadable loose_store after_backup.store
    × Sound same_bytes rocks after_backup
restore_single-backup_file_example =
    restore_single-backup_file one_signature is_digit any_text no_links same_bytes rocks json
      code_of_numbers same_bytes same_bytes sum_crc (codes "level.dat") (with_sizes 1 2 4)
      (5 ∷ 6 ∷ 5 ∷ 6 ∷ []) twice 4 0 new_task unsigned (codes "/srv/a") (codes "1") twice-IsChunking
      refl new_task-Sound (λ from n. refl) twice-Roomy

-- The checks accept the snapshot and the path.
level_file-accepted :
    (check_snapshot one_signature is_digit any_text unsigned (codes "1") >>= λ _.
    validate_safe_path no_links (codes "/srv/a") (codes "level.dat"))
    ≡ ok (codes "/srv/a/level.dat")
unfolding check_snapshot validate_safe_path split_segments join
level_file-accepted = refl

parse_duration-show_example :
    parse_duration ((32 ∷ []) ++ (show 90 ++ letter TimeUnit.minutes ∷ 32 ∷ []))
    ≡ ok ((90 * unit_seconds TimeUnit.minutes) % u64_mod)
parse_duration-show_example =
    parse_duration-show (32 ∷ []) (32 ∷ []) 90 TimeUnit.minutes (refl, tt) (refl, tt) (omega arith)

-- a timestamp is one number, and now is 1000
abbrev read_stamp : Bytes → Option ℕ
read_stamp [] = none
read_stamp (b ∷ s) = some b

abbrev before_1000 : ℕ → Result ℕ
before_1000 n = ok (1000 - n)

abbrev stamped : Bytes → ℕ → SnapshotInfo
stamped id ts = record {
  snapshot_id = id;
  timestamp = ts ∷ [];
  tag = none;
  files_scanned = 0;
  bytes_processed = 0;
  chunks_total = 0;
  chunks_deduped = 0;
}

abbrev log_restore : Bytes → List Bytes → Result (Unit {0}) × List Bytes
log_restore id s = (ok tt, id ∷ s)

abbrev some_snapshots : List SnapshotInfo
some_snapshots = stamped (codes "a") 100 ∷ stamped (codes "b") 800 ∷ stamped (codes "c") 990 ∷ []

five_minutes : parse_duration (codes "5m") ≡ ok 300
unfolding parse_duration parse_u64 parse_digits
five_minutes = refl

rollback_by-IsLastBefore_example :
    ((snap : SnapshotInfo) × IsLastBefore read_stamp before_1000 log_restore 700 some_snapshots snap
      × (rollback_by read_stamp before_1000 log_restore (codes "5m") some_snapshots []
          ≡ done (log_restore snap.snapshot_id [])))
    ⊎ (AllNotBefore read_stamp before_1000 log_restore 700 some_snapshots
        × (rollback_by read_stamp before_1000 log_restore (codes "5m") some_snapshots []
            ≡ (err no_snapshot_before, [])))
rollback_by-IsLastBefore_example =
    rollback_by-IsLastBefore read_stamp before_1000 log_restore (codes "5m") some_snapshots [] 300
      700 five_minutes refl

world_file-accepted :
    validate_safe_path no_links (codes "/srv/a") (codes "world/level.dat")
    ≡ ok (codes "/srv/a/world/level.dat")
unfolding validate_safe_path split_segments join
world_file-accepted = refl

validate_safe_path-IsInside_example :
    IsInside no_links (codes "/srv/a") (codes "/srv/a/world/level.dat")
validate_safe_path-IsInside_example =
    validate_safe_path-IsInside no_links (codes "/srv/a") (codes "world/level.dat")
      (codes "/srv/a/world/level.dat") world_file-accepted
