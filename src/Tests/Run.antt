-- ===== src/Tests/Run.antt =====
-- The theorem on a whole run of a backup at concrete values.
use obsidian_backup_server.Prelude.{
  ◌<◌, ◌≡◌, ap, true, false, Option, none, List, [], ◌∷◌, Bytes, length, ok, arith,
}
use obsidian_backup_server.Prelude.Text.{codes}
use obsidian_backup_server.Prelude.Words.{u64_mod}
use obsidian_backup_server.Ipc.{SystemState}
use obsidian_backup_server.Backup.Run.{FileEntry, World, EngineState}
use obsidian_backup_server.Backup.Run.Phases.{run_backup}
use obsidian_backup_server.Backup.Run.Outcome.{EndsIn, run_backup-Ended}
use obsidian_backup_server.Tests.Database.{rocks, json, empty_table}
use obsidian_backup_server.Tests.Code.{code_of_numbers}
use obsidian_backup_server.Tests.Files.{same_bytes, sum_crc, loose_store, twice}

abbrev a_file : FileEntry
a_file = record { path = codes "world/level.dat"; size = 4; modified = 0 }

abbrev a_world : World
a_world = record {
  concurrency = 4;
  tx_id = codes "0a1b2c3d";
  now = codes "now";
  timestamp = codes "later";
  duration_ms = 1;
  scan = λ since. ok (a_file ∷ []);
  relative = λ path. path;
  stream = λ entry. ok (twice, none);
  cancelled = λ n. false;
  sign = none;
  dedup_ratio = λ store. 0;
}

abbrev idle_status : SystemState
idle_status = record {
  running = false;
  current_tx = none;
  state = codes "idle";
  tps = 20;
  cpu_percent = 0;
  memory_mb = 0;
  disk_iops_read = 0;
  disk_iops_write = 0;
  network_upload_mbps = 0;
  scanner_queue = 0;
  chunk_queue = 0;
  compress_queue = 0;
  encrypt_queue = 0;
  upload_queue = 0;
  total_snapshots = 0;
  total_size_bytes = 0;
  dedup_ratio = 0;
  packfile_count = 0;
}

abbrev new_engine : EngineState rocks
new_engine = record {
  index = empty_table;
  store = loose_store;
  transients = [];
  active = none;
  status = idle_status;
  snapshots = [];
  manifests = [];
  signatures = [];
}

files_inj : {a b : List FileEntry} → ok a ≡ ok b → a ≡ b
files_inj {a} {b} h = cc

one_file :
    (since : Option Bytes) (files : List FileEntry)
    → a_world.scan since ≡ ok files
    → length files < u64_mod
one_file since files h = omega (arith, ap length (files_inj h))

run_backup-Ended_example :
    EndsIn rocks a_world new_engine
      (run_backup rocks a_world json code_of_numbers same_bytes sum_crc none true new_engine)
run_backup-Ended_example =
    run_backup-Ended rocks a_world new_engine json code_of_numbers same_bytes sum_crc none true
      (omega arith) one_file

abbrev no_permits : World
no_permits = record a_world { concurrency = 0 }
