-- ===== src/Tests/Server.antt =====
-- The theorems on the server of the daemon and on its client at concrete values.
use obsidian_backup_server.Prelude.{
  ℕ, zero, suc, ◌≡◌, ◌≢◌, ◌↔◌, ◌⊎◌, refl, true, false, Option, none, some, [], ◌∷◌, ◌++◌, Bytes,
  length, if◌then◌else◌, Result, ok, err, Error,
}
use obsidian_backup_server.Prelude.Text.{codes, bytes_eq}
use obsidian_backup_server.Config.{default_config}
use obsidian_backup_server.Ipc.{
  Value, get_as, as_str, optional_text, expected_token, fold_bytes, verify_token, Engine,
  BackupResult, SystemState,
}
use obsidian_backup_server.Ipc.Value.{null, text, object}
use obsidian_backup_server.Ipc.Values.{no_values}
use obsidian_backup_server.Ipc.Fields.{no_fields, field}
use obsidian_backup_server.Ipc.Token.{verify_token_iff}
use obsidian_backup_server.Ipc.Connection.{
  Lines, is_blank, rest_of, auth_ok, authenticates, refused, handle_connection,
}
use obsidian_backup_server.Ipc.Access.{
  HasToken, requests, answers, answered, handle_connection-HasToken, handle_connection-answers,
}
use obsidian_backup_server.Client.{Commands, request_of, shown_error}
use obsidian_backup_server.Client.Requests.{meaning}
use obsidian_backup_server.Client.Answered.{handle_connection-meaning}
use obsidian_backup_server.Client.Refusal.{Reads, handle_connection-request_of}

abbrev a_backup : BackupResult
a_backup = record {
  snapshot_id = codes "snap_1";
  files_scanned = 1;
  files_changed = 1;
  files_skipped = 0;
  bytes_processed = 3;
  chunks_deduped = 0;
  chunks_new = 1;
  duration_ms = 0;
}

abbrev a_state : SystemState
a_state = record {
  running = false;
  current_tx = none;
  state = codes "idle";
  tps = 20;
  cpu_percent = 0;
  memory_mb = 0;
  disk_iops_read = 0;
  disk_iops_write = 0;
  network_upload_mbps = 0;
  scanner_queue = 0;
  chunk_queue = 0;
  compress_queue = 0;
  encrypt_queue = 0;
  upload_queue = 0;
  total_snapshots = 0;
  total_size_bytes = 0;
  dedup_ratio = 0;
  packfile_count = 0;
}

-- an engine that counts the calls that change it
abbrev counting : Engine
counting = record {
  S = ℕ;
  display = λ e. codes "failed";
  run_backup = λ tag incremental s. (ok a_backup, suc s);
  get_state = λ s. a_state;
  restore = λ id file chunk s. (err Error.snapshot_not_found, s);
  get_top_files = λ limit s. (ok (record { files = []; dedup_ratio = 0; dict_gain = 0 }), s);
  diff_snapshots = λ a b s. (ok (record { added = []; modified = []; deleted = [] }), s);
  browse_snapshot = λ id path s. (ok no_values, s);
  clone_world = λ id name s. (ok tt, suc s);
  rollback = λ duration s. (ok tt, suc s);
  verify =
      λ repair s. (ok (record { total_checked = 0; healthy = 0; corrupted = 0; repaired = 0 }), s);
  pin_snapshot = λ id days s. (ok tt, suc s);
  prune_snapshots = λ keep s. (ok 0, suc s);
  cancel = λ s. (err Error.no_transaction, s);
  forecast = λ s.
      (ok (record { days_remaining = 0; growth_rate_mb_per_day = 0; total_capacity_gb = 0 }), s);
  export_snapshot = λ path s. (ok tt, s);
  import_snapshot = λ path s. (ok a_backup, suc s);
  push_snapshot = λ id s. (ok tt, s);
  pull_snapshot = λ id s. (ok tt, suc s);
  spawn_serve = λ s. s;
}

-- A line is an operation; what follows a 0 is a token.
abbrev token_after : Bytes → Option Bytes
token_after [] = none
token_after (zero ∷ token) = some token
token_after (suc b ∷ rest) = token_after rest

abbrev before_token : Bytes → Bytes
before_token [] = []
before_token (zero ∷ token) = []
before_token (suc b ∷ rest) = suc b ∷ before_token rest

abbrev a_from_str : Bytes → Result Value
a_from_str line = ok (
    object (
      field (codes "op") (text (before_token line)) (
        field (codes "params")
          (object (field (codes "token") (optional_text (token_after line)) no_fields)) no_fields)))

abbrev auth_line : Bytes
auth_line = codes "auth" ++ (0 ∷ codes "obsidian-default-token")

abbrev a_connection : Lines
a_connection = ok auth_line ∷ ok (codes " ") ∷ ok (codes "backup") ∷ ok (codes "cancel") ∷ []

verify_token_iff_example : (verify_token (codes "obsidian-default-token") default_config ≡ true) ↔ (
    (codes "obsidian-default-token" ≢ [])
    × (codes "obsidian-default-token" ≡ expected_token default_config))
verify_token_iff_example = verify_token_iff (codes "obsidian-default-token") default_config

handle_connection-HasToken_example :
    HasToken a_from_str default_config a_connection
    ⊎ (handle_connection a_from_str default_config counting a_connection 0
        ≡ refused a_from_str default_config counting 0)
handle_connection-HasToken_example =
    handle_connection-HasToken a_from_str default_config counting a_connection 0

a_connection-authenticates : authenticates a_from_str default_config a_connection ≡ true
unfolding authenticates is_blank verify_token fold_bytes
a_connection-authenticates = refl

handle_connection-answers_example :
    (handle_connection a_from_str default_config counting a_connection 0
      ≡ answered a_from_str default_config counting
          (auth_ok ∷ [])
          (answers a_from_str default_config counting (requests (rest_of a_connection)) 0))
    × (length (handle_connection a_from_str default_config counting a_connection 0).sent
        ≡ suc (length (requests (rest_of a_connection))))
handle_connection-answers_example =
    handle_connection-answers a_from_str default_config counting a_connection 0
      a_connection-authenticates

abbrev a_command : Commands
a_command = Commands.restore (codes "snap_1") (some (codes "level.dat")) none

-- one line is the request of the command, and all others are read as before
abbrev command_from_str : Bytes → Result Value
command_from_str line =
    if bytes_eq line (codes "{restore}")
    then ok (request_of (codes "tx") a_command)
    else a_from_str line

command_connection-authenticates :
    authenticates command_from_str default_config (ok auth_line ∷ ok (codes "{restore}") ∷ [])
    ≡ true
unfolding authenticates is_blank verify_token fold_bytes
command_connection-authenticates = refl

command_line-not_blank : is_blank (codes "{restore}") ≡ false
unfolding is_blank
command_line-not_blank = refl

handle_connection-meaning_example :
    (reply : Value) × ((handle_connection command_from_str default_config counting
        (ok auth_line ∷ ok (codes "{restore}") ∷ [])
        0).sent
      ≡ auth_ok ∷ reply ∷ [])
    × ((
      shown_error reply,
      (handle_connection command_from_str default_config counting
          (ok auth_line ∷ ok (codes "{restore}") ∷ [])
          0).state,
    )
        ≡ meaning counting a_command 0)
handle_connection-meaning_example =
    handle_connection-meaning command_from_str default_config counting auth_line (codes "{restore}")
      (codes "tx") a_command 0 command_connection-authenticates command_line-not_blank refl

-- A value is written as its operation.
abbrev show_op : Option Bytes → Bytes
show_op none = []
show_op (some op) = 1 ∷ op

abbrev value_of_op : Option Bytes → Value
value_of_op none = null
value_of_op (some op) = object (field (codes "op") (text op) no_fields)

abbrev read_op : Bytes → Result Value
read_op [] = ok (value_of_op none)
read_op (b ∷ op) = ok (value_of_op (some op))

read_op-show_op : (o : Option Bytes) → read_op (show_op o) ≡ ok (value_of_op o)
read_op-show_op none = refl
read_op-show_op (some op) = refl

op-value_of_op : (o : Option Bytes) → get_as as_str (codes "op") (value_of_op o) ≡ o
op-value_of_op none = refl
op-value_of_op (some op) = refl

abbrev write_op : Value → Bytes
write_op v = show_op (get_as as_str (codes "op") v)

abbrev reads_op : Reads write_op read_op
reads_op = record {
  parsed = λ v. value_of_op (get_as as_str (codes "op") v);
  parses = λ v. read_op-show_op (get_as as_str (codes "op") v);
  same_op = λ v. op-value_of_op (get_as as_str (codes "op") v);
}

handle_connection-request_of_example :
    handle_connection read_op default_config counting
      (ok (write_op (request_of (codes "tx") a_command)) ∷ [])
      0
    ≡ refused read_op default_config counting 0
handle_connection-request_of_example =
    handle_connection-request_of write_op read_op default_config reads_op counting (codes "tx")
      a_command [] 0
