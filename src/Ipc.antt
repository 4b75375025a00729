-- ===== src/Ipc.antt =====
-- sidecar/src/ipc/server.rs: the values of the protocol, the token, and what the server needs of the
-- engine. A JSON value has its texts as UTF-8 bytes; a floating-point number is given by its bits.
pub mod Handlers
pub mod Connection
pub mod Token
pub mod Access
use Prim.Native.Nat.{bit_or, bit_xor}
use obsidian_backup_server.Prelude.{
  ℕ, ◌≡◌, Bool, true, false, Option, none, some, List, [], ◌∷◌, Bytes, length, ◌==◌, if◌then◌else◌,
  Result, ok, err, Error,
}
use obsidian_backup_server.Prelude.Text.{codes, bytes_eq}
use obsidian_backup_server.Config.{SidecarConfig}

-- `serde_json::Value`
mutual
  pub data Value : Type 0 where
    null : Value
    bool : Bool → Value
    number : ℕ → Value
    float : ℕ → Value
    text : Bytes → Value
    array : Values → Value
    object : Fields → Value

  pub data Values : Type 0 where
    no_values : Values
    value : Value → Values → Values

  pub data Fields : Type 0 where
    no_fields : Fields
    field : Bytes → Value → Fields → Fields

abbrev find_field : Bytes → Fields → Option Value
find_field k no_fields = none
find_field k (field j v fields) = if bytes_eq j k then some v else find_field k fields

-- `v.get(k)`
abbrev pub get : Bytes → Value → Option Value
get k (object fields) = find_field k fields
get k _ = none

abbrev pub as_str : Value → Option Bytes
as_str (text s) = some s
as_str _ = none

abbrev pub as_bool : Value → Option Bool
as_bool (bool b) = some b
as_bool _ = none

abbrev pub as_u64 : Value → Option ℕ
as_u64 (number n) = some n
as_u64 _ = none

-- `v.get(k).and_then(as)`
abbrev pub get_as {ℓ} : {A : Type ℓ} → (Value → Option A) → Bytes → Value → Option A
get_as read k v = elim (get k v) [ none ↦ none | some w ↦ read w ]

-- `o.unwrap_or(d)`
abbrev pub value_or {ℓ} : {A : Type ℓ} → A → Option A → A
value_or d none = d
value_or d (some a) = a

-- `json!` of an `Option<String>`
abbrev pub optional_text : Option Bytes → Value
optional_text none = null
optional_text (some s) = text s

abbrev pub texts : List Bytes → Values
texts [] = no_values
texts (s ∷ ss) = value (text s) (texts ss)

-- The fold of `verify_token` over the bytes of both texts.
unfoldable pub fold_bytes : ℕ → Bytes → Bytes → ℕ
fold_bytes acc [] ys = acc
fold_bytes acc (x ∷ xs) [] = acc
fold_bytes acc (x ∷ xs) (y ∷ ys) = fold_bytes (bit_or acc (bit_xor x y)) xs ys

-- the shared token, with its default
abbrev pub expected_token : SidecarConfig → Bytes
expected_token config = value_or (codes "obsidian-default-token") config.security.shared_token

abbrev is_nil : Bytes → Bool
is_nil [] = true
is_nil (b ∷ bs) = false

unfoldable pub verify_token : Bytes → SidecarConfig → Bool
verify_token token config =
    if is_nil token
    then false
    else if length token == length (expected_token config)
    then fold_bytes 0 token (expected_token config) == 0
    else false

pub record BackupResult : Type 0 where
  pub snapshot_id : Bytes
  pub files_scanned : ℕ
  pub files_changed : ℕ
  pub files_skipped : ℕ
  pub bytes_processed : ℕ
  pub chunks_deduped : ℕ
  pub chunks_new : ℕ
  pub duration_ms : ℕ

pub record RestoreResult : Type 0 where
  pub files_restored : ℕ
  pub bytes_restored : ℕ
  pub files_missing_chunks : List Bytes
  pub sandbox_used : Bool

pub record TopFileEntry : Type 0 where
  pub path : Bytes
  pub size : ℕ
  pub reason : Option Bytes

pub record TopFilesResult : Type 0 where
  pub files : List TopFileEntry
  pub dedup_ratio : ℕ
  pub dict_gain : ℕ

pub record DiffResult : Type 0 where
  pub added : List Bytes
  pub modified : List Bytes
  pub deleted : List Bytes

pub record VerifyResult : Type 0 where
  pub total_checked : ℕ
  pub healthy : ℕ
  pub corrupted : ℕ
  pub repaired : ℕ

pub record ForecastResult : Type 0 where
  pub days_remaining : ℕ
  pub growth_rate_mb_per_day : ℕ
  pub total_capacity_gb : ℕ

pub record SystemState : Type 0 where
  pub running : Bool
  pub current_tx : Option Bytes
  pub state : Bytes
  pub tps : ℕ
  pub cpu_percent : ℕ
  pub memory_mb : ℕ
  pub disk_iops_read : ℕ
  pub disk_iops_write : ℕ
  pub network_upload_mbps : ℕ
  pub scanner_queue : ℕ
  pub chunk_queue : ℕ
  pub compress_queue : ℕ
  pub encrypt_queue : ℕ
  pub upload_queue : ℕ
  pub total_snapshots : ℕ
  pub total_size_bytes : ℕ
  pub dedup_ratio : ℕ
  pub packfile_count : ℕ

-- What the server calls: the engine and the remote synchronisation, each call with the state that it
-- leaves. `display` is the text of an error.
pub record Engine : Type 1 where
  pub S : Type 0
  pub display : Error → Bytes
  pub run_backup : Option Bytes → Bool → S → Result BackupResult × S
  pub get_state : S → SystemState
  pub restore : Bytes → Option Bytes → Option Bytes → S → Result RestoreResult × S
  pub get_top_files : ℕ → S → Result TopFilesResult × S
  pub diff_snapshots : Bytes → Bytes → S → Result DiffResult × S
  pub browse_snapshot : Bytes → Option Bytes → S → Result Values × S
  pub clone_world : Bytes → Bytes → S → Result (Unit {0}) × S
  pub rollback : Bytes → S → Result (Unit {0}) × S
  pub verify : Bool → S → Result VerifyResult × S
  pub pin_snapshot : Bytes → ℕ → S → Result (Unit {0}) × S
  pub prune_snapshots : ℕ → S → Result ℕ × S
  pub cancel : S → Result (Unit {0}) × S
  pub forecast : S → Result ForecastResult × S
  pub export_snapshot : Bytes → S → Result (Unit {0}) × S
  pub import_snapshot : Bytes → S → Result BackupResult × S
  pub push_snapshot : Bytes → S → Result (Unit {0}) × S
  pub pull_snapshot : Bytes → S → Result (Unit {0}) × S
  pub spawn_serve : S → S
