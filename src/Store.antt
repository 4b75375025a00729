-- ===== src/Store.antt =====
-- sidecar/src/storage/object_store.rs: the content-addressed object store. Objects are loose files,
-- groups of shards, or parts of a sealed packfile. Hashes and pack ids hold no path separator, so
-- that each file of the store has a path of its own: `StorePath`.
pub mod Packfile
pub mod Objects
pub mod Invariant
pub mod Sealing
pub mod Views
pub mod Writing
pub mod Repair
use obsidian_backup_server.Prelude.{
  ℕ, ◌*◌, ◌+◌, ◌≡◌, ◌↔◌, Bool, true, false, ◌&&◌, List, Option, Bytes, ◌==◌, ==_iff, Result, ok,
  err, arith,
}
use obsidian_backup_server.Prelude.Assoc.{Key}
use obsidian_backup_server.Prelude.Text.{bytes_eq, bytes_eq_iff}
use obsidian_backup_server.Config.{StorageConfig}
use obsidian_backup_server.Erasure.{total_shards}

-- `objects/{hash}`, `objects/{hash}/d{i}`, `packfiles/parity/{hash}`, `packfiles/h_{id:05}.pack` and
-- `packfiles/h_{id:05}.idx`
pub data StorePath : Type 0 where
  object : Bytes → StorePath
  shard : Bytes → ℕ → StorePath
  parity : Bytes → StorePath
  pack : ℕ → StorePath
  idx : ℕ → StorePath

abbrev pub path_eq : StorePath → StorePath → Bool
path_eq (object a) (object b) = bytes_eq a b
path_eq (shard a i) (shard b j) = bytes_eq a b && i == j
path_eq (parity a) (parity b) = bytes_eq a b
path_eq (pack a) (pack b) = a == b
path_eq (idx a) (idx b) = a == b
path_eq _ _ = false

pub path_eq_iff : (a b : StorePath) → (path_eq a b ≡ true) ↔ (a ≡ b)
path_eq_iff (object a) (object b) = ground (arith, bytes_eq_iff a b)
path_eq_iff (shard a i) (shard b j) = ground (arith, bytes_eq_iff a b)
path_eq_iff (parity a) (parity b) = ground (arith, bytes_eq_iff a b)
path_eq_iff (pack a) (pack b) = ground arith
path_eq_iff (idx a) (idx b) = ground arith
path_eq_iff _ _ = ground arith

instance abbrev pub path_key : Key StorePath
path_key = record { same = path_eq; same_iff = path_eq_iff }

-- the files below the store's root
abbrev pub Files : Type 0
Files = List (StorePath × Bytes)

pub data ObjectLocation : Type 0 where
  individual : StorePath → ObjectLocation
  packfile : ℕ → ℕ → ℕ → ObjectLocation
  sharded : Bytes → ℕ → ObjectLocation

pub data ObjectKind : Type 0 where
  individual packfile sharded : ObjectKind

pub data RepairOutcome : Type 0 where
  healthy repaired corrupted unrecoverable : RepairOutcome

pub record PackfileEntry : Type 0 where
  pub hash : Bytes
  pub offset : ℕ
  pub size : ℕ

-- The writer of a packfile; `written` is what has been given to its `BufWriter`.
pub record PackfileWriter : Type 0 where
  pub pack_id : ℕ
  pub written : Bytes
  pub bytes_written : ℕ
  pub max_size : ℕ
  pub index : List PackfileEntry
  pub crc : ℕ

-- The store with the files that it works on.
pub record ObjectStore : Type 0 where
  pub config : StorageConfig
  pub object_index : List (Bytes × ObjectLocation)
  pub next_pack_id : ℕ
  pub total_bytes : ℕ
  pub total_raw_bytes : ℕ
  pub files : Files

-- `PARITY_HEADER_LEN`
abbrev pub parity_header_len : ℕ
parity_header_len = 16 + total_shards * 32

-- A method returns its result and the store, which keeps what was written before an error.
abbrev pub Act : Type 0 → Type 0
Act A = Result A × ObjectStore
