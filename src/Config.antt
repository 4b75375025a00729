-- ===== src/Config.antt =====
-- sidecar/src/config.rs: the configuration of the daemon and its default values. YAML parsing
-- (serde_yaml) is a parameter of `load`. The two `f64` thresholds are kept in tenths.
use obsidian_backup_server.Prelude.{
  ℕ, Bool, true, false, Option, none, some, List, [], ◌∷◌, Bytes, Result, ok,
}
use obsidian_backup_server.Prelude.Text.{codes}

pub record RemoteSyncConfig : Type 0 where
  pub enabled : Bool
  pub listen_addr : Option Bytes
  pub peer_addr : Option Bytes
  pub token : Bytes
  pub dial_timeout_secs : ℕ

pub record BackupWindow : Type 0 where
  pub window : Bytes
  pub bandwidth_limit : Bytes
  pub cpu_worker_limit : ℕ
  pub io_iops_max : ℕ

pub record SchedulerConfig : Type 0 where
  pub restore_prioritized : Bool
  pub suspend_gc_on_restore : Bool
  pub backup_windows : List BackupWindow

pub record SnapshotSigningConfig : Type 0 where
  pub enabled : Bool
  pub private_key_secure_path : Option Bytes

pub record ImmutableLocksConfig : Type 0 where
  pub weekly_retention_locked : Bool

pub record SecurityConfig : Type 0 where
  pub dual_admin_confirmation : Bool
  pub shared_token : Option Bytes
  pub snapshot_signing : SnapshotSigningConfig
  pub immutable_locks : ImmutableLocksConfig

pub record SandboxConfig : Type 0 where
  pub temp_dir : Bytes
  pub atomic_swap : Bool
  pub verify_before_swap : Bool
  pub resume_checkpoint : Bool

pub record AdaptiveThresholds : Type 0 where
  pub tps_critical : ℕ
  pub tps_danger : ℕ
  pub host_memory_cap_mb : ℕ

pub record AdaptiveSchedulerConfig : Type 0 where
  pub enabled : Bool
  pub metrics_polling_interval_ms : ℕ
  pub thresholds : AdaptiveThresholds

pub record ErasureCodingConfig : Type 0 where
  pub enabled : Bool

pub record PackfileConfig : Type 0 where
  pub adaptive_sizing : Bool
  pub max_packfile_size_mb : ℕ
  pub enable_crc32c_footer : Bool

pub record RocksDbReliability : Type 0 where
  pub checkpoint_interval_minutes : ℕ
  pub auto_rebuild_from_pack : Bool

pub record StorageConfig : Type 0 where
  pub packfile : PackfileConfig
  pub rocksdb_reliability : RocksDbReliability
  pub erasure_coding : ErasureCodingConfig
  pub concurrency : ℕ

pub record ExclusionRules : Type 0 where
  pub hardcoded_ignores : List Bytes

pub record SidecarConfig : Type 0 where
  pub profile : Bytes
  pub scheduler : SchedulerConfig
  pub security : SecurityConfig
  pub sandbox_restore : SandboxConfig
  pub adaptive_scheduler : AdaptiveSchedulerConfig
  pub storage : StorageConfig
  pub exclusion_rules : ExclusionRules
  pub remote_sync : RemoteSyncConfig

abbrev pub default_exclusions : List Bytes
default_exclusions =
    codes "**/session.lock"
    ∷ codes "**/logs/**"
    ∷ codes "**/cache/**"
    ∷ codes "**/libraries/**"
    ∷ []

abbrev pub default_remote_sync : RemoteSyncConfig
default_remote_sync = record {
  enabled = false;
  listen_addr = none;
  peer_addr = none;
  token = codes "change-me";
  dial_timeout_secs = 30;
}

abbrev pub default_scheduler : SchedulerConfig
default_scheduler = record {
  restore_prioritized = true;
  suspend_gc_on_restore = true;
  backup_windows =
      record {
        window = codes "02:00-06:00";
        bandwidth_limit = codes "unlimited";
        cpu_worker_limit = 8;
        io_iops_max = 5000;
      }
      ∷ record {
        window = codes "06:01-01:59";
        bandwidth_limit = codes "20MB/s";
        cpu_worker_limit = 2;
        io_iops_max = 800;
      }
      ∷ [];
}

abbrev pub default_security : SecurityConfig
default_security = record {
  dual_admin_confirmation = true;
  shared_token = none;
  snapshot_signing = record { enabled = true; private_key_secure_path = none };
  immutable_locks = record { weekly_retention_locked = true };
}

abbrev pub default_sandbox : SandboxConfig
default_sandbox = record {
  temp_dir = codes "./.obsidian/sandbox";
  atomic_swap = true;
  verify_before_swap = true;
  resume_checkpoint = true;
}

abbrev pub default_adaptive_scheduler : AdaptiveSchedulerConfig
default_adaptive_scheduler = record {
  enabled = true;
  metrics_polling_interval_ms = 1000;
  thresholds = record { tps_critical = 155; tps_danger = 165; host_memory_cap_mb = 2048 };
}

abbrev pub default_storage : StorageConfig
default_storage = record {
  packfile = record {
    adaptive_sizing = true;
    max_packfile_size_mb = 512;
    enable_crc32c_footer = true;
  };
  rocksdb_reliability = record { checkpoint_interval_minutes = 60; auto_rebuild_from_pack = true };
  erasure_coding = record { enabled = true };
  concurrency = 4;
}

abbrev pub default_config : SidecarConfig
default_config = record {
  profile = codes "production";
  scheduler = default_scheduler;
  security = default_security;
  sandbox_restore = default_sandbox;
  adaptive_scheduler = default_adaptive_scheduler;
  storage = default_storage;
  exclusion_rules = record { hardcoded_ignores = default_exclusions };
  remote_sync = default_remote_sync;
}

-- `SidecarConfig::load`: the file's contents, or `none` where it does not exist.
unfoldable pub load : (Bytes → Result SidecarConfig) → Option Bytes → Result SidecarConfig
load from_yaml none = ok default_config
load from_yaml (some contents) = from_yaml contents
