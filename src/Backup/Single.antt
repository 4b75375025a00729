-- ===== src/Backup/Single.antt =====
-- `restore` of backup/mod.rs for a single file, from the snapshot's id to the bytes that are written: the check of the
-- manifest and of its signature, the check of the path, and the loop over the chunks. The directories can be made and
-- the files that are there can be read.
use obsidian_backup_server.Prelude.{
  ℕ, Bool, ◌||◌, Option, none, some, Bytes, length, ◌==◌, if◌then◌else◌, Result, ok, err,
  invalid_snapshot_id, snapshot_not_found, bad_signature, no_verifying_key, ◌>>=◌,
}
use obsidian_backup_server.Prelude.Text.{all, bytes_key}
use obsidian_backup_server.Signing.{
  Ed25519, SnapshotSigner, KeyFiles, key_size, public_key_path, verifying_key_bytes,
  verify_signature,
}
use obsidian_backup_server.Prelude.Assoc.{lookup}
use obsidian_backup_server.Store.{ObjectStore}
use obsidian_backup_server.Index.{RocksDb, Json}
use obsidian_backup_server.Backup.{restore_file}
use obsidian_backup_server.Backup.Paths.{validate_safe_path}

-- What `restore` finds below the server's root: the texts of the manifests and of the signatures by the id of their
-- snapshot, the signer of the engine, and the key files with the path of the private key.
pub record SnapshotFiles : Type 0 where
  pub manifest_text : Bytes → Option Bytes
  pub signature_text : Bytes → Option Bytes
  pub signer : Option SnapshotSigner
  pub key_files : KeyFiles
  pub key_path : Bytes

-- `is_alphanumeric` of Unicode; `parse_json`, whose value is dropped
module _ (ed : Ed25519) (is_alphanumeric : ℕ → Bool) (parse_json : Bytes → Result (Unit {0})) where
  -- a key file of another size than the key's is taken for none
  abbrev sized_key : Option Bytes → Option Bytes
  sized_key none = none
  sized_key (some bytes) = if length bytes == key_size then some bytes else none

  abbrev public_key_bytes : SnapshotFiles → Option Bytes
  public_key_bytes files = elim files.signer [
    | some signer ↦ some (verifying_key_bytes ed signer)
    | none ↦ sized_key (lookup (public_key_path files.key_path) files.key_files)
  ]

  abbrev check_key : Bytes → Bytes → Option Bytes → Result (Unit {0})
  check_key text signature none = err no_verifying_key
  check_key text signature (some key) =
      if verify_signature ed text signature key then ok tt else err bad_signature

  abbrev verify_manifest_signature : SnapshotFiles → Bytes → Bytes → Result (Unit {0})
  verify_manifest_signature files snapshot_id text = elim (files.signature_text snapshot_id) [
    | none ↦ ok tt
    | some signature ↦ check_key text signature (public_key_bytes files)
  ]

  abbrev check_text : SnapshotFiles → Bytes → Option Bytes → Result (Unit {0})
  check_text files snapshot_id none = err snapshot_not_found
  check_text files snapshot_id (some text) =
      verify_manifest_signature files snapshot_id text >>= λ _. parse_json text

  abbrev is_id_char : ℕ → Bool
  is_id_char c = is_alphanumeric c || (c == b'_' || c == b'-')

  -- what `restore` checks before it reads the index
  unfoldable pub check_snapshot : SnapshotFiles → Bytes → Result (Unit {0})
  check_snapshot files snapshot_id =
      if all is_id_char snapshot_id
      then check_text files snapshot_id (files.manifest_text snapshot_id)
      else err invalid_snapshot_id

  module _ (canonicalize : Bytes → Result Bytes) (rocks : RocksDb) (json : Json) where
    -- `restore` with a file: where it is written, and the data
    unfoldable pub restore_single :
        SnapshotFiles → Bytes → rocks.Db → ObjectStore → Bytes → Bytes → Result (Bytes × Bytes)
    restore_single files sandbox db store snapshot_id path =
        check_snapshot files snapshot_id >>= λ _.
        validate_safe_path canonicalize sandbox path >>= λ dest.
        restore_file rocks json db store path >>= λ content. ok (dest, content)
