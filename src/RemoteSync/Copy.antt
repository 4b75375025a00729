-- ===== src/RemoteSync/Copy.antt =====
-- A snapshot that goes over the wire of remote_sync.rs against one that is copied from engine to engine.
pub mod Objects
pub mod Sessions
pub mod Lockstep
pub mod Link
pub mod Turns
pub mod PullTurns
use obsidian_backup_server.Prelude.{◌≡◌, refl, List, [], ◌∷◌, Bytes, Result, ok, err, Error}
use obsidian_backup_server.Ipc.{Value}
use obsidian_backup_server.RemoteSync.{SyncEngine}

-- `call?`, and what follows it
abbrev pub and_copy :
    {S : Type 0} → Result (Unit {0}) × S → (S → Result (Unit {0}) × S) → Result (Unit {0}) × S
and_copy (err e, s) next = (err e, s)
and_copy (ok _, s) next = next s

module _ {M : Type 0} (sender receiver : SyncEngine M) where
  abbrev pub copy_read :
      Bytes
      → Result Bytes
      → (receiver.S → Result (Unit {0}) × receiver.S)
      → receiver.S
      → Result (Unit {0}) × receiver.S
  copy_read hash (err e) next b = (err e, b)
  copy_read hash (ok content) next b = and_copy (receiver.store_object hash content b) next

  -- the objects, read by the one engine and stored by the other
  unfoldable pub copy_objects : List Bytes → sender.S → receiver.S → Result (Unit {0}) × receiver.S
  copy_objects [] a b = (ok tt, b)
  copy_objects (hash ∷ hashes) a b =
      copy_read hash (sender.read_object_data hash a) (copy_objects hashes a) b

  abbrev pub copy_listed :
      Bytes
      → Result (List Bytes)
      → (List Bytes → receiver.S → Result (Unit {0}) × receiver.S)
      → (receiver.S → Result (Unit {0}) × receiver.S)
      → receiver.S
      → Result (Unit {0}) × receiver.S
  copy_listed path (err e) objects next b = (err e, b)
  copy_listed path (ok chunks) objects next b =
      and_copy (receiver.store_file_chunks path chunks b) (λ b1. and_copy (objects chunks b1) next)

  -- the chunk list of each file, then its objects
  unfoldable pub copy_files : List Bytes → sender.S → receiver.S → Result (Unit {0}) × receiver.S
  copy_files [] a b = (ok tt, b)
  copy_files (path ∷ files) a b =
      copy_listed path (sender.file_chunks_of path a) (λ chunks. copy_objects chunks a)
        (copy_files files a) b

  -- a snapshot with its manifest
  unfoldable pub copy_snapshot :
      Bytes → M → List Bytes → sender.S → receiver.S → Result (Unit {0}) × receiver.S
  copy_snapshot snapshot_id manifest files a b =
      and_copy (copy_files files a b) (receiver.register_remote_snapshot snapshot_id manifest)
