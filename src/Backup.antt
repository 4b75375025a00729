-- ===== src/Backup.antt =====
-- sidecar/src/backup/mod.rs: the engine. What a backup does with each chunk, what a restore reads, and
-- the release of references. A backup holds the locks of the index, of the store and of the
-- transaction for a whole file, so that the chunks of a file are taken one after another.
pub mod Refs
pub mod Restore
pub mod Single
pub mod Newest
pub mod Prune
pub mod Faithful
pub mod Duration
pub mod Paths
pub mod Run
use obsidian_backup_server.Prelude.{
  ℕ, ◌+◌, ◌≡◌, Bool, true, false, Option, none, some, List, [], ◌∷◌, ◌++◌, Bytes, length,
  if◌then◌else◌, Result, ok, err, ◌>>=◌, missing_chunks, no_transaction,
}
use obsidian_backup_server.Prelude.Text.{codes}
use obsidian_backup_server.Erasure.{ReedSolomon}
use obsidian_backup_server.Store.{ObjectStore, Act}
use obsidian_backup_server.Store.Objects.{read_object, write_object}
use obsidian_backup_server.Chunker.{Chunk}
use obsidian_backup_server.Index.{
  RocksDb, Json, chunk_exists, increment_ref, decrement_ref, insert_chunk, insert_file_chunks,
  get_file_chunks, get_snapshot_files, delete_snapshot_files,
}
use obsidian_backup_server.Transaction.{Transaction, TransactionState, TransientObject}

-- `.obsidian/store/objects/{hash}`
abbrev object_path_of : Bytes → Bytes
object_path_of h = codes ".obsidian/store/objects/" ++ h

-- `r.unwrap_or(d)`
abbrev pub unwrap_or : Bool → Result Bool → Bool
unwrap_or d (ok b) = b
unwrap_or d (err e) = d

-- `if let Err(e) = r { warn }`: the database as it was
abbrev pub or_as_it_was {ℓ} : {A : Type ℓ} → A → Result A → A
or_as_it_was db (ok db') = db'
or_as_it_was db (err e) = db

module _ (rocks : RocksDb) where
  -- What the task of one file works on.
  pub record FileTask : Type 0 where
    pub index : rocks.Db
    pub store : ObjectStore
    pub transients : List TransientObject
    pub file_chunk_hashes : List Bytes
    pub file_chunks_deduped : ℕ
    pub file_chunks_new : ℕ

  unfoldable pub exists_or_false : rocks.Db → Bytes → Bool
  exists_or_false db h = unwrap_or false (chunk_exists rocks db h)

  module _ (json : Json) (rs : ReedSolomon) (digest : Bytes → Bytes)
      (crc32c_append : ℕ → Bytes → ℕ) where
    -- a chunk that the index has
    unfoldable pub dedup_chunk : Chunk → FileTask → FileTask
    dedup_chunk c t = record t {
      index = or_as_it_was t.index (increment_ref rocks t.index c.hash);
      file_chunk_hashes = t.file_chunk_hashes ++ c.hash ∷ [];
      file_chunks_deduped = t.file_chunks_deduped + 1;
    }

    -- a new chunk, once the store has written it, or has failed to
    unfoldable pub index_chunk : Bytes → Chunk → Act (Unit {0}) → FileTask → FileTask
    index_chunk rel c (err e, store) t = record t {
      store = store;
      file_chunk_hashes = t.file_chunk_hashes ++ c.hash ∷ [];
      file_chunks_new = t.file_chunks_new + 1;
    }
    index_chunk rel c (ok _, store) t = record t {
      index = or_as_it_was t.index (insert_chunk rocks json t.index c.hash rel c.offset c.size);
      store = store;
      transients =
          t.transients ++ record { chunk_hash = c.hash; object_path = object_path_of c.hash } ∷ [];
      file_chunk_hashes = t.file_chunk_hashes ++ c.hash ∷ [];
      file_chunks_new = t.file_chunks_new + 1;
    }

    -- the closure that `run_backup` gives to `chunk_reader`
    unfoldable pub backup_chunk : Bytes → Chunk → FileTask → FileTask
    backup_chunk rel c t =
        if exists_or_false t.index c.hash
        then dedup_chunk c t
        else index_chunk rel c
            (write_object crc32c_append rs digest c.hash c.content c.size t.store) t

    unfoldable pub backup_chunks : Bytes → List Chunk → FileTask → FileTask
    backup_chunks rel [] t = t
    backup_chunks rel (c ∷ cs) t = backup_chunks rel cs (backup_chunk rel c t)

    -- the task of one file, for the chunks of its stream
    unfoldable pub backup_file : Bytes → List Chunk → ℕ → ℕ → FileTask → FileTask
    backup_file rel chunks size modified t =
        let t' = backup_chunks rel chunks t in
        record t' {
          index =
              or_as_it_was t'.index
                (insert_file_chunks rocks json t'.index rel t'.file_chunk_hashes size modified);
        }

    -- what `store_object` does after the write
    abbrev count_object :
        Bytes
        → Bytes
        → Bool
        → rocks.Db
        → Act (Unit {0})
        → Result (Unit {0}) × rocks.Db × ObjectStore
    count_object h content exists db (err e, store) = (err e, db, store)
    count_object h content exists db (ok _, store) =
        elim (if exists
          then increment_ref rocks db h
          else insert_chunk rocks json db h (codes "<remote>") 0 (length content)) [
            | err e ↦ (err e, db, store)
            | ok db' ↦ (ok tt, db', store)
          ]

    -- `store_object`
    unfoldable pub store_object :
        Bytes → Bytes → rocks.Db → ObjectStore → Result (Unit {0}) × rocks.Db × ObjectStore
    store_object h content db store = elim (chunk_exists rocks db h) [
      | err e ↦ (err e, db, store)
      | ok exists ↦
          count_object h content exists db
            (write_object crc32c_append rs digest h content (length content) store)
    ]

  -- the loop of `restore` over the chunks of a file: the data, and whether a chunk is missing
  unfoldable pub read_chunks : ObjectStore → List Bytes → Bytes × Bool
  read_chunks store [] = ([], false)
  read_chunks store (h ∷ hs) =
      let (rest, missing) = read_chunks store hs in
      elim (read_object store h) [ err e ↦ (rest, true) | ok content ↦ (content ++ rest, missing) ]

  module _ (json : Json) where
    -- what `restore` writes for a single file
    unfoldable pub restore_file : rocks.Db → ObjectStore → Bytes → Result Bytes
    restore_file db store path = get_file_chunks rocks json db path >>= λ hashes.
        let (content, missing) = read_chunks store hashes in
        if missing then err missing_chunks else ok content

    -- `let _ = index.decrement_ref(..)` for each chunk
    unfoldable pub release_chunks : List Bytes → rocks.Db → rocks.Db
    release_chunks [] db = db
    release_chunks (h ∷ hs) db = elim (decrement_ref rocks db h) [
      | err e ↦ release_chunks hs db
      | ok r ↦ release_chunks hs r.1
    ]

    unfoldable pub release_files : List Bytes → rocks.Db → Result rocks.Db
    release_files [] db = ok db
    release_files (f ∷ fs) db =
        get_file_chunks rocks json db f >>= λ hashes. release_files fs (release_chunks hashes db)

    -- The part of `delete_snapshot` that works on the index. Where it fails, what it has released before is not
    -- followed.
    unfoldable pub delete_snapshot : rocks.Db → Bytes → Result rocks.Db
    delete_snapshot db id = get_snapshot_files rocks json db id >>= λ files.
        release_files files db >>= λ db'. delete_snapshot_files rocks db' id

-- `cancel`, on the active transaction
unfoldable pub cancel : Option Transaction → Result (Option Transaction)
cancel none = err no_transaction
cancel (some tx) = ok (some (record tx { state = TransactionState.aborted }))

-- whether the engine takes a backup to be aborted
unfoldable pub was_aborted : Option Transaction → Bool
was_aborted none = false
was_aborted (some tx) = elim tx.state [ TransactionState.aborted ↦ true | _ ↦ false ]
