-- ===== src/Backup/Faithful.antt =====
-- A file that is backed up and restored by backup/mod.rs: what its chunks need of the index and of the store.
pub mod Counting
pub mod Storing
pub mod Steps
pub mod Whole
pub mod Single
use obsidian_backup_server.Prelude.{
  ℕ, ◌<◌, ◌≡◌, ◌≢◌, true, false, List, [], ◌∷◌, ◌++◌, Bytes, length, if◌then◌else◌, ok,
}
use obsidian_backup_server.Prelude.Text.{bytes_eq}
use obsidian_backup_server.Erasure.{ReedSolomon}
use obsidian_backup_server.Chunker.{Chunk}
use obsidian_backup_server.Store.{ObjectStore}
use obsidian_backup_server.Store.Objects.{read_object}
use obsidian_backup_server.Store.Invariant.{IsStore}
use obsidian_backup_server.Store.Writing.Object.{HasRoomFor}
use obsidian_backup_server.Index.{RocksDb, Json}
use obsidian_backup_server.Backup.{FileTask, exists_or_false, backup_chunk}

-- `content_of` gives the content that goes with a hash: no two contents in play have the same hash.
module _ (content_of : Bytes → Bytes) where
  -- What is stored under a hash is the content that goes with it.
  abbrev pub Honest : ObjectStore → Type 0
  Honest store = (h content : Bytes) → read_object store h ≡ ok content → content ≡ content_of h

  -- A chunk is not empty, and its content goes with its hash.
  pub record Sane (c : Chunk) : Type 0 where
    pub not_empty : 0 < length c.content
    pub hashed : c.content ≡ content_of c.hash

  -- The database works, the store is valid and honest, and what the index counts can be read.
  pub record Sound (rocks : RocksDb) (t : FileTask rocks) : Type 0 where
    pub healthy : rocks.Healthy t.index
    pub valid : IsStore t.store
    pub honest : Honest t.store
    pub has_content :
        (h : Bytes)
        → exists_or_false rocks t.index h ≡ true
        → read_object t.store h ≡ ok (content_of h)

-- What can be read stays.
abbrev pub StaysReadable : ObjectStore → ObjectStore → Type 0
StaysReadable s s' =
    (h content : Bytes) → read_object s h ≡ ok content → read_object s' h ≡ ok content

-- A database in which one more hash exists.
pub record Marks (rocks : RocksDb) (db db' : rocks.Db) (h : Bytes) : Type 0 where
  pub healthy : rocks.Healthy db'
  pub exists :
      (k : Bytes)
      → exists_or_false rocks db' k ≡ (if bytes_eq h k then true else exists_or_false rocks db k)

module _ (rocks : RocksDb) (json : Json) (rs : ReedSolomon) (digest : Bytes → Bytes)
    (crc32c_append : ℕ → Bytes → ℕ) (rel : Bytes) where
  -- Each write of the task finds room in the words of the store.
  abbrev pub Roomy : List Chunk → FileTask rocks → Type 0
  Roomy [] t = Unit
  Roomy (c ∷ cs) t =
      HasRoomFor (length c.content) t.store
      × Roomy cs (backup_chunk rocks json rs digest crc32c_append rel c t)
