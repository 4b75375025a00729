-- ===== src/Backup/Restore.antt =====
-- `restore` of backup/mod.rs, for a single file.
use obsidian_backup_server.Prelude.{
  ◌≡◌, refl, true, false, ◌⊎◌, inl, inr, List, [], ◌∷◌, Bytes, flatten, ok, err, >>=-ok,
  missing_chunks, Error, arith,
}
use obsidian_backup_server.Store.{ObjectStore}
use obsidian_backup_server.Store.Objects.{read_object}
use obsidian_backup_server.Index.{RocksDb, Json, get_file_chunks}
use obsidian_backup_server.Backup.{read_chunks, restore_file}

-- The contents of the objects of a list, if all of them can be read.
abbrev pub Reads : ObjectStore → List Bytes → List Bytes → Type 0
Reads store [] [] = Unit
Reads store (h ∷ hs) (c ∷ cs) = (read_object store h ≡ ok c) × Reads store hs cs
Reads store _ _ = ⊥

-- A hash of the list cannot be read.
abbrev pub Lacks : ObjectStore → List Bytes → Type 0
Lacks store [] = ⊥
Lacks store (h ∷ hs) = ((e : Error) × (read_object store h ≡ err e)) ⊎ Lacks store hs

module _ (rocks : RocksDb) where
  read_chunks-Reads :
      (store : ObjectStore) (hs cs : List Bytes)
      → Reads store hs cs
      → read_chunks rocks store hs ≡ (flatten cs, false)
  unfolding read_chunks
  read_chunks-Reads store [] [] r = refl
  read_chunks-Reads store (h ∷ hs) (c ∷ cs) (e, r) =
      ground (arith, e, read_chunks-Reads store hs cs r)
  read_chunks-Reads store [] (c ∷ cs) r = absurd r
  read_chunks-Reads store (h ∷ hs) [] r = absurd r

  read_chunks-Lacks :
      (store : ObjectStore) (hs : List Bytes)
      → Lacks store hs
      → (read_chunks rocks store hs).1 ≡ true
  unfolding read_chunks
  read_chunks-Lacks store [] l = absurd l
  read_chunks-Lacks store (h ∷ hs) (inl (e, failed)) = ground (arith, failed)
  read_chunks-Lacks store (h ∷ hs) (inr l) = ground (arith, read_chunks-Lacks store hs l)

  -- A single file is restored whole or not at all: if the objects of its chunk list can all be read,
  -- the restore yields their contents, joined in the order of the list, and if one of them cannot, it
  -- fails.
  pub restore_file-Reads :
      (json : Json) (db : rocks.Db) (store : ObjectStore) (path : Bytes) (hashes : List Bytes)
      → get_file_chunks rocks json db path ≡ ok hashes
      → ((contents : List Bytes)
          → Reads store hashes contents
          → restore_file rocks json db store path ≡ ok (flatten contents))
        × (Lacks store hashes → restore_file rocks json db store path ≡ err missing_chunks)
  unfolding restore_file
  restore_file-Reads json db store path hashes listed = (
    λ contents r. >>=-ok _ _ listed (rw (read_chunks-Reads store hashes contents r) refl),
    λ l. >>=-ok _ _ listed (rw (read_chunks-Lacks store hashes l) refl),
  )
