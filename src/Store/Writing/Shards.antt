-- ===== src/Store/Writing/Shards.antt =====
-- `write_sharded_object` of object_store.rs: the files that it writes.
use obsidian_backup_server.Prelude.{
  ℕ, ◌+◌, ◌<◌, ◌≡◌, ◌≢◌, ◌∙◌, refl, List, [], ◌∷◌, Bytes, length, flatten, ok, arith,
}
use obsidian_backup_server.Prelude.Assoc.{lookup, insert, lookup-insert, same_refl}
use obsidian_backup_server.Prelude.Text.{bytes_eq_iff, bytes_key}
use obsidian_backup_server.Store.{object, shard, pack, path_key, Files}
use obsidian_backup_server.Store.Objects.{read_shards, write_shards}

-- What `write_shards` does to the files.
module _ (h : Bytes) where
  pub write_shards-object :
      (i : ℕ) (shards : List Bytes) (files : Files) (j : Bytes)
      → lookup (object j) (write_shards h i shards files) ≡ lookup (object j) files
  unfolding write_shards
  write_shards-object i [] files j = refl
  write_shards-object i (s ∷ shards) files j =
      write_shards-object (i + 1) shards _ j ∙ lookup-insert (shard h i) (object j) s files

  pub write_shards-pack :
      (i : ℕ) (shards : List Bytes) (files : Files) (id : ℕ)
      → lookup (pack id) (write_shards h i shards files) ≡ lookup (pack id) files
  unfolding write_shards
  write_shards-pack i [] files id = refl
  write_shards-pack i (s ∷ shards) files id =
      write_shards-pack (i + 1) shards _ id ∙ lookup-insert (shard h i) (pack id) s files

  pub write_shards-other :
      (i : ℕ) (shards : List Bytes) (files : Files) (j : Bytes) (k : ℕ)
      → h ≢ j
      → lookup (shard j k) (write_shards h i shards files) ≡ lookup (shard j k) files
  unfolding write_shards
  write_shards-other i [] files j k ne = refl
  write_shards-other i (s ∷ shards) files j k ne =
      write_shards-other (i + 1) shards _ j k ne
      ∙ ground (arith, lookup-insert (shard h i) (shard j k) s files, bytes_eq_iff h j)

  write_shards-below :
      (i : ℕ) (shards : List Bytes) (files : Files) (k : ℕ)
      → k < i
      → lookup (shard h k) (write_shards h i shards files) ≡ lookup (shard h k) files
  unfolding write_shards
  write_shards-below i [] files k low = refl
  write_shards-below i (s ∷ shards) files k low =
      write_shards-below (i + 1) shards _ k (omega arith)
      ∙ ground (arith, lookup-insert (shard h i) (shard h k) s files)

  -- The shards that are written are the shards that are read.
  pub read_shards-write_shards :
      (i : ℕ) (shards : List Bytes) (files : Files)
      → read_shards (write_shards h i shards files) h i (length shards) ≡ ok (flatten shards)
  unfolding read_shards write_shards
  read_shards-write_shards i [] files = refl
  read_shards-write_shards i (s ∷ shards) files =
      let found =
        write_shards-below (i + 1) shards (insert (shard h i) s files) i (omega arith)
        ∙ lookup-insert (shard h i) (shard h i) s files in
      ground (
        arith,
        found,
        same_refl h,
        read_shards-write_shards (i + 1) shards (insert (shard h i) s files),
      )
