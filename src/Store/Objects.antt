-- ===== src/Store/Objects.antt =====
-- `ObjectStore` of object_store.rs: writing, reading and sealing. `blake3::hash(..).as_bytes()` is
-- the parameter `digest`; `HashMap` iteration is in the order of the association list.
use obsidian_backup_server.Prelude.{
  ℕ, zero, suc, ◌+◌, ◌-◌, ◌*◌, ◌%◌, Bool, true, false, Option, none, some, List, [], ◌∷◌, ◌++◌,
  Bytes, length, take, drop, flatten, map, ltb, leb, if◌then◌else◌, Result, ok, err, ◌>>=◌, io,
  object_not_found, missing_shard, cannot_read_loose,
}
use obsidian_backup_server.Prelude.Assoc.{lookup, insert, remove}
use obsidian_backup_server.Prelude.Text.{bytes_key}
use obsidian_backup_server.Prelude.Words.{add64, add32, u64_mod, to_le_bytes}
use obsidian_backup_server.Erasure.{ReedSolomon, EncodedObject, data_shards, encode}
use obsidian_backup_server.Store.{
  StorePath, object, shard, parity, pack, path_key, Files, ObjectLocation, ObjectKind,
  PackfileEntry, PackfileWriter, ObjectStore, parity_header_len, Act,
}
use obsidian_backup_server.Store.Packfile

unfoldable pub contains_object : ObjectStore → Bytes → Bool
contains_object s h = elim (lookup h s.object_index) [ none ↦ false | some loc ↦ true ]

abbrev kind_of : ObjectLocation → ObjectKind
kind_of (ObjectLocation.individual _) = ObjectKind.individual
kind_of (ObjectLocation.packfile _ _ _) = ObjectKind.packfile
kind_of (ObjectLocation.sharded _ _) = ObjectKind.sharded

unfoldable pub object_kind : ObjectStore → Bytes → Option ObjectKind
object_kind s h = elim (lookup h s.object_index) [ none ↦ none | some loc ↦ some (kind_of loc) ]

-- `fs::read`
abbrev pub fs_read : StorePath → Files → Result Bytes
fs_read path files = elim (lookup path files) [ none ↦ err io | some content ↦ ok content ]

-- the shards `d{i}` to `d7`, joined
unfoldable pub read_shards : Files → Bytes → ℕ → ℕ → Result Bytes
read_shards files dir i zero = ok []
read_shards files dir i (suc n) = elim (lookup (shard dir i) files) [
  | none ↦ err missing_shard
  | some content ↦ read_shards files dir (i + 1) n >>= λ rest. ok (content ++ rest)
]

-- `seek` and `read_exact`
unfoldable pub read_range : Bytes → ℕ → ℕ → Result Bytes
read_range content offset size =
    if leb size (length content - offset) then ok (take size (drop offset content)) else err io

unfoldable pub read_location : Files → ObjectLocation → Result Bytes
read_location files (ObjectLocation.individual path) = fs_read path files
read_location files (ObjectLocation.sharded dir size) =
    read_shards files dir 0 data_shards >>= λ joined. ok (take size joined)
read_location files (ObjectLocation.packfile id offset size) =
    fs_read (pack id) files >>= λ content. read_range content offset size

unfoldable pub read_object : ObjectStore → Bytes → Result Bytes
read_object s h = elim (lookup h s.object_index) [
  | none ↦ err object_not_found
  | some loc ↦ read_location s.files loc
]

-- `write_individual_object`
unfoldable pub write_individual_object : Bytes → Bytes → ObjectStore → ObjectStore
write_individual_object h content s = record s {
  files = insert (object h) content s.files;
  total_bytes = add64 s.total_bytes (length content);
  object_index = insert h (ObjectLocation.individual (object h)) s.object_index;
}

-- `fs::write(dir.join(format!("d{}", i)), shard)` for each data shard
unfoldable pub write_shards : Bytes → ℕ → List Bytes → Files → Files
write_shards h i [] files = files
write_shards h i (s ∷ shards) files = write_shards h (i + 1) shards (insert (shard h i) s files)

abbrev pub sum_lengths : List Bytes → ℕ
sum_lengths [] = 0
sum_lengths (s ∷ shards) = length s + sum_lengths shards

module _ (digest : Bytes → Bytes) where
  -- the header, with the sizes and the 10 shard hashes, and the 2 parity shards
  unfoldable pub parity_body : EncodedObject → Bytes
  parity_body enc =
      to_le_bytes 8 enc.original_size
      ++ (to_le_bytes 8 enc.shard_size
          ++ (flatten (map digest (enc.data_shards ++ enc.parity_shards))
              ++ flatten enc.parity_shards))

  unfoldable pub store_encoded : Bytes → EncodedObject → ObjectStore → ObjectStore
  store_encoded h enc s = record s {
    files = insert (parity h) (parity_body enc) (write_shards h 0 enc.data_shards s.files);
    total_bytes =
        add64 s.total_bytes
          (sum_lengths enc.data_shards + sum_lengths enc.parity_shards + parity_header_len);
    object_index = insert h (ObjectLocation.sharded h enc.original_size) s.object_index;
  }

  -- `write_sharded_object`
  unfoldable pub write_sharded_object : ReedSolomon → Bytes → Bytes → ObjectStore → Act (Unit {0})
  write_sharded_object rs h content s = elim (encode rs content) [
    | err e ↦ (err e, s)
    | ok enc ↦ (ok tt, store_encoded h enc s)
  ]

-- a loose object: its hash, its path and its size
abbrev pub Loose : Type 0
Loose = Bytes × StorePath × ℕ

abbrev pub file_size : Files → StorePath → ℕ
file_size files path = elim (lookup path files) [ none ↦ 0 | some content ↦ length content ]

-- the loose objects of the index, with the sizes of their files
unfoldable pub individuals : Files → List (Bytes × ObjectLocation) → List Loose
individuals files [] = []
individuals files ((h, ObjectLocation.individual path) ∷ rest) =
    (h, path, file_size files path) ∷ individuals files rest
individuals files ((h, ObjectLocation.packfile _ _ _) ∷ rest) = individuals files rest
individuals files ((h, ObjectLocation.sharded _ _) ∷ rest) = individuals files rest

unfoldable pub sum_sizes : List Loose → ℕ
sum_sizes [] = 0
sum_sizes ((h, path, size) ∷ rest) = add64 size (sum_sizes rest)

abbrev pub index_entries :
    ℕ → List PackfileEntry → List (Bytes × ObjectLocation) → List (Bytes × ObjectLocation)
index_entries id [] index = index
index_entries id (e ∷ es) index =
    index_entries id es (insert e.hash (ObjectLocation.packfile id e.offset e.size) index)

abbrev pub remove_loose : List Loose → Files → Files
remove_loose [] files = files
remove_loose ((h, path, size) ∷ rest) files = remove_loose rest (remove path files)

abbrev pub is_nil : List Loose → Bool
is_nil [] = true
is_nil (o ∷ os) = false

module _ (crc32c_append : ℕ → Bytes → ℕ) where
  -- the loop of `seal_packfile` over the loose objects
  unfoldable pub pack_loose :
      Files → List Loose → PackfileWriter → Result (Unit {0}) × PackfileWriter
  pack_loose files [] w = (ok tt, w)
  pack_loose files ((h, path, size) ∷ rest) w = elim (lookup path files) [
    | none ↦ (err cannot_read_loose, w)
    | some content ↦ pack_loose files rest (Packfile.append crc32c_append w h content)
  ]

  -- What `seal_packfile` does after the loop. After an error the writer is dropped, and its buffer
  -- is flushed to the pack.
  unfoldable pub finish_seal :
      Result (Unit {0}) → PackfileWriter → List Loose → ObjectStore → Act (Unit {0})
  finish_seal (err e) w objects s =
      (err e, record s { files = insert (pack w.pack_id) w.written s.files })
  finish_seal (ok _) w objects s =
      let (entries, files) = Packfile.seal w s.files in
      (
        ok tt,
        record s {
          object_index = index_entries w.pack_id entries s.object_index;
          files = remove_loose objects files;
        },
      )

  unfoldable pub seal_packfile : List Loose → ObjectStore → Act (Unit {0})
  seal_packfile objects s =
      let (w, files) = Packfile.new s.next_pack_id s.config.packfile.max_packfile_size_mb s.files in
      let (r, w') = pack_loose files objects w in
      finish_seal r w' objects (record s { next_pack_id = add32 s.next_pack_id 1; files = files })

  unfoldable pub maybe_seal_packfiles : ObjectStore → Act (Unit {0})
  maybe_seal_packfiles s =
      let threshold = (s.config.packfile.max_packfile_size_mb * 1024 * 1024) % u64_mod in
      let loose = individuals s.files s.object_index in
      if is_nil loose
      then (ok tt, s)
      else if ltb (sum_sizes loose) threshold
      then (ok tt, s)
      else seal_packfile loose s

  -- `total_raw_bytes += raw_size`, then the sealing
  abbrev pub count_and_seal : ℕ → ObjectStore → Act (Unit {0})
  count_and_seal raw_size s =
      maybe_seal_packfiles (record s { total_raw_bytes = add64 s.total_raw_bytes raw_size })

  abbrev pub then_seal : ℕ → Act (Unit {0}) → Act (Unit {0})
  then_seal raw_size (err e, s) = (err e, s)
  then_seal raw_size (ok _, s) = count_and_seal raw_size s

  -- `ObjectStore::write_object`
  unfoldable pub write_object :
      ReedSolomon → (Bytes → Bytes) → Bytes → Bytes → ℕ → ObjectStore → Act (Unit {0})
  write_object rs digest h content raw_size s =
      if contains_object s h
      then (ok tt, record s { total_raw_bytes = add64 s.total_raw_bytes raw_size })
      else if s.config.erasure_coding.enabled
      then then_seal raw_size (write_sharded_object digest rs h content s)
      else count_and_seal raw_size (write_individual_object h content s)
