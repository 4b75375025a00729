-- ===== src/Index.antt =====
-- sidecar/src/storage/index.rs: the block index. RocksDB and serde_json are the parameters `rocks` and
-- `json`: each call may fail, and the laws say what a call leaves that has succeeded.
pub mod Refs
pub mod Files
use obsidian_backup_server.Prelude.{
  ℕ, ◌+◌, ◌-◌, ◌≡◌, Bool, true, false, ◌&&◌, Option, none, some, List, [], ◌∷◌, Bytes, length, ltb,
  ◌==◌, if◌then◌else◌, Result, ok, err, ◌>>=◌,
}
use obsidian_backup_server.Prelude.Text.{bytes_eq}
use obsidian_backup_server.Prelude.Words.{add64, to_le_bytes, from_le_bytes}

-- The column families `CF_*`.
pub data ColumnFamily : Type 0 where
  file_chunks chunk_refs chunk_meta snapshot file_meta : ColumnFamily

abbrev pub same_family : ColumnFamily → ColumnFamily → Bool
same_family ColumnFamily.file_chunks ColumnFamily.file_chunks = true
same_family ColumnFamily.chunk_refs ColumnFamily.chunk_refs = true
same_family ColumnFamily.chunk_meta ColumnFamily.chunk_meta = true
same_family ColumnFamily.snapshot ColumnFamily.snapshot = true
same_family ColumnFamily.file_meta ColumnFamily.file_meta = true
same_family _ _ = false

abbrev pub same_key : ColumnFamily → Bytes → ColumnFamily → Bytes → Bool
same_key cf k cf' k' = same_family cf cf' && bytes_eq k k'

-- A RocksDB database. `Healthy` are the databases whose calls succeed.
pub record RocksDb : Type 1 where
  pub Db : Type 0
  pub Healthy : Db → Type 0
  pub get_cf : Db → ColumnFamily → Bytes → Result (Option Bytes)
  pub put_cf : Db → ColumnFamily → Bytes → Bytes → Result Db
  pub delete_cf : Db → ColumnFamily → Bytes → Result Db
  pub flush_wal : Db → Result Db
  pub get_total :
      (db : Db) (cf : ColumnFamily) (k : Bytes)
      → Healthy db
      → (v : Option Bytes) × (get_cf db cf k ≡ ok v)
  pub put_total :
      (db : Db) (cf : ColumnFamily) (k v : Bytes)
      → Healthy db
      → (db' : Db) × (put_cf db cf k v ≡ ok db') × Healthy db'
  pub delete_total :
      (db : Db) (cf : ColumnFamily) (k : Bytes)
      → Healthy db
      → (db' : Db) × (delete_cf db cf k ≡ ok db') × Healthy db'
  pub get-put :
      (db db' : Db) (cf : ColumnFamily) (k v : Bytes) (cf' : ColumnFamily) (k' : Bytes)
      → put_cf db cf k v ≡ ok db'
      → get_cf db' cf' k' ≡ (if same_key cf k cf' k' then ok (some v) else get_cf db cf' k')
  pub get-delete :
      (db db' : Db) (cf : ColumnFamily) (k : Bytes) (cf' : ColumnFamily) (k' : Bytes)
      → delete_cf db cf k ≡ ok db'
      → get_cf db' cf' k' ≡ (if same_key cf k cf' k' then ok none else get_cf db cf' k')

-- What the index uses of serde_json: lists of texts, and the objects that it stores. `size_of` is
-- `from_slice` to a value, then `get("size")`, `as_u64` and `unwrap_or(0)`.
pub record Json : Type 0 where
  pub texts_to_string : List Bytes → Result Bytes
  pub texts_from_slice : Bytes → Result (List Bytes)
  pub file_meta_to_string : ℕ → ℕ → ℕ → Result Bytes
  pub chunk_meta_to_string : Bytes → ℕ → ℕ → Result Bytes
  pub size_of : Bytes → Result ℕ
  pub texts_total : (ts : List Bytes) → (v : Bytes) × (texts_to_string ts ≡ ok v)
  pub file_meta_total :
      (size mtime count : ℕ) → (v : Bytes) × (file_meta_to_string size mtime count ≡ ok v)
  pub chunk_meta_total :
      (path : Bytes) (offset size : ℕ)
      → (v : Bytes) × (chunk_meta_to_string path offset size ≡ ok v)
  pub texts_from_slice-texts_to_string :
      (ts : List Bytes) (v : Bytes) → texts_to_string ts ≡ ok v → texts_from_slice v ≡ ok ts
  pub size_of-file_meta :
      (size mtime count : ℕ) (v : Bytes)
      → file_meta_to_string size mtime count ≡ ok v
      → size_of v ≡ ok size

-- the count in a value: 8 bytes, or else 0
abbrev pub count_of : Option Bytes → ℕ
count_of none = 0
count_of (some v) = if length v == 8 then from_le_bytes v else 0

abbrev is_some : Option Bytes → Bool
is_some none = false
is_some (some v) = true

module _ (rocks : RocksDb) where
  unfoldable pub get_ref_count : rocks.Db → Bytes → Result ℕ
  get_ref_count db h = rocks.get_cf db ColumnFamily.chunk_refs h >>= λ v. ok (count_of v)

  unfoldable pub chunk_exists : rocks.Db → Bytes → Result Bool
  chunk_exists db h = rocks.get_cf db ColumnFamily.chunk_refs h >>= λ v. ok (is_some v)

  unfoldable pub increment_ref : rocks.Db → Bytes → Result rocks.Db
  increment_ref db h = get_ref_count db h >>= λ count.
      rocks.put_cf db ColumnFamily.chunk_refs h (to_le_bytes 8 (add64 count 1))

  -- what `decrement_ref` does with what is left of the count
  abbrev pub store_count : rocks.Db → Bytes → ℕ → Result rocks.Db
  store_count db h count =
      if ltb 0 count
      then rocks.put_cf db ColumnFamily.chunk_refs h (to_le_bytes 8 count)
      else rocks.delete_cf db ColumnFamily.chunk_refs h

  -- returns the new count as well
  unfoldable pub decrement_ref : rocks.Db → Bytes → Result (ℕ × rocks.Db)
  decrement_ref db h = rocks.get_cf db ColumnFamily.chunk_refs h >>= λ v.
      let count = count_of v - 1 in store_count db h count >>= λ db'. ok (count, db')

  unfoldable pub delete_snapshot_files : rocks.Db → Bytes → Result rocks.Db
  delete_snapshot_files db id = rocks.delete_cf db ColumnFamily.snapshot id

  module _ (json : Json) where
    -- Where the second write fails the first is not followed: the error comes without a database.
    unfoldable pub insert_chunk : rocks.Db → Bytes → Bytes → ℕ → ℕ → Result rocks.Db
    insert_chunk db h path offset size = get_ref_count db h >>= λ count.
        rocks.put_cf db ColumnFamily.chunk_refs h (to_le_bytes 8 (add64 count 1)) >>= λ db'.
        json.chunk_meta_to_string path offset size >>= λ meta.
        rocks.put_cf db' ColumnFamily.chunk_meta h meta

    -- the same holds of these writes
    unfoldable pub insert_file_chunks : rocks.Db → Bytes → List Bytes → ℕ → ℕ → Result rocks.Db
    insert_file_chunks db path hashes size mtime = json.texts_to_string hashes >>= λ chunks.
        rocks.put_cf db ColumnFamily.file_chunks path chunks >>= λ db'.
        json.file_meta_to_string size mtime (length hashes) >>= λ meta.
        rocks.put_cf db' ColumnFamily.file_meta path meta

    abbrev texts_of : Option Bytes → Result (List Bytes)
    texts_of none = ok []
    texts_of (some v) = json.texts_from_slice v

    unfoldable pub get_file_chunks : rocks.Db → Bytes → Result (List Bytes)
    get_file_chunks db path = rocks.get_cf db ColumnFamily.file_chunks path >>= texts_of

    unfoldable pub insert_snapshot_files : rocks.Db → Bytes → List Bytes → Result rocks.Db
    insert_snapshot_files db id files =
        json.texts_to_string files >>= λ v. rocks.put_cf db ColumnFamily.snapshot id v

    unfoldable pub get_snapshot_files : rocks.Db → Bytes → Result (List Bytes)
    get_snapshot_files db id = rocks.get_cf db ColumnFamily.snapshot id >>= texts_of

    abbrev size_or_zero : Option Bytes → Result ℕ
    size_or_zero none = ok 0
    size_or_zero (some v) = json.size_of v

    unfoldable pub get_file_size : rocks.Db → Bytes → Bytes → Result ℕ
    get_file_size db snapshot_id path = rocks.get_cf db ColumnFamily.file_meta path >>= size_or_zero
