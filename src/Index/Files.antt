-- ===== src/Index/Files.antt =====
-- The file and snapshot lists of index.rs.
use obsidian_backup_server.Prelude.{ℕ, ◌≡◌, ◌≢◌, List, [], Bytes, length, ok, >>=-ok, arith}
use obsidian_backup_server.Prelude.Text.{bytes_eq_iff, bytes_eq_refl}
use obsidian_backup_server.Index.{
  ColumnFamily, RocksDb, Json, get_ref_count, chunk_exists, insert_file_chunks, get_file_chunks,
  get_file_size, insert_snapshot_files, get_snapshot_files, delete_snapshot_files,
}

module _ (rocks : RocksDb) (json : Json) where
  -- What the index knows of one file after it has been recorded.
  pub record Recorded (db db' : rocks.Db) (path : Bytes) (hashes : List Bytes) (size : ℕ)
      : Type 0 where
    pub healthy : rocks.Healthy db'
    pub chunks : get_file_chunks rocks json db' path ≡ ok hashes
    pub file_size : (id : Bytes) → get_file_size rocks json db' id path ≡ ok size
    pub other_chunks :
        (p : Bytes) → path ≢ p → get_file_chunks rocks json db' p ≡ get_file_chunks rocks json db p
    pub counts : (h : Bytes) → get_ref_count rocks db' h ≡ get_ref_count rocks db h
    pub exists : (h : Bytes) → chunk_exists rocks db' h ≡ chunk_exists rocks db h

  -- On a healthy database, `insert_file_chunks` succeeds. The chunk list and the size of the file can
  -- then be read back, whatever the snapshot id, the chunk lists of other files stay, and so do all
  -- reference counts and the hashes that exist.
  pub insert_file_chunks-Recorded :
      (db : rocks.Db) (path : Bytes) (hashes : List Bytes) (size mtime : ℕ)
      → rocks.Healthy db
      → (db' : rocks.Db) × (insert_file_chunks rocks json db path hashes size mtime ≡ ok db')
        × Recorded db db' path hashes size
  unfolding insert_file_chunks get_file_chunks get_file_size get_ref_count chunk_exists
  insert_file_chunks-Recorded db path hashes size mtime healthy =
      let (chunks, shown) = json.texts_total hashes in
      let (db1, run1, healthy1) = rocks.put_total db ColumnFamily.file_chunks path chunks healthy in
      let (meta, shown2) = json.file_meta_total size mtime (length hashes) in
      let (db2, run2, healthy2) = rocks.put_total db1 ColumnFamily.file_meta path meta healthy1 in
      let law1 = λ (cf : ColumnFamily) (k : Bytes).
        rocks.get-put db db1 ColumnFamily.file_chunks path chunks cf k run1 in
      let law2 = λ (cf : ColumnFamily) (k : Bytes).
        rocks.get-put db1 db2 ColumnFamily.file_meta path meta cf k run2 in
      (
        db2,
        >>=-ok _ _ shown (>>=-ok _ _ run1 (>>=-ok _ _ shown2 run2)),
        record {
          healthy = healthy2;
          chunks = ground (
            arith,
            law1 ColumnFamily.file_chunks path,
            law2 ColumnFamily.file_chunks path,
            bytes_eq_refl path,
            json.texts_from_slice-texts_to_string hashes chunks shown,
          );
          file_size = λ id. ground (
            arith,
            law2 ColumnFamily.file_meta path,
            bytes_eq_refl path,
            json.size_of-file_meta size mtime (length hashes) meta shown2,
          );
          other_chunks = λ p ne. ground (
            arith,
            law1 ColumnFamily.file_chunks p,
            law2 ColumnFamily.file_chunks p,
            bytes_eq_iff path p,
          );
          counts =
              λ h. ground (arith, law1 ColumnFamily.chunk_refs h, law2 ColumnFamily.chunk_refs h);
          exists =
              λ h. ground (arith, law1 ColumnFamily.chunk_refs h, law2 ColumnFamily.chunk_refs h);
        },
      )

  -- On a healthy database, the file list that `insert_snapshot_files` stores is the one that
  -- `get_snapshot_files` reads, and after `delete_snapshot_files` the list reads as empty; the lists of
  -- other snapshots stay in both cases.
  pub snapshot_files_lem :
      (db : rocks.Db) (id : Bytes) (files : List Bytes)
      → rocks.Healthy db
      → ((db' : rocks.Db) × (insert_snapshot_files rocks json db id files ≡ ok db')
          × (get_snapshot_files rocks json db' id ≡ ok files)
          × ((k : Bytes)
              → id ≢ k
              → get_snapshot_files rocks json db' k ≡ get_snapshot_files rocks json db k))
        × ((db' : rocks.Db) × (delete_snapshot_files rocks db id ≡ ok db')
            × (get_snapshot_files rocks json db' id ≡ ok [])
            × ((k : Bytes)
                → id ≢ k
                → get_snapshot_files rocks json db' k ≡ get_snapshot_files rocks json db k))
  unfolding insert_snapshot_files get_snapshot_files delete_snapshot_files
  snapshot_files_lem db id files healthy =
      let (v, shown) = json.texts_total files in
      let (db1, run1, _) = rocks.put_total db ColumnFamily.snapshot id v healthy in
      let (db2, run2, _) = rocks.delete_total db ColumnFamily.snapshot id healthy in
      let law1 = λ (k : Bytes).
        rocks.get-put db db1 ColumnFamily.snapshot id v ColumnFamily.snapshot k run1 in
      let law2 = λ (k : Bytes).
        rocks.get-delete db db2 ColumnFamily.snapshot id ColumnFamily.snapshot k run2 in
      (
        (
          db1,
          >>=-ok _ _ shown run1,
          ground (
            arith,
            law1 id,
            bytes_eq_refl id,
            json.texts_from_slice-texts_to_string files v shown,
          ),
          λ k ne. ground (arith, law1 k, bytes_eq_iff id k),
        ),
        (
          db2,
          run2,
          ground (arith, law2 id, bytes_eq_refl id),
          λ k ne. ground (arith, law2 k, bytes_eq_iff id k),
        ),
      )
