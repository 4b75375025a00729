-- ===== src/Backup/Faithful/Counting.antt =====
-- What index.rs does with the hash of a chunk of a backup, as far as its existence goes.
use obsidian_backup_server.Prelude.{ℕ, ◌≡◌, refl, Bytes, ok, >>=-ok, arith}
use obsidian_backup_server.Prelude.Text.{bytes_key}
use obsidian_backup_server.Prelude.Words.{add64, to_le_bytes}
use obsidian_backup_server.Store.{path_key}
use obsidian_backup_server.Index.{
  ColumnFamily, RocksDb, Json, get_ref_count, chunk_exists, count_of, increment_ref, insert_chunk,
}
use obsidian_backup_server.Backup.{exists_or_false}
use obsidian_backup_server.Backup.Faithful.{Marks}

module _ (rocks : RocksDb) where
  put-Marks :
      (db db' : rocks.Db) (h v : Bytes)
      → rocks.Healthy db'
      → rocks.put_cf db ColumnFamily.chunk_refs h v ≡ ok db'
      → Marks rocks db db' h
  unfolding exists_or_false chunk_exists
  put-Marks db db' h v healthy run = record {
    healthy = healthy;
    exists = λ k.
        ground
          (arith, rocks.get-put db db' ColumnFamily.chunk_refs h v ColumnFamily.chunk_refs k run);
  }

  pub increment_ref-Marks :
      (db : rocks.Db) (h : Bytes)
      → rocks.Healthy db
      → (db' : rocks.Db) × (increment_ref rocks db h ≡ ok db') × Marks rocks db db' h
  unfolding increment_ref get_ref_count
  increment_ref-Marks db h healthy =
      let (v, got) = rocks.get_total db ColumnFamily.chunk_refs h healthy in
      let (db', run, healthy') =
        rocks.put_total db ColumnFamily.chunk_refs h (to_le_bytes 8 (add64 (count_of v) 1))
          healthy in
      (db', >>=-ok _ _ (>>=-ok _ _ got refl) run, put-Marks db db' h _ healthy' run)

  pub insert_chunk-Marks :
      (json : Json) (db : rocks.Db) (h path : Bytes) (offset size : ℕ)
      → rocks.Healthy db
      → (db' : rocks.Db) × (insert_chunk rocks json db h path offset size ≡ ok db')
        × Marks rocks db db' h
  unfolding insert_chunk get_ref_count exists_or_false chunk_exists
  insert_chunk-Marks json db h path offset size healthy =
      let (v, got) = rocks.get_total db ColumnFamily.chunk_refs h healthy in
      let (db1, run1, healthy1) =
        rocks.put_total db ColumnFamily.chunk_refs h (to_le_bytes 8 (add64 (count_of v) 1))
          healthy in
      let (meta, shown) = json.chunk_meta_total path offset size in
      let (db2, run2, healthy2) = rocks.put_total db1 ColumnFamily.chunk_meta h meta healthy1 in
      let first = put-Marks db db1 h _ healthy1 run1 in
      (
        db2,
        >>=-ok _ _ (>>=-ok _ _ got refl) (>>=-ok _ _ run1 (>>=-ok _ _ shown run2)),
        record {
          healthy = healthy2;
          exists = λ k. ground (
            arith,
            rocks.get-put db1 db2 ColumnFamily.chunk_meta h meta ColumnFamily.chunk_refs k run2,
            first.exists k,
          );
        },
      )
