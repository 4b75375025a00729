-- ===== src/Index/Refs.antt =====
-- The reference counts of index.rs.
use mathlib.Core.Path.{subst}
use obsidian_backup_server.Prelude.{
  ℕ, ◌+◌, ◌-◌, ◌<◌, ◌≡◌, ◌≢◌, ◌∙◌, refl, Option, inl, inr, Bytes, ltb, if_true, if_false,
  Bool-cases, ok, >>=-eq-ok, >>=-ok, sym, ltb→lt, arith,
}
use obsidian_backup_server.Prelude.Text.{bytes_eq_iff, bytes_eq_refl}
use obsidian_backup_server.Prelude.Words.{u64_mod, add64, to_le_bytes, from_le_bytes-to_le_bytes8}
use obsidian_backup_server.Index.{
  ColumnFamily, RocksDb, Json, count_of, get_ref_count, chunk_exists, increment_ref, store_count,
  decrement_ref, insert_chunk,
}

module _ (rocks : RocksDb) where
  -- A database in which the count of one hash is known, and all others are those of `db`.
  pub record Counts (db db' : rocks.Db) (h : Bytes) (n : ℕ) : Type 0 where
    pub healthy : rocks.Healthy db'
    pub count : get_ref_count rocks db' h ≡ ok n
    pub exists : chunk_exists rocks db' h ≡ ok (ltb 0 n)
    pub others :
        (k : Bytes)
        → h ≢ k
        → (get_ref_count rocks db' k ≡ get_ref_count rocks db k)
          × (chunk_exists rocks db' k ≡ chunk_exists rocks db k)

  put-Counts :
      (db : rocks.Db) (h : Bytes) (n : ℕ)
      → rocks.Healthy db
      → 0 < n
      → n < u64_mod
      → (db' : rocks.Db) × (rocks.put_cf db ColumnFamily.chunk_refs h (to_le_bytes 8 n) ≡ ok db')
        × Counts db db' h n
  unfolding get_ref_count chunk_exists
  put-Counts db h n healthy pos small =
      let (db', run, healthy') =
        rocks.put_total db ColumnFamily.chunk_refs h (to_le_bytes 8 n) healthy in
      let law = λ (k : Bytes).
        rocks.get-put db db' ColumnFamily.chunk_refs h (to_le_bytes 8 n) ColumnFamily.chunk_refs k
          run in
      let value = from_le_bytes-to_le_bytes8 n small in
      (
        db',
        run,
        record {
          healthy = healthy';
          count = ground (arith, law h, value, bytes_eq_refl h);
          exists = ground (arith, law h, value, bytes_eq_refl h);
          others = λ k ne.
              (ground (arith, law k, bytes_eq_iff h k), ground (arith, law k, bytes_eq_iff h k));
        },
      )

  delete-Counts :
      (db : rocks.Db) (h : Bytes)
      → rocks.Healthy db
      → (db' : rocks.Db) × (rocks.delete_cf db ColumnFamily.chunk_refs h ≡ ok db')
        × Counts db db' h 0
  unfolding get_ref_count chunk_exists
  delete-Counts db h healthy =
      let (db', run, healthy') = rocks.delete_total db ColumnFamily.chunk_refs h healthy in
      let law = λ (k : Bytes).
        rocks.get-delete db db' ColumnFamily.chunk_refs h ColumnFamily.chunk_refs k run in
      (
        db',
        run,
        record {
          healthy = healthy';
          count = ground (arith, law h, bytes_eq_refl h);
          exists = ground (arith, law h, bytes_eq_refl h);
          others = λ k ne.
              (ground (arith, law k, bytes_eq_iff h k), ground (arith, law k, bytes_eq_iff h k));
        },
      )

  -- A put to another column family changes no count.
  other_family-Counts :
      (db db1 db2 : rocks.Db) (h v : Bytes) (n : ℕ)
      → Counts db db1 h n
      → rocks.Healthy db2
      → rocks.put_cf db1 ColumnFamily.chunk_meta h v ≡ ok db2
      → Counts db db2 h n
  unfolding get_ref_count chunk_exists
  other_family-Counts db db1 db2 h v n c healthy run =
      let law = λ (k : Bytes).
        rocks.get-put db1 db2 ColumnFamily.chunk_meta h v ColumnFamily.chunk_refs k run in
      record {
        healthy = healthy;
        count = ground (arith, law h, c.count);
        exists = ground (arith, law h, c.exists);
        others = λ k ne.
            (ground (arith, law k, (c.others k ne).0), ground (arith, law k, (c.others k ne).1));
      }

  abbrev PutsTo : rocks.Db → Bytes → rocks.Db → ℕ → Type 0
  PutsTo db h db' m = rocks.put_cf db ColumnFamily.chunk_refs h (to_le_bytes 8 m) ≡ ok db'

  counted_value :
      (db : rocks.Db) (h : Bytes) (n : ℕ)
      → get_ref_count rocks db h ≡ ok n
      → (v : Option Bytes) × (rocks.get_cf db ColumnFamily.chunk_refs h ≡ ok v) × (count_of v ≡ n)
  unfolding get_ref_count
  counted_value db h n count =
      let (v, got, counted) = >>=-eq-ok (rocks.get_cf db ColumnFamily.chunk_refs h) _ count in
      (v, got, cc)

  decrement_ref-run :
      (db db' : rocks.Db) (h : Bytes) (n : ℕ)
      → get_ref_count rocks db h ≡ ok n
      → store_count rocks db h (n - 1) ≡ ok db'
      → decrement_ref rocks db h ≡ ok (n - 1, db')
  unfolding decrement_ref
  decrement_ref-run db db' h n count run =
      let (v, got, counted) = counted_value db h n count in
      >>=-ok _ _ got (rw counted (>>=-ok (store_count rocks db h (n - 1)) _ run refl))

  -- On a healthy database, `increment_ref` succeeds and adds one to the count of its hash, which then
  -- exists; the counts of all other hashes stay. The count is below 2^64 - 1.
  pub increment_ref-Counts :
      (db : rocks.Db) (h : Bytes) (n : ℕ)
      → rocks.Healthy db
      → get_ref_count rocks db h ≡ ok n
      → n + 1 < u64_mod
      → (db' : rocks.Db) × (increment_ref rocks db h ≡ ok db') × Counts db db' h (n + 1)
  unfolding increment_ref
  increment_ref-Counts db h n healthy count small =
      let (db', run, c) = put-Counts db h (n + 1) healthy (omega arith) small in
      let word : add64 n 1 ≡ n + 1 = omega arith in
      (db', >>=-ok _ _ count (subst (PutsTo db h db') (sym word) run), c)

  -- On a healthy database, `insert_chunk` does to the counts what `increment_ref` does. The count is
  -- below 2^64 - 1.
  pub insert_chunk-Counts :
      (json : Json) (db : rocks.Db) (h path : Bytes) (offset size n : ℕ)
      → rocks.Healthy db
      → get_ref_count rocks db h ≡ ok n
      → n + 1 < u64_mod
      → (db' : rocks.Db) × (insert_chunk rocks json db h path offset size ≡ ok db')
        × Counts db db' h (n + 1)
  unfolding insert_chunk
  insert_chunk-Counts json db h path offset size n healthy count small =
      let (db1, run1, c1) = put-Counts db h (n + 1) healthy (omega arith) small in
      let word : add64 n 1 ≡ n + 1 = omega arith in
      let (meta, shown) = json.chunk_meta_total path offset size in
      let (db2, run2, healthy2) = rocks.put_total db1 ColumnFamily.chunk_meta h meta c1.healthy in
      (
        db2,
        >>=-ok _ _ count
            (>>=-ok _ _ (subst (PutsTo db h db1) (sym word) run1) (>>=-ok _ _ shown run2)),
        other_family-Counts db db1 db2 h meta (n + 1) c1 healthy2 run2,
      )

  -- On a healthy database, `decrement_ref` succeeds, takes one from the count of its hash, where it is
  -- not 0, and returns what is left. The hash exists exactly if something is left, and the counts of
  -- all other hashes stay. The count is below 2^64.
  pub decrement_ref-Counts :
      (db : rocks.Db) (h : Bytes) (n : ℕ)
      → rocks.Healthy db
      → get_ref_count rocks db h ≡ ok n
      → n < u64_mod
      → (db' : rocks.Db) × (decrement_ref rocks db h ≡ ok (n - 1, db')) × Counts db db' h (n - 1)
  decrement_ref-Counts db h n healthy count small = elim (Bool-cases (ltb 0 (n - 1))) [
    | inl left ↦
        let (db', run, c) =
          put-Counts db h (n - 1) healthy (omega (arith, ltb→lt 0 (n - 1) left)) (omega arith) in
        (db', decrement_ref-run db db' h n count (if_true _ _ left ∙ run), c)
    | inr gone ↦
        let (db', run, c) = delete-Counts db h healthy in
        let none_left : n - 1 ≡ 0 = ground arith in
        (
          db',
          decrement_ref-run db db' h n count (if_false _ _ gone ∙ run),
          subst (Counts db db' h) (sym none_left) c,
        )
  ]
