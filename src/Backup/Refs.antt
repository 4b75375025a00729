-- ===== src/Backup/Refs.antt =====
-- The reference counts through a backup of backup/mod.rs, and what its rollback leaves.
use mathlib.Core.Path.{subst}
use obsidian_backup_server.Prelude.{
  ℕ, ◌+◌, ◌-◌, ◌≤◌, ◌<◌, ◌≡◌, ◌≢◌, ◌∙◌, ap, inl, inr, List, [], ◌∷◌, ◌++◌, Bytes, length,
  if◌then◌else◌, Bool-cases, ok, err, arith,
}
use obsidian_backup_server.Prelude.Text.{bytes_eq, bytes_eq_iff}
use obsidian_backup_server.Prelude.Words.{u64_mod}
use obsidian_backup_server.Erasure.{ReedSolomon}
use obsidian_backup_server.Chunker.{Chunk}
use obsidian_backup_server.Store.{Act}
use obsidian_backup_server.Store.Objects.{write_object}
use obsidian_backup_server.Index.{RocksDb, Json, get_ref_count}
use obsidian_backup_server.Index.Refs.{Counts, increment_ref-Counts, insert_chunk-Counts}
use obsidian_backup_server.Transaction.{Transaction, TransientObject, rollback}
use obsidian_backup_server.Transaction.Rollback.{Counted, tracked, rollback-Counted}
use obsidian_backup_server.Backup.{
  FileTask, exists_or_false, dedup_chunk, index_chunk, backup_chunk, backup_chunks,
}

tracked-append :
    (k : Bytes) (os : List TransientObject) (o : TransientObject)
    → tracked k (os ++ o ∷ []) ≡ tracked k os + (if bytes_eq o.chunk_hash k then 1 else 0)
tracked-append k [] o = omega arith
tracked-append k (p ∷ os) o = omega (arith, tracked-append k os o)

rollback_sum : (a b c d e : ℕ) → a + b ≡ c + d + e → b ≡ 0 → a - d ≡ c + e
rollback_sum a b c d e h z = omega arith

module _ (rocks : RocksDb) where
  incremented :
      (db db' : rocks.Db) (h : Bytes) (count : Bytes → ℕ)
      → Counted rocks db count
      → ((k : Bytes) → count k + 1 < u64_mod)
      → Counts rocks db db' h (count h + 1)
      → Counted rocks db' (λ k. count k + (if bytes_eq h k then 1 else 0))
  incremented db db' h count c room d = record {
    healthy = d.healthy;
    counted = λ k. elim (Bool-cases (bytes_eq h k)) [
      | inl same ↦ rw same (
          subst (λ j. get_ref_count rocks db' j ≡ ok (count j + 1)) ((bytes_eq_iff h k).0 same)
            d.count)
      | inr other ↦
          let ne : h ≢ k = λ q. ground (arith, bytes_eq_iff h k) in
          let none_more : count k + 0 ≡ count k = omega arith in
          rw (other, none_more) ((d.others k ne).0 ∙ c.counted k)
    ];
    small = λ k. ground (arith, room k);
  }

  -- What a step of a task does to the counts: it adds to each as much as it tracks and as
  -- `deduped` says.
  pub record Balanced (t t' : FileTask rocks) (count deduped : Bytes → ℕ) (n : ℕ) : Type 0 where
    pub count' : Bytes → ℕ
    pub counted : Counted rocks t'.index count'
    pub balance :
        (k : Bytes)
        → count' k + tracked k t.transients ≡ count k + tracked k t'.transients + deduped k
    pub grows : (k : Bytes) → count' k ≤ count k + n

  module _ (json : Json) (rs : ReedSolomon) (digest : Bytes → Bytes) (crc32c_append : ℕ → Bytes → ℕ)
      (rel : Bytes) where
    dedup_chunk-Balanced :
        (c : Chunk) (t : FileTask rocks) (count : Bytes → ℕ)
        → Counted rocks t.index count
        → ((k : Bytes) → count k + 1 < u64_mod)
        → Balanced t
            (dedup_chunk rocks json rs digest crc32c_append c t)
            count
            (λ k. if bytes_eq c.hash k then 1 else 0)
            1
    unfolding dedup_chunk
    dedup_chunk-Balanced c t count cd room =
        let (db', run, d) =
          increment_ref-Counts rocks t.index c.hash (count c.hash) cd.healthy (cd.counted c.hash)
            (room c.hash) in
        record {
          count' = λ k. count k + (if bytes_eq c.hash k then 1 else 0);
          counted = rw run (incremented t.index db' c.hash count cd room d);
          balance = λ k. omega arith;
          grows = λ k. ground arith;
        }

    index_chunk-Balanced :
        (c : Chunk) (act : Act (Unit {0})) (t : FileTask rocks) (count : Bytes → ℕ)
        → Counted rocks t.index count
        → ((k : Bytes) → count k + 1 < u64_mod)
        → Balanced t (index_chunk rocks json rs digest crc32c_append rel c act t) count (λ k. 0) 1
    unfolding index_chunk
    index_chunk-Balanced c (err e, store) t count cd room = record {
      count' = count;
      counted = cd;
      balance = λ k. omega arith;
      grows = λ k. omega arith;
    }
    index_chunk-Balanced c (ok _, store) t count cd room =
        let (db', run, d) =
          insert_chunk-Counts rocks json t.index c.hash rel c.offset c.size (count c.hash)
            cd.healthy (cd.counted c.hash) (room c.hash) in
        record {
          count' = λ k. count k + (if bytes_eq c.hash k then 1 else 0);
          counted = rw run (incremented t.index db' c.hash count cd room d);
          balance = λ k. omega (arith, tracked-append k t.transients _);
          grows = λ k. ground arith;
        }

    -- how many times the index has the hash `k` already when its chunk comes
    abbrev pub deduped : List Chunk → FileTask rocks → Bytes → ℕ
    deduped [] t k = 0
    deduped (c ∷ cs) t k =
        (if exists_or_false rocks t.index c.hash then (if bytes_eq c.hash k then 1 else 0) else 0)
        + deduped cs (backup_chunk rocks json rs digest crc32c_append rel c t) k

    backup_chunk-Balanced :
        (c : Chunk) (t : FileTask rocks) (count : Bytes → ℕ)
        → Counted rocks t.index count
        → ((k : Bytes) → count k + 1 < u64_mod)
        → Balanced t
            (backup_chunk rocks json rs digest crc32c_append rel c t)
            count
            (λ k.
              if exists_or_false rocks t.index c.hash
              then (if bytes_eq c.hash k then 1 else 0)
              else 0)
            1
    unfolding backup_chunk
    backup_chunk-Balanced c t count cd room =
        elim (Bool-cases (exists_or_false rocks t.index c.hash)) [
          | inl e ↦ rw e (dedup_chunk-Balanced c t count cd room)
          | inr n ↦ rw n (
              index_chunk-Balanced c
                (write_object crc32c_append rs digest c.hash c.content c.size t.store) t count cd
                room)
        ]

    backup_chunks-Balanced :
        (cs : List Chunk) (t : FileTask rocks) (count : Bytes → ℕ)
        → Counted rocks t.index count
        → ((k : Bytes) → count k + length cs < u64_mod)
        → Balanced t
            (backup_chunks rocks json rs digest crc32c_append rel cs t)
            count
            (deduped cs t)
            (length cs)
    unfolding backup_chunks
    backup_chunks-Balanced [] t count cd room = record {
      count' = count;
      counted = cd;
      balance = λ k. omega arith;
      grows = λ k. omega arith;
    }
    backup_chunks-Balanced (c ∷ cs) t count cd room =
        let one = backup_chunk-Balanced c t count cd (λ k. omega (arith, room k)) in
        let rest =
          backup_chunks-Balanced cs (backup_chunk rocks json rs digest crc32c_append rel c t)
            one.count' one.counted (λ k. omega (arith, room k, one.grows k)) in
        record {
          count' = rest.count';
          counted = rest.counted;
          balance = λ k. omega (arith, one.balance k, rest.balance k);
          grows = λ k. omega (arith, one.grows k, rest.grows k);
        }

    -- A transaction starts with nothing tracked, takes the chunks of a file, and is rolled back. On a
    -- healthy database the count of each hash is then what it was, plus one for each chunk of that hash
    -- that the index had when the chunk came: the references of new chunks are released, whether or
    -- not their objects could be written, and those of deduplicated chunks are not. No count gets
    -- near 2^64.
    pub rollback-backup_chunks :
        (cs : List Chunk) (t : FileTask rocks) (count : Bytes → ℕ) (tx : Transaction)
        → Counted rocks t.index count
        → t.transients ≡ []
        → ((k : Bytes) → count k + length cs < u64_mod)
        → (let t' = backup_chunks rocks json rs digest crc32c_append rel cs t in
            Counted rocks
              (rollback rocks tx
                (record { block_index = t'.index; transient_objects = t'.transients })).block_index
              (λ k. count k + deduped cs t k))
    rollback-backup_chunks cs t count tx cd empty room =
        let b = backup_chunks-Balanced cs t count cd room in
        let t' = backup_chunks rocks json rs digest crc32c_append rel cs t in
        let (r, _, _) =
          rollback-Counted rocks tx
            (record { block_index = t'.index; transient_objects = t'.transients }) b.count'
            b.counted in
        let same = λ (k : Bytes).
          rollback_sum (b.count' k) (tracked k t.transients) (count k) (tracked k t'.transients)
            (deduped cs t k) (b.balance k) (ap (tracked k) empty) in
        record {
          healthy = r.healthy;
          counted = λ k. r.counted k ∙ ap ok (same k);
          small = λ k. subst (λ n. n < u64_mod) (same k) (r.small k);
        }
