-- ===== src/Transaction/Rollback.antt =====
-- `rollback` of transaction.rs.
use mathlib.Core.Path.{subst}
use obsidian_backup_server.Prelude.{
  ℕ, ◌+◌, ◌-◌, ◌<◌, ◌≡◌, ◌≢◌, ◌∙◌, refl, sym, ap, inl, inr, List, [], ◌∷◌, Bytes, if◌then◌else◌,
  Bool-cases, ok, arith,
}
use obsidian_backup_server.Prelude.Text.{bytes_eq, bytes_eq_iff}
use obsidian_backup_server.Prelude.Words.{u64_mod}
use obsidian_backup_server.Index.{RocksDb, get_ref_count, decrement_ref}
use obsidian_backup_server.Index.Refs.{Counts, decrement_ref-Counts}
use obsidian_backup_server.Transaction.{
  Transaction, TransientObject, TransactionManager, release, rollback,
}

-- how often a hash is tracked
abbrev pub tracked : Bytes → List TransientObject → ℕ
tracked h [] = 0
tracked h (o ∷ os) = (if bytes_eq o.chunk_hash h then 1 else 0) + tracked h os

module _ (rocks : RocksDb) where
  -- The counts of a database, all of them below 2^64.
  pub record Counted (db : rocks.Db) (count : Bytes → ℕ) : Type 0 where
    pub healthy : rocks.Healthy db
    pub counted : (h : Bytes) → get_ref_count rocks db h ≡ ok (count h)
    pub small : (h : Bytes) → count h < u64_mod

  release_step :
      (o : TransientObject) (os : List TransientObject) (db db' : rocks.Db) (n : ℕ)
      → decrement_ref rocks db o.chunk_hash ≡ ok (n, db')
      → release rocks (o ∷ os) db ≡ release rocks os db'
  unfolding release
  release_step o os db db' n e = rw (e, release) refl

  decremented :
      (db db' : rocks.Db) (h : Bytes) (count : Bytes → ℕ)
      → Counted db count
      → Counts rocks db db' h (count h - 1)
      → Counted db' (λ k. count k - (if bytes_eq h k then 1 else 0))
  decremented db db' h count c d = record {
    healthy = d.healthy;
    counted = λ k. elim (Bool-cases (bytes_eq h k)) [
      | inl same ↦ rw same (
          subst (λ j. get_ref_count rocks db' j ≡ ok (count j - 1)) ((bytes_eq_iff h k).0 same)
            d.count)
      | inr other ↦
          let ne : h ≢ k = λ q. ground (arith, bytes_eq_iff h k) in
          let zero_less : count k - 0 ≡ count k = omega arith in
          rw (other, zero_less) ((d.others k ne).0 ∙ c.counted k)
    ];
    small = λ k. omega (arith, c.small k);
  }

  -- Releasing takes as much from each count as its hash is tracked.
  release-Counted :
      (os : List TransientObject) (db : rocks.Db) (count : Bytes → ℕ)
      → Counted db count
      → Counted (release rocks os db) (λ h. count h - tracked h os)
  unfolding release
  release-Counted [] db count c = record {
    healthy = c.healthy;
    counted = λ h. let same : count h - 0 ≡ count h = omega arith in rw same (c.counted h);
    small = λ h. omega (arith, c.small h);
  }
  release-Counted (o ∷ os) db count c =
      let h = o.chunk_hash in
      let (db', run, d) =
        decrement_ref-Counts rocks db h (count h) c.healthy (c.counted h) (c.small h) in
      let rest = release-Counted os db' _ (decremented db db' h count c d) in
      record {
        healthy = subst rocks.Healthy (sym (release_step o os db db' _ run)) rest.healthy;
        counted = λ k.
            let same : count k - (if bytes_eq h k then 1 else 0) - tracked k os
                ≡ count k - tracked k (o ∷ os) =
              omega arith in
            ap (λ x. get_ref_count rocks x k) (release_step o os db db' _ run)
            ∙ (rest.counted k ∙ ap ok same);
        small = λ k. omega (arith, c.small k);
      }

  -- Rolling back a transaction on a healthy database takes from the count of each hash as many
  -- references as the transaction has tracked objects of that hash, at most all of them, and leaves
  -- nothing tracked. So a second rollback changes no count.
  pub rollback-Counted :
      (tx : Transaction) (m : TransactionManager rocks) (count : Bytes → ℕ)
      → Counted m.block_index count
      → Counted (rollback rocks tx m).block_index (λ h. count h - tracked h m.transient_objects)
        × ((rollback rocks tx m).transient_objects ≡ [])
        × (rollback rocks tx (rollback rocks tx m) ≡ rollback rocks tx m)
  unfolding rollback release
  rollback-Counted tx m count c =
      (release-Counted m.transient_objects m.block_index count c, refl, refl)
