-- ===== src/Store/Repair.antt =====
-- `verify_object` of object_store.rs: the check of a sharded object, and its repair.
pub mod Others
use obsidian_backup_server.Prelude.{
  ℕ, zero, suc, ◌+◌, ◌*◌, ◌%◌, Bool, true, false, Option, none, some, List, [], ◌∷◌, ◌++◌, Bytes,
  length, take, drop, slice, flatten, ltb, leb, ◌==◌, if◌then◌else◌, Result, ok, err, ◌>>=◌,
  object_not_found, missing_parity, truncated_parity, panicked,
}
use obsidian_backup_server.Prelude.Assoc.{lookup, insert}
use obsidian_backup_server.Prelude.Text.{bytes_eq, bytes_key}
use obsidian_backup_server.Prelude.Words.{u64_mod, from_le_bytes}
use obsidian_backup_server.Erasure.{ReedSolomon, data_shards, parity_shards, missing, reconstruct}
use obsidian_backup_server.Store.{
  shard, parity, path_key, Files, ObjectLocation, RepairOutcome, ObjectStore, parity_header_len,
  Act,
}
use obsidian_backup_server.Store.Objects.{write_shards}

-- the `n` shard hashes of a parity file, from the one at `i` on
unfoldable pub header_hashes : Bytes → ℕ → ℕ → List Bytes
header_hashes par i zero = []
header_hashes par i (suc n) =
    slice (16 + i * 32) (16 + i * 32 + 32) par ∷ header_hashes par (i + 1) n

module _ (digest : Bytes → Bytes) where
  -- a shard, if it has the hash that is expected
  abbrev pub if_intact : Bytes → Bytes → Option Bytes
  if_intact content expected = if bytes_eq (digest content) expected then some content else none

  -- the data shards `d{i}`, one for each expected hash
  unfoldable pub check_data : Files → Bytes → ℕ → List Bytes → List (Option Bytes)
  check_data files dir i [] = []
  check_data files dir i (e ∷ es) =
      elim (lookup (shard dir i) files) [ none ↦ none | some content ↦ if_intact content e ]
      ∷ check_data files dir (i + 1) es

  -- One parity shard. The positions wrap, and a slice that ends before it starts panics.
  unfoldable pub check_parity_shard : Bytes → ℕ → ℕ → Bytes → Result (Option Bytes)
  check_parity_shard par shard_size i expected =
      let start = (parity_header_len + i * shard_size) % u64_mod in
      let end = (start + shard_size) % u64_mod in
      if leb end (length par)
      then (if leb start end then ok (if_intact (slice start end par) expected) else err panicked)
      else ok none

  unfoldable pub check_parity : Bytes → ℕ → ℕ → List Bytes → Result (List (Option Bytes))
  check_parity par shard_size i [] = ok []
  check_parity par shard_size i (e ∷ es) = check_parity_shard par shard_size i e >>= λ s.
      check_parity par shard_size (i + 1) es >>= λ rest. ok (s ∷ rest)

  -- the files after a repair: all shards, and the parity file with its old header
  unfoldable pub repaired_files : Bytes → Bytes → Bytes → List Bytes → List Bytes → Files → Files
  repaired_files h dir par shards parities files =
      insert (parity h) (take parity_header_len par ++ flatten parities)
        (write_shards dir 0 shards files)

  module _ (rs : ReedSolomon) where
    -- the shards that the codec returns are written
    abbrev pub rebuild :
        Bytes → Bytes → Bytes → Result (List Bytes × List Bytes) → ObjectStore → Act RepairOutcome
    rebuild h dir par (err e) s = (err e, s)
    rebuild h dir par (ok (shards, parities)) s = (
      ok RepairOutcome.repaired,
      record s { files = repaired_files h dir par shards parities s.files },
    )

    -- what is left to do after the shards are read
    unfoldable pub judge :
        Bytes
        → Bytes
        → Bool
        → Bytes
        → ℕ
        → List (Option Bytes)
        → List (Option Bytes)
        → ObjectStore
        → Act RepairOutcome
    judge h dir repair par shard_size data_opt parity_opt s =
        let corrupted = missing (data_opt ++ parity_opt) in
        if corrupted == 0
        then (ok RepairOutcome.healthy, s)
        else if repair
        then (if ltb parity_shards corrupted
            then (ok RepairOutcome.unrecoverable, s)
            else rebuild h dir par (reconstruct rs data_opt parity_opt shard_size) s)
        else (ok RepairOutcome.corrupted, s)

    abbrev pub judge_if_read :
        Bytes
        → Bytes
        → Bool
        → Bytes
        → ℕ
        → List (Option Bytes)
        → Result (List (Option Bytes))
        → ObjectStore
        → Act RepairOutcome
    judge_if_read h dir repair par shard_size data_opt (err e) s = (err e, s)
    judge_if_read h dir repair par shard_size data_opt (ok parity_opt) s =
        judge h dir repair par shard_size data_opt parity_opt s

    -- the check with the parity file
    unfoldable pub check_object : Bytes → Bytes → Bool → Bytes → ObjectStore → Act RepairOutcome
    check_object h dir repair par s =
        if ltb (length par) parity_header_len
        then (err truncated_parity, s)
        else (let shard_size = from_le_bytes (slice 8 16 par) in
            let data_opt = check_data s.files dir 0 (header_hashes par 0 data_shards) in
            judge_if_read h dir repair par shard_size data_opt
              (check_parity par shard_size 0 (header_hashes par data_shards parity_shards)) s)

    abbrev pub check_if_parity :
        Bytes → Bytes → Bool → Option Bytes → ObjectStore → Act RepairOutcome
    check_if_parity h dir repair none s = (err missing_parity, s)
    check_if_parity h dir repair (some par) s = check_object h dir repair par s

    -- `ObjectStore::verify_object` at the location that the index gives
    abbrev pub verify_location :
        Bytes → Bool → Option ObjectLocation → ObjectStore → Act RepairOutcome
    verify_location h repair none s = (err object_not_found, s)
    verify_location h repair (some (ObjectLocation.individual path)) s =
        (ok RepairOutcome.unrecoverable, s)
    verify_location h repair (some (ObjectLocation.packfile id offset size)) s =
        (ok RepairOutcome.unrecoverable, s)
    verify_location h repair (some (ObjectLocation.sharded dir size)) s =
        check_if_parity h dir repair (lookup (parity h) s.files) s

    unfoldable pub verify_object : Bytes → Bool → ObjectStore → Act RepairOutcome
    verify_object h repair s = verify_location h repair (lookup h s.object_index) s
