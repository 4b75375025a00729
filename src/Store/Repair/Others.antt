-- ===== src/Store/Repair/Others.antt =====
-- What `verify_object` of object_store.rs leaves alone.
use mathlib.Core.Path.{subst}
use obsidian_backup_server.Prelude.{
  ℕ, ◌≡◌, ◌≢◌, ◌∙◌, refl, sym, ap, Bool, true, false, ◌⊎◌, Option, none, some, inl, inr, List, ◌++◌,
  Bytes, Result, ok, err, Option-cases, Bool-cases, length, ltb, ◌==◌, if_true, if_false, take,
  flatten, arith,
}
use obsidian_backup_server.Prelude.Assoc.{lookup, lookup-insert}
use obsidian_backup_server.Prelude.Text.{bytes_key}
use obsidian_backup_server.Erasure.{ReedSolomon, parity_shards, missing, reconstruct}
use obsidian_backup_server.Store.{
  object, shard, pack, parity, path_key, ObjectLocation, RepairOutcome, ObjectStore, Act,
  parity_header_len,
}
use obsidian_backup_server.Store.Objects.{read_object, write_shards}
use obsidian_backup_server.Store.Invariant.{IsStore}
use obsidian_backup_server.Store.Writing.{Leaves, location_kept}
use obsidian_backup_server.Store.Writing.Shards.{
  write_shards-object, write_shards-pack, write_shards-other,
}
use obsidian_backup_server.Store.Repair.{
  repaired_files, rebuild, judge, judge_if_read, check_if_parity, check_object, verify_location,
  verify_object,
}

module _ (digest : Bytes → Bytes) (rs : ReedSolomon) (h : Bytes) (repair : Bool)
    (s : ObjectStore) where
  -- The store is as it was, or it has been repaired.
  abbrev Repairs : Bytes → ObjectStore → Type 0
  Repairs dir s' =
      (s' ≡ s)
      ⊎ ((repair ≡ true)
          × (par : Bytes) × (shards : List Bytes) × (parities : List Bytes) × (s'
              ≡ record s { files = repaired_files digest h dir par shards parities s.files }))

  rebuild-Repairs :
      (dir par : Bytes) (r : Result (List Bytes × List Bytes))
      → repair ≡ true
      → Repairs dir (rebuild digest rs h dir par r s).1
  rebuild-Repairs dir par (err e) on = inl refl
  rebuild-Repairs dir par (ok (shards, parities)) on = inr (on, par, shards, parities, refl)

  same_store :
      (dir : Bytes) (a : Act RepairOutcome) {r : Result RepairOutcome}
      → a ≡ (r, s)
      → Repairs dir a.1
  same_store dir a e = inl (ap (λ x. x.1) e)

  judge-Repairs :
      (dir par : Bytes) (shard_size : ℕ) (data_opt parity_opt : List (Option Bytes))
      → Repairs dir (judge digest rs h dir repair par shard_size data_opt parity_opt s).1
  unfolding judge
  judge-Repairs dir par shard_size data_opt parity_opt =
      let corrupted = missing (data_opt ++ parity_opt) in
      elim (Bool-cases (corrupted == 0)) [
        | inl healthy ↦ same_store dir _ (if_true _ _ healthy)
        | inr broken ↦ elim (Bool-cases repair) [
          | inr off ↦ same_store dir _ (if_false _ _ broken ∙ if_false _ _ off)
          | inl on ↦ elim (Bool-cases (ltb parity_shards corrupted)) [
            | inl many ↦
                same_store dir _ (if_false _ _ broken ∙ (if_true _ _ on ∙ if_true _ _ many))
            | inr few ↦
                subst (λ (a : Act RepairOutcome). Repairs dir a.1)
                  (sym (if_false _ _ broken ∙ (if_true _ _ on ∙ if_false _ _ few)))
                  (rebuild-Repairs dir par (reconstruct rs data_opt parity_opt shard_size) on)
          ]
        ]
      ]

  judge_if_read-Repairs :
      (dir par : Bytes) (shard_size : ℕ) (data_opt : List (Option Bytes))
      (r : Result (List (Option Bytes)))
      → Repairs dir (judge_if_read digest rs h dir repair par shard_size data_opt r s).1
  judge_if_read-Repairs dir par shard_size data_opt (err e) = inl refl
  judge_if_read-Repairs dir par shard_size data_opt (ok parity_opt) =
      judge-Repairs dir par shard_size data_opt parity_opt

  check_object-Repairs :
      (dir par : Bytes) → Repairs dir (check_object digest rs h dir repair par s).1
  unfolding check_object
  check_object-Repairs dir par = elim (Bool-cases (ltb (length par) parity_header_len)) [
    | inl short ↦ same_store dir _ (if_true _ _ short)
    | inr long ↦
        subst (λ (a : Act RepairOutcome). Repairs dir a.1) (sym (if_false _ _ long))
          (judge_if_read-Repairs dir par _ _ _)
  ]

  check_if_parity-Repairs :
      (dir : Bytes) (par : Option Bytes)
      → Repairs dir (check_if_parity digest rs h dir repair par s).1
  check_if_parity-Repairs dir none = inl refl
  check_if_parity-Repairs dir (some par) = check_object-Repairs dir par

  -- A repair writes to no file of another object.
  Leaves-repaired_files :
      (par : Bytes) (shards parities : List Bytes)
      → Leaves s.files (repaired_files digest h h par shards parities s.files) h
  unfolding repaired_files
  Leaves-repaired_files par shards parities =
      let body = take parity_header_len par ++ flatten parities in
      let files1 = write_shards h 0 shards s.files in
      record {
        objects = λ j ne.
            lookup-insert (parity h) (object j) body files1
            ∙ write_shards-object h 0 shards s.files j;
        shards = λ j ne i.
            lookup-insert (parity h) (shard j i) body files1
            ∙ write_shards-other h 0 shards s.files j i ne;
        packs = λ id.
            lookup-insert (parity h) (pack id) body files1
            ∙ write_shards-pack h 0 shards s.files id;
      }

  Repairs-others :
      (s' : ObjectStore)
      → IsStore s
      → Repairs h s'
      → (j : Bytes) → h ≢ j
      → read_object s' j ≡ read_object s j
  unfolding read_object
  Repairs-others s' valid (inl same) j ne = ap (λ (x : ObjectStore). read_object x j) same
  Repairs-others s' valid (inr (on, par, shards, parities, same)) j ne =
      ap (λ (x : ObjectStore). read_object x j) same
      ∙ elim (Option-cases (lookup j s.object_index)) [
        | inl e ↦ ground (arith, e)
        | inr (l, e) ↦ ground (
          arith,
          e,
          (location_kept s valid h _ (Leaves-repaired_files par shards parities) j l ne e).0,
        )
      ]

  -- The check writes at most to the files of the object.
  verify_location-Repairs :
      IsStore s
      → (loc : Option ObjectLocation) → lookup h s.object_index ≡ loc
      → Repairs h (verify_location digest rs h repair loc s).1
  verify_location-Repairs valid none e = inl refl
  verify_location-Repairs valid (some (ObjectLocation.individual path)) e = inl refl
  verify_location-Repairs valid (some (ObjectLocation.packfile id offset size)) e = inl refl
  verify_location-Repairs valid (some (ObjectLocation.sharded dir size)) e =
      subst
        (λ d.
          Repairs h (verify_location digest rs h repair (some (ObjectLocation.sharded d size)) s).1)
        (sym (valid.located h _ e).0) (check_if_parity-Repairs h (lookup (parity h) s.files))

not_both : {A : Type 0} {b : Bool} → b ≡ true → b ≡ false → A
not_both h k = cc

-- Whatever the damage and whatever the outcome, errors included, verifying an object changes what no
-- other hash reads as and keeps the index; without repair it changes nothing at all. The store
-- satisfies its invariant before.
pub verify_object-others :
    (digest : Bytes → Bytes) (rs : ReedSolomon) (h : Bytes) (repair : Bool) (s : ObjectStore)
    → IsStore s
    → ((j : Bytes) → h ≢ j → read_object (verify_object digest rs h repair s).1 j ≡ read_object s j)
      × ((verify_object digest rs h repair s).1.object_index ≡ s.object_index)
      × (repair ≡ false → (verify_object digest rs h repair s).1 ≡ s)
unfolding verify_object
verify_object-others digest rs h repair s valid =
    let r = verify_location-Repairs digest rs h repair s valid (lookup h s.object_index) refl in
    (
      λ j ne. Repairs-others digest rs h repair s _ valid r j ne,
      elim r [
        | inl same ↦ ap (λ (x : ObjectStore). x.object_index) same
        | inr (on, par, shards, parities, same) ↦ ap (λ (x : ObjectStore). x.object_index) same
      ],
      λ off. elim r [ inl same ↦ same | inr (on, par, shards, parities, same) ↦ not_both on off ],
    )
