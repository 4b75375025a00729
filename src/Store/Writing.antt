-- ===== src/Store/Writing.antt =====
-- `write_object` of object_store.rs: the object can be read back, and all others read as before.
pub mod Shards
pub mod Object
use mathlib.Core.Path.{subst}
use obsidian_backup_server.Prelude.{
  ℕ, zero, suc, ◌+◌, ◌≤◌, ◌<◌, ◌≡◌, ◌≢◌, ◌∙◌, refl, sym, ap, Bool, true, false, Option, none, some,
  inl, inr, List, [], ◌∷◌, ◌++◌, Bytes, length, take, flatten, if◌then◌else◌, Bool-cases,
  Option-cases, Result, ok, err, ◌>>=◌, object_not_found, arith,
}
use obsidian_backup_server.Prelude.Assoc.{lookup, insert, lookup-insert, same_refl, same_of_false}
use obsidian_backup_server.Prelude.Text.{bytes_eq, bytes_eq_iff, bytes_key}
use obsidian_backup_server.Prelude.Words.{add64}
use obsidian_backup_server.Erasure.{ReedSolomon, EncodedObject}
use obsidian_backup_server.Store.{
  StorePath, object, shard, parity, pack, path_key, path_eq, path_eq_iff, Files, ObjectLocation,
  ObjectStore,
}
use obsidian_backup_server.Store.Objects.{
  contains_object, read_shards, read_location, read_object, write_individual_object, write_shards,
  store_encoded, parity_body,
}
use obsidian_backup_server.Store.Invariant.{Index, Distinct-insert, Located, IsStore}
use obsidian_backup_server.Store.Views.{read_shards-frame}

some_inj : {a b : ObjectLocation} → some a ≡ some b → a ≡ b
some_inj h = cc

-- One hash is written, and the others read as before.
pub record Writes (h content : Bytes) (s s' : ObjectStore) : Type 0 where
  pub valid : IsStore s'
  pub written : read_object s' h ≡ ok content
  pub others : (j : Bytes) → h ≢ j → read_object s' j ≡ read_object s j

-- What a write at `h` does to the files of other objects.
pub record Leaves (files files' : Files) (h : Bytes) : Type 0 where
  pub objects : (j : Bytes) → h ≢ j → lookup (object j) files' ≡ lookup (object j) files
  pub shards : (j : Bytes) → h ≢ j → (i : ℕ) → lookup (shard j i) files' ≡ lookup (shard j i) files
  pub packs : (id : ℕ) → lookup (pack id) files' ≡ lookup (pack id) files

module _ (s : ObjectStore) (valid : IsStore s) (h : Bytes) (files' : Files)
    (leaves : Leaves s.files files' h) where
  pub location_kept :
      (j : Bytes) (loc : ObjectLocation)
      → h ≢ j
      → lookup j s.object_index ≡ some loc
      → (read_location files' loc ≡ read_location s.files loc) × Located files' s.next_pack_id j loc
  unfolding read_location
  location_kept j (ObjectLocation.individual path) ne e =
      let (p, content, found) = valid.located j _ e in
      let same = leaves.objects j ne in (rw p (ground (arith, same)), (p, content, same ∙ found))
  location_kept j (ObjectLocation.packfile id offset size) ne e =
      let (low, content, found, fits) = valid.located j _ e in
      let same = leaves.packs id in (ground (arith, same), (low, content, same ∙ found, fits))
  location_kept j (ObjectLocation.sharded dir size) ne e =
      let (same_dir, joined, read, fits) = valid.located j _ e in
      let ne' : h ≢ dir = λ q. ne (q ∙ same_dir) in
      let same = read_shards-frame s.files files' dir (leaves.shards dir ne') 0 8 in
      (ground (arith, same), (same_dir, joined, same ∙ read, fits))

  -- The store with a new location for `h`.
  module _ (loc : ObjectLocation) (content : Bytes) (total : ℕ)
      (located : Located files' s.next_pack_id h loc)
      (read : read_location files' loc ≡ ok content) where
    abbrev pub put : ObjectStore
    put = record s {
      files = files';
      total_bytes = total;
      object_index = insert h loc s.object_index;
    }

    put-Located :
        (j : Bytes) (l : ObjectLocation)
        → lookup j (insert h loc s.object_index) ≡ some l
        → Located files' s.next_pack_id j l
    put-Located j l e = elim (Bool-cases (bytes_eq h j)) [
      | inl same ↦
          let found : some loc ≡ some l = ground (arith, lookup-insert h j loc s.object_index) in
          subst (Located files' s.next_pack_id j) (some_inj found)
            (subst (λ k. Located files' s.next_pack_id k loc) ((bytes_eq_iff h j).0 same) located)
      | inr other ↦
          let found : lookup j s.object_index ≡ some l =
            ground (arith, lookup-insert h j loc s.object_index) in
          (location_kept j l (same_of_false other) found).1
    ]

    put_others : (j : Bytes) → h ≢ j → read_object put j ≡ read_object s j
    unfolding read_object
    put_others j ne = elim (Option-cases (lookup j s.object_index)) [
      | inl e ↦ ground (arith, e, lookup-insert h j loc s.object_index, bytes_eq_iff h j)
      | inr (l, e) ↦ ground (
        arith,
        e,
        lookup-insert h j loc s.object_index,
        bytes_eq_iff h j,
        (location_kept j l ne e).0,
      )
    ]

    put_read : read_object put h ≡ ok content
    unfolding read_object
    put_read = ground (arith, lookup-insert h h loc s.object_index, same_refl h, read)

    pub put-Writes : Writes h content s put
    put-Writes = record {
      valid = record {
        distinct = Distinct-insert h loc s.object_index valid.distinct;
        located = put-Located;
      };
      written = put_read;
      others = put_others;
    }

-- A new hash is a loose object.
pub write_individual_object-Writes :
    (s : ObjectStore)
    → IsStore s
    → (h content : Bytes) → Writes h content s (write_individual_object h content s)
unfolding write_individual_object read_location
write_individual_object-Writes s valid h content =
    let files' = insert (object h) content s.files in
    let same : lookup (object h) files' ≡ some content =
      ground (arith, lookup-insert (object h) (object h) content s.files, same_refl h) in
    put-Writes s valid h files'
      (record {
        objects = λ j ne.
            ground (arith, lookup-insert (object h) (object j) content s.files, bytes_eq_iff h j);
        shards = λ j ne i. ground (arith, lookup-insert (object h) (shard j i) content s.files);
        packs = λ id. ground (arith, lookup-insert (object h) (pack id) content s.files);
      })
      (ObjectLocation.individual (object h)) content _ (refl, content, same) (ground (arith, same))
