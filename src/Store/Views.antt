-- ===== src/Store/Views.antt =====
-- Sealing changes where objects of object_store.rs lie, and not what is read.
use mathlib.Core.Path.{subst}
use obsidian_backup_server.Prelude.{
  ℕ, zero, suc, ◌+◌, ◌-◌, ◌*◌, ltb, ◌%◌, ◌<◌, ◌≡◌, ◌≢◌, ◌∙◌, refl, sym, true, false, ◌⊎◌, some, inl,
  inr, List, [], ◌∷◌, ◌++◌, Bytes, length, All, leb, le→leb, ◌==◌, Bool-cases, Option-cases, ok,
  arith,
}
use obsidian_backup_server.Prelude.Assoc.{lookup, insert, lookup-insert}
use obsidian_backup_server.Prelude.Text.{bytes_key}
use obsidian_backup_server.Prelude.Words.{u64_mod, u32_mod, add32, to_le_bytes}
use obsidian_backup_server.Store.{
  StorePath, object, shard, pack, idx, path_key, Files, ObjectLocation, ObjectStore, PackfileEntry,
  PackfileWriter,
}
use obsidian_backup_server.Store.Packfile
use obsidian_backup_server.Store.Objects.{
  Loose, individuals, pack_loose, index_entries, remove_loose, read_shards, read_range,
  read_location, read_object, finish_seal, seal_packfile, maybe_seal_packfiles, is_nil, sum_sizes,
}
use obsidian_backup_server.Store.Invariant.{
  Index, Distinct, Distinct-insert, Located, IsStore, IsLoose, has_loose, individuals-IsLoose,
  has_loose-individuals,
}
use obsidian_backup_server.Store.Sealing.{
  IsPacked, IsPacked-append, has_entry, sum_of, pack_loose-IsFilled, lookup-index_entries,
  lookup-remove_loose,
}

-- Both stores return the same for every hash.
abbrev pub SameView : ObjectStore → ObjectStore → Type 0
SameView s s' = (j : Bytes) → read_object s' j ≡ read_object s j

pub read_shards-frame :
    (files files' : Files) (dir : Bytes)
    → ((i : ℕ) → lookup (shard dir i) files' ≡ lookup (shard dir i) files)
    → (i n : ℕ) → read_shards files' dir i n ≡ read_shards files dir i n
unfolding read_shards
read_shards-frame files files' dir h i zero = refl
read_shards-frame files files' dir h i (suc n) =
    ground (arith, h i, read_shards-frame files files' dir h (i + 1) n)

-- What a seal of `loose` does to the files.
record Sealed (files files' : Files) (next : ℕ) (content : Bytes) : Type 0 where
  shards : (h : Bytes) (i : ℕ) → lookup (shard h i) files' ≡ lookup (shard h i) files
  packs : (id : ℕ) → id < next → lookup (pack id) files' ≡ lookup (pack id) files
  new_pack : lookup (pack next) files' ≡ some content

IsLoose-frame :
    (files files' : Files) (index : Index) (objects : List Loose)
    → ((h : Bytes) → lookup (object h) files' ≡ lookup (object h) files)
    → All (IsLoose files index) objects
    → All (IsLoose files' index) objects
IsLoose-frame files files' index [] same h = tt
IsLoose-frame files files' index ((h, p, size) ∷ rest) same
      ((e, indexed, content, found, sized), hs) =
    ((e, indexed, content, same h ∙ found, sized), IsLoose-frame files files' index rest same hs)

module _ (files : Files) (index : Index) (next : ℕ) (loose : List Loose)
    (good : All (IsLoose (insert (pack next) [] files) index) loose) (content text : Bytes) where
  before : Files
  before = insert (idx next) text (insert (pack next) content (insert (pack next) [] files))

  not_loose :
      (path : StorePath)
      → ((h : Bytes) → object h ≢ path)
      → lookup path (remove_loose loose before) ≡ lookup path before
  not_loose path other =
      lookup-remove_loose (insert (pack next) [] files) index path loose before other good

  Sealed-files : Sealed files (remove_loose loose before) next content
  unfolding before
  Sealed-files = record {
    shards = λ h i. not_loose (shard h i) (λ k e. cc) ∙ simp lookup-insert;
    packs = λ id low.
        let other : (next == id) ≡ false = ground arith in
        not_loose (pack id) (λ k e. cc) ∙ simp (lookup-insert, other);
    new_pack =
        let same : (next == next) ≡ true = ground arith in
        not_loose (pack next) (λ k e. cc) ∙ simp (lookup-insert, same);
  }

some_inj : {a b : ObjectLocation} → some a ≡ some b → a ≡ b
some_inj h = cc

module _ (s : ObjectStore) (valid : IsStore s) (files' : Files) (content : Bytes)
    (entries : List PackfileEntry) (sealed : Sealed s.files files' s.next_pack_id content)
    (packed : All (IsPacked s.files s.object_index content) entries)
    (covers : (j : Bytes)
      → has_entry j entries ≡ has_loose j (individuals s.files s.object_index)) where
  -- a location of the old index that is not loose
  kept :
      (j : Bytes) (loc : ObjectLocation)
      → has_entry j entries ≡ false
      → lookup j s.object_index ≡ some loc
      → (read_location files' loc ≡ read_location s.files loc)
        × Located files' (s.next_pack_id + 1) j loc
  unfolding read_location
  kept j (ObjectLocation.individual path) absent e =
      absurd (ground (arith, covers j, has_loose-individuals s.files j path s.object_index e))
  kept j (ObjectLocation.packfile id offset size) absent e =
      let (low, content, found, fits) = valid.located j _ e in
      let same = sealed.packs id low in
      (ground (arith, same), (omega arith, content, same ∙ found, fits))
  kept j (ObjectLocation.sharded dir size) absent e =
      let (same_dir, joined, read, fits) = valid.located j _ e in
      let same = read_shards-frame s.files files' dir (sealed.shards dir) 0 8 in
      (ground (arith, same), (same_dir, joined, same ∙ read, fits))

  -- a location that an entry gives
  moved :
      (j : Bytes) (e : PackfileEntry)
      → IsPacked s.files s.object_index content e
      → e.hash ≡ j
      → (read_location files' (ObjectLocation.packfile s.next_pack_id e.offset e.size)
          ≡ read_object s j)
        × Located files'
            (s.next_pack_id + 1)
            j
            (ObjectLocation.packfile s.next_pack_id e.offset e.size)
  unfolding read_location read_range read_object
  moved j e (fits, indexed, found) same =
      let l : leb e.size (length content - e.offset) ≡ true = le→leb _ _ (omega arith) in
      let i : lookup j s.object_index ≡ some (ObjectLocation.individual (object e.hash)) =
        subst (λ h. lookup h s.object_index ≡ some (ObjectLocation.individual (object e.hash))) same
          indexed in
      (ground (arith, sealed.new_pack, l, i, found), (omega arith, content, sealed.new_pack, fits))

  -- the store after the seal
  abbrev after : ObjectStore
  after = record s {
    next_pack_id = add32 s.next_pack_id 1;
    object_index = index_entries s.next_pack_id entries s.object_index;
    files = files';
  }

  after_lookup :
      (j : Bytes)
      → ((has_entry j entries ≡ false) × (lookup j after.object_index ≡ lookup j s.object_index))
        ⊎ ((e : PackfileEntry) × IsPacked s.files s.object_index content e
            × (e.hash ≡ j)
            × (lookup j after.object_index
                ≡ some (ObjectLocation.packfile s.next_pack_id e.offset e.size)))
  after_lookup j = lookup-index_entries _ s.next_pack_id entries s.object_index j packed

  after-SameView : SameView s after
  unfolding read_object
  after-SameView j = elim (after_lookup j) [
    | inl (absent, same) ↦ elim (Option-cases (lookup j s.object_index)) [
      | inl e ↦ ground (arith, same, e)
      | inr (loc, e) ↦ ground (arith, same, e, (kept j loc absent e).0)
    ]
    | inr (e, h, at, found) ↦ ground (arith, found, (moved j e h at).0)
  ]

  after-Located :
      add32 s.next_pack_id 1 ≡ s.next_pack_id + 1
      → (j : Bytes) (loc : ObjectLocation) → lookup j after.object_index ≡ some loc
      → Located files' (add32 s.next_pack_id 1) j loc
  after-Located n j loc e = elim (after_lookup j) [
    | inl (absent, same) ↦ rw n (kept j loc absent (sym same ∙ e)).1
    | inr (d, h, at, found) ↦ rw n (
        subst (Located files' (s.next_pack_id + 1) j) (some_inj (sym found ∙ e)) (moved j d h at).1)
  ]

Distinct-index_entries :
    (id : ℕ) (es : List PackfileEntry) (index : Index)
    → Distinct index
    → Distinct (index_entries id es index)
Distinct-index_entries id [] index d = d
Distinct-index_entries id (e ∷ es) index d =
    Distinct-index_entries id es _ (Distinct-insert e.hash _ index d)

IsPacked-frame :
    (files files' : Files) (index : Index) (written : Bytes) (es : List PackfileEntry)
    → ((h : Bytes) → lookup (object h) files' ≡ lookup (object h) files)
    → All (IsPacked files' index written) es
    → All (IsPacked files index written) es
IsPacked-frame files files' index written [] same h = tt
IsPacked-frame files files' index written (e ∷ es) same ((fits, indexed, found), hs) = (
  (fits, indexed, sym (same e.hash) ∙ found),
  IsPacked-frame files files' index written es same hs,
)

-- The ids of packs and the bytes of a pack stay in their machine words.
abbrev pub HasRoom : ObjectStore → Type 0
HasRoom s = (s.next_pack_id + 1 < u32_mod) × (sum_of (individuals s.files s.object_index) < u64_mod)

-- A store that follows another with the same contents.
pub record Follows (s s' : ObjectStore) : Type 0 where
  pub valid : IsStore s'
  pub view : SameView s s'

module _ (crc32c_append : ℕ → Bytes → ℕ) (s : ObjectStore) (valid : IsStore s)
    (room : HasRoom s) where
  seal_run :
      (w : PackfileWriter)
      → (let loose = individuals s.files s.object_index in
          let (w0, files) =
            Packfile.new s.next_pack_id s.config.packfile.max_packfile_size_mb s.files in
          pack_loose crc32c_append files loose w0 ≡ (ok tt, w)
          → w.pack_id ≡ s.next_pack_id
          → seal_packfile crc32c_append loose s ≡ (
            ok tt,
            record s {
              next_pack_id = add32 s.next_pack_id 1;
              object_index = index_entries s.next_pack_id w.index s.object_index;
              files = remove_loose loose (
                  insert (idx s.next_pack_id) (Packfile.idx_text w.index) (
                    insert
                      (pack s.next_pack_id)
                      (w.written ++ to_le_bytes 4 w.crc)
                      (insert (pack s.next_pack_id) [] s.files)));
            },
          ))
  unfolding seal_packfile finish_seal Packfile.new Packfile.seal
  seal_run w run same = ground (arith, run, same)

  pub seal_packfile-Follows :
      (s' : ObjectStore) × (seal_packfile crc32c_append (individuals s.files s.object_index) s
        ≡ (ok tt, s'))
      × Follows s s'
  unfolding Packfile.new before
  seal_packfile-Follows =
      let index = s.object_index in
      let next = s.next_pack_id in
      let loose = individuals s.files index in
      let w0 = (Packfile.new next s.config.packfile.max_packfile_size_mb s.files).0 in
      let files1 = insert (pack next) [] s.files in
      let same : (h : Bytes) → lookup (object h) files1 ≡ lookup (object h) s.files =
        λ h. simp lookup-insert in
      let good = IsLoose-frame s.files files1 index loose same (
        individuals-IsLoose s.files index next valid.located index valid.distinct (λ h loc e. e)) in
      let (w, run, filled) =
        pack_loose-IsFilled crc32c_append files1 index loose w0 good refl (omega (arith, room.1))
          tt in
      let content = w.written ++ to_le_bytes 4 w.crc in
      let sealed = Sealed-files s.files index next loose good content (Packfile.idx_text w.index) in
      let packed =
        IsPacked-frame s.files files1 index content w.index same
          (IsPacked-append files1 index w.written (to_le_bytes 4 w.crc) w.index filled.packed) in
      let small : add32 next 1 ≡ next + 1 = omega (arith, room.0) in
      (
        _,
        seal_run w run filled.same_id,
        record {
          valid = record {
            distinct = Distinct-index_entries next w.index index valid.distinct;
            located = after-Located s valid _ content w.index sealed packed filled.covers small;
          };
          view = after-SameView s valid _ content w.index sealed packed filled.covers;
        },
      )

  -- Sealing the loose objects when they reach the threshold succeeds, and whether or not it happens
  -- the store keeps its invariant and returns the same for every hash. The store satisfies its
  -- invariant before, a pack id is left below 2^32, and the sizes of the loose objects sum to less
  -- than 2^64.
  pub maybe_seal_packfiles-Follows :
      (s' : ObjectStore) × (maybe_seal_packfiles crc32c_append s ≡ (ok tt, s')) × Follows s s'
  unfolding maybe_seal_packfiles
  maybe_seal_packfiles-Follows =
      let loose = individuals s.files s.object_index in
      let threshold = (s.config.packfile.max_packfile_size_mb * 1024 * 1024) % u64_mod in
      let as_it_was : Follows s s = record { valid = valid; view = λ j. refl } in
      elim (Bool-cases (is_nil loose)) [
        | inl none_loose ↦ (s, rw none_loose, as_it_was)
        | inr some_loose ↦ elim (Bool-cases (ltb (sum_sizes loose) threshold)) [
          | inl below ↦ (s, rw (some_loose, below), as_it_was)
          | inr full ↦
              let (s', run, follows) = seal_packfile-Follows in
              (s', rw (some_loose, full) run, follows)
        ]
      ]
