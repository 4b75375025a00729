-- ===== src/Store/Writing/Object.antt =====
-- `write_object` of object_store.rs, as a whole.
use mathlib.Core.Path.{subst}
use obsidian_backup_server.Prelude.{
  ℕ, ◌+◌, ◌≤◌, ◌<◌, ◌≡◌, ◌≢◌, ◌∙◌, refl, ap, true, false, none, some, inl, inr, [], ◌∷◌, Bytes,
  length, length-take, take, flatten, if_true, if_false, Error, Bool-cases, Option-cases, ok, err,
  empty_object, arith,
}
use obsidian_backup_server.Prelude.Assoc.{lookup, insert, lookup-insert, same_refl}
use obsidian_backup_server.Prelude.Text.{bytes_eq_iff, bytes_key}
use obsidian_backup_server.Prelude.Words.{add64, u64_mod, u32_mod}
use obsidian_backup_server.Erasure.{ReedSolomon, EncodedObject, encode}
use obsidian_backup_server.Erasure.Codec.{IsEncoding, encode-IsEncoding, encode-empty}
use obsidian_backup_server.Store.{
  StorePath, object, shard, parity, pack, path_key, Files, ObjectLocation, ObjectStore,
}
use obsidian_backup_server.Store.Objects.{
  contains_object, read_shards, read_location, read_object, write_individual_object, write_shards,
  store_encoded, parity_body, write_sharded_object, write_object, count_and_seal, then_seal,
  individuals, file_size,
}
use obsidian_backup_server.Store.Invariant.{Index, Distinct, IsStore}
use obsidian_backup_server.Store.Sealing.{sum_of}
use obsidian_backup_server.Store.Views.{
  read_shards-frame, HasRoom, Follows, SameView, maybe_seal_packfiles-Follows,
}
use obsidian_backup_server.Store.Writing.{Writes, put-Writes, write_individual_object-Writes}
use obsidian_backup_server.Store.Writing.Shards.{
  write_shards-object, write_shards-pack, write_shards-other, read_shards-write_shards,
}

length-take-le : (n : ℕ) (bs : Bytes) → length (take n bs) ≤ length bs
length-take-le n bs = omega (arith, length-take n bs)

module _ (rs : ReedSolomon) (digest : Bytes → Bytes) (s : ObjectStore) (valid : IsStore s)
    (h content : Bytes) where
  store_encoded-Writes :
      (enc : EncodedObject)
      → IsEncoding rs content enc
      → Writes h content s (store_encoded digest h enc s)
  unfolding store_encoded read_location
  store_encoded-Writes enc e =
      let files1 = write_shards h 0 enc.data_shards s.files in
      let body = parity_body digest enc in
      let read : read_shards (insert (parity h) body files1) h 0 8 ≡ ok (flatten enc.data_shards) =
        read_shards-frame files1 _ h (λ i. lookup-insert (parity h) (shard h i) body files1) 0 8
        ∙ subst (λ n. read_shards files1 h 0 n ≡ ok (flatten enc.data_shards)) e.data_count
            (read_shards-write_shards h 0 enc.data_shards s.files) in
      let size : enc.original_size ≤ length (flatten enc.data_shards) = omega (
        arith,
        e.original,
        ap length e.joined,
        length-take-le enc.original_size (flatten enc.data_shards),
      ) in
      put-Writes s valid h (insert (parity h) body files1)
        (record {
          objects = λ j ne.
              lookup-insert (parity h) (object j) body files1
              ∙ write_shards-object h 0 enc.data_shards s.files j;
          shards = λ j ne i.
              lookup-insert (parity h) (shard j i) body files1
              ∙ write_shards-other h 0 enc.data_shards s.files j i ne;
          packs = λ id.
              lookup-insert (parity h) (pack id) body files1
              ∙ write_shards-pack h 0 enc.data_shards s.files id;
        })
        (ObjectLocation.sharded h enc.original_size) content _
        (refl, flatten enc.data_shards, read, size) (ground (arith, read, e.joined))

-- The sizes of the loose objects, once a new object of at most `n` bytes is in the index.
module _ (files files' : Files) (h : Bytes) (loc : ObjectLocation) (n : ℕ) where
  sum_of-insert :
      (m : Index)
      → ((j : Bytes) (path : StorePath)
          → lookup j m ≡ some (ObjectLocation.individual path)
          → file_size files' path ≡ file_size files path)
      → Distinct m
      → lookup h m ≡ none
      → sum_of (individuals files' ((h, loc) ∷ [])) ≤ n
      → sum_of (individuals files' (insert h loc m)) ≤ sum_of (individuals files m) + n
  unfolding individuals
  sum_of-insert [] same d fresh le = ground arith
  sum_of-insert ((j, ObjectLocation.individual path) ∷ m) same d fresh le =
      let here = same j path (ground (arith, same_refl j)) in
      let rest =
        sum_of-insert m (λ k p e. same k p (ground (arith, bytes_eq_iff j k, d.0))) d.1
          (ground (arith, bytes_eq_iff j h)) le in
      ground (arith, here, rest)
  sum_of-insert ((j, ObjectLocation.packfile _ _ _) ∷ m) same d fresh le =
      let rest =
        sum_of-insert m (λ k p e. same k p (ground (arith, bytes_eq_iff j k, d.0))) d.1
          (ground (arith, bytes_eq_iff j h)) le in
      ground (arith, rest)
  sum_of-insert ((j, ObjectLocation.sharded _ _) ∷ m) same d fresh le =
      let rest =
        sum_of-insert m (λ k p e. same k p (ground (arith, bytes_eq_iff j k, d.0))) d.1
          (ground (arith, bytes_eq_iff j h)) le in
      ground (arith, rest)

-- The ids of packs stay in their word, and the bytes of the loose objects and of `n` more do.
abbrev pub HasRoomFor : ℕ → ObjectStore → Type 0
HasRoomFor n s =
    (s.next_pack_id + 1 < u32_mod) × (sum_of (individuals s.files s.object_index) + n < u64_mod)

module _ (s : ObjectStore) (valid : IsStore s) (h : Bytes)
    (fresh : contains_object s h ≡ false) where
  not_found : lookup h s.object_index ≡ none
  unfolding contains_object
  not_found = ground (arith, Option-cases (lookup h s.object_index))

  fits_after :
      (files' : Files) (loc : ObjectLocation) (n : ℕ)
      → ((j : Bytes) → h ≢ j → lookup (object j) files' ≡ lookup (object j) s.files)
      → sum_of (individuals files' ((h, loc) ∷ [])) ≤ n
      → sum_of (individuals files' (insert h loc s.object_index))
        ≤ sum_of (individuals s.files s.object_index) + n
  fits_after files' loc n same le =
      sum_of-insert s.files files' h loc n s.object_index
        (λ j path e.
          let here = (valid.located j (ObjectLocation.individual path) e).0 in
          let other : h ≢ j = λ q. ground (arith, not_found, e, q) in
          rw here (ground (arith, same j other)))
        valid.distinct not_found le

-- Sealing keeps what a write has stored.
Writes-Follows :
    (h content : Bytes) (s s1 s2 : ObjectStore)
    → Writes h content s s1
    → Follows s1 s2
    → Writes h content s s2
Writes-Follows h content s s1 s2 w f = record {
  valid = f.valid;
  written = f.view h ∙ w.written;
  others = λ j ne. f.view j ∙ w.others j ne;
}

module _ (rs : ReedSolomon) (digest : Bytes → Bytes) (h content : Bytes) (s : ObjectStore) where
  write_sharded_object-ok :
      (enc : EncodedObject)
      → encode rs content ≡ ok enc
      → write_sharded_object digest rs h content s ≡ (ok tt, store_encoded digest h enc s)
  unfolding write_sharded_object
  write_sharded_object-ok enc e = rw (e, write_sharded_object) refl

  write_sharded_object-err :
      (e : Error)
      → encode rs content ≡ err e
      → write_sharded_object digest rs h content s ≡ (err e, s)
  unfolding write_sharded_object
  write_sharded_object-err e failed = rw (failed, write_sharded_object) refl

module _ (rs : ReedSolomon) (digest : Bytes → Bytes) (crc32c_append : ℕ → Bytes → ℕ) where
  -- what follows the write
  counted :
      (h content : Bytes) (s s1 : ObjectStore) (raw : ℕ)
      → Writes h content s s1
      → HasRoom s1
      → (s' : ObjectStore) × (count_and_seal crc32c_append raw s1 ≡ (ok tt, s'))
        × Writes h content s s'
  unfolding read_object
  counted h content s s1 raw w room =
      let s2 : ObjectStore = record s1 { total_raw_bytes = add64 s1.total_raw_bytes raw } in
      let valid2 : IsStore s2 = record { distinct = w.valid.distinct; located = w.valid.located } in
      let (s', run, follows) = maybe_seal_packfiles-Follows crc32c_append s2 valid2 room in
      (
        s',
        run,
        Writes-Follows h content s s1 s' w (record { valid = follows.valid; view = follows.view }),
      )

  individual_case :
      (s : ObjectStore)
      → IsStore s
      → (h content : Bytes) (raw : ℕ) → contains_object s h ≡ false
      → HasRoomFor (length content) s
      → (s' : ObjectStore) × (count_and_seal crc32c_append raw (write_individual_object h content s)
          ≡ (ok tt, s'))
        × Writes h content s s'
  unfolding write_individual_object individuals
  individual_case s valid h content raw fresh room =
      let files' = insert (object h) content s.files in
      let size : file_size files' (object h) ≡ length content =
        ground (arith, lookup-insert (object h) (object h) content s.files, same_refl h) in
      let le =
        fits_after s valid h fresh files' (ObjectLocation.individual (object h)) (length content)
          (λ j ne.
            ground (arith, lookup-insert (object h) (object j) content s.files, bytes_eq_iff h j))
          (omega (arith, size)) in
      counted h content s _ raw (write_individual_object-Writes s valid h content)
        (room.0, omega (arith, room.1, le))

  sharded_case :
      (s : ObjectStore)
      → IsStore s
      → (h content : Bytes) (raw : ℕ) → contains_object s h ≡ false
      → HasRoomFor (length content) s
      → 0 < length content
      → (s' : ObjectStore) × (then_seal crc32c_append raw
            (write_sharded_object digest rs h content s)
          ≡ (ok tt, s'))
        × Writes h content s s'
  unfolding write_sharded_object store_encoded individuals
  sharded_case s valid h content raw fresh room pos =
      let (enc, run, e) = encode-IsEncoding rs content pos in
      let files' =
        insert (parity h) (parity_body digest enc) (write_shards h 0 enc.data_shards s.files) in
      let le =
        fits_after s valid h fresh files' (ObjectLocation.sharded h enc.original_size)
          (length content)
          (λ j ne.
            lookup-insert (parity h) (object j) (parity_body digest enc)
              (write_shards h 0 enc.data_shards s.files)
            ∙ write_shards-object h 0 enc.data_shards s.files j)
          (omega arith) in
      let (s', sealed, w) =
        counted h content s _ raw (store_encoded-Writes rs digest s valid h content enc e)
          (room.0, omega (arith, room.1, le)) in
      (
        s',
        ap (then_seal crc32c_append raw) (write_sharded_object-ok rs digest h content s enc run)
            ∙ sealed,
        w,
      )

  -- Writing a new hash with a content that is not empty succeeds, whether or not erasure coding is on
  -- and whether or not the loose objects are sealed into a packfile on the way. Afterwards the store
  -- satisfies its invariant, the hash reads back as the content, and every other hash reads as
  -- before. The store satisfies its invariant before, a pack id is left below 2^32, and the sizes of
  -- the loose objects and of the new one sum to less than 2^64.
  pub write_object-Writes :
      (s : ObjectStore) (h content : Bytes) (raw : ℕ)
      → IsStore s
      → HasRoomFor (length content) s
      → contains_object s h ≡ false
      → 0 < length content
      → (s' : ObjectStore) × (write_object crc32c_append rs digest h content raw s ≡ (ok tt, s'))
        × Writes h content s s'
  unfolding write_object
  write_object-Writes s h content raw valid room fresh pos =
      elim (Bool-cases s.config.erasure_coding.enabled) [
        | inl on ↦
            let (s', run, w) = sharded_case s valid h content raw fresh room pos in
            (s', if_false _ _ fresh ∙ (if_true _ _ on ∙ run), w)
        | inr off ↦
            let (s', run, w) = individual_case s valid h content raw fresh room in
            (s', if_false _ _ fresh ∙ (if_false _ _ off ∙ run), w)
      ]

  -- Writing a hash that the store has succeeds and changes nothing that is read, whatever the
  -- content; it counts the raw bytes. With erasure coding on, a new empty object is refused and the
  -- store is as before.
  pub write_object-unchanged :
      (s : ObjectStore) (h content : Bytes) (raw : ℕ)
      → (contains_object s h ≡ true
          → (s' : ObjectStore) × (write_object crc32c_append rs digest h content raw s
              ≡ (ok tt, s'))
            × SameView s s'
            × (s'.files ≡ s.files)
            × (s'.total_raw_bytes ≡ add64 s.total_raw_bytes raw))
        × (contains_object s h ≡ false
            → s.config.erasure_coding.enabled ≡ true
            → write_object crc32c_append rs digest h [] raw s ≡ (err empty_object, s))
  unfolding write_object write_sharded_object read_object
  write_object-unchanged s h content raw = (
    λ e. (_, if_true _ _ e, λ j. refl, refl, refl),
    λ e on.
        if_false _ _ e
        ∙ (if_true _ _ on
            ∙ ap (then_seal crc32c_append raw)
                (write_sharded_object-err rs digest h [] s empty_object (encode-empty rs))),
  )
