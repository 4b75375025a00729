-- ===== src/Store/Sealing.antt =====
-- `seal_packfile` of object_store.rs: the pack holds the bytes of every loose object, at the place
-- that its entry names.
use obsidian_backup_server.Prelude.{
  ℕ, zero, suc, ◌+◌, ◌≤◌, ◌<◌, ◌≡◌, ◌≢◌, ◌∙◌, refl, sym, ap, Bool, false, ◌||◌, ◌⊎◌, some, inl, inr,
  List, [], ◌∷◌, ◌++◌, Bytes, length, length-append, take, drop, drop-append, take_of_length-le,
  All, All-append, Bool-cases, ok, arith,
}
use obsidian_backup_server.Prelude.Assoc.{lookup, insert, remove, lookup-insert, lookup-remove}
use obsidian_backup_server.Prelude.Text.{bytes_eq, bytes_eq_iff, bytes_key}
use obsidian_backup_server.Prelude.Words.{u64_mod}
use obsidian_backup_server.Store.{
  StorePath, object, path_key, path_eq, path_eq_iff, Files, ObjectLocation, PackfileEntry,
  PackfileWriter,
}
use obsidian_backup_server.Store.Packfile
use obsidian_backup_server.Store.Objects.{Loose, pack_loose, index_entries, remove_loose}
use obsidian_backup_server.Store.Invariant.{Index, IsLoose, has_loose}

-- The entry of a loose object whose file is at its place in the pack.
abbrev pub IsPacked : Files → Index → Bytes → PackfileEntry → Type 0
IsPacked files index written e =
    (e.offset + e.size ≤ length written)
    × (lookup e.hash index ≡ some (ObjectLocation.individual (object e.hash)))
    × (lookup (object e.hash) files ≡ some (take e.size (drop e.offset written)))

take-drop-append {ℓ} :
    {A : Type ℓ} (offset size : ℕ) (xs ys : List A)
    → offset + size ≤ length xs
    → take size (drop offset (xs ++ ys)) ≡ take size (drop offset xs)
take-drop-append zero zero xs ys h = refl
take-drop-append zero (suc n) [] ys h = absurd (omega arith)
take-drop-append zero (suc n) (x ∷ xs) ys h =
    ap (λ l. x ∷ l) (take-drop-append zero n xs ys (omega arith))
take-drop-append (suc k) n [] ys h = absurd (omega arith)
take-drop-append (suc k) n (x ∷ xs) ys h = take-drop-append k n xs ys (omega arith)

module _ (files : Files) (index : Index) where
  pub IsPacked-append :
      (written more : Bytes) (es : List PackfileEntry)
      → All (IsPacked files index written) es
      → All (IsPacked files index (written ++ more)) es
  IsPacked-append written more [] h = tt
  IsPacked-append written more (e ∷ es) (h, rest) = (
    (
      omega (arith, h.0, length-append written more),
      h.1,
      rw (take-drop-append e.offset e.size written more h.0) h.2,
    ),
    IsPacked-append written more es rest,
  )

abbrev pub has_entry : Bytes → List PackfileEntry → Bool
has_entry j [] = false
has_entry j (e ∷ es) = bytes_eq e.hash j || has_entry j es

has_entry-snoc :
    (j : Bytes) (es : List PackfileEntry) (e : PackfileEntry)
    → has_entry j (es ++ e ∷ []) ≡ has_entry j es || bytes_eq e.hash j
has_entry-snoc j [] e = ground arith
has_entry-snoc j (d ∷ es) e = ground (arith, has_entry-snoc j es e)

abbrev pub sum_of : List Loose → ℕ
sum_of [] = 0
sum_of ((h, path, size) ∷ rest) = size + sum_of rest

-- What the loop leaves in the writer.
pub record IsFilled (files : Files) (index : Index) (w w' : PackfileWriter) (objects : List Loose)
    : Type 0 where
  pub same_id : w'.pack_id ≡ w.pack_id
  pub packed : All (IsPacked files index w'.written) w'.index
  pub covers : (j : Bytes) → has_entry j w'.index ≡ has_entry j w.index || has_loose j objects

module _ (crc32c_append : ℕ → Bytes → ℕ) (files : Files) (index : Index) where
  append-IsPacked :
      (w : PackfileWriter) (h content : Bytes)
      → w.bytes_written ≡ length w.written
      → lookup h index ≡ some (ObjectLocation.individual (object h))
      → lookup (object h) files ≡ some content
      → All (IsPacked files index w.written) w.index
      → All
          (IsPacked files index (Packfile.append crc32c_append w h content).written)
          (Packfile.append crc32c_append w h content).index
  unfolding Packfile.append
  append-IsPacked w h content count indexed found packed =
      All-append _ w.index _ (IsPacked-append files index w.written content w.index packed) (
        (omega (arith, length-append w.written content), indexed, found ∙ ap some (sym at_end)),
        tt,
      )
    where
      at_end : take (length content) (drop w.bytes_written (w.written ++ content)) ≡ content
      at_end =
          ap (λ k. take (length content) (drop k (w.written ++ content))) count
          ∙ ap (take (length content)) (drop-append w.written content)
          ∙ take_of_length-le (length content) content (omega arith)

  append_count :
      (w : PackfileWriter) (h content : Bytes)
      → w.bytes_written ≡ length w.written
      → length w.written + length content < u64_mod
      → (Packfile.append crc32c_append w h content).bytes_written
        ≡ length (Packfile.append crc32c_append w h content).written
  unfolding Packfile.append
  append_count w h content count fits = omega (arith, length-append w.written content)

  length-append_written :
      (w : PackfileWriter) (h content : Bytes)
      → length (Packfile.append crc32c_append w h content).written
        ≡ length w.written + length content
  unfolding Packfile.append
  length-append_written w h content = length-append w.written content

  has_entry-append :
      (w : PackfileWriter) (h content : Bytes) (j : Bytes)
      → has_entry j (Packfile.append crc32c_append w h content).index
        ≡ has_entry j w.index || bytes_eq h j
  unfolding Packfile.append
  has_entry-append w h content j = has_entry-snoc j w.index _

  append_id :
      (w : PackfileWriter) (h content : Bytes)
      → (Packfile.append crc32c_append w h content).pack_id ≡ w.pack_id
  unfolding Packfile.append
  append_id w h content = refl

  pack_loose-cons :
      (h : Bytes) (path : StorePath) (size : ℕ) (rest : List Loose) (w : PackfileWriter)
      (content : Bytes)
      → lookup path files ≡ some content
      → pack_loose crc32c_append files ((h, path, size) ∷ rest) w
        ≡ pack_loose crc32c_append files rest (Packfile.append crc32c_append w h content)
  unfolding pack_loose
  pack_loose-cons h path size rest w content e = rw (e, pack_loose)

  -- The loop reads every loose object and packs it, if the pack stays below 2^64 bytes.
  pub pack_loose-IsFilled :
      (objects : List Loose) (w : PackfileWriter)
      → All (IsLoose files index) objects
      → w.bytes_written ≡ length w.written
      → length w.written + sum_of objects < u64_mod
      → All (IsPacked files index w.written) w.index
      → (w' : PackfileWriter) × (pack_loose crc32c_append files objects w ≡ (ok tt, w'))
        × IsFilled files index w w' objects
  unfolding pack_loose
  pack_loose-IsFilled [] w loose count fits packed =
      (w, refl, record { same_id = refl; packed = packed; covers = λ j. ground arith })
  pack_loose-IsFilled ((h, path, size) ∷ rest) w ((p, indexed, content, found, sized), loose) count
        fits packed =
      let next = Packfile.append crc32c_append w h content in
      let (w', run, filled) =
        pack_loose-IsFilled rest next loose (append_count w h content count (omega arith))
          (omega (arith, length-append_written w h content))
          (append-IsPacked w h content count indexed found packed) in
      (
        w',
        pack_loose-cons h path size rest w content (ap (λ q. lookup q files) p ∙ found) ∙ run,
        record {
          same_id = filled.same_id ∙ append_id w h content;
          packed = filled.packed;
          covers = λ j. ground (arith, filled.covers j, has_entry-append w h content j);
        },
      )

-- After the entries are put in the index, a hash has its entry's place, or else what it had.
pub lookup-index_entries :
    (P : PackfileEntry → Type 0) (id : ℕ) (es : List PackfileEntry) (index : Index) (j : Bytes)
    → All P es
    → ((has_entry j es ≡ false) × (lookup j (index_entries id es index) ≡ lookup j index))
      ⊎ ((e : PackfileEntry) × P e
          × (e.hash ≡ j)
          × (lookup j (index_entries id es index)
              ≡ some (ObjectLocation.packfile id e.offset e.size)))
lookup-index_entries P id [] index j h = inl (refl, refl)
lookup-index_entries P id (e ∷ es) index j (h, hs) =
    elim (lookup-index_entries P id es
      (insert e.hash (ObjectLocation.packfile id e.offset e.size) index) j hs) [
        | inl (absent, same) ↦ elim (Bool-cases (bytes_eq e.hash j)) [
          | inl t ↦ inr (
            e,
            h,
            (bytes_eq_iff e.hash j).0 t,
            same
                ∙ (lookup-insert e.hash j (ObjectLocation.packfile id e.offset e.size) index
                    ∙ rw t),
          )
          | inr t ↦ inl (
            ground arith,
            same
                ∙ (lookup-insert e.hash j (ObjectLocation.packfile id e.offset e.size) index
                    ∙ rw t),
          )
        ]
        | inr found ↦ inr found
      ]

-- Removing the loose files leaves every other file.
pub lookup-remove_loose :
    (files : Files) (index : Index) (path : StorePath) (objects : List Loose) (files' : Files)
    → ((h : Bytes) → object h ≢ path)
    → All (IsLoose files index) objects
    → lookup path (remove_loose objects files') ≡ lookup path files'
lookup-remove_loose files index path [] files' other h = refl
lookup-remove_loose files index path ((h, p, size) ∷ rest) files' other (loose, hs) =
    lookup-remove_loose files index path rest (remove p files') other hs
    ∙ (lookup-remove p path files' ∙ rw different)
  where
    different : path_eq p path ≡ false
    different = ground (arith, path_eq_iff p path, other h)
