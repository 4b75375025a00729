-- ===== src/Backup/Faithful/Whole.antt =====
-- A whole file of backup/mod.rs: what a backup has taken, a restore gives back.
use mathlib.Core.Path.{subst}
use obsidian_backup_server.Prelude.{
  ℕ, ◌+◌, ◌<◌, ◌≤◌, max, ◌≡◌, ◌∙◌, refl, sym, ap, false, List, [], ◌∷◌, ◌++◌, append_assoc,
  append-nil, Bytes, length, take, drop, flatten, All, take-append, drop-append, drop-drop, ok,
  arith,
}
use obsidian_backup_server.Erasure.{ReedSolomon}
use obsidian_backup_server.Chunker.{Chunk, ChunkEngine}
use obsidian_backup_server.Chunker.Pieces.{contents, Laid, IsChunking}
use obsidian_backup_server.Store.{ObjectStore}
use obsidian_backup_server.Index.{RocksDb, Json, get_file_chunks}
use obsidian_backup_server.Index.Files.{Recorded, insert_file_chunks-Recorded}
use obsidian_backup_server.Backup.{
  FileTask, unwrap_or, or_as_it_was, exists_or_false, backup_chunk, backup_chunks, backup_file,
  restore_file,
}
use obsidian_backup_server.Backup.Restore.{Reads, restore_file-Reads}
use obsidian_backup_server.Backup.Faithful.{Sane, Sound, StaysReadable, Roomy}
use obsidian_backup_server.Backup.Faithful.Steps.{backup_chunk-Kept}

abbrev pub hashes_of : List Chunk → List Bytes
hashes_of [] = []
hashes_of (c ∷ cs) = c.hash ∷ hashes_of cs

abbrev pub pieces_of : List Chunk → List Bytes
pieces_of [] = []
pieces_of (c ∷ cs) = c.content ∷ pieces_of cs

flatten-pieces_of : (cs : List Chunk) → flatten (pieces_of cs) ≡ contents cs
flatten-pieces_of [] = refl
flatten-pieces_of (c ∷ cs) = ap (λ l. c.content ++ l) (flatten-pieces_of cs)

-- No other content goes with the hash of a part of the file.
abbrev pub Distinctive : (Bytes → Bytes) → (Bytes → Bytes) → Bytes → Type 0
Distinctive content_of digest input =
    (from n : ℕ) → take n (drop from input) ≡ content_of (digest (take n (drop from input)))

module _ (content_of digest : Bytes → Bytes) where
  Distinctive-append :
      (xs ys : Bytes) → Distinctive content_of digest (xs ++ ys) → Distinctive content_of digest ys
  Distinctive-append xs ys d from n =
      let e : drop (length xs + from) (xs ++ ys) ≡ drop from ys =
        sym (drop-drop from (length xs) (xs ++ ys)) ∙ ap (drop from) (drop-append xs ys) in
      subst (λ l. take n l ≡ content_of (digest (take n l))) e (d (length xs + from) n)

  Sane-chunks :
      (offset high : ℕ) (cs : List Chunk)
      → Laid digest offset cs
      → All (λ (c : Chunk). (0 < c.size) × (c.size ≤ high)) cs
      → Distinctive content_of digest (contents cs)
      → All (Sane content_of) cs
  Sane-chunks offset high [] laid sized d = tt
  Sane-chunks offset high (c ∷ cs) (at, size, hash, laid) ((pos, le), sized) d = (
    record {
      not_empty = omega arith;
      hashed =
          subst (λ l. l ≡ content_of (digest l)) (take-append c.content (contents cs))
            (d 0 (length c.content))
          ∙ ap content_of (sym hash);
    },
    Sane-chunks (offset + c.size) high cs laid sized (Distinctive-append c.content (contents cs) d),
  )

Reads-stays :
    (s s' : ObjectStore) (hs cs : List Bytes) → StaysReadable s s' → Reads s hs cs → Reads s' hs cs
Reads-stays s s' [] [] stays r = tt
Reads-stays s s' (h ∷ hs) (c ∷ cs) stays (e, r) = (stays h c e, Reads-stays s s' hs cs stays r)
Reads-stays s s' [] (c ∷ cs) stays r = absurd r
Reads-stays s s' (h ∷ hs) [] stays r = absurd r

-- What the chunks of a file do to a task.
pub record AllKept (content_of : Bytes → Bytes) (rocks : RocksDb) (cs : List Chunk)
    (t t' : FileTask rocks) : Type 0 where
  pub sound : Sound content_of rocks t'
  pub reads : Reads t'.store (hashes_of cs) (pieces_of cs)
  pub stays : StaysReadable t.store t'.store
  pub listed : t'.file_chunk_hashes ≡ t.file_chunk_hashes ++ hashes_of cs

module _ (content_of : Bytes → Bytes) (rocks : RocksDb) (json : Json) (rs : ReedSolomon)
    (digest : Bytes → Bytes) (crc32c_append : ℕ → Bytes → ℕ) (rel : Bytes) where
  backup_chunks-AllKept :
      (cs : List Chunk) (t : FileTask rocks)
      → Sound content_of rocks t
      → All (Sane content_of) cs
      → Roomy rocks json rs digest crc32c_append rel cs t
      → AllKept content_of rocks cs t (backup_chunks rocks json rs digest crc32c_append rel cs t)
  unfolding backup_chunks
  backup_chunks-AllKept [] t sound sane room = record {
    sound = sound;
    reads = tt;
    stays = λ h x e. e;
    listed = sym (append-nil t.file_chunk_hashes);
  }
  backup_chunks-AllKept (c ∷ cs) t sound (one, sane) (here, room) =
      let k =
        backup_chunk-Kept content_of rocks json rs digest crc32c_append rel c t sound one here in
      let t1 = backup_chunk rocks json rs digest crc32c_append rel c t in
      let r = backup_chunks-AllKept cs t1 k.sound sane room in
      record {
        sound = r.sound;
        reads = (r.stays c.hash c.content k.read, r.reads);
        stays = λ h x e. r.stays h x (k.stays h x e);
        listed =
            r.listed
            ∙ ap (λ l. l ++ hashes_of cs) k.listed
            ∙ append_assoc t.file_chunk_hashes (c.hash ∷ []) (hashes_of cs);
      }

  -- The record of a file adds nothing to what exists.
  Recorded-Sound :
      (t : FileTask rocks) (db' : rocks.Db) (hashes : List Bytes) (size : ℕ)
      → Sound content_of rocks t
      → Recorded rocks json t.index db' rel hashes size
      → Sound content_of rocks (record t { index = db' })
  unfolding exists_or_false
  Recorded-Sound t db' hashes size sound r = record {
    healthy = r.healthy;
    valid = sound.valid;
    honest = sound.honest;
    has_content = λ h e. sound.has_content h (sym (ap (unwrap_or false) (r.exists h)) ∙ e);
  }

  -- The chunks of a file are read back. `hash` is the hash of a chunk, `digest` that of a shard.
  pub restore_file-backup_file :
      (hash : Bytes → Bytes) (engine : ChunkEngine) (input : Bytes) (chunks : List Chunk)
      (size modified : ℕ) (t : FileTask rocks)
      → IsChunking hash engine 0 input chunks
      → t.file_chunk_hashes ≡ []
      → Sound content_of rocks t
      → Distinctive content_of hash input
      → Roomy rocks json rs digest crc32c_append rel chunks t
      → let t' = backup_file rocks json rs digest crc32c_append rel chunks size modified t in
        (restore_file rocks json t'.index t'.store rel ≡ ok input)
        × StaysReadable t.store t'.store
        × Sound content_of rocks t'
  unfolding backup_file
  restore_file-backup_file hash engine input chunks size modified t chunking new sound distinctive
        room =
      let t1 = backup_chunks rocks json rs digest crc32c_append rel chunks t in
      let sane =
        Sane-chunks content_of hash 0 (max engine.min_size engine.max_size) chunks chunking.laid
          chunking.sized (subst (Distinctive content_of hash) (sym chunking.joined) distinctive) in
      let a = backup_chunks-AllKept chunks t sound sane room in
      let (db', run, r) =
        insert_file_chunks-Recorded rocks json t1.index rel t1.file_chunk_hashes size modified
          a.sound.healthy in
      let listed : get_file_chunks rocks json db' rel ≡ ok (hashes_of chunks) =
        r.chunks ∙ ap ok (a.listed ∙ ap (λ l. l ++ hashes_of chunks) new) in
      let read =
        (restore_file-Reads rocks json db' t1.store rel (hashes_of chunks) listed).0
          (pieces_of chunks) a.reads in
      let same = ap (or_as_it_was t1.index) run in
      (
        ap (λ db. restore_file rocks json db t1.store rel) same
            ∙ read
            ∙ ap ok (flatten-pieces_of chunks ∙ chunking.joined),
        a.stays,
        subst (λ db. Sound content_of rocks (record t1 { index = db })) (sym same)
            (Recorded-Sound t1 db' t1.file_chunk_hashes size a.sound r),
      )
