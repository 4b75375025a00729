-- ===== src/Backup/Faithful/Steps.antt =====
-- One chunk of a backup of backup/mod.rs: it can be read afterwards, and so can all that could be read before.
use mathlib.Core.Path.{subst}
use obsidian_backup_server.Prelude.{
  ℕ, ◌≡◌, ◌∙◌, refl, sym, ap, true, inl, inr, [], ◌∷◌, ◌++◌, Bytes, length, if_true, if_false,
  Bool-cases, ok,
}
use obsidian_backup_server.Prelude.Text.{bytes_eq, bytes_eq_iff, bytes_key}
use obsidian_backup_server.Erasure.{ReedSolomon}
use obsidian_backup_server.Chunker.{Chunk}
use obsidian_backup_server.Store.{ObjectStore, path_key}
use obsidian_backup_server.Store.Objects.{read_object}
use obsidian_backup_server.Store.Writing.Object.{HasRoomFor}
use obsidian_backup_server.Index.{RocksDb, Json}
use obsidian_backup_server.Backup.{
  FileTask, exists_or_false, or_as_it_was, dedup_chunk, index_chunk, backup_chunk,
}
use obsidian_backup_server.Backup.Faithful.{Sane, Sound, StaysReadable, Marks}
use obsidian_backup_server.Backup.Faithful.Counting.{increment_ref-Marks, insert_chunk-Marks}
use obsidian_backup_server.Backup.Faithful.Storing.{Stored, write_object-Stored}

-- What one chunk does to a task.
pub record Kept (content_of : Bytes → Bytes) (rocks : RocksDb) (c : Chunk) (t t' : FileTask rocks)
    : Type 0 where
  pub sound : Sound content_of rocks t'
  pub read : read_object t'.store c.hash ≡ ok c.content
  pub stays : StaysReadable t.store t'.store
  pub listed : t'.file_chunk_hashes ≡ t.file_chunk_hashes ++ c.hash ∷ []

module _ (content_of : Bytes → Bytes) (rocks : RocksDb) (json : Json) (rs : ReedSolomon)
    (digest : Bytes → Bytes) (crc32c_append : ℕ → Bytes → ℕ) (rel : Bytes) (c : Chunk)
    (t : FileTask rocks) (sound : Sound content_of rocks t) (sane : Sane content_of c) where
  present_after :
      (db' : rocks.Db) (s' : ObjectStore)
      → Marks rocks t.index db' c.hash
      → StaysReadable t.store s'
      → read_object s' c.hash ≡ ok c.content
      → (h : Bytes) → exists_or_false rocks db' h ≡ true
      → read_object s' h ≡ ok (content_of h)
  present_after db' s' m stays read h e = elim (Bool-cases (bytes_eq c.hash h)) [
    | inl same ↦
        subst (λ k. read_object s' k ≡ ok (content_of k)) ((bytes_eq_iff c.hash h).0 same)
          (read ∙ ap ok sane.hashed)
    | inr other ↦
        stays h (content_of h)
          (sound.has_content h (sym (if_false _ _ other) ∙ sym (m.exists h) ∙ e))
  ]

  dedup_chunk-Kept :
      exists_or_false rocks t.index c.hash ≡ true
      → Kept content_of rocks c t (dedup_chunk rocks json rs digest crc32c_append c t)
  unfolding dedup_chunk
  dedup_chunk-Kept has =
      let (db', run, m) = increment_ref-Marks rocks t.index c.hash sound.healthy in
      let same = ap (or_as_it_was t.index) run in
      let read : read_object t.store c.hash ≡ ok c.content =
        sound.has_content c.hash has ∙ ap ok (sym sane.hashed) in
      record {
        sound = record {
          healthy = subst rocks.Healthy (sym same) m.healthy;
          valid = sound.valid;
          honest = sound.honest;
          has_content =
              subst
                (λ db.
                  (h : Bytes)
                  → exists_or_false rocks db h ≡ true
                  → read_object t.store h ≡ ok (content_of h))
                (sym same) (present_after db' t.store m (λ j x e. e) read);
        };
        read = read;
        stays = λ j x e. e;
        listed = refl;
      }

  index_chunk-Kept :
      (s' : ObjectStore)
      → Stored content_of c.hash c.content t.store s'
      → Kept content_of rocks c t
          (index_chunk rocks json rs digest crc32c_append rel c (ok tt, s') t)
  unfolding index_chunk
  index_chunk-Kept s' w =
      let (db', run, m) =
        insert_chunk-Marks rocks json t.index c.hash rel c.offset c.size sound.healthy in
      let same = ap (or_as_it_was t.index) run in
      record {
        sound = record {
          healthy = subst rocks.Healthy (sym same) m.healthy;
          valid = w.valid;
          honest = w.honest;
          has_content =
              subst
                (λ db.
                  (h : Bytes)
                  → exists_or_false rocks db h ≡ true
                  → read_object s' h ≡ ok (content_of h))
                (sym same) (present_after db' s' m w.stays w.read);
        };
        read = w.read;
        stays = w.stays;
        listed = refl;
      }

  pub backup_chunk-Kept :
      HasRoomFor (length c.content) t.store
      → Kept content_of rocks c t (backup_chunk rocks json rs digest crc32c_append rel c t)
  unfolding backup_chunk
  backup_chunk-Kept room = elim (Bool-cases (exists_or_false rocks t.index c.hash)) [
    | inl has ↦ subst (Kept content_of rocks c t) (sym (if_true _ _ has)) (dedup_chunk-Kept has)
    | inr fresh ↦
        let (s', run, w) =
          write_object-Stored content_of rs digest crc32c_append t.store c.hash c.content c.size
            sound.valid sound.honest room sane.not_empty sane.hashed in
        subst (Kept content_of rocks c t) (sym (if_false _ _ fresh)) (
          subst
            (λ act.
              Kept content_of rocks c t
                (index_chunk rocks json rs digest crc32c_append rel c act t))
            (sym run) (index_chunk-Kept s' w))
  ]
