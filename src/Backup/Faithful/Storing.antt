-- ===== src/Backup/Faithful/Storing.antt =====
-- What a write of object_store.rs does to a store whose contents go with their hashes.
use mathlib.Core.Path.{subst}
use obsidian_backup_server.Prelude.{
  ℕ, ◌-◌, ◌<◌, ◌≡◌, ◌≢◌, ◌∙◌, refl, sym, ap, true, false, inl, inr, Bytes, length, take, drop,
  le→leb, if_true, Bool-cases, Option-cases, ok, >>=-ok, arith,
}
use obsidian_backup_server.Prelude.Assoc.{lookup}
use obsidian_backup_server.Prelude.Text.{bytes_eq, bytes_eq_iff, bytes_key}
use obsidian_backup_server.Prelude.Words.{add64}
use obsidian_backup_server.Erasure.{ReedSolomon}
use obsidian_backup_server.Store.{ObjectStore, ObjectLocation, Files, path_key}
use obsidian_backup_server.Store.Objects.{
  contains_object, read_object, read_location, read_range, write_object,
}
use obsidian_backup_server.Store.Invariant.{IsStore, Located}
use obsidian_backup_server.Store.Writing.{Writes}
use obsidian_backup_server.Store.Writing.Object.{HasRoomFor, write_object-Writes}
use obsidian_backup_server.Backup.Faithful.{Honest, StaysReadable}

located-readable :
    (files : Files) (next : ℕ) (h : Bytes) (loc : ObjectLocation)
    → Located files next h loc
    → (content : Bytes) × (read_location files loc ≡ ok content)
unfolding read_location read_range
located-readable files next h (ObjectLocation.individual path) (same, content, found) =
    (content, ground (arith, same, found))
located-readable files next h (ObjectLocation.packfile id offset size) (low, content, found, fits) =
    (
      take size (drop offset content),
      ground (arith, found, le→leb size (length content - offset) (omega (arith, fits))),
    )
located-readable files next h (ObjectLocation.sharded dir size) (same, joined, read, fits) =
    (take size joined, >>=-ok _ _ read refl)

-- What the index of a valid store has can be read.
readable :
    (s : ObjectStore) (h : Bytes)
    → IsStore s
    → contains_object s h ≡ true
    → (content : Bytes) × (read_object s h ≡ ok content)
unfolding contains_object read_object
readable s h valid has = elim (Option-cases (lookup h s.object_index)) [
  | inl e ↦ absurd (ground (arith, e, has))
  | inr (loc, e) ↦
      let (content, read) = located-readable s.files s.next_pack_id h loc (valid.located h loc e) in
      (content, ground (arith, e, read))
]

ok_inj : {a b : Bytes} → ok a ≡ ok b → a ≡ b
ok_inj {a} {b} h = cc

true_of_eq : (h j : Bytes) → bytes_eq h j ≡ false → h ≢ j
true_of_eq h j other q = ground (arith, bytes_eq_iff h j)

unread :
    (s : ObjectStore) (h : Bytes)
    → contains_object s h ≡ false
    → (x : Bytes) → read_object s h ≢ ok x
unfolding contains_object read_object
unread s h fresh x e = ground (arith, Option-cases (lookup h s.object_index))

module _ (content_of : Bytes → Bytes) where
  -- A hash has been written to an honest store.
  pub record Stored (h content : Bytes) (s s' : ObjectStore) : Type 0 where
    pub valid : IsStore s'
    pub honest : Honest content_of s'
    pub read : read_object s' h ≡ ok content
    pub stays : StaysReadable s s'

  Writes-Stored :
      (h content : Bytes) (s s' : ObjectStore)
      → Honest content_of s
      → content ≡ content_of h
      → contains_object s h ≡ false
      → Writes h content s s'
      → Stored h content s s'
  Writes-Stored h content s s' honest hashed fresh w = record {
    valid = w.valid;
    honest = λ j x e. elim (Bool-cases (bytes_eq h j)) [
      | inl same ↦
          let q : h ≡ j = (bytes_eq_iff h j).0 same in
          ok_inj (sym e ∙ subst (λ k. read_object s' k ≡ ok content) q w.written)
          ∙ hashed
          ∙ ap content_of q
      | inr other ↦ honest j x (sym (w.others j (λ q. true_of_eq h j other q)) ∙ e)
    ];
    read = w.written;
    stays = λ j x e. elim (Bool-cases (bytes_eq h j)) [
      | inl same ↦ absurd (unread s h fresh x (rw ((bytes_eq_iff h j).0 same) e))
      | inr other ↦ w.others j (λ q. true_of_eq h j other q) ∙ e
    ];
  }

  module _ (rs : ReedSolomon) (digest : Bytes → Bytes) (crc32c_append : ℕ → Bytes → ℕ) where
    -- A write to an honest store of a content that goes with its hash.
    pub write_object-Stored :
        (s : ObjectStore) (h content : Bytes) (raw : ℕ)
        → IsStore s
        → Honest content_of s
        → HasRoomFor (length content) s
        → 0 < length content
        → content ≡ content_of h
        → (s' : ObjectStore) × (write_object crc32c_append rs digest h content raw s ≡ (ok tt, s'))
          × Stored h content s s'
    unfolding write_object read_object
    write_object-Stored s h content raw valid honest room pos hashed =
        elim (Bool-cases (contains_object s h)) [
          | inl has ↦
              let (x, e) = readable s h valid has in
              (
                record s { total_raw_bytes = add64 s.total_raw_bytes raw },
                if_true _ _ has,
                record {
                  valid = record { distinct = valid.distinct; located = valid.located };
                  honest = honest;
                  read = e ∙ ap ok (honest h x e ∙ sym hashed);
                  stays = λ j y f. f;
                },
              )
          | inr fresh ↦
              let (s', run, w) =
                write_object-Writes rs digest crc32c_append s h content raw valid room fresh pos in
              (s', run, Writes-Stored h content s s' honest hashed fresh w)
        ]
