-- ===== src/Store/Invariant.antt =====
-- The invariant of the object store of object_store.rs: each hash is in the index once, and what the
-- index says of it can be read from the files.
use mathlib.Core.Path.{subst}
use obsidian_backup_server.Prelude.{
  ◌∙◌, ap, ℕ, ◌+◌, ◌≤◌, ◌<◌, ◌≡◌, refl, Bool, true, false, ◌||◌, none, some, inl, inr, List, [],
  ◌∷◌, Bytes, length, All, Bool-cases, ok, arith,
}
use obsidian_backup_server.Prelude.Assoc.{lookup, insert, lookup-insert, same_refl}
use obsidian_backup_server.Prelude.Text.{bytes_eq, bytes_eq_iff, bytes_key}
use obsidian_backup_server.Store.{
  StorePath, object, pack, path_key, Files, ObjectLocation, ObjectStore,
}
use obsidian_backup_server.Store.Objects.{read_shards, Loose, file_size, individuals}

abbrev pub Index : Type 0
Index = List (Bytes × ObjectLocation)

abbrev pub Distinct : Index → Type 0
Distinct [] = Unit
Distinct ((h, loc) ∷ m) = (lookup h m ≡ none) × Distinct m

-- What the location of a hash needs of the files.
abbrev pub Located : Files → ℕ → Bytes → ObjectLocation → Type 0
Located files next h (ObjectLocation.individual path) =
    (path ≡ object h) × (content : Bytes) × (lookup (object h) files ≡ some content)
Located files next h (ObjectLocation.packfile id offset size) =
    (id < next)
    × (content : Bytes) × (lookup (pack id) files ≡ some content)
    × (offset + size ≤ length content)
Located files next h (ObjectLocation.sharded dir size) =
    (dir ≡ h) × (joined : Bytes) × (read_shards files dir 0 8 ≡ ok joined) × (size ≤ length joined)

pub record IsStore (s : ObjectStore) : Type 0 where
  pub distinct : Distinct s.object_index
  pub located :
      (h : Bytes) (loc : ObjectLocation)
      → lookup h s.object_index ≡ some loc
      → Located s.files s.next_pack_id h loc

pub Distinct-insert :
    (h : Bytes) (loc : ObjectLocation) (m : Index) → Distinct m → Distinct (insert h loc m)
Distinct-insert h loc [] d = (refl, tt)
Distinct-insert h loc ((k, l) ∷ m) d = elim (Bool-cases (bytes_eq k h)) [
  | inl e ↦ rw e (subst (λ x. lookup x m ≡ none) ((bytes_eq_iff k h).0 e) d.0, d.1)
  | inr n ↦ rw n (
    ground (arith, lookup-insert h k loc m, bytes_eq_iff k h, bytes_eq_iff h k, d.0),
    Distinct-insert h loc m d.1,
  )
]

-- A loose object of the index, with its file.
abbrev pub IsLoose : Files → Index → Loose → Type 0
IsLoose files index (h, path, size) =
    (path ≡ object h)
    × (lookup h index ≡ some (ObjectLocation.individual (object h)))
    × (content : Bytes) × (lookup (object h) files ≡ some content)
    × (size ≡ length content)

-- `m` is a part of the index that agrees with it.
abbrev pub Within : Index → Index → Type 0
Within m index =
    (h : Bytes) (loc : ObjectLocation) → lookup h m ≡ some loc → lookup h index ≡ some loc

Within-tail :
    (h : Bytes) (loc : ObjectLocation) (m index : Index)
    → lookup h m ≡ none
    → Within ((h, loc) ∷ m) index
    → Within m index
Within-tail h loc m index fresh w k l e = w k l (ground (arith, bytes_eq_iff h k))

file_size-some :
    (files : Files) (path : StorePath) (content : Bytes)
    → lookup path files ≡ some content
    → file_size files path ≡ length content
file_size-some files path content e = ground arith

module _ (files : Files) (index : Index) (next : ℕ)
    (located : (h : Bytes) (loc : ObjectLocation)
      → lookup h index ≡ some loc
      → Located files next h loc) where
  individual-IsLoose :
      (h : Bytes) (path : StorePath)
      → lookup h index ≡ some (ObjectLocation.individual path)
      → IsLoose files index (h, path, file_size files path)
  individual-IsLoose h path e =
      let (p, content, found) = located h (ObjectLocation.individual path) e in
      (
        p,
        e ∙ ap (λ q. some (ObjectLocation.individual q)) p,
        content,
        found,
        rw p (file_size-some files (object h) content found),
      )

  pub individuals-IsLoose :
      (m : Index) → Distinct m → Within m index → All (IsLoose files index) (individuals files m)
  unfolding individuals
  individuals-IsLoose [] d w = tt
  individuals-IsLoose ((h, ObjectLocation.individual path) ∷ m) d w = (
    individual-IsLoose h path (w h _ (ground (arith, same_refl h))),
    individuals-IsLoose m d.1 (Within-tail h _ m index d.0 w),
  )
  individuals-IsLoose ((h, ObjectLocation.packfile _ _ _) ∷ m) d w =
      individuals-IsLoose m d.1 (Within-tail h _ m index d.0 w)
  individuals-IsLoose ((h, ObjectLocation.sharded _ _) ∷ m) d w =
      individuals-IsLoose m d.1 (Within-tail h _ m index d.0 w)

-- whether a hash is among the loose objects
abbrev pub has_loose : Bytes → List Loose → Bool
has_loose j [] = false
has_loose j ((h, path, size) ∷ rest) = bytes_eq h j || has_loose j rest

pub has_loose-individuals :
    (files : Files) (j : Bytes) (path : StorePath) (m : Index)
    → lookup j m ≡ some (ObjectLocation.individual path)
    → has_loose j (individuals files m) ≡ true
unfolding individuals
has_loose-individuals files j path [] e = cc
has_loose-individuals files j path ((h, ObjectLocation.individual q) ∷ m) e =
    ground (arith, has_loose-individuals files j path m)
has_loose-individuals files j path ((h, ObjectLocation.packfile _ _ _) ∷ m) e =
    ground (arith, has_loose-individuals files j path m)
has_loose-individuals files j path ((h, ObjectLocation.sharded _ _) ∷ m) e =
    ground (arith, has_loose-individuals files j path m)
