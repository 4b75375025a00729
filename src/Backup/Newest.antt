-- ===== src/Backup/Newest.antt =====
-- The order of the snapshots in `prune_snapshots` of backup/mod.rs.
use mathlib.Core.Path.{subst}
use mathlib.Core.List.{Perm}
use mathlib.Core.List.Perm
use obsidian_backup_server.Prelude.{
  ℕ, ◌<◌, ◌≡◌, ◌∙◌, sym, Bool, true, false, ◌&&◌, ◌||◌, ◌⊎◌, Option, inl, inr, List, [], ◌∷◌, Bytes,
  All, ltb, ltb→lt, ◌==◌, ==_iff, if◌then◌else◌, Bool-cases, arith,
}

pub record SnapshotInfo : Type 0 where
  pub snapshot_id : Bytes
  pub timestamp : Bytes
  pub tag : Option Bytes
  pub files_scanned : ℕ
  pub bytes_processed : ℕ
  pub chunks_total : ℕ
  pub chunks_deduped : ℕ

-- `<` on texts
abbrev pub bytes_less : Bytes → Bytes → Bool
bytes_less [] [] = false
bytes_less [] (b ∷ y) = true
bytes_less (a ∷ x) [] = false
bytes_less (a ∷ x) (b ∷ y) = ltb a b || (a == b && bytes_less x y)

abbrev insert_newest : SnapshotInfo → List SnapshotInfo → List SnapshotInfo
insert_newest s [] = s ∷ []
insert_newest s (t ∷ ts) =
    let later = insert_newest s ts in
    if bytes_less s.timestamp t.timestamp then t ∷ later else s ∷ t ∷ ts

-- `v.sort_by(|a, b| b.timestamp.cmp(&a.timestamp))`
abbrev pub newest_first : List SnapshotInfo → List SnapshotInfo
newest_first [] = []
newest_first (s ∷ ss) = insert_newest s (newest_first ss)

-- `<=` on texts: the first byte that differs decides, and a text is before those that go on after it
abbrev pub TextLe : Bytes → Bytes → Type 0
TextLe [] y = Unit
TextLe (a ∷ x) [] = ⊥
TextLe (a ∷ x) (b ∷ y) = (a < b) ⊎ ((a ≡ b) × TextLe x y)

-- No snapshot of the list is older than one behind it.
abbrev pub NewestFirst : List SnapshotInfo → Type 0
NewestFirst [] = Unit
NewestFirst (s ∷ ss) =
    All (λ (t : SnapshotInfo). TextLe t.timestamp s.timestamp) ss × NewestFirst ss

TextLe-trans : (x y z : Bytes) → TextLe x y → TextLe y z → TextLe x z
TextLe-trans [] y z p q = tt
TextLe-trans (a ∷ x) [] z p q = absurd p
TextLe-trans (a ∷ x) (b ∷ y) [] p q = absurd q
TextLe-trans (a ∷ x) (b ∷ y) (c ∷ z) (inl p) (inl q) = inl (omega arith)
TextLe-trans (a ∷ x) (b ∷ y) (c ∷ z) (inl p) (inr (e, q)) = inl (omega arith)
TextLe-trans (a ∷ x) (b ∷ y) (c ∷ z) (inr (e, p)) (inl q) = inl (omega arith)
TextLe-trans (a ∷ x) (b ∷ y) (c ∷ z) (inr (e, p)) (inr (f, q)) = inr (e ∙ f, TextLe-trans x y z p q)

-- Of two texts the one that is less comes first.
abbrev Decides : Bool → Bytes → Bytes → Type 0
Decides true x y = TextLe x y
Decides false x y = TextLe y x

same_head :
    (less : Bool) (a b : ℕ) (x y : Bytes) → a ≡ b → Decides less x y → Decides less (a ∷ x) (b ∷ y)
same_head true a b x y e d = inr (e, d)
same_head false a b x y e d = inr (sym e, d)

bytes_less-Decides : (x y : Bytes) → Decides (bytes_less x y) x y
bytes_less-Decides [] [] = tt
bytes_less-Decides [] (b ∷ y) = tt
bytes_less-Decides (a ∷ x) [] = tt
bytes_less-Decides (a ∷ x) (b ∷ y) = elim (Bool-cases (ltb a b)) [
  | inl l ↦ rw l (inl (ltb→lt a b l))
  | inr n ↦ elim (Bool-cases (a == b)) [
    | inl e ↦
        rw (n, e) (same_head (bytes_less x y) a b x y ((==_iff a b).0 e) (bytes_less-Decides x y))
    | inr d ↦ rw (n, d) (inl (ground (arith, n, d)))
  ]
]

insert_newest-All :
    (P : SnapshotInfo → Type 0) (s : SnapshotInfo) (ts : List SnapshotInfo)
    → P s
    → All P ts
    → All P (insert_newest s ts)
insert_newest-All P s [] p h = (p, tt)
insert_newest-All P s (t ∷ ts) p (q, h) = elim (Bool-cases (bytes_less s.timestamp t.timestamp)) [
  | inl l ↦ rw l (q, insert_newest-All P s ts p h)
  | inr n ↦ rw n (p, (q, h))
]

older-All :
    (s t : SnapshotInfo) (ts : List SnapshotInfo)
    → TextLe t.timestamp s.timestamp
    → All (λ (u : SnapshotInfo). TextLe u.timestamp t.timestamp) ts
    → All (λ (u : SnapshotInfo). TextLe u.timestamp s.timestamp) ts
older-All s t [] le h = tt
older-All s t (u ∷ ts) le (p, h) =
    (TextLe-trans u.timestamp t.timestamp s.timestamp p le, older-All s t ts le h)

insert_newest-NewestFirst :
    (s : SnapshotInfo) (ts : List SnapshotInfo) → NewestFirst ts → NewestFirst (insert_newest s ts)
insert_newest-NewestFirst s [] h = (tt, tt)
insert_newest-NewestFirst s (t ∷ ts) (h, hs) =
    let d = bytes_less-Decides s.timestamp t.timestamp in
    elim (Bool-cases (bytes_less s.timestamp t.timestamp)) [
      | inl l ↦ rw l (
        insert_newest-All _ s ts (subst (λ b. Decides b s.timestamp t.timestamp) l d) h,
        insert_newest-NewestFirst s ts hs,
      )
      | inr n ↦
          let le = subst (λ b. Decides b s.timestamp t.timestamp) n d in
          rw n ((le, older-All s t ts le h), (h, hs))
    ]

insert_newest-Perm :
    (s : SnapshotInfo) (ts : List SnapshotInfo) → Perm (insert_newest s ts) (s ∷ ts)
insert_newest-Perm s [] = Perm.rfl
insert_newest-Perm s (t ∷ ts) = elim (Bool-cases (bytes_less s.timestamp t.timestamp)) [
  | inl l ↦ rw l (Perm.trans (Perm.cons t (insert_newest-Perm s ts)) (Perm.swap _ _ _))
  | inr n ↦ rw n (Perm.rfl)
]

pub newest_first-NewestFirst : (ss : List SnapshotInfo) → NewestFirst (newest_first ss)
newest_first-NewestFirst [] = tt
newest_first-NewestFirst (s ∷ ss) =
    insert_newest-NewestFirst s (newest_first ss) (newest_first-NewestFirst ss)

pub newest_first-Perm : (ss : List SnapshotInfo) → Perm (newest_first ss) ss
newest_first-Perm [] = Perm.rfl
newest_first-Perm (s ∷ ss) =
    Perm.trans (insert_newest-Perm s (newest_first ss)) (Perm.cons s (newest_first-Perm ss))
