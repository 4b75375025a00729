-- ===== src/Backup/Paths/Segments.antt =====
-- The segments of a path that `validate_safe_path` of backup/mod.rs looks at, and a walk along them.
use obsidian_backup_server.Prelude.{
  ℕ, ◌≡◌, ◌∙◌, refl, sym, ap, Bool, true, false, ◌||◌, inl, inr, List, [], ◌∷◌, ◌++◌, append_assoc,
  Bytes, All, ◌==◌, if◌then◌else◌, if_false, Bool-cases, arith,
}
use obsidian_backup_server.Prelude.Text.{codes, bytes_eq, bytes_eq_iff, starts_with, contains}
use obsidian_backup_server.Glob.{before_first, split_segments}
use obsidian_backup_server.Backup.Paths.{keeps, kept}

abbrev leave : List Bytes → List Bytes
leave [] = []
leave (d ∷ ds) = ds

-- Where a walk along the segments ends: `..` leaves the last directory, and the root stays where it is. The directories
-- are those that have been entered, the last one first.
abbrev pub walk : List Bytes → List Bytes → List Bytes
walk at [] = at
walk at (s ∷ ss) = walk (if bytes_eq s (codes "..") then leave at else s ∷ at) ss

abbrev pub HasNoDots : Bytes → Type 0
HasNoDots segment = contains segment (codes "..") ≡ false

pub walk-append : (xs at ys : List Bytes) → walk at (xs ++ ys) ≡ walk (walk at xs) ys
walk-append [] at ys = refl
walk-append (x ∷ xs) at ys =
    walk-append xs (if bytes_eq x (codes "..") then leave at else x ∷ at) ys

pub neither : (a b : Bool) → (a || b) ≡ false → a ≡ false
neither true b h = cc
neither false b h = refl

pub dots : true ≡ false → ⊥
dots e = cc

not_dots : (s : Bytes) → HasNoDots s → bytes_eq s (codes "..") ≡ false
not_dots s h = elim (Bool-cases (bytes_eq s (codes ".."))) [
  | inl t ↦
      absurd
        (dots (sym (ap (λ x. contains x (codes "..")) ((bytes_eq_iff s (codes "..")).0 t)) ∙ h))
  | inr f ↦ f
]

-- A walk without `..` goes down.
pub walk_down :
    (ss at : List Bytes) → All HasNoDots ss → (inside : List Bytes) × (walk at ss ≡ inside ++ at)
walk_down [] at h = ([], refl)
walk_down (s ∷ ss) at (h, hs) =
    let (inside, e) = walk_down ss (s ∷ at) hs in
    (
      inside ++ s ∷ [],
      ap (λ d. walk d ss) (if_false _ _ (not_dots s h)) ∙ e ∙ sym (append_assoc inside (s ∷ []) at),
    )

pub kept-All : (ss : List Bytes) → All HasNoDots ss → All HasNoDots (kept ss)
kept-All [] h = tt
kept-All (s ∷ ss) (h, hs) = elim (Bool-cases (keeps s)) [
  | inl t ↦ rw t (h, kept-All ss hs)
  | inr f ↦ rw f (kept-All ss hs)
]

pub kept-append : (xs ys : List Bytes) → kept (xs ++ ys) ≡ kept xs ++ kept ys
kept-append [] ys = refl
kept-append (x ∷ xs) ys = elim (Bool-cases (keeps x)) [
  | inl t ↦ rw t (ap (λ l. x ∷ l) (kept-append xs ys))
  | inr f ↦ rw f (kept-append xs ys)
]

-- The segments of a text without `..`; the first of them is where the text starts.
abbrev pub Fits : Bytes → List Bytes → Type 0
Fits s [] = ⊥
Fits s (h ∷ t) =
    (starts_with h (codes ".") ≡ true → starts_with s (codes ".") ≡ true)
    × HasNoDots h
    × All HasNoDots t

Fits-before_first :
    (b : ℕ) (s : Bytes) (segments : List Bytes)
    → Fits s segments
    → HasNoDots (b ∷ s)
    → Fits (b ∷ s) (before_first b segments)
Fits-before_first b s [] f h = absurd f
Fits-before_first b s (x ∷ xs) (first, clean, rest) h =
    (λ e. ground (arith, e), ground (arith, first, clean, h), rest)

pub Fits-All : (s : Bytes) (segments : List Bytes) → Fits s segments → All HasNoDots segments
Fits-All s [] f = absurd f
Fits-All s (x ∷ xs) (first, clean, rest) = (clean, rest)

pub split_segments-Fits : (s : Bytes) → HasNoDots s → Fits s (split_segments s)
unfolding split_segments
split_segments-Fits [] h = (λ e. cc, refl, tt)
split_segments-Fits (b ∷ s) h =
    let f = split_segments-Fits s (ground (arith, h)) in
    elim (Bool-cases (b == 47)) [
      | inl t ↦ rw t (λ e. cc, refl, Fits-All s (split_segments s) f)
      | inr n ↦ rw n (Fits-before_first b s (split_segments s) f h)
    ]

abbrev NotNil : List Bytes → Type 0
NotNil [] = ⊥
NotNil (x ∷ xs) = Unit

before_first-append :
    (b : ℕ) (xs ys : List Bytes) → NotNil xs → before_first b (xs ++ ys) ≡ before_first b xs ++ ys
before_first-append b [] ys h = absurd h
before_first-append b (x ∷ xs) ys h = refl

before_first-NotNil : (b : ℕ) (xs : List Bytes) → NotNil (before_first b xs)
before_first-NotNil b [] = tt
before_first-NotNil b (x ∷ xs) = tt

split_segments-NotNil : (s : Bytes) → NotNil (split_segments s)
unfolding split_segments
split_segments-NotNil [] = tt
split_segments-NotNil (b ∷ s) = elim (Bool-cases (b == 47)) [
  | inl t ↦ rw t tt
  | inr n ↦ rw n (before_first-NotNil b (split_segments s))
]

pub split_segments-slash :
    (xs ys : Bytes) → split_segments (xs ++ 47 ∷ ys) ≡ split_segments xs ++ split_segments ys
unfolding split_segments
split_segments-slash [] ys = refl
split_segments-slash (b ∷ xs) ys = elim (Bool-cases (b == 47)) [
  | inl t ↦ rw t (ap (λ l. [] ∷ l) (split_segments-slash xs ys))
  | inr n ↦ rw n (
      ap (before_first b) (split_segments-slash xs ys)
      ∙ before_first-append b (split_segments xs) (split_segments ys) (split_segments-NotNil xs))
]
