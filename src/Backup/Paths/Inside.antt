-- ===== src/Backup/Paths/Inside.antt =====
-- Where a path lies that `validate_safe_path` of backup/mod.rs has accepted.
use mathlib.Core.Path.{subst}
use obsidian_backup_server.Prelude.{
  both_true, ◌≡◌, ◌∙◌, refl, sym, ap, Bool, true, false, ◌||◌, ◌⊎◌, inl, inr, List, [], ◌∷◌, ◌++◌,
  append_assoc, append-nil, Bytes, ==_iff, if◌then◌else◌, if_true, if_false, Bool-cases, Result, ok,
  err, Error,
}
use obsidian_backup_server.Prelude.Text.{codes, bytes_eq, bytes_eq_iff, starts_with, contains}
use obsidian_backup_server.Glob.{split_segments}
use obsidian_backup_server.Backup.Paths.{
  no_path, kept, components, has_root, ends_open, join, is_prefix, path_starts_with, or_path,
  validate_safe_path,
}
use obsidian_backup_server.Backup.Paths.Segments.{
  walk, walk-append, walk_down, kept-All, kept-append, HasNoDots, Fits-All, split_segments-Fits,
  split_segments-slash, neither, dots,
}

-- A base that needs no separator is empty or ends in one.
ends_open-cases :
    (base : Bytes)
    → ends_open base ≡ true
    → (base ≡ []) ⊎ ((start : Bytes) × (base ≡ start ++ 47 ∷ []))
ends_open-cases [] h = inl refl
ends_open-cases (b ∷ []) h = inr ([], ap (λ c. c ∷ []) ((==_iff b 47).0 h))
ends_open-cases (b ∷ c ∷ s) h = elim (ends_open-cases (c ∷ s) h) [
  | inl e ↦ absurd cc
  | inr (start, e) ↦ inr (b ∷ start, ap (λ l. b ∷ l) e)
]

-- The segments of a base with a separator and of what follows it.
components-slash :
    (base path : Bytes) → components (base ++ 47 ∷ path) ≡ components base ++ components path
components-slash base path =
    ap kept (split_segments-slash base path)
    ∙ kept-append (split_segments base) (split_segments path)

components-open :
    (base path : Bytes)
    → (base ≡ []) ⊎ ((start : Bytes) × (base ≡ start ++ 47 ∷ []))
    → components (base ++ path) ≡ components base ++ components path
unfolding split_segments
components-open base path (inl e) =
    ap (λ b. components (b ++ path)) e ∙ sym (ap (λ b. components b ++ components path) e)
components-open base path (inr (start, e)) =
    ap (λ b. components (b ++ path)) e
    ∙ ap components (append_assoc start (47 ∷ []) path)
    ∙ components-slash start path
    ∙ sym (
        ap (λ b. components b ++ components path) e
        ∙ ap (λ l. l ++ components path)
            (components-slash start [] ∙ append-nil (components start)))

-- A relative path adds its segments to those of the base.
components-join :
    (base path : Bytes)
    → has_root path ≡ false
    → components (join base path) ≡ components base ++ components path
unfolding join
components-join base path h = elim (Bool-cases (ends_open base)) [
  | inl t ↦
      ap components (if_false _ _ h ∙ if_true _ _ t)
      ∙ components-open base path (ends_open-cases base t)
  | inr f ↦ ap components (if_false _ _ h ∙ if_false _ _ f) ∙ components-slash base path
]

-- What the file system says of two paths: if it resolves both, the segments of the one begin with those of the other.
abbrev pub Below : Result Bytes → Result Bytes → Type 0
Below (ok path) (ok base) = (rest : List Bytes) × (components path ≡ components base ++ rest)
Below (ok path) (err e) = Unit
Below (err e) base = Unit

-- Where an accepted path lies. A walk along its segments ends in the directory of the base or below it; and where the
-- file system resolves both, the one is below the other.
pub record IsInside (canonicalize : Bytes → Result Bytes) (base resolved : Bytes) : Type 0 where
  pub inside : List Bytes
  pub walked : walk [] (components resolved) ≡ inside ++ walk [] (components base)
  pub below : Below (canonicalize resolved) (canonicalize base)

walk-join :
    (base user_path : Bytes)
    → HasNoDots user_path
    → has_root user_path ≡ false
    → (inside : List Bytes) × (walk [] (components (join base user_path))
        ≡ inside ++ walk [] (components base))
walk-join base user_path h relative =
    let f = split_segments-Fits user_path h in
    let clean =
      kept-All (split_segments user_path) (Fits-All user_path (split_segments user_path) f) in
    let (inside, e) = walk_down (components user_path) (walk [] (components base)) clean in
    (
      inside,
      ap (walk []) (components-join base user_path relative)
          ∙ walk-append (components base) [] (components user_path)
          ∙ e,
    )

is_prefix-append :
    (base path : List Bytes)
    → is_prefix base path ≡ true
    → (rest : List Bytes) × (path ≡ base ++ rest)
is_prefix-append [] path h = (path, refl)
is_prefix-append (s ∷ base) [] h = cc
is_prefix-append (s ∷ base) (t ∷ path) h =
    let (same, more) = both_true (bytes_eq s t) (is_prefix base path) h in
    let (rest, e) = is_prefix-append base path more in
    (rest, λ i. sym ((bytes_eq_iff s t).0 same) i ∷ e i)

path_starts_with-is_prefix :
    (path base : Bytes)
    → path_starts_with path base ≡ true
    → is_prefix (components base) (components path) ≡ true
path_starts_with-is_prefix path base h = elim (Bool-cases (has_root base)) [
  | inl t ↦ (both_true (has_root path) _ (sym (if_true _ _ t) ∙ h)).1
  | inr f ↦ elim (Bool-cases (has_root path)) [
    | inl r ↦ absurd (dots (sym (sym (if_true _ _ r) ∙ sym (if_false _ _ f) ∙ h)))
    | inr n ↦ sym (if_false _ _ n) ∙ sym (if_false _ _ f) ∙ h
  ]
]

path_starts_with-Below :
    (resolved base : Bytes) (r b : Result Bytes)
    → path_starts_with (or_path resolved r) (or_path base b) ≡ true
    → Below r b
path_starts_with-Below resolved base (ok path) (ok root) h =
    is_prefix-append (components root) (components path) (path_starts_with-is_prefix path root h)
path_starts_with-Below resolved base (ok path) (err e) h = tt
path_starts_with-Below resolved base (err e) b h = tt

guarded :
    (b : Bool) (e : Error) {r : Result Bytes} {x : Bytes}
    → (if b then err e else r) ≡ ok x
    → (b ≡ false) × (r ≡ ok x)
guarded true e h = cc
guarded false e h = (refl, h)

accepted :
    (b : Bool) (e : Error) {y x : Bytes} → (if b then ok y else err e) ≡ ok x → (b ≡ true) × (y ≡ x)
accepted true e h = (refl, cc)
accepted false e h = cc

-- A path that is accepted for a base lies inside it: a walk along the segments of the result, where `..` leaves a
-- directory, ends in the directory of the base or below it; and where the file system resolves both the base and the
-- result, the segments of the one begin with those of the other. Of a result that the file system cannot resolve, as
-- of one that does not exist yet, the second part says nothing.
pub validate_safe_path-IsInside :
    (canonicalize : Bytes → Result Bytes) (base user_path resolved : Bytes)
    → validate_safe_path canonicalize base user_path ≡ ok resolved
    → IsInside canonicalize base resolved
unfolding validate_safe_path
validate_safe_path-IsInside canonicalize base user_path resolved h =
    let (some_path, h1) = guarded (no_path user_path) _ h in
    let (no_dots, h2) = guarded (contains user_path (codes "..")) _ h1 in
    let (relative, h3) =
      guarded (starts_with user_path (codes "/") || starts_with user_path (codes "\\")) _ h2 in
    let (canonical, same) = accepted _ _ h3 in
    let (inside, walked) =
      walk-join base user_path no_dots (neither (has_root user_path) _ relative) in
    record {
      inside = inside;
      walked = ap (λ p. walk [] (components p)) (sym same) ∙ walked;
      below =
          subst (λ p. Below (canonicalize p) (canonicalize base)) same
            (path_starts_with-Below _ base (canonicalize _) (canonicalize base) canonical);
    }
