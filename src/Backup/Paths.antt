-- ===== src/Backup/Paths.antt =====
-- `validate_safe_path` of backup/mod.rs, on a Unix system. A path is its text; `canonicalize` asks the file system and is
-- a parameter.
pub mod Segments
pub mod Inside
use obsidian_backup_server.Prelude.{
  ℕ, ◌≡◌, ◌∙◌, refl, sym, ap, Bool, true, false, ◌&&◌, ◌||◌, inl, inr, List, [], ◌∷◌, ◌++◌,
  append_assoc, Bytes, All, ◌==◌, if◌then◌else◌, if_false, Bool-cases, Result, ok, err, Error,
  empty_path, path_traversal, absolute_path, path_escapes, arith,
}
use obsidian_backup_server.Prelude.Text.{codes, bytes_eq, bytes_eq_iff, starts_with, contains}
use obsidian_backup_server.Glob.{before_first, split_segments}

abbrev no_path : Bytes → Bool
no_path [] = true
no_path (b ∷ s) = false

-- the segments that `components` keeps: `.` and empty ones are dropped
abbrev keeps : Bytes → Bool
keeps segment =
    if no_path segment then false else if bytes_eq segment (codes ".") then false else true

abbrev kept : List Bytes → List Bytes
kept [] = []
kept (s ∷ ss) = let rest = kept ss in if keeps s then s ∷ rest else rest

-- `path.components()`, without the root
abbrev pub components : Bytes → List Bytes
components path = kept (split_segments path)

abbrev pub has_root : Bytes → Bool
has_root path = starts_with path (codes "/")

-- an empty path, or one that ends in `/`
abbrev pub ends_open : Bytes → Bool
ends_open [] = true
ends_open (b ∷ []) = b == b'/'
ends_open (b ∷ c ∷ s) = ends_open (c ∷ s)

-- `base.join(path)` on Unix: an absolute path takes the place of the base, and a separator is added where it is needed
unfoldable pub join : Bytes → Bytes → Bytes
join base path =
    if has_root path then path else if ends_open base then base ++ path else base ++ (b'/' ∷ path)

abbrev pub is_prefix : List Bytes → List Bytes → Bool
is_prefix [] path = true
is_prefix (s ∷ base) [] = false
is_prefix (s ∷ base) (t ∷ path) = bytes_eq s t && is_prefix base path

-- `path.starts_with(base)`
abbrev pub path_starts_with : Bytes → Bytes → Bool
path_starts_with path base =
    if has_root base
    then has_root path && is_prefix (components base) (components path)
    else if has_root path
    then false
    else is_prefix (components base) (components path)

-- `r.unwrap_or(d)`
abbrev or_path : Bytes → Result Bytes → Bytes
or_path d (ok path) = path
or_path d (err e) = d

unfoldable pub validate_safe_path : (Bytes → Result Bytes) → Bytes → Bytes → Result Bytes
validate_safe_path canonicalize base user_path =
    let resolved = join base user_path in
    let canonical_base = or_path base (canonicalize base) in
    let canonical_resolved = or_path resolved (canonicalize resolved) in
    if no_path user_path
    then err empty_path
    else if contains user_path (codes "..")
    then err path_traversal
    else if starts_with user_path (codes "/") || starts_with user_path (codes "\\")
    then err absolute_path
    else if path_starts_with canonical_resolved canonical_base
    then ok resolved
    else err path_escapes
