-- ===== src/Glob.antt =====
-- sidecar/src/config.rs: the exclusion rules and their glob patterns. The loop of `single_match` runs
-- on fuel, and `none` says that it has not ended.
pub mod Loop
pub mod Segments
use obsidian_backup_server.Prelude.{
  ℕ, zero, suc, ◌+◌, ◌≡◌, Bool, true, false, ◌&&◌, Option, none, some, List, [], ◌∷◌, ◌++◌, Bytes,
  length, get_or, drop, ltb, ◌==◌, if◌then◌else◌,
}
use obsidian_backup_server.Prelude.Text.{codes, bytes_eq, starts_with}
use obsidian_backup_server.Config.{SidecarConfig}

abbrev pub star : ℕ
star = 42

abbrev pub double_star : Bytes
double_star = codes "___DOUBLESTAR___"

-- `pattern.replace("**", "___DOUBLESTAR___")`
unfoldable pub replace_stars : Bytes → Bytes
replace_stars [] = []
replace_stars (b ∷ []) = b ∷ []
replace_stars (b ∷ c ∷ s) =
    let both = replace_stars s in
    let one = replace_stars (c ∷ s) in
    if (b == star) && (c == star) then double_star ++ both else b ∷ one

-- `path.replace('\\', "/")`
unfoldable pub normalized : Bytes → Bytes
normalized [] = []
normalized (b ∷ s) = (if b == 92 then 47 else b) ∷ normalized s

-- puts a byte before the first segment
abbrev pub before_first : ℕ → List Bytes → List Bytes
before_first b [] = (b ∷ []) ∷ []
before_first b (s ∷ ss) = (b ∷ s) ∷ ss

-- `split('/')`
unfoldable pub split_segments : Bytes → List Bytes
split_segments [] = [] ∷ []
split_segments (b ∷ s) =
    let rest = split_segments s in if b == 47 then [] ∷ rest else before_first b rest

-- The variables of the loop of `single_match`.
pub record Cursor : Type 0 where
  pub pi : ℕ
  pub ni : ℕ
  pub star_idx : Option ℕ
  pub match_idx : ℕ

-- whether the pattern has a star at `pi`
abbrev pub star_at : Bytes → ℕ → Bool
star_at p pi = ltb pi (length p) && get_or p pi 0 == star

-- whether the name has the byte of the pattern
abbrev pub byte_at : Bytes → Bytes → ℕ → ℕ → Bool
byte_at p n pi ni = ltb ni (length n) && (ltb pi (length p) && get_or p pi 0 == get_or n ni 0)

-- the last branches: back to the star, or out of the loop
abbrev pub backtrack : Option ℕ → Cursor → Option Cursor
backtrack none c = none
backtrack (some si) c =
    some (record {
      pi = si + 1;
      ni = c.match_idx + 1;
      star_idx = some si;
      match_idx = c.match_idx + 1;
    })

-- one round of the loop; `none` is the `break`
unfoldable pub round : Bytes → Bytes → Cursor → Option Cursor
round p n c =
    if star_at p c.pi
    then some (record { pi = c.pi + 1; ni = c.ni; star_idx = some c.pi; match_idx = c.ni })
    else if byte_at p n c.pi c.ni
    then some (record c { pi = c.pi + 1; ni = c.ni + 1 })
    else backtrack c.star_idx c

-- the `while` over the stars that are left, for at most as many rounds as the pattern has bytes
unfoldable pub skip_stars : ℕ → Bytes → ℕ → ℕ
skip_stars zero p pi = pi
skip_stars (suc k) p pi = let rest = skip_stars k p (pi + 1) in if star_at p pi then rest else pi

abbrev at_end : Bytes → Bytes → Cursor → Bool
at_end p n c = skip_stars (length p) p c.pi == length p && c.ni == length n

unfoldable pub run_loop : ℕ → Bytes → Bytes → Cursor → Option Bool
run_loop zero p n c = none
run_loop (suc k) p n c = elim (round p n c) [
  | none ↦ some (at_end p n c)
  | some c' ↦ run_loop k p n c'
]

abbrev pub cursor_start : Cursor
cursor_start = record { pi = 0; ni = 0; star_idx = none; match_idx = 0 }

unfoldable pub single_match : ℕ → Bytes → Bytes → Option Bool
single_match fuel p n = if bytes_eq p (star ∷ []) then some true else run_loop fuel p n cursor_start

-- `a && b`, where `b` is not run if `a` is false
abbrev pub and_then : Option Bool → Option Bool → Option Bool
and_then none b = none
and_then (some false) b = some false
and_then (some true) b = b

-- a loop that returns at the first `true`
abbrev pub or_else : Option Bool → Option Bool → Option Bool
or_else none b = none
or_else (some true) b = some true
or_else (some false) b = b

-- `match_segments(pat, path, pi + 1, next)` for each `next` from the first of `path`, where `f` is the
-- match of the patterns after this one
abbrev pub any_suffix : (List Bytes → Option Bool) → List Bytes → Option Bool
any_suffix f [] = or_else (f []) (some false)
any_suffix f (s ∷ path) = or_else (f (s ∷ path)) (any_suffix f path)

abbrev pub match_last : List Bytes → Option Bool
match_last [] = some true
match_last (s ∷ path) = some false

-- `match_segments` at a `**` that the patterns `pat` follow, and `f` matches these
abbrev pub match_double : List Bytes → (List Bytes → Option Bool) → List Bytes → Option Bool
match_double [] f path = some true
match_double (q ∷ pat) f path = any_suffix f path

-- `match_segments` at any other segment
abbrev pub match_one : ℕ → Bytes → (List Bytes → Option Bool) → List Bytes → Option Bool
match_one fuel p f [] = some false
match_one fuel p f (s ∷ path) = and_then (single_match fuel p s) (f path)

-- `pi` and `si` are given by the segments that are left.
unfoldable pub match_segments : ℕ → List Bytes → List Bytes → Option Bool
match_segments fuel [] path = match_last path
match_segments fuel (p ∷ pat) path =
    let f = match_segments fuel pat in
    if bytes_eq p double_star then match_double pat f path else match_one fuel p f path

unfoldable pub glob_match : ℕ → Bytes → Bytes → Option Bool
glob_match fuel pattern path =
    match_segments fuel (split_segments (replace_stars pattern)) (split_segments (normalized path))

-- `any` over the patterns
unfoldable pub any_match : ℕ → List Bytes → Bytes → Option Bool
any_match fuel [] path = some false
any_match fuel (p ∷ ps) path = or_else (glob_match fuel p path) (any_match fuel ps path)

unfoldable pub is_excluded : ℕ → SidecarConfig → Bytes → Option Bool
is_excluded fuel config path = any_match fuel config.exclusion_rules.hardcoded_ignores path
