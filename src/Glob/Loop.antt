-- ===== src/Glob/Loop.antt =====
-- The loop of `single_match` of config.rs: when it ends, and with what.
use mathlib.Core.Path.{subst}
use obsidian_backup_server.Prelude.{
  ℕ, ◌<◌, zero, suc, ◌+◌, ◌≡◌, ◌∙◌, refl, ap, Bool, true, false, ◌&&◌, Option, none, some, [], ◌∷◌,
  ◌++◌, append_assoc, Bytes, length, length-append, get_or, ◌==◌, if_true, if_false, inl, inr, ◌⊎◌,
  Bool-cases, arith,
}
use obsidian_backup_server.Prelude.Text.{bytes_eq, contains_byte}
use obsidian_backup_server.Glob.{
  star, Cursor, star_at, byte_at, backtrack, round, skip_stars, run_loop, single_match,
}

get_or-append : (pre : Bytes) (b : ℕ) (q : Bytes) → get_or (pre ++ b ∷ q) (length pre) 0 ≡ b
get_or-append [] b q = refl
get_or-append (a ∷ pre) b q = get_or-append pre b q

-- the cursor after the common beginning `pre`
abbrev cursor_after : Bytes → Cursor
cursor_after pre = record { pi = length pre; ni = length pre; star_idx = none; match_idx = 0 }

-- Once a star has been met, no round leaves the loop.
round-star :
    (p n : Bytes) (c : Cursor) (si : ℕ)
    → c.star_idx ≡ some si
    → (c' : Cursor) × (round p n c ≡ some c') × ((sj : ℕ) × (c'.star_idx ≡ some sj))
unfolding round
round-star p n c si e = elim (Bool-cases (star_at p c.pi)) [
  | inl at_star ↦ (_, if_true _ _ at_star, (_, refl))
  | inr no_star ↦ elim (Bool-cases (byte_at p n c.pi c.ni)) [
    | inl same ↦ (_, if_false _ _ no_star ∙ if_true _ _ same, (si, e))
    | inr other ↦
        (_, if_false _ _ no_star ∙ (if_false _ _ other ∙ ap (λ s. backtrack s c) e), (si, refl))
  ]
]

run_loop-star :
    (fuel : ℕ) (p n : Bytes) (c : Cursor) (si : ℕ)
    → c.star_idx ≡ some si
    → run_loop fuel p n c ≡ none
unfolding run_loop
run_loop-star zero p n c si e = refl
run_loop-star (suc k) p n c si e =
    let (c', next, (sj, e')) = round-star p n c si e in
    rw (next, run_loop) (run_loop-star k p n c' sj e')

-- `pre` with one byte more, where a common byte has been passed
module _ (pre : Bytes) (b : ℕ) where
  length-snoc : length (pre ++ b ∷ []) ≡ length pre + 1
  length-snoc = omega (arith, length-append pre (b ∷ []))

  snoc_append : (q : Bytes) → (pre ++ b ∷ []) ++ q ≡ pre ++ b ∷ q
  snoc_append q = append_assoc pre (b ∷ []) q

star_at-append :
    (pre : Bytes) (b : ℕ) (q : Bytes) → star_at (pre ++ b ∷ q) (length pre) ≡ (b == star)
star_at-append pre b q = ground (arith, get_or-append pre b q, length-append pre (b ∷ q))

star_at-end : (pre : Bytes) → star_at (pre ++ []) (length pre) ≡ false
star_at-end pre = ground (arith, length-append pre [])

byte_at-append :
    (pre : Bytes) (a b : ℕ) (q m : Bytes)
    → byte_at (pre ++ a ∷ q) (pre ++ b ∷ m) (length pre) (length pre) ≡ (a == b)
byte_at-append pre a b q m = ground (
  arith,
  get_or-append pre a q,
  get_or-append pre b m,
  length-append pre (a ∷ q),
  length-append pre (b ∷ m),
)

byte_at-end :
    (pre q m : Bytes)
    → (q ≡ []) ⊎ (m ≡ [])
    → byte_at (pre ++ q) (pre ++ m) (length pre) (length pre) ≡ false
byte_at-end pre q m (inl e) = ground (arith, e, length-append pre q)
byte_at-end pre q m (inr e) = ground (arith, e, length-append pre m)

skip_stars-none : (k : ℕ) (p : Bytes) (pi : ℕ) → star_at p pi ≡ false → skip_stars k p pi ≡ pi
unfolding skip_stars
skip_stars-none zero p pi e = refl
skip_stars-none (suc k) p pi e = if_false _ _ e

-- a round that breaks
round-break :
    (p n : Bytes) (c : Cursor)
    → star_at p c.pi ≡ false
    → byte_at p n c.pi c.ni ≡ false
    → c.star_idx ≡ none
    → round p n c ≡ none
unfolding round
round-break p n c e f g = if_false _ _ e ∙ (if_false _ _ f ∙ ap (λ s. backtrack s c) g)

run_loop-break :
    (k : ℕ) (p n : Bytes) (c : Cursor)
    → star_at p c.pi ≡ false
    → byte_at p n c.pi c.ni ≡ false
    → c.star_idx ≡ none
    → run_loop (suc k) p n c ≡ some (c.pi == length p && c.ni == length n)
unfolding run_loop
run_loop-break k p n c e f g =
    rw (round-break p n c e f g, run_loop, skip_stars-none (length p) p c.pi e) refl

-- a round that passes a common byte
run_loop-pass :
    (k : ℕ) (pre q m : Bytes) (b : ℕ)
    → (b == star) ≡ false
    → run_loop (suc k) (pre ++ b ∷ q) (pre ++ b ∷ m) (cursor_after pre)
      ≡ run_loop k (pre ++ b ∷ q) (pre ++ b ∷ m) (cursor_after (pre ++ b ∷ []))
unfolding run_loop round
run_loop-pass k pre q m b plain =
    let no_star : star_at (pre ++ b ∷ q) (length pre) ≡ false = star_at-append pre b q ∙ plain in
    let same : byte_at (pre ++ b ∷ q) (pre ++ b ∷ m) (length pre) (length pre) ≡ true =
      byte_at-append pre b b q m ∙ ground arith in
    rw (run_loop, no_star, same, length-snoc pre b) refl

-- how the cursor stands when the loop breaks
ends_together :
    (pre m : Bytes)
    → (length pre == length (pre ++ []) && length pre == length (pre ++ m)) ≡ bytes_eq [] m
ends_together pre [] = ground (arith, length-append pre [])
ends_together pre (b ∷ m) = ground (arith, length-append pre [], length-append pre (b ∷ m))

not_at_end :
    (pre : Bytes) (b : ℕ) (q : Bytes) (x : Bool)
    → (length pre == length (pre ++ b ∷ q) && x) ≡ false
not_at_end pre b q x = ground (arith, length-append pre (b ∷ q))

passed_any :
    (k : ℕ) (pre q m : Bytes) (b : ℕ) {r : Option Bool}
    → run_loop k ((pre ++ b ∷ []) ++ q) ((pre ++ b ∷ []) ++ m) (cursor_after (pre ++ b ∷ [])) ≡ r
    → run_loop k (pre ++ b ∷ q) (pre ++ b ∷ m) (cursor_after (pre ++ b ∷ [])) ≡ r
passed_any k pre q m b {r} h =
    subst (λ x. run_loop k x (pre ++ b ∷ m) (cursor_after (pre ++ b ∷ [])) ≡ r)
      (snoc_append pre b q)
      (subst (λ x. run_loop k ((pre ++ b ∷ []) ++ q) x (cursor_after (pre ++ b ∷ [])) ≡ r)
        (snoc_append pre b m) h)

-- A pattern without a star matches the name that it is.
run_loop-plain :
    (fuel : ℕ) (pre q m : Bytes)
    → length q < fuel
    → contains_byte star q ≡ false
    → run_loop fuel (pre ++ q) (pre ++ m) (cursor_after pre) ≡ some (bytes_eq q m)
run_loop-plain zero pre q m enough plain = absurd (omega arith)
run_loop-plain (suc k) pre [] m enough plain =
    run_loop-break k (pre ++ []) (pre ++ m) (cursor_after pre) (star_at-end pre)
      (byte_at-end pre [] m (inl refl)) refl
    ∙ ap some (ends_together pre m)
run_loop-plain (suc k) pre (b ∷ q) [] enough plain =
    run_loop-break k (pre ++ b ∷ q) (pre ++ []) (cursor_after pre)
      (star_at-append pre b q ∙ ground arith) (byte_at-end pre (b ∷ q) [] (inr refl)) refl
    ∙ ap some (not_at_end pre b q _)
run_loop-plain (suc k) pre (b ∷ q) (d ∷ m) enough plain = elim (Bool-cases (b == d)) [
  | inl same ↦
      let e : b ≡ d = ground arith in
      subst
        (λ x.
          run_loop (suc k) (pre ++ b ∷ q) (pre ++ x ∷ m) (cursor_after pre)
          ≡ some (bytes_eq (b ∷ q) (x ∷ m)))
        e
        (run_loop-pass k pre q m b (ground arith)
          ∙ (passed_any k pre q m b
                (run_loop-plain k (pre ++ b ∷ []) q m (omega arith) (ground arith))
              ∙ ap some (ground arith)))
  | inr other ↦
      run_loop-break k (pre ++ b ∷ q) (pre ++ d ∷ m) (cursor_after pre)
        (star_at-append pre b q ∙ ground arith) (byte_at-append pre b d q m ∙ other) refl
      ∙ ap some (not_at_end pre b q _ ∙ ground (arith, other))
]

-- A pattern whose first star is reached keeps the loop running for ever.
run_loop-reaches_star :
    (fuel : ℕ) (pre q r m : Bytes)
    → contains_byte star q ≡ false
    → run_loop fuel (pre ++ (q ++ star ∷ r)) (pre ++ (q ++ m)) (cursor_after pre) ≡ none
unfolding run_loop round
run_loop-reaches_star zero pre q r m plain = refl
run_loop-reaches_star (suc k) pre [] r m plain =
    let at_star : star_at (pre ++ star ∷ r) (length pre) ≡ true = star_at-append pre star r in
    rw (run_loop, at_star) (run_loop-star k _ _ _ (length pre) refl)
run_loop-reaches_star (suc k) pre (b ∷ q) r m plain =
    run_loop-pass k pre (q ++ star ∷ r) (q ++ m) b (ground arith)
    ∙ passed_any k pre (q ++ star ∷ r) (q ++ m) b
        (run_loop-reaches_star k (pre ++ b ∷ []) q r m (ground arith))

not_single : (p : Bytes) → contains_byte star p ≡ false → bytes_eq p (star ∷ []) ≡ false
not_single [] plain = refl
not_single (b ∷ p) plain = ground arith

-- A pattern segment without a star matches exactly the equal name, and more rounds than the segment
-- has bytes are enough for the loop to end.
pub single_match-plain :
    (fuel : ℕ) (p n : Bytes)
    → length p < fuel
    → contains_byte star p ≡ false
    → single_match fuel p n ≡ some (bytes_eq p n)
unfolding single_match
single_match-plain fuel p n enough plain =
    let not_all : bytes_eq p (star ∷ []) ≡ false = not_single p plain in
    if_false _ _ not_all ∙ run_loop-plain fuel [] p n enough plain

-- A pattern segment with a star, other than the segment of a single star, never ends the loop on a
-- name that begins like the segment before its first star, whatever follows in either: no number of
-- rounds gives a result.
pub single_match-diverges :
    (fuel : ℕ) (q r m : Bytes)
    → contains_byte star q ≡ false
    → bytes_eq (q ++ star ∷ r) (star ∷ []) ≡ false
    → single_match fuel (q ++ star ∷ r) (q ++ m) ≡ none
unfolding single_match
single_match-diverges fuel q r m plain other =
    if_false _ _ other ∙ run_loop-reaches_star fuel [] q r m plain
