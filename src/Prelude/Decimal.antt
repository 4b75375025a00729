-- ===== src/Prelude/Decimal.antt =====
-- Decimal numerals: `{}` of an unsigned number, and `parse::<u64>()`.
use Prim.Native.Nat.{ℕ, zero, suc, ◌+◌, ◌-◌, ◌*◌, ◌/◌, ◌%◌, ◌<◌}
use mathlib.Core.Path.{◌≡◌, refl, ◌∙◌}
use mathlib.Core.Bool.{Bool, true, false, ◌&&◌}
use mathlib.Core.Logic.{inl, inr}
use mathlib.Core.Option.{Option, none, some}
use mathlib.Core.List.{[], ◌∷◌}
use native.Mathlib.Omega.{arith}
use obsidian_backup_server.Prelude.Tests.{
  ltb, leb, ◌==◌, if◌then◌else◌, Bool-cases, le→leb, lt→ltb, ltb→lt, ltb-eq-false,
}
use obsidian_backup_server.Prelude.Lists.{Bytes}
use obsidian_backup_server.Prelude.Words.{u64_mod}

-- the digits of `n` before `rest`; a fuel above `n` is enough
unfoldable pub show_digits : ℕ → ℕ → Bytes → Bytes
show_digits zero n rest = rest
show_digits (suc fuel) n rest =
    let digit = b'0' + n % 10 in
    let more = show_digits fuel (n / 10) (digit ∷ rest) in if ltb n 10 then digit ∷ rest else more

unfoldable pub show : ℕ → Bytes
show n = show_digits (suc n) n []

abbrev pub is_digit : ℕ → Bool
is_digit c = leb b'0' c && leb c b'9'

-- the value of a run of digits, with the overflow test of u64
unfoldable pub parse_digits : ℕ → Bytes → Option ℕ
parse_digits acc [] = some acc
parse_digits acc (c ∷ cs) =
    let acc' = acc * 10 + (c - b'0') in
    let rest = parse_digits acc' cs in if is_digit c && ltb acc' u64_mod then rest else none

-- `parse::<u64>()`: an optional `+`, then at least one digit
unfoldable pub parse_u64 : Bytes → Option ℕ
parse_u64 [] = none
parse_u64 (c ∷ []) = if c == b'+' then none else parse_digits 0 (c ∷ [])
parse_u64 (c ∷ d ∷ cs) = if c == b'+' then parse_digits 0 (d ∷ cs) else parse_digits 0 (c ∷ d ∷ cs)

parse_digits-digit :
    (n : ℕ) (rest : Bytes)
    → n < u64_mod
    → parse_digits (n / 10) ((b'0' + n % 10) ∷ rest) ≡ parse_digits n rest
unfolding parse_digits
parse_digits-digit n rest k =
    let value : n / 10 * 10 + (b'0' + n % 10 - b'0') ≡ n = omega arith in
    let low : leb b'0' (b'0' + n % 10) ≡ true = le→leb _ _ (omega arith) in
    let high : leb (b'0' + n % 10) b'9' ≡ true = le→leb _ _ (omega arith) in
    rw (value, low, high, lt→ltb _ _ k)

parse_digits-show_digits :
    (fuel n : ℕ) (rest : Bytes)
    → n < fuel
    → n < u64_mod
    → parse_digits 0 (show_digits fuel n rest) ≡ parse_digits n rest
unfolding show_digits
parse_digits-show_digits zero n rest h k = absurd (omega arith)
parse_digits-show_digits (suc fuel) n rest h k = elim (Bool-cases (ltb n 10)) [
  | inl t ↦
      let z : n / 10 ≡ 0 = omega (arith, ltb→lt _ _ t) in
      rw t (rw z at (parse_digits-digit n rest k))
  | inr t ↦ rw t (
      parse_digits-show_digits fuel (n / 10) ((b'0' + n % 10) ∷ rest)
        (omega (arith, ltb-eq-false _ _ t)) (omega arith)
      ∙ parse_digits-digit n rest k)
]

-- the first byte is a digit
head_is_digit : Bytes → Bool
head_is_digit [] = false
head_is_digit (c ∷ cs) = is_digit c

head_is_digit-show_digits :
    (fuel n : ℕ) (rest : Bytes) → n < fuel → head_is_digit (show_digits fuel n rest) ≡ true
unfolding show_digits head_is_digit
head_is_digit-show_digits zero n rest h = absurd (omega arith)
head_is_digit-show_digits (suc fuel) n rest h = elim (Bool-cases (ltb n 10)) [
  | inl t ↦ rw t (ground arith)
  | inr t ↦ rw t (
      head_is_digit-show_digits fuel (n / 10) ((b'0' + n % 10) ∷ rest)
        (omega (arith, ltb-eq-false _ _ t)))
]

parse_u64-digits : (s : Bytes) → head_is_digit s ≡ true → parse_u64 s ≡ parse_digits 0 s
unfolding parse_u64 head_is_digit
parse_u64-digits [] h = cc
parse_u64-digits (c ∷ []) h = ground arith
parse_u64-digits (c ∷ d ∷ cs) h = ground arith

-- What is printed is read back.
pub parse_u64-show : (n : ℕ) → n < u64_mod → parse_u64 (show n) ≡ some n
unfolding show
parse_u64-show n h =
    parse_u64-digits (show_digits (suc n) n [])
      (head_is_digit-show_digits (suc n) n [] (omega arith))
    ∙ parse_digits-show_digits (suc n) n [] (omega arith) h
    ∙ (unfold parse_digits in refl)

starts_of :
    (s : Bytes)
    → head_is_digit s ≡ true
    → (c : ℕ) × (cs : Bytes) × (s ≡ c ∷ cs) × (is_digit c ≡ true)
unfolding head_is_digit
starts_of [] h = cc
starts_of (c ∷ cs) h = (c, cs, refl, h)

-- What is printed starts with a digit.
pub show_starts : (n : ℕ) → (c : ℕ) × (cs : Bytes) × (show n ≡ c ∷ cs) × (is_digit c ≡ true)
unfolding show
show_starts n =
    starts_of (show_digits (suc n) n []) (head_is_digit-show_digits (suc n) n [] (omega arith))
