-- ===== src/Prelude/Trim.antt =====
-- `trim` and `strip_suffix` of texts.
use Prim.Native.Nat.{ℕ}
use mathlib.Core.Path.{◌≡◌, refl, ◌∙◌, ap}
use mathlib.Core.Bool.{Bool, true, false, ◌&&◌, ◌||◌}
use mathlib.Core.Option.{none, some}
use mathlib.Core.List.{[], ◌∷◌, ◌++◌}
use native.Mathlib.Omega.{arith}
use obsidian_backup_server.Prelude.Tests.{leb, ◌==◌, if◌then◌else◌, if_true, if_false}
use obsidian_backup_server.Prelude.Lists.{Bytes, All}
use obsidian_backup_server.Prelude.Text.{strip_suffix}

-- `char::is_whitespace`
abbrev pub is_white : ℕ → Bool
is_white c =
    (leb 9 c && leb c 13)
    || (c == 32
        || (c == 133
            || (c == 160
                || (c == 5760
                    || ((leb 8192 c && leb c 8202)
                        || (c == 8232
                            || (c == 8233 || (c == 8239 || (c == 8287 || c == 12288)))))))))

abbrev pub trim_start : Bytes → Bytes
trim_start [] = []
trim_start (c ∷ cs) = let rest = trim_start cs in if is_white c then rest else c ∷ cs

abbrev end_at : ℕ → Bytes → Bytes
end_at c [] = if is_white c then [] else c ∷ []
end_at c (d ∷ cs) = c ∷ d ∷ cs

abbrev pub trim_end : Bytes → Bytes
trim_end [] = []
trim_end (c ∷ cs) = end_at c (trim_end cs)

-- `s.trim()`
abbrev pub trim : Bytes → Bytes
trim s = trim_end (trim_start s)

abbrev pub White : Bytes → Type 0
White s = All (λ c. is_white c ≡ true) s

trim_end-White : (ws : Bytes) → White ws → trim_end ws ≡ []
trim_end-White [] h = refl
trim_end-White (w ∷ ws) (h, hs) = ap (end_at w) (trim_end-White ws hs) ∙ if_true _ _ h

trim_start-append :
    (ws : Bytes) (c : ℕ) (cs : Bytes)
    → White ws
    → is_white c ≡ false
    → trim_start (ws ++ c ∷ cs) ≡ c ∷ cs
trim_start-append [] c cs h k = if_false _ _ k
trim_start-append (w ∷ ws) c cs (h, hs) k = if_true _ _ h ∙ trim_start-append ws c cs hs k

trim_end-append :
    (xs : Bytes) (c : ℕ) (ws : Bytes)
    → is_white c ≡ false
    → White ws
    → trim_end (xs ++ c ∷ ws) ≡ xs ++ c ∷ []
trim_end-append [] c ws k h = ap (end_at c) (trim_end-White ws h) ∙ if_false _ _ k
trim_end-append (x ∷ []) c ws k h = ap (end_at x) (trim_end-append [] c ws k h)
trim_end-append (x ∷ y ∷ xs) c ws k h = ap (end_at x) (trim_end-append (y ∷ xs) c ws k h)

pub strip_suffix-append : (c : ℕ) (xs : Bytes) → strip_suffix c (xs ++ c ∷ []) ≡ some xs
strip_suffix-append c [] = ground arith
strip_suffix-append c (x ∷ []) = ground arith
strip_suffix-append c (x ∷ y ∷ xs) = ground (arith, strip_suffix-append c (y ∷ xs))

pub strip_suffix-other :
    (c d : ℕ) (xs : Bytes) → (d == c) ≡ false → strip_suffix c (xs ++ d ∷ []) ≡ none
strip_suffix-other c d [] h = if_false _ _ h
strip_suffix-other c d (x ∷ []) h = ground (arith, h)
strip_suffix-other c d (x ∷ y ∷ xs) h = ground (arith, strip_suffix-other c d (y ∷ xs) h)

-- White space goes at both ends, and nothing else does.
pub trim-append :
    (before : Bytes) (c : ℕ) (xs : Bytes) (d : ℕ) (after : Bytes)
    → White before
    → White after
    → is_white c ≡ false
    → is_white d ≡ false
    → trim (before ++ (c ∷ (xs ++ d ∷ after))) ≡ (c ∷ xs) ++ d ∷ []
trim-append before c xs d after hb ha hc hd =
    ap trim_end (trim_start-append before c (xs ++ d ∷ after) hb hc)
    ∙ trim_end-append (c ∷ xs) d after hd ha
