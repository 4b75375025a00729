-- ===== src/Glob/Segments.antt =====
-- `match_segments` of config.rs against what a pattern means.
use mathlib.Core.Path.{subst}
use obsidian_backup_server.Prelude.{
  ℕ, ◌<◌, ◌≡◌, ◌≢◌, ◌∙◌, ◌↔◌, ◌⊎◌, inl, inr, refl, sym, ap, Bool, true, false, Option, some, List,
  [], ◌∷◌, ◌++◌, append-nil, drop, Bytes, length, All, if_true, if_false, Bool-cases,
}
use obsidian_backup_server.Prelude.Text.{bytes_eq, bytes_eq_iff, contains_byte}
use obsidian_backup_server.Glob.{
  star, double_star, and_then, or_else, any_suffix, match_double, match_one, match_segments,
}
use obsidian_backup_server.Glob.Loop.{single_match-plain}

-- What a pattern of segments without single stars means: `**` stands for any number of segments, any
-- other segment for itself.
abbrev pub Matches : List Bytes → List Bytes → Type 0
Matches [] path = path ≡ []
Matches (p ∷ pat) path =
    ((p ≡ double_star)
      × (before : List Bytes) × (after : List Bytes) × (path ≡ before ++ after)
      × Matches pat after)
    ⊎ ((p ≢ double_star) × (rest : List Bytes) × (path ≡ p ∷ rest) × Matches pat rest)

-- A result that decides a proposition.
abbrev pub Decides : Option Bool → Type 0 → Type 0
Decides r P = (b : Bool) × (r ≡ some b) × ((b ≡ true) ↔ P)

not_true_of_false : false ≡ true → ⊥
not_true_of_false e = cc

Decides-true : (P : Type 0) → P → Decides (some true) P
Decides-true P h = (true, refl, ((λ e. h), λ p. refl))

Decides-false : (P : Type 0) → (P → ⊥) → Decides (some false) P
Decides-false P h = (false, refl, ((λ e. cc), λ p. absurd (h p)))

Decides-map : (r : Option Bool) (P Q : Type 0) → (P → Q) → (Q → P) → Decides r P → Decides r Q
Decides-map r P Q f g (b, e, (to, of)) = (b, e, ((λ t. f (to t)), λ q. of (g q)))

Decides-or_else :
    (r t : Option Bool) (P Q : Type 0) → Decides r P → Decides t Q → Decides (or_else r t) (P ⊎ Q)
Decides-or_else r t P Q (true, e, h) d =
    (true, ap (λ x. or_else x t) e, ((λ u. inl (h.0 u)), λ p. refl))
Decides-or_else r t P Q (false, e, h) (c, f, k) = (
  c,
  ap (λ x. or_else x t) e ∙ f,
  ((λ u. inr (k.0 u)), λ p. elim p [ inl a ↦ absurd (not_true_of_false (h.1 a)) | inr q ↦ k.1 q ]),
)

-- The suffixes of a path are tried one after the other.
abbrev SomeSuffix : (List Bytes → Type 0) → List Bytes → Type 0
SomeSuffix P path =
    (before : List Bytes) × (after : List Bytes) × (path ≡ before ++ after) × P after

tail_eq : {s p : Bytes} {path rest : List Bytes} → s ∷ path ≡ p ∷ rest → path ≡ rest
tail_eq e = ap (drop 1) e

head_eq : {s p : Bytes} {path rest : List Bytes} → s ∷ path ≡ p ∷ rest → s ≡ p
head_eq e = ap (λ l. elim l [ [] ↦ [] | x ∷ xs ↦ x ]) e

nil_cons : {A : Type 0} {x : Bytes} {xs : List Bytes} → [] ≡ x ∷ xs → A
nil_cons e = cc

module _ (P : List Bytes → Type 0) where
  SomeSuffix-nil : P [] ⊎ ⊥ → SomeSuffix P []
  SomeSuffix-nil (inl p) = ([], [], refl, p)
  SomeSuffix-nil (inr x) = absurd x

  of_SomeSuffix-nil : SomeSuffix P [] → P [] ⊎ ⊥
  of_SomeSuffix-nil ([], after, e, p) = inl (subst P (sym e) p)
  of_SomeSuffix-nil (x ∷ before, after, e, p) = nil_cons e

  SomeSuffix-cons :
      (s : Bytes) (path : List Bytes) → P (s ∷ path) ⊎ SomeSuffix P path → SomeSuffix P (s ∷ path)
  SomeSuffix-cons s path (inl p) = ([], s ∷ path, refl, p)
  SomeSuffix-cons s path (inr (before, after, e, p)) = (s ∷ before, after, ap (λ l. s ∷ l) e, p)

  of_SomeSuffix-cons :
      (s : Bytes) (path : List Bytes) → SomeSuffix P (s ∷ path) → P (s ∷ path) ⊎ SomeSuffix P path
  of_SomeSuffix-cons s path ([], after, e, p) = inl (subst P (sym e) p)
  of_SomeSuffix-cons s path (x ∷ before, after, e, p) = inr (before, after, tail_eq e, p)

any_suffix-Decides :
    (f : List Bytes → Option Bool) (P : List Bytes → Type 0)
    → ((path : List Bytes) → Decides (f path) (P path))
    → (path : List Bytes) → Decides (any_suffix f path) (SomeSuffix P path)
any_suffix-Decides f P d [] =
    Decides-map _ (P [] ⊎ ⊥) (SomeSuffix P []) (SomeSuffix-nil P) (of_SomeSuffix-nil P)
      (Decides-or_else (f []) (some false) (P []) ⊥ (d []) (Decides-false ⊥ (λ x. x)))
any_suffix-Decides f P d (s ∷ path) =
    Decides-map _ (P (s ∷ path) ⊎ SomeSuffix P path) (SomeSuffix P (s ∷ path))
      (SomeSuffix-cons P s path) (of_SomeSuffix-cons P s path)
      (Decides-or_else (f (s ∷ path)) (any_suffix f path) (P (s ∷ path)) (SomeSuffix P path)
        (d (s ∷ path)) (any_suffix-Decides f P d path))

module _ (pat : List Bytes) (f : List Bytes → Option Bool)
    (rest_of : (path : List Bytes) → Decides (f path) (Matches pat path)) where
  match_double-Decides :
      (path : List Bytes) → Decides (match_double pat f path) (SomeSuffix (Matches pat) path)
  match_double-Decides path =
      elim pat
          as (λ ps.
            ((path : List Bytes) → Decides (f path) (Matches ps path))
            → Decides (match_double ps f path) (SomeSuffix (Matches ps) path)) [
              | [] ↦ λ r. Decides-true _ (path, [], sym (append-nil path), refl)
              | q ∷ qs ↦ λ r. any_suffix-Decides f (Matches (q ∷ qs)) r path
            ]
        rest_of

  match_one-Decides :
      (fuel : ℕ) (p : Bytes)
      → p ≢ double_star
      → length p < fuel
      → contains_byte star p ≡ false
      → (path : List Bytes) → Decides (match_one fuel p f path) (Matches (p ∷ pat) path)
  match_one-Decides fuel p ne enough plain [] =
      Decides-false _
        (λ m. elim m [ inl (e, b, a, x, y) ↦ ne e | inr (x, rest, e, y) ↦ nil_cons e ])
  match_one-Decides fuel p ne enough plain (s ∷ path) =
      let single = single_match-plain fuel p s enough plain in
      elim (Bool-cases (bytes_eq p s)) [
        | inl same ↦
            let e : p ≡ s = (bytes_eq_iff p s).0 same in
            subst (λ r. Decides r (Matches (p ∷ pat) (s ∷ path)))
              (sym (ap (λ r. and_then r (f path)) (single ∙ ap some same)))
              (Decides-map (f path) (Matches pat path) (Matches (p ∷ pat) (s ∷ path))
                (λ m. inr (ne, path, ap (λ x. x ∷ path) (sym e), m))
                (λ m. elim m [
                  | inl (d, b, a, x, y) ↦ absurd (ne d)
                  | inr (x, rest, d, y) ↦ subst (Matches pat) (sym (tail_eq d)) y
                ])
                (rest_of path))
        | inr other ↦
            subst (λ r. Decides r (Matches (p ∷ pat) (s ∷ path)))
              (sym (ap (λ r. and_then r (f path)) (single ∙ ap some other)))
              (Decides-false _ (λ m. elim m [
                | inl (d, b, a, x, y) ↦ ne d
                | inr (x, rest, d, y) ↦
                    not_true_of_false (sym other ∙ (bytes_eq_iff p s).1 (sym (head_eq d)))
              ]))
      ]

-- For a pattern without single stars, `match_segments` ends and decides whether the path matches:
-- `**` matches any number of segments, every other segment matches itself only. The rounds allowed to
-- `single_match` are more than any segment of the pattern has bytes.
pub match_segments-Matches :
    (fuel : ℕ) (pat : List Bytes)
    → All (λ p. (length p < fuel) × (contains_byte star p ≡ false)) pat
    → (path : List Bytes)
    → (b : Bool) × (match_segments fuel pat path ≡ some b) × ((b ≡ true) ↔ Matches pat path)
unfolding match_segments
match_segments-Matches fuel [] plain [] = Decides-true _ refl
match_segments-Matches fuel [] plain (s ∷ path) = Decides-false _ (λ e. nil_cons (sym e))
match_segments-Matches fuel (p ∷ pat) ((enough, plain), rest) path =
    let f = match_segments fuel pat in
    let rest_of = match_segments-Matches fuel pat rest in
    elim (Bool-cases (bytes_eq p double_star)) [
      | inl e ↦
          let same : p ≡ double_star = (bytes_eq_iff p double_star).0 e in
          subst (λ r. Decides r (Matches (p ∷ pat) path)) (sym (if_true _ _ e))
            (Decides-map _ (SomeSuffix (Matches pat) path) (Matches (p ∷ pat) path)
              (λ m. inl (same, m.0, m.1, m.2, m.3))
              (λ m. elim m [
                | inl (x, b, a, d, y) ↦ (b, a, d, y)
                | inr (ne, rest, d, y) ↦ absurd (ne same)
              ])
              (match_double-Decides pat f rest_of path))
      | inr n ↦
          let ne : p ≢ double_star =
            λ q. not_true_of_false (sym n ∙ (bytes_eq_iff p double_star).1 q) in
          subst (λ r. Decides r (Matches (p ∷ pat) path)) (sym (if_false _ _ n))
            (match_one-Decides pat f rest_of fuel p ne enough plain path)
    ]
