-- ===== src/Tests/Code.antt =====
-- A code with the laws of a Reed-Solomon code to run examples on: each of the two parity shards holds
-- all the data, as one number.
use mathlib.Core.Path.{subst}
use native.Mathlib.Nat.{suc-mul}
use obsidian_backup_server.Prelude.{
  ℕ, suc, ◌+◌, ◌-◌, ◌*◌, ◌/◌, ◌%◌, ◌≤◌, ◌<◌, ◌≡◌, ◌∙◌, refl, sym, ap, Bool, true, ◌&&◌, ◌==◌, ltb,
  Option, none, some, List, [], ◌∷◌, ◌++◌, Bytes, length, length-append, length-replicate, take,
  drop, take-append, take-append-drop, if_false, drop-append, flatten, replicate, All, All-append,
  if◌then◌else◌, if_true, Bool-cases, inl, inr, Result, ok, err, io, arith,
}
use obsidian_backup_server.Prelude.Words.{to_le_bytes, from_le_bytes}
use obsidian_backup_server.Erasure.Shards.{missing-append, present-Masks}
use obsidian_backup_server.Erasure.{ReedSolomon, split_shards, missing, Masks, present}

to_le_bytes-from_le_bytes :
    (bs : Bytes) → All (λ b. b < 256) bs → to_le_bytes (length bs) (from_le_bytes bs) ≡ bs
to_le_bytes-from_le_bytes [] h = refl
to_le_bytes-from_le_bytes (b ∷ bs) (low, h) =
    let r : (b + 256 * from_le_bytes bs) % 256 ≡ b = omega arith in
    let q : (b + 256 * from_le_bytes bs) / 256 ≡ from_le_bytes bs = omega arith in
    rw (r, q, to_le_bytes-from_le_bytes bs h) refl

abbrev first_length : List Bytes → ℕ
first_length [] = 0
first_length (s ∷ shards) = length s

abbrev sized : ℕ → List Bytes → Bool
sized size [] = true
sized size (s ∷ shards) = length s == size && sized size shards

abbrev code : List Bytes → Bytes
code shards = from_le_bytes (flatten shards) ∷ replicate (first_length shards - 1) 0

unfoldable pub encode : List Bytes → Result (List Bytes)
encode shards =
    if ltb 0 (first_length shards) && sized (first_length shards) shards
    then ok (code shards ∷ code shards ∷ [])
    else err io

sized_All :
    (size : ℕ) (shards : List Bytes) → sized size shards ≡ true → All (λ s. length s ≡ size) shards
sized_All size [] h = tt
sized_All size (s ∷ shards) h = (ground arith, sized_All size shards (ground arith))

All_sized :
    (size : ℕ) (shards : List Bytes) → All (λ s. length s ≡ size) shards → sized size shards ≡ true
All_sized size [] h = refl
All_sized size (s ∷ shards) (e, h) = ground (arith, All_sized size shards h)

split_flatten :
    (size : ℕ) (shards : List Bytes)
    → All (λ s. length s ≡ size) shards
    → split_shards (length shards) size (flatten shards) ≡ shards
unfolding split_shards
split_flatten size [] h = refl
split_flatten size (s ∷ shards) (e, h) =
    let front = subst (λ n. take n (s ++ flatten shards) ≡ s) e (take-append s (flatten shards)) in
    let back =
      subst (λ n. drop n (s ++ flatten shards) ≡ flatten shards) e
        (drop-append s (flatten shards)) in
    rw (front, back, split_flatten size shards h) refl

-- the data, from a parity shard
abbrev decode : Bytes → List Bytes
decode [] = []
decode (x ∷ zeros) = let size = suc (length zeros) in split_shards 8 size (to_le_bytes (8 * size) x)

-- all the shards, from what is left of the parity shards and from the data shards
abbrev recover : List (Option Bytes) → List Bytes → List Bytes
recover [] shards = shards ++ code shards ∷ code shards ∷ []
recover (none ∷ parity) shards = recover parity shards
recover (some p ∷ parity) shards = decode p ++ p ∷ p ∷ []

pub reconstruct : List (Option Bytes) → Result (List Bytes)
reconstruct masked = ok (recover (drop 8 masked) (present (take 8 masked)))

length-flatten :
    (size : ℕ) (shards : List Bytes)
    → All (λ s. length s ≡ size) shards
    → length (flatten shards) ≡ length shards * size
length-flatten size [] h = omega arith
length-flatten size (s ∷ shards) (e, h) = omega (
  arith,
  e,
  length-append s (flatten shards),
  length-flatten size shards h,
  suc-mul (length shards) size,
)

All-flatten :
    (shards : List Bytes)
    → All (λ s. All (λ b. b < 256) s) shards
    → All (λ b. b < 256) (flatten shards)
All-flatten [] h = tt
All-flatten (s ∷ shards) (b, h) =
    All-append (λ b. b < 256) s (flatten shards) b (All-flatten shards h)

-- the parts of the masked shards
Masks-split :
    (shards parity : List Bytes) (masked : List (Option Bytes))
    → Masks masked (shards ++ parity)
    → Masks (take (length shards) masked) shards × Masks (drop (length shards) masked) parity
Masks-split [] parity masked h = (tt, h)
Masks-split (s ∷ shards) parity [] h = absurd h
Masks-split (s ∷ shards) parity (none ∷ masked) h = Masks-split shards parity masked h
Masks-split (s ∷ shards) parity (some t ∷ masked) (e, h) =
    let (a, b) = Masks-split shards parity masked h in ((e, a), b)

missing_split :
    (masked : List (Option Bytes))
    → missing (take 8 masked) + missing (drop 8 masked) ≡ missing masked
missing_split masked =
    sym (missing-append (take 8 masked) (drop 8 masked)) ∙ ap missing (take-append-drop 8 masked)

decode-code :
    (size : ℕ) (shards : List Bytes)
    → length shards ≡ 8
    → 0 < first_length shards
    → first_length shards ≡ size
    → All (λ s. length s ≡ size) shards
    → All (λ s. All (λ b. b < 256) s) shards
    → decode (code shards) ≡ shards
decode-code size shards count pos f sizes bytes =
    let zeros : suc (length (replicate (first_length shards - 1) 0)) ≡ size =
      omega (arith, length-replicate {A = ℕ} (first_length shards - 1) 0) in
    let total : length (flatten shards) ≡ 8 * size =
      length-flatten size shards sizes ∙ ap (λ n. n * size) count in
    let back : to_le_bytes (8 * size) (from_le_bytes (flatten shards)) ≡ flatten shards =
      subst (λ n. to_le_bytes n (from_le_bytes (flatten shards)) ≡ flatten shards) total
        (to_le_bytes-from_le_bytes (flatten shards) (All-flatten shards bytes)) in
    ap (λ n. split_shards 8 n (to_le_bytes (8 * n) (from_le_bytes (flatten shards)))) zeros
    ∙ (ap (split_shards 8 size) back
        ∙ subst (λ n. split_shards n size (flatten shards) ≡ shards) count
            (split_flatten size shards sizes))

recover-Masks :
    (shards dp : List Bytes) (pm : List (Option Bytes))
    → Masks pm (code shards ∷ code shards ∷ [])
    → decode (code shards) ≡ shards
    → (missing pm ≡ 2 → dp ≡ shards)
    → recover pm dp ≡ shards ++ code shards ∷ code shards ∷ []
recover-Masks shards dp [] h d f = absurd h
recover-Masks shards dp (none ∷ []) h d f = absurd h
recover-Masks shards dp (none ∷ none ∷ []) h d f = ap (λ l. l ++ code l ∷ code l ∷ []) (f refl)
recover-Masks shards dp (none ∷ none ∷ none ∷ pm) h d f = absurd h
recover-Masks shards dp (none ∷ none ∷ some x ∷ pm) h d f = absurd h
recover-Masks shards dp (none ∷ some p ∷ pm) (e, h) d f =
    ap (λ q. decode q ++ q ∷ q ∷ []) e ∙ ap (λ l. l ++ code shards ∷ code shards ∷ []) d
recover-Masks shards dp (some p ∷ pm) (e, h) d f =
    ap (λ q. decode q ++ q ∷ q ∷ []) e ∙ ap (λ l. l ++ code shards ∷ code shards ∷ []) d

parity_inj : {a b : List Bytes} → ok a ≡ ok b → a ≡ b
parity_inj {a} {b} h = ap (λ r. elim r [ ok x ↦ x | err e ↦ a ]) h

not_ok : {A : Type 0} {a : List Bytes} → err io ≡ ok a → A
not_ok h = cc

encode_inv :
    (shards parity : List Bytes)
    → encode shards ≡ ok parity
    → (ltb 0 (first_length shards) && sized (first_length shards) shards ≡ true)
      × (parity ≡ code shards ∷ code shards ∷ [])
unfolding encode
encode_inv shards parity e =
    elim (Bool-cases (ltb 0 (first_length shards) && sized (first_length shards) shards)) [
      | inl t ↦ (t, sym (parity_inj (sym (if_true _ _ t) ∙ e)))
      | inr f ↦ not_ok (sym (if_false _ _ f) ∙ e)
    ]

pub reconstruct-encode :
    (shards parity : List Bytes) (masked : List (Option Bytes))
    → encode shards ≡ ok parity
    → length shards ≡ 8
    → All (λ s. All (λ b. b < 256) s) shards
    → Masks masked (shards ++ parity)
    → missing masked ≤ 2
    → reconstruct masked ≡ ok (shards ++ parity)
unfolding reconstruct
reconstruct-encode shards parity masked e count bytes h few =
    let (t, same) = encode_inv shards parity e in
    let pos : 0 < first_length shards = ground arith in
    let sizes = sized_All (first_length shards) shards (ground arith) in
    let h' = subst (λ p. Masks masked (shards ++ p)) same h in
    let split = Masks-split shards (code shards ∷ code shards ∷ []) masked h' in
    let dm = subst (λ n. Masks (take n masked) shards) count split.0 in
    let pm = subst (λ n. Masks (drop n masked) (code shards ∷ code shards ∷ [])) count split.1 in
    let d = decode-code (first_length shards) shards count pos refl sizes bytes in
    ap ok (
      recover-Masks shards _ (drop 8 masked) pm d (λ both.
        present-Masks (take 8 masked) shards dm (omega (arith, missing_split masked, both)))
      ∙ ap (λ p. shards ++ p) (sym same))

pub encode_total :
    (shards : List Bytes) (size : ℕ)
    → length shards ≡ 8
    → 0 < size
    → All (λ s. length s ≡ size) shards
    → (parity : List Bytes) × (encode shards ≡ ok parity)
unfolding encode
encode_total [] size count pos sizes = absurd (omega arith)
encode_total (s ∷ shards) size count pos sizes =
    let same : length s ≡ size = sizes.0 in
    let all : sized (length s) (s ∷ shards) ≡ true =
      subst (λ n. sized n (s ∷ shards) ≡ true) (sym same) (All_sized size (s ∷ shards) sizes) in
    (
      _,
      if_true {b = ltb 0 (length s) && sized (length s) (s ∷ shards)} _ _
          (ground (arith, all, same, pos)),
    )

pub encode_shape :
    (shards parity : List Bytes) (size : ℕ)
    → encode shards ≡ ok parity
    → All (λ s. length s ≡ size) shards
    → (length parity ≡ 2) × All (λ s. length s ≡ size) parity
encode_shape [] parity size e sizes =
    let (t, same) = encode_inv [] parity e in absurd (ground arith)
encode_shape (s ∷ shards) parity size e sizes =
    let (t, same) = encode_inv (s ∷ shards) parity e in
    let first : length s ≡ size = sizes.0 in
    let pos : 0 < length s = ground arith in
    let len : length (code (s ∷ shards)) ≡ size =
      omega (arith, length-replicate {A = ℕ} (length s - 1) 0) in
    subst (λ p. (length p ≡ 2) × All (λ q. length q ≡ size) p) (sym same) (refl, (len, (len, tt)))

unfoldable pub code_of_numbers : ReedSolomon
code_of_numbers = record {
  encode = encode;
  reconstruct = reconstruct;
  encode_total = encode_total;
  encode_shape = encode_shape;
  reconstruct-encode = reconstruct-encode;
}
