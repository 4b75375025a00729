-- ===== src/Erasure/Shards.antt =====
-- Splitting into shards and joining them again.
use mathlib.Core.Path.{ap₂}
use obsidian_backup_server.Prelude.{
  ℕ, zero, suc, ◌+◌, ◌-◌, ◌*◌, ◌≤◌, ◌<◌, ◌≡◌, refl, ap, List, [], ◌∷◌, ◌++◌, Bytes, length,
  length-append, length-take, length-drop, take, drop, replicate, length-replicate,
  take-append-drop, take-append, flatten, All, All-append, Option, none, some, true, arith,
}
use obsidian_backup_server.Erasure.{split_shards, div_ceil, Masks, missing, present, lengths_match}

pub length-split_shards : (n size : ℕ) (bs : Bytes) → length (split_shards n size bs) ≡ n
unfolding split_shards
length-split_shards zero size bs = refl
length-split_shards (suc n) size bs = ap suc (length-split_shards n size (drop size bs))

-- The shards of a whole number of shards' bytes join to them, and all have the same size.
pub flatten-split_shards :
    (n size : ℕ) (bs : Bytes)
    → length bs ≡ size * n
    → (flatten (split_shards n size bs) ≡ bs) × All (λ s. length s ≡ size) (split_shards n size bs)
unfolding split_shards
flatten-split_shards zero size [] h = (refl, tt)
flatten-split_shards zero size (b ∷ bs) h = absurd (omega arith)
flatten-split_shards (suc n) size bs h =
    let (joined, sizes) =
      flatten-split_shards n size (drop size bs) (omega (arith, length-drop size bs)) in
    (rw joined (take-append-drop size bs), (omega (arith, length-take size bs), sizes))

pub length-padded :
    (bs : Bytes) (n : ℕ) → length bs ≤ n → length (bs ++ replicate (n - length bs) 0) ≡ n
length-padded bs n h = omega (
  arith,
  length-append bs (replicate (n - length bs) 0),
  length-replicate {A = ℕ} (n - length bs) 0,
)

pub length-le-padded : (n : ℕ) → n ≤ div_ceil n 8 * 8
length-le-padded n = omega arith

-- Cutting the padding off again.
pub take-padded : (bs pad : Bytes) → take (length bs) (bs ++ pad) ≡ bs
take-padded bs pad = take-append bs pad

abbrev pub IsBytes : Bytes → Type 0
IsBytes bs = All (λ b. b < 256) bs

IsBytes-take : (n : ℕ) (bs : Bytes) → IsBytes bs → IsBytes (take n bs)
IsBytes-take zero bs h = tt
IsBytes-take (suc n) [] h = tt
IsBytes-take (suc n) (b ∷ bs) h = (h.0, IsBytes-take n bs h.1)

IsBytes-drop : (n : ℕ) (bs : Bytes) → IsBytes bs → IsBytes (drop n bs)
IsBytes-drop zero bs h = h
IsBytes-drop (suc n) [] h = tt
IsBytes-drop (suc n) (b ∷ bs) h = IsBytes-drop n bs h.1

IsBytes-zeros : (n : ℕ) → IsBytes (replicate n 0)
IsBytes-zeros zero = tt
IsBytes-zeros (suc n) = (omega arith, IsBytes-zeros n)

pub IsBytes-padded : (bs : Bytes) (n : ℕ) → IsBytes bs → IsBytes (bs ++ replicate n 0)
IsBytes-padded bs n h = All-append (λ b. b < 256) bs (replicate n 0) h (IsBytes-zeros n)

pub IsBytes-split_shards :
    (n size : ℕ) (bs : Bytes) → IsBytes bs → All IsBytes (split_shards n size bs)
unfolding split_shards
IsBytes-split_shards zero size bs h = tt
IsBytes-split_shards (suc n) size bs h =
    (IsBytes-take size bs h, IsBytes-split_shards n size (drop size bs) (IsBytes-drop size bs h))

-- Masks of two groups of shards.
pub Masks-append :
    (dm pm : List (Option Bytes)) (ds ps : List Bytes)
    → Masks dm ds
    → Masks pm ps
    → Masks (dm ++ pm) (ds ++ ps)
Masks-append [] pm [] ps h k = k
Masks-append [] pm (d ∷ ds) ps h k = absurd h
Masks-append (none ∷ dm) pm [] ps h k = absurd h
Masks-append (some t ∷ dm) pm [] ps h k = absurd h
Masks-append (none ∷ dm) pm (d ∷ ds) ps h k = Masks-append dm pm ds ps h k
Masks-append (some t ∷ dm) pm (d ∷ ds) ps h k = (h.0, Masks-append dm pm ds ps h.1 k)

pub missing-append : (dm pm : List (Option Bytes)) → missing (dm ++ pm) ≡ missing dm + missing pm
missing-append [] pm = omega arith
missing-append (none ∷ dm) pm = omega (arith, missing-append dm pm)
missing-append (some t ∷ dm) pm = missing-append dm pm

-- With nothing missing, the shards are all there.
pub present-Masks :
    (masked : List (Option Bytes)) (shards : List Bytes)
    → Masks masked shards
    → missing masked ≡ 0
    → present masked ≡ shards
present-Masks [] [] h m = refl
present-Masks [] (s ∷ shards) h m = absurd h
present-Masks (none ∷ masked) [] h m = absurd h
present-Masks (some t ∷ masked) [] h m = absurd h
present-Masks (none ∷ masked) (s ∷ shards) h m = absurd (omega arith)
present-Masks (some t ∷ masked) (s ∷ shards) h m = ap₂ ◌∷◌ h.0 (present-Masks masked shards h.1 m)

pub lengths_match-Masks :
    (size : ℕ) (masked : List (Option Bytes)) (shards : List Bytes)
    → Masks masked shards
    → All (λ s. length s ≡ size) shards
    → lengths_match size masked ≡ true
lengths_match-Masks size [] [] h k = refl
lengths_match-Masks size [] (s ∷ shards) h k = refl
lengths_match-Masks size (none ∷ masked) [] h k = absurd h
lengths_match-Masks size (some t ∷ masked) [] h k = absurd h
lengths_match-Masks size (none ∷ masked) (s ∷ shards) h k =
    lengths_match-Masks size masked shards h k.1
lengths_match-Masks size (some t ∷ masked) (s ∷ shards) h k =
    ground (arith, ap length h.0, lengths_match-Masks size masked shards h.1 k.1)
