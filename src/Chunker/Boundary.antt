-- ===== src/Chunker/Boundary.antt =====
-- The boundary scan of chunker.rs: the rolling hash is the hash of the last 48 bytes, and the scan
-- stops at the first place where the mask clears it.
use Prim.Native.Nat.{bit_and}
use native.Mathlib.Nat.{pow-suc}
use native.Mathlib.Decide.{ℕ_discrete}
use obsidian_backup_server.Prelude.{
  ℕ, zero, suc, ◌+◌, ◌-◌, ◌*◌, ◌%◌, ◌^◌, ◌≤◌, ◌<◌, min, ◌≡◌, ◌≢◌, refl, ap, inl, inr, ◌⊎◌, List, [],
  ◌∷◌, ◌++◌, Bytes, length, get_or, take, drop, slice, length-drop, ◌==◌, ==_iff, leb, Bool-cases,
  length-take, false, arith,
}
use obsidian_backup_server.Prelude.Words.{u64_mod}
use obsidian_backup_server.Chunker.{window, mul_add, initial_hash, roll, slide, find_boundary_at}

-- the hash with no reduction
poly : ℕ → Bytes → ℕ
poly h [] = h
poly h (b ∷ bs) = poly (h * 31 + b) bs

initial_hash-poly : (h : ℕ) (bs : Bytes) → initial_hash (h % u64_mod) bs ≡ poly h bs % u64_mod
unfolding initial_hash poly
initial_hash-poly h [] = refl
initial_hash-poly h (b ∷ bs) =
    let e : mul_add (h % u64_mod) b ≡ (h * 31 + b) % u64_mod = omega arith in
    rw e (initial_hash-poly (h * 31 + b) bs)

poly-split : (h : ℕ) (bs : Bytes) → poly h bs ≡ h * 31 ^ length bs + poly 0 bs
unfolding poly
poly-split h [] = omega arith
poly-split h (b ∷ bs) = omega (
  arith,
  poly-split (h * 31 + b) bs,
  poly-split (0 * 31 + b) bs,
  pow-suc 31 (length bs),
  ap (λ (p : ℕ). (h * 31) * p) (pow-suc 31 (length bs)),
  ap (λ (p : ℕ). h * p) (pow-suc 31 (length bs)),
)

initial_hash-snoc :
    (h : ℕ) (bs : Bytes) (b : ℕ) → initial_hash h (bs ++ b ∷ []) ≡ mul_add (initial_hash h bs) b
unfolding initial_hash
initial_hash-snoc h [] b = refl
initial_hash-snoc h (c ∷ bs) b = initial_hash-snoc (mul_add h c) bs b

poly_47 : (o : ℕ) (ws : Bytes) → length ws ≡ 47 → poly 0 (o ∷ ws) ≡ o * 31 ^ 47 + poly 0 ws
unfolding poly
poly_47 o ws n = let e : 0 * 31 + o ≡ o = omega arith in rw (e, poly-split o ws, n)

drop_oldest :
    (a a' p : ℕ)
    → a % u64_mod ≡ a' % u64_mod
    → ((a + p) % u64_mod + u64_mod - a' % u64_mod) % u64_mod ≡ p % u64_mod
drop_oldest a a' p h = omega arith

mul_mod : (o : ℕ) → (o * 31 ^ 47) % u64_mod ≡ (o * (31 ^ 47 % u64_mod)) % u64_mod
mul_mod o = omega arith

roll-initial_hash :
    (o b : ℕ) (ws : Bytes)
    → length ws ≡ 47
    → roll (initial_hash 0 (o ∷ ws)) o b ≡ initial_hash 0 (ws ++ b ∷ [])
unfolding roll
roll-initial_hash o b ws n =
    let first : initial_hash 0 (o ∷ ws) ≡ poly 0 (o ∷ ws) % u64_mod =
      initial_hash-poly 0 (o ∷ ws) in
    let rest : initial_hash 0 ws ≡ poly 0 ws % u64_mod = initial_hash-poly 0 ws in
    let whole : poly 0 (o ∷ ws) ≡ o * 31 ^ 47 + poly 0 ws = poly_47 o ws n in
    rw (initial_hash-snoc, first, whole, rest)
      (ap (λ x. mul_add x b)
        (drop_oldest (o * 31 ^ 47) (o * (31 ^ 47 % u64_mod)) (poly 0 ws) (mul_mod o)))

pub get_or-drop {ℓ} :
    {A : Type ℓ} (k n : ℕ) (xs : List A) (d : A) → get_or (drop k xs) n d ≡ get_or xs (k + n) d
get_or-drop zero n xs d = let e : zero + n ≡ n = omega arith in rw e
get_or-drop (suc k) n [] d = refl
get_or-drop (suc k) n (x ∷ xs) d =
    let e : suc k + n ≡ suc (k + n) = omega arith in rw e (get_or-drop k n xs d)

pub take-snoc {ℓ} :
    {A : Type ℓ} (n : ℕ) (xs : List A) (d : A)
    → n < length xs
    → take (suc n) xs ≡ take n xs ++ get_or xs n d ∷ []
take-snoc n [] d h = absurd (omega arith)
take-snoc zero (x ∷ xs) d h = refl
take-snoc (suc n) (x ∷ xs) d h = ap (λ l. x ∷ l) (take-snoc n xs d (omega arith))

pub drop-cons {ℓ} :
    {A : Type ℓ} (k : ℕ) (xs : List A) (d : A)
    → k < length xs
    → drop k xs ≡ get_or xs k d ∷ drop (suc k) xs
drop-cons k [] d h = absurd (omega arith)
drop-cons zero (x ∷ xs) d h = refl
drop-cons (suc k) (x ∷ xs) d h = drop-cons k xs d (omega arith)

-- The hash of the 48 bytes before `e`, computed afresh.
abbrev pub window_hash : Bytes → ℕ → ℕ
window_hash input e = initial_hash 0 (slice (e - window) e input)

-- The window as its first byte and the others, and the next window as those and a new one.
window_parts :
    (input : Bytes) (k i : ℕ)
    → i ≡ k + 48
    → i < length input
    → (slice k i input ≡ get_or input k 0 ∷ take 47 (drop (suc k) input))
      × (slice (suc k) (suc i) input ≡ take 47 (drop (suc k) input) ++ get_or input i 0 ∷ [])
window_parts input k i e h =
    let n : i - k ≡ 48 = omega arith in
    let m : suc i - suc k ≡ 48 = omega arith in
    let l : suc k + 47 ≡ i = omega arith in
    let short : 47 < length (drop (suc k) input) = omega (arith, length-drop (suc k) input) in
    (
      rw (n, drop-cons k input 0 (omega arith)),
      rw (m, take-snoc 47 (drop (suc k) input) 0 short, get_or-drop (suc k) 47 input 0, l),
    )

roll-window_hash :
    (input : Bytes) (i : ℕ)
    → 48 ≤ i
    → i < length input
    → roll (window_hash input i) (get_or input (i - window) 0) (get_or input i 0)
      ≡ window_hash input (i + 1)
roll-window_hash input i low high =
    let k : ℕ = i - 48 in
    let e : i + 1 ≡ suc i = omega arith in
    let e' : suc i - 48 ≡ suc k = omega arith in
    let (now, next) = window_parts input k i (omega arith) high in
    let n : length (take 47 (drop (suc k) input)) ≡ 47 =
      omega (arith, length-take 47 (drop (suc k) input), length-drop (suc k) input) in
    rw (e, e', now, next) (roll-initial_hash _ _ (take 47 (drop (suc k) input)) n)

-- What a scan from `i` returns: the first end past `i` of a window that the mask clears, or the end
-- of the search.
pub record IsFirst (input : Bytes) (mask search_end i r : ℕ) : Type 0 where
  pub after : i < r
  pub within : r ≤ search_end
  pub marked : r < search_end → bit_and (window_hash input r) mask ≡ 0
  pub earliest : (e : ℕ) → i < e → e < r → bit_and (window_hash input e) mask ≢ 0

IsFirst-here :
    (input : Bytes) (mask search_end i : ℕ)
    → i < search_end
    → (i + 1 < search_end → bit_and (window_hash input (i + 1)) mask ≡ 0)
    → IsFirst input mask search_end i (i + 1)
IsFirst-here input mask search_end i h marked = record {
  after = omega arith;
  within = omega arith;
  marked = marked;
  earliest = λ e low high. absurd (omega arith);
}

IsFirst-later :
    (input : Bytes) (mask search_end i r : ℕ)
    → bit_and (window_hash input (i + 1)) mask ≢ 0
    → IsFirst input mask search_end (i + 1) r
    → IsFirst input mask search_end i r
IsFirst-later input mask search_end i r clear f = record {
  after = omega arith;
  within = f.within;
  marked = f.marked;
  earliest = λ e low high. elim (ℕ_discrete e (i + 1)) [
    | yes p ↦ rw p clear
    | no p ↦ f.earliest e (omega arith) high
  ];
}

slide-IsFirst :
    (input : Bytes) (mask search_end rounds i : ℕ)
    → i + suc rounds ≡ search_end
    → 48 ≤ i
    → search_end ≤ length input
    → IsFirst input mask search_end i
        (slide input mask search_end (suc rounds) i (window_hash input i))
unfolding slide
slide-IsFirst input mask search_end zero i e low high =
    let end : search_end ≡ i + 1 = omega arith in
    let done = IsFirst-here input mask search_end i (omega arith) λ h. absurd (omega arith) in
    rw (roll-window_hash input i low (omega arith))
      (elim (Bool-cases (bit_and (window_hash input (i + 1)) mask == 0)) [
        | inl t ↦ rw t done
        | inr t ↦ rw t (rw end (rw end at done))
      ])
slide-IsFirst input mask search_end (suc rounds) i e low high =
    let later =
      slide-IsFirst input mask search_end rounds (i + 1) (omega arith) (omega arith) high in
    rw (roll-window_hash input i low (omega arith))
      (elim (Bool-cases (bit_and (window_hash input (i + 1)) mask == 0)) [
        | inl t ↦ rw t (IsFirst-here input mask search_end i (omega arith) λ _. (==_iff _ _).0 t)
        | inr t ↦
            rw t (
              IsFirst-later input mask search_end i _ (λ z. ground (arith, (==_iff _ _).1 z)) later)
      ])

-- Where the search range goes past `min_size + 48`, `find_boundary_at` stops at the first window end
-- after that whose hash, computed afresh from its 48 bytes, has no bit of the mask, or at the end of
-- the range, which is `max_size` or the end of the input.
pub find_boundary_at-IsFirst :
    (input : Bytes) (min_size max_size mask : ℕ)
    → min_size + 48 < min max_size (length input)
    → IsFirst input mask
        (min max_size (length input))
        (min_size + 48)
        (find_boundary_at input min_size max_size mask)
unfolding find_boundary_at
find_boundary_at-IsFirst input min_size max_size mask h =
    let search_end : ℕ = min max_size (length input) in
    let long : leb search_end min_size ≡ false = ground arith in
    let rounds : search_end - (min_size + 48) ≡ suc (search_end - (min_size + 48) - 1) =
      omega arith in
    let full : min_size + min 48 (length input - min_size) ≡ min_size + 48 = omega arith in
    let first : min_size + 48 - 48 ≡ min_size = omega arith in
    rw (long, rounds, full)
      (rw first at (
        slide-IsFirst input mask search_end (search_end - (min_size + 48) - 1) (min_size + 48)
          (omega arith) (omega arith) (omega arith)))

slide_bounds :
    (input : Bytes) (mask search_end rounds i h : ℕ)
    → rounds ≤ search_end - i
    → (i < slide input mask search_end rounds i h
        ⊎ slide input mask search_end rounds i h ≡ search_end)
      × (slide input mask search_end rounds i h ≤ search_end)
unfolding slide
slide_bounds input mask search_end zero i h e = ground arith
slide_bounds input mask search_end (suc rounds) i h e = ground (
  arith,
  slide_bounds input mask search_end rounds (i + 1)
      (roll h (get_or input (i - window) 0) (get_or input i 0)),
)

-- The size found never passes `max_size` or the input, passes `min_size` where both do, and is not 0
-- where neither is 0.
pub find_boundary_at_bounds :
    (input : Bytes) (min_size max_size mask : ℕ)
    → (find_boundary_at input min_size max_size mask ≤ min max_size (length input))
      × (min_size < min max_size (length input)
          → min_size < find_boundary_at input min_size max_size mask)
      × (0 < max_size → 0 < length input → 0 < find_boundary_at input min_size max_size mask)
unfolding find_boundary_at
find_boundary_at_bounds input min_size max_size mask =
    let search_end : ℕ = min max_size (length input) in
    ground (
      arith,
      slide_bounds input mask search_end (search_end - (min_size + 48)) (min_size + 48)
          (initial_hash 0 (slice min_size (min_size + min 48 (length input - min_size)) input)),
    )
