-- ===== src/Erasure.antt =====
-- sidecar/src/erasure.rs: objects as 8 data shards and 2 parity shards. The Reed-Solomon code of the
-- crate `reed_solomon_erasure` is the parameter `rs`.
pub mod Shards
pub mod Codec
use obsidian_backup_server.Prelude.{
  ℕ, zero, suc, ◌+◌, ◌-◌, ◌*◌, ◌/◌, ◌≤◌, ◌<◌, ◌≡◌, Bool, true, false, Option, none, some, List, [],
  ◌∷◌, ◌++◌, Bytes, length, take, drop, replicate, ltb, leb, ◌==◌, if◌then◌else◌, Result, ok, err,
  ◌>>=◌, empty_object, too_many_corrupted, shard_length, io, All,
}

abbrev pub data_shards : ℕ
data_shards = 8

abbrev pub parity_shards : ℕ
parity_shards = 2

abbrev pub total_shards : ℕ
total_shards = data_shards + parity_shards

pub record EncodedObject : Type 0 where
  pub data_shards : List Bytes
  pub parity_shards : List Bytes
  pub shard_size : ℕ
  pub original_size : ℕ

-- `original_size.div_ceil(DATA_SHARDS)`
abbrev pub div_ceil : ℕ → ℕ → ℕ
div_ceil n d = (n + d - 1) / d

-- `padded.chunks(shard_size)`, for the given number of chunks
unfoldable pub split_shards : ℕ → ℕ → Bytes → List Bytes
split_shards zero size bs = []
split_shards (suc n) size bs = take size bs ∷ split_shards n size (drop size bs)

-- how many shards are missing
abbrev pub missing : List (Option Bytes) → ℕ
missing [] = 0
missing (none ∷ shards) = suc (missing shards)
missing (some s ∷ shards) = missing shards

-- the shards with some of them gone
abbrev pub Masks : List (Option Bytes) → List Bytes → Type 0
Masks [] [] = Unit
Masks (none ∷ masked) (s ∷ shards) = Masks masked shards
Masks (some t ∷ masked) (s ∷ shards) = (t ≡ s) × Masks masked shards
Masks _ _ = ⊥

-- The code: `encode` derives the parity shards of 8 data shards, `reconstruct` fills in what is
-- missing. The laws are those of the crate for 8 + 2 shards.
pub record ReedSolomon : Type 0 where
  pub encode : List Bytes → Result (List Bytes)
  pub reconstruct : List (Option Bytes) → Result (List Bytes)
  pub encode_total :
      (shards : List Bytes) (size : ℕ)
      → length shards ≡ 8
      → 0 < size
      → All (λ s. length s ≡ size) shards
      → (parity : List Bytes) × (encode shards ≡ ok parity)
  pub encode_shape :
      (shards parity : List Bytes) (size : ℕ)
      → encode shards ≡ ok parity
      → All (λ s. length s ≡ size) shards
      → (length parity ≡ 2) × All (λ s. length s ≡ size) parity
  pub reconstruct-encode :
      (shards parity : List Bytes) (masked : List (Option Bytes))
      → encode shards ≡ ok parity
      → length shards ≡ 8
      → All (λ s. All (λ b. b < 256) s) shards
      → Masks masked (shards ++ parity)
      → missing masked ≤ 2
      → reconstruct masked ≡ ok (shards ++ parity)

-- `s.unwrap()` for each shard, where none is missing
abbrev pub present : List (Option Bytes) → List Bytes
present [] = []
present (none ∷ shards) = present shards
present (some s ∷ shards) = s ∷ present shards

-- every shard that is there has the expected length
abbrev pub lengths_match : ℕ → List (Option Bytes) → Bool
lengths_match size [] = true
lengths_match size (none ∷ shards) = lengths_match size shards
lengths_match size (some s ∷ shards) = if length s == size then lengths_match size shards else false

module _ (rs : ReedSolomon) where
  -- `ErasureCodec::encode`
  unfoldable pub encode : Bytes → Result EncodedObject
  encode input =
      let original_size = length input in
      let shard_size = div_ceil original_size data_shards in
      if shard_size == 0
      then err empty_object
      else (let padded = input ++ replicate (shard_size * data_shards - original_size) 0 in
          let shards = split_shards data_shards shard_size padded in
          rs.encode shards >>= λ parity. ok (record {
            data_shards = shards;
            parity_shards = parity;
            shard_size = shard_size;
            original_size = original_size;
          }))

  -- `ErasureCodec::reconstruct`
  unfoldable pub reconstruct :
      List (Option Bytes) → List (Option Bytes) → ℕ → Result (List Bytes × List Bytes)
  reconstruct data_opt parity_opt shard_size =
      let gone = missing (data_opt ++ parity_opt) in
      if ltb parity_shards gone
      then err too_many_corrupted
      else if gone == 0
      then ok (present data_opt, present parity_opt)
      else if lengths_match shard_size (data_opt ++ parity_opt)
      then (rs.reconstruct (data_opt ++ parity_opt) >>= λ all.
          ok (take data_shards all, drop data_shards all))
      else err shard_length
