-- ===== src/Erasure/Codec.antt =====
-- `ErasureCodec` of erasure.rs: what is encoded can be read back, and rebuilt from any 8 of the 10
-- shards.
use obsidian_backup_server.Prelude.{
  ℕ, ◌-◌, ◌*◌, ◌≤◌, ◌<◌, ◌≡◌, refl, Option, List, [], ◌++◌, Bytes, length, take, drop, take-append,
  drop-append, replicate, flatten, All, All-append, ltb, not-lt→ltb, ltb-eq-false, ◌≢◌,
  empty_object, ◌==◌, ==_iff, Bool-cases, inl, inr, false, if◌then◌else◌, ok, err,
  too_many_corrupted, arith,
}
use obsidian_backup_server.Erasure.{
  EncodedObject, ReedSolomon, div_ceil, split_shards, missing, Masks, encode, reconstruct,
}
use obsidian_backup_server.Erasure.Shards.{
  length-split_shards, flatten-split_shards, length-padded, length-le-padded, take-padded, IsBytes,
  Masks-append, missing-append, present-Masks, lengths_match-Masks,
}

-- The encoded form of `input`.
pub record IsEncoding (rs : ReedSolomon) (input : Bytes) (enc : EncodedObject) : Type 0 where
  pub data_count : length enc.data_shards ≡ 8
  pub parity_count : length enc.parity_shards ≡ 2
  pub sizes : All (λ s. length s ≡ enc.shard_size) (enc.data_shards ++ enc.parity_shards)
  pub original : enc.original_size ≡ length input
  pub joined : take enc.original_size (flatten enc.data_shards) ≡ input
  pub coded : rs.encode enc.data_shards ≡ ok enc.parity_shards

module _ (rs : ReedSolomon) where
  encode-ok :
      (input : Bytes) (parity : List Bytes)
      → (let size = div_ceil (length input) 8 in
          let shards = split_shards 8 size (input ++ replicate (size * 8 - length input) 0) in
          0 < size
          → rs.encode shards ≡ ok parity
          → encode rs input
            ≡ ok (record {
              data_shards = shards;
              parity_shards = parity;
              shard_size = size;
              original_size = length input;
            }))
  unfolding encode
  encode-ok input parity pos coded =
      let some_bytes : (div_ceil (length input) 8 == 0) ≡ false = ground arith in
      rw (some_bytes, coded)

  -- Every object but the empty one is encoded, into 8 data and 2 parity shards of one size whose
  -- data shards, joined and cut to the original size, are the object.
  pub encode-IsEncoding :
      (input : Bytes)
      → 0 < length input
      → (enc : EncodedObject) × (encode rs input ≡ ok enc) × IsEncoding rs input enc
  encode-IsEncoding input h =
      let size : ℕ = div_ceil (length input) 8 in
      let padded : Bytes = input ++ replicate (size * 8 - length input) 0 in
      let shards : List Bytes = split_shards 8 size padded in
      let full : length padded ≡ size * 8 =
        length-padded input (size * 8) (length-le-padded (length input)) in
      let (joined, sizes) = flatten-split_shards 8 size padded full in
      let pos : 0 < size = omega arith in
      let (parity, coded) =
        rs.encode_total shards size (length-split_shards 8 size padded) pos sizes in
      let (count, parity_sizes) = rs.encode_shape shards parity size coded sizes in
      (
        record {
          data_shards = shards;
          parity_shards = parity;
          shard_size = size;
          original_size = length input;
        },
        encode-ok input parity pos coded,
        record {
          data_count = length-split_shards 8 size padded;
          parity_count = count;
          sizes = All-append (λ s. length s ≡ size) shards parity sizes parity_sizes;
          original = refl;
          joined = rw joined (take-padded input _);
          coded = coded;
        },
      )

  -- The empty object is refused.
  pub encode-empty : encode rs [] ≡ err empty_object
  unfolding encode
  encode-empty = refl

  module _ (input : Bytes) (enc : EncodedObject) (good : IsEncoding rs input enc)
      (bytes : All IsBytes enc.data_shards) (dm pm : List (Option Bytes))
      (hd : Masks dm enc.data_shards) (hp : Masks pm enc.parity_shards) where
    few_missing :
        missing (dm ++ pm) ≤ 2
        → missing (dm ++ pm) ≢ 0
        → reconstruct rs dm pm enc.shard_size ≡ ok (enc.data_shards, enc.parity_shards)
    unfolding reconstruct
    few_missing few some_gone =
        let masks = Masks-append dm pm enc.data_shards enc.parity_shards hd hp in
        let lens = lengths_match-Masks enc.shard_size (dm ++ pm) _ masks good.sizes in
        let all =
          rs.reconstruct-encode enc.data_shards enc.parity_shards (dm ++ pm) good.coded
            good.data_count bytes masks few in
        let a : ltb 2 (missing (dm ++ pm)) ≡ false = not-lt→ltb _ _ few in
        let b : (missing (dm ++ pm) == 0) ≡ false = ground arith in
        let front : take 8 (enc.data_shards ++ enc.parity_shards) ≡ enc.data_shards =
          rw good.data_count at (take-append enc.data_shards enc.parity_shards) in
        let back : drop 8 (enc.data_shards ++ enc.parity_shards) ≡ enc.parity_shards =
          rw good.data_count at (drop-append enc.data_shards enc.parity_shards) in
        rw (a, b, lens, all) (rw (front, back))

    none_missing :
        missing (dm ++ pm) ≡ 0
        → reconstruct rs dm pm enc.shard_size ≡ ok (enc.data_shards, enc.parity_shards)
    unfolding reconstruct
    none_missing gone =
        let d = present-Masks dm enc.data_shards hd (omega (arith, missing-append dm pm)) in
        let p = present-Masks pm enc.parity_shards hp (omega (arith, missing-append dm pm)) in
        rw (gone, d, p)

  -- With at most 2 of the 10 shards of an object missing, whichever they are, `reconstruct` returns
  -- all of them; with more it reports that too many are corrupted.
  pub reconstruct-Masks :
      (input : Bytes) (enc : EncodedObject)
      → IsEncoding rs input enc
      → All IsBytes enc.data_shards
      → (dm pm : List (Option Bytes)) → Masks dm enc.data_shards
      → Masks pm enc.parity_shards
      → reconstruct rs dm pm enc.shard_size ≡ (
          if ltb 2 (missing (dm ++ pm))
          then err too_many_corrupted
          else ok (enc.data_shards, enc.parity_shards))
  reconstruct-Masks input enc good bytes dm pm hd hp =
      elim (Bool-cases (ltb 2 (missing (dm ++ pm)))) [
        | inl many ↦ rw many (unfold reconstruct in rw many)
        | inr few ↦ rw few (elim (Bool-cases (missing (dm ++ pm) == 0)) [
          | inl z ↦ none_missing input enc good bytes dm pm hd hp ((==_iff _ _).0 z)
          | inr n ↦
              few_missing input enc good bytes dm pm hd hp (ltb-eq-false _ _ few)
                (λ z. ground arith)
        ])
      ]
