-- ===== src/Chunker/Whole.antt =====
-- `chunk_file` of chunker.rs ends, and its chunks tile the file.
use obsidian_backup_server.Prelude.{
  ℕ, zero, suc, ◌+◌, ◌-◌, ◌≤◌, ◌<◌, min, max, ◌≡◌, refl, sym, ap, ◌∙◌, List, [], ◌∷◌, ◌++◌, Bytes,
  length, take, drop, length-take, length-drop, take-append-drop, drop-drop, drop_of_length-le, ltb,
  leb, lt→ltb, Bool-cases, inl, inr, ok, arith, leb→le, ltb→lt,
}
use obsidian_backup_server.Chunker.{
  Chunk, ChunkEngine, make_chunk, next_size, file_loop, chunk_file,
}
use obsidian_backup_server.Chunker.Pieces.{
  IsChunking, IsChunking-nil, IsChunking-single, next_size_bounds,
}

module _ (hash : Bytes → Bytes) (engine : ChunkEngine) (room : 0 < engine.max_size)
    (input : Bytes) where
  -- The bytes that one round takes, and those that it leaves.
  round :
      (offset : ℕ)
      → offset < length input
      → (n : ℕ) × (min (offset + next_size hash engine (drop offset input)) (length input)
          ≡ offset + n)
        × (0 < n)
        × (n ≤ max engine.min_size engine.max_size)
        × (offset + n ≤ length input)
  round offset h =
      let (low, high, fits) =
        next_size_bounds hash engine (drop offset input) room
          (omega (arith, length-drop offset input)) in
      let l = length-drop offset input in
      (next_size hash engine (drop offset input), omega arith, low, high, omega arith)

  IsChunking-step :
      (offset n : ℕ) (chunks : List Chunk)
      → 0 < n
      → n ≤ max engine.min_size engine.max_size
      → offset + n ≤ length input
      → IsChunking hash engine (offset + n) (drop (offset + n) input) chunks
      → IsChunking hash engine offset
          (drop offset input)
          (make_chunk hash offset (take n (drop offset input)) ∷ chunks)
  unfolding make_chunk
  IsChunking-step offset n chunks low high fits h =
      let l : length (take n (drop offset input)) ≡ n =
        omega (arith, length-take n (drop offset input), length-drop offset input) in
      record {
        joined =
            ap (λ t. take n (drop offset input) ++ t) (h.joined ∙ sym (drop-drop n offset input))
            ∙ take-append-drop n (drop offset input);
        laid = (refl, refl, refl, rw l h.laid);
        sized = (omega (arith, l), h.sized);
      }

  file_loop-suc :
      (fuel offset n : ℕ) {chunks : List Chunk}
      → offset < length input
      → min (offset + next_size hash engine (drop offset input)) (length input) ≡ offset + n
      → file_loop hash fuel engine input (offset + n) ≡ ok chunks
      → file_loop hash (suc fuel) engine input offset
        ≡ ok (make_chunk hash offset (take n (drop offset input)) ∷ chunks)
  unfolding file_loop
  file_loop-suc fuel offset n h e run =
      let m : offset + n - offset ≡ n = omega arith in rw (lt→ltb _ _ h, e, run, m, file_loop)

  pub file_loop_total :
      (fuel offset : ℕ)
      → offset ≤ length input
      → length input - offset < fuel
      → (chunks : List Chunk) × (file_loop hash fuel engine input offset ≡ ok chunks)
        × IsChunking hash engine offset (drop offset input) chunks
  unfolding file_loop
  file_loop_total zero offset h f = absurd (omega arith)
  file_loop_total (suc fuel) offset h f = elim (Bool-cases (ltb offset (length input))) [
    | inl t ↦
        let (n, e, low, high, fits) = round offset (ltb→lt _ _ t) in
        let (chunks, run, good) = file_loop_total fuel (offset + n) fits (omega arith) in
        (
          make_chunk hash offset (take n (drop offset input)) ∷ chunks,
          file_loop-suc fuel offset n (ltb→lt _ _ t) e run,
          IsChunking-step offset n chunks low high fits good,
        )
    | inr t ↦ (
      [],
      rw (t, file_loop),
      rw (drop_of_length-le offset input (ground arith)) (IsChunking-nil hash engine offset),
    )
  ]

-- `chunk_file` always returns, given an engine whose largest size is not 0: its chunks join to the
-- file, lie one behind the other from offset 0 on, carry their length and their hash, and none is
-- empty or larger than the larger of the engine's two limits.
pub chunk_file-IsChunking :
    (hash : Bytes → Bytes) (engine : ChunkEngine) (input : Bytes)
    → 0 < engine.max_size
    → (chunks : List Chunk) × (chunk_file hash engine input ≡ ok chunks)
      × IsChunking hash engine 0 input chunks
unfolding chunk_file
chunk_file-IsChunking hash engine [] room = ([], refl, IsChunking-nil hash engine 0)
chunk_file-IsChunking hash engine (b ∷ bs) room =
    elim (Bool-cases (leb (length (b ∷ bs)) engine.min_size)) [
      | inl t ↦ (
        make_chunk hash 0 (b ∷ bs) ∷ [],
        rw t,
        IsChunking-single hash engine 0 (b ∷ bs) (omega arith) (omega (arith, leb→le _ _ t)),
      )
      | inr t ↦
          let (chunks, run, good) =
            file_loop_total hash engine room (b ∷ bs) (suc (length (b ∷ bs))) 0 (omega arith)
              (omega arith) in
          (chunks, rw (t, run), good)
    ]
