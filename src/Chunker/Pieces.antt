-- ===== src/Chunker/Pieces.antt =====
-- What both chunkers of chunker.rs promise of the chunks that they produce.
use obsidian_backup_server.Prelude.{
  ℕ, ◌+◌, ◌≤◌, ◌<◌, max, ◌≡◌, refl, ap, List, [], ◌∷◌, ◌++◌, append-nil, Bytes, length, All, arith,
}
use obsidian_backup_server.Chunker.{
  Chunk, ChunkEngine, make_chunk, boundary_mask, next_size, chunk_len,
}
use obsidian_backup_server.Chunker.Boundary.{find_boundary_at_bounds}

abbrev pub contents : List Chunk → Bytes
contents [] = []
contents (c ∷ cs) = c.content ++ contents cs

module _ (hash : Bytes → Bytes) where
  -- The chunks lie one behind the other from `offset` on, each with its length and its hash.
  abbrev pub Laid : ℕ → List Chunk → Type 0
  Laid offset [] = Unit
  Laid offset (c ∷ cs) =
      (c.offset ≡ offset)
      × (c.size ≡ length c.content)
      × (c.hash ≡ hash c.content)
      × Laid (offset + c.size) cs

  -- Chunks of `input`, which starts at `offset` of its file: they join to it, they are laid out
  -- without gaps, and none is empty or larger than the engine allows.
  pub record IsChunking (engine : ChunkEngine) (offset : ℕ) (input : Bytes) (chunks : List Chunk)
      : Type 0 where
    pub joined : contents chunks ≡ input
    pub laid : Laid offset chunks
    pub sized :
        All (λ (c : Chunk). (0 < c.size) × (c.size ≤ max engine.min_size engine.max_size)) chunks

  pub IsChunking-nil : (engine : ChunkEngine) (offset : ℕ) → IsChunking engine offset [] []
  IsChunking-nil engine offset = record { joined = refl; laid = tt; sized = tt }

  pub IsChunking-cons :
      (engine : ChunkEngine) (offset : ℕ) (first rest : Bytes) (chunks : List Chunk)
      → 0 < length first
      → length first ≤ max engine.min_size engine.max_size
      → IsChunking engine (offset + length first) rest chunks
      → IsChunking engine offset (first ++ rest) (make_chunk hash offset first ∷ chunks)
  unfolding make_chunk
  IsChunking-cons engine offset first rest chunks low high h = record {
    joined = ap (λ l. first ++ l) h.joined;
    laid = (refl, refl, refl, h.laid);
    sized = ((low, high), h.sized);
  }

  pub IsChunking-single :
      (engine : ChunkEngine) (offset : ℕ) (input : Bytes)
      → 0 < length input
      → length input ≤ max engine.min_size engine.max_size
      → IsChunking engine offset input (make_chunk hash offset input ∷ [])
  unfolding make_chunk
  IsChunking-single engine offset input low high = record {
    joined = append-nil input;
    laid = (refl, refl, refl, tt);
    sized = ((low, high), tt);
  }

pub next_size_bounds :
    (hash : Bytes → Bytes) (engine : ChunkEngine) (rest : Bytes)
    → 0 < engine.max_size
    → 0 < length rest
    → (0 < next_size hash engine rest)
      × (next_size hash engine rest ≤ max engine.min_size engine.max_size)
      × (next_size hash engine rest ≤ length rest)
unfolding next_size
next_size_bounds hash engine rest h n =
    ground
      (arith, find_boundary_at_bounds rest engine.min_size engine.max_size (boundary_mask engine))

pub chunk_len_bounds :
    (engine : ChunkEngine) (buf : Bytes)
    → 0 < engine.max_size
    → 0 < length buf
    → (0 < chunk_len engine buf)
      × (chunk_len engine buf ≤ max engine.min_size engine.max_size)
      × (chunk_len engine buf ≤ length buf)
unfolding chunk_len
chunk_len_bounds engine buf h n =
    ground
      (arith, find_boundary_at_bounds buf engine.min_size engine.max_size (boundary_mask engine))
