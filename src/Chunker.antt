-- ===== src/Chunker.antt =====
-- sidecar/src/backup/chunker.rs: content-defined chunking, over a whole buffer (`chunk_file`) and
-- over a `Read`er (`chunk_reader`). `blake3::hash(..).to_hex()` is the parameter `hash`.
pub mod Boundary
pub mod Pieces
pub mod Whole
pub mod Stream
use Prim.Native.Nat.{bit_and}
use obsidian_backup_server.Prelude.{
  ℕ, zero, suc, ◌+◌, ◌-◌, ◌*◌, ◌%◌, ◌^◌, min, ◌≡◌, Bool, true, false, List, [], ◌∷◌, ◌++◌, Bytes,
  length, get_or, take, drop, slice, ltb, leb, ◌==◌, if◌then◌else◌, Result, ok, err, out_of_fuel,
  ◌>>=◌, ◌&&◌,
}
use obsidian_backup_server.Prelude.Words.{u64_mod}

pub record Chunk : Type 0 where
  pub hash : Bytes
  pub offset : ℕ
  pub size : ℕ
  pub content : Bytes

pub record ChunkEngine : Type 0 where
  pub min_size : ℕ
  pub avg_size : ℕ
  pub max_size : ℕ

-- `ChunkEngine::new`
abbrev pub default_engine : ChunkEngine
default_engine = record { min_size = 4 * 1024; avg_size = 64 * 1024; max_size = 256 * 1024 }

-- `ChunkEngine::with_sizes`
abbrev pub with_sizes : ℕ → ℕ → ℕ → ChunkEngine
with_sizes min_size avg_size max_size = record {
  min_size = min_size;
  avg_size = avg_size;
  max_size = max_size;
}

abbrev pub window : ℕ
window = 48

-- `hash.wrapping_mul(31).wrapping_add(byte)`
abbrev pub mul_add : ℕ → ℕ → ℕ
mul_add h b = ((h * 31) % u64_mod + b) % u64_mod

-- the loop that fills the first window
unfoldable pub initial_hash : ℕ → Bytes → ℕ
initial_hash h [] = h
initial_hash h (b ∷ bs) = initial_hash (mul_add h b) bs

-- `hash.wrapping_sub(oldest.wrapping_mul(31u64.wrapping_pow(47)))`, then the new byte
unfoldable pub roll : ℕ → ℕ → ℕ → ℕ
roll h oldest newest =
    mul_add ((h + u64_mod - (oldest * (31 ^ 47 % u64_mod)) % u64_mod) % u64_mod) newest

-- `for i in (search_start + window)..search_end`, with the rounds that are left
unfoldable pub slide : Bytes → ℕ → ℕ → ℕ → ℕ → ℕ → ℕ
slide input mask search_end zero i h = search_end
slide input mask search_end (suc rounds) i h =
    let h' = roll h (get_or input (i - window) 0) (get_or input i 0) in
    let rest = slide input mask search_end rounds (i + 1) h' in
    if bit_and h' mask == 0 then i + 1 else rest

unfoldable pub find_boundary_at : Bytes → ℕ → ℕ → ℕ → ℕ
find_boundary_at input min_size max_size mask =
    let search_start = min_size in
    let search_end = min max_size (length input) in
    if leb search_end search_start
    then search_end
    else slide input mask search_end (search_end - (search_start + window)) (search_start + window)
        (initial_hash 0
          (slice search_start (search_start + min window (length input - search_start)) input))

-- `(self.avg_size as u64).wrapping_sub(1)`
abbrev pub boundary_mask : ChunkEngine → ℕ
boundary_mask engine = (engine.avg_size + u64_mod - 1) % u64_mod

module _ (hash : Bytes → Bytes) where
  unfoldable pub make_chunk : ℕ → Bytes → Chunk
  make_chunk offset content = record {
    hash = hash content;
    offset = offset;
    size = length content;
    content = content;
  }

  -- the size that one round of `chunk_file` takes from what remains
  unfoldable pub next_size : ChunkEngine → Bytes → ℕ
  next_size engine rest =
      if leb (length rest) engine.min_size
      then length rest
      else find_boundary_at rest engine.min_size engine.max_size (boundary_mask engine)

  -- `while offset < data.len()`
  unfoldable pub file_loop : ℕ → ChunkEngine → Bytes → ℕ → Result (List Chunk)
  file_loop zero engine input offset = err out_of_fuel
  file_loop (suc fuel) engine input offset = elim (ltb offset (length input)) [
    | false ↦ ok []
    | true ↦
        let end = min (offset + next_size engine (drop offset input)) (length input) in
        file_loop fuel engine input end >>= λ chunks.
        ok (make_chunk offset (slice offset end input) ∷ chunks)
  ]

  -- Every round takes at least one byte, so that a fuel of one more than the length is enough.
  unfoldable pub chunk_file : ChunkEngine → Bytes → Result (List Chunk)
  chunk_file engine [] = ok []
  chunk_file engine (b ∷ bs) =
      let input = b ∷ bs in
      if leb (length input) engine.min_size
      then ok (make_chunk 0 input ∷ [])
      else file_loop (suc (length input)) engine input 0

-- What the `Read`er returns, call by call: at most 8192 bytes or an error, and 0 bytes at the end.
abbrev pub Reader : Type 0
Reader = List (Result Bytes)

abbrev pub is_empty : Bytes → Bool
is_empty [] = true
is_empty (b ∷ bs) = false

pub record Filled : Type 0 where
  pub buf : Bytes
  pub eof : Bool
  pub reader : Reader

-- `while buf.len() < self.min_size && !eof`
unfoldable pub fill : ℕ → Bytes → Bool → Reader → Result Filled
fill min_size buf true reader = ok (record { buf = buf; eof = true; reader = reader })
fill min_size buf false [] = ok (record { buf = buf; eof = ltb (length buf) min_size; reader = [] })
fill min_size buf false (err e ∷ reader) =
    if ltb (length buf) min_size
    then err e
    else ok (record { buf = buf; eof = false; reader = err e ∷ reader })
fill min_size buf false (ok block ∷ reader) =
    let more = fill min_size (buf ++ block) (is_empty block) reader in
    if ltb (length buf) min_size
    then more
    else ok (record { buf = buf; eof = false; reader = ok block ∷ reader })

-- the length of the next chunk of `chunk_reader`
unfoldable pub chunk_len : ChunkEngine → Bytes → ℕ
chunk_len engine buf =
    if leb (length buf) engine.min_size
    then length buf
    else min (find_boundary_at buf engine.min_size engine.max_size (boundary_mask engine))
        (length buf)

module _ {ℓ} {S : Type ℓ} (hash : Bytes → Bytes) (on_chunk : S → Chunk → Result S) where
  -- What a round does after the buffer is filled; `next` is the rest of the loop.
  unfoldable pub reader_round :
      (Bytes → Bool → ℕ → Reader → S → Result S) → ChunkEngine → ℕ → Filled → S → Result S
  reader_round next engine offset f s =
      if is_empty f.buf
      then ok s
      else (let n = chunk_len engine f.buf in
          on_chunk s (make_chunk hash offset (take n f.buf)) >>= λ s'.
          if f.eof && is_empty (drop n f.buf)
          then ok s'
          else next (drop n f.buf) f.eof (offset + n) f.reader s')

  -- The `loop`, with what `on_chunk` changes as the state `S`.
  unfoldable pub reader_loop : ℕ → ChunkEngine → Bytes → Bool → ℕ → Reader → S → Result S
  reader_loop zero engine buf eof offset reader s = err out_of_fuel
  reader_loop (suc fuel) engine buf eof offset reader s =
      fill engine.min_size buf eof reader >>= λ f.
      reader_round (reader_loop fuel engine) engine offset f s

  unfoldable pub chunk_reader : ℕ → ChunkEngine → Reader → S → Result S
  chunk_reader fuel engine reader s = reader_loop fuel engine [] false 0 reader s
