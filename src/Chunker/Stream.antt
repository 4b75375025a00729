-- ===== src/Chunker/Stream.antt =====
-- `chunk_reader` of chunker.rs ends, feeds `on_chunk` chunks that tile what the reader delivers, and
-- keeps little in memory.
use obsidian_backup_server.Prelude.{
  ℕ, zero, suc, ◌+◌, ◌≤◌, ◌<◌, max, ◌≡◌, ◌∙◌, sym, refl, ap, List, [], ◌∷◌, ◌++◌, append-nil,
  append_assoc, Bytes, length, length-append, length-take, length-drop, take, drop,
  take-append-drop, ltb, ltb→lt, Bool-cases, inl, inr, Bool, true, false, ◌&&◌, Result, ok, err,
  ◌>>=◌, >>=-cong, arith, All,
}
use obsidian_backup_server.Chunker.{
  Chunk, ChunkEngine, make_chunk, chunk_len, Reader, is_empty, Filled, fill, reader_round,
  reader_loop, chunk_reader,
}
use obsidian_backup_server.Chunker.Pieces.{IsChunking, IsChunking-nil, chunk_len_bounds}

-- the bytes that a reader delivers before its first read of length 0
abbrev pub delivered : Reader → Bytes
delivered [] = []
delivered (err e ∷ reader) = []
delivered (ok [] ∷ reader) = []
delivered (ok (b ∷ bs) ∷ reader) = (b ∷ bs) ++ delivered reader

-- Every read succeeds, with at most the 8192 bytes of the buffer that it is given.
abbrev pub IsReader : Reader → Type 0
IsReader [] = Unit
IsReader (err e ∷ reader) = ⊥
IsReader (ok block ∷ reader) = (length block ≤ 8192) × IsReader reader

-- what is still to be chunked
abbrev pending : Bytes → Bool → Reader → Bytes
pending buf true reader = buf
pending buf false reader = buf ++ delivered reader

record IsFilled (min_size : ℕ) (total : Bytes) (f : Filled) : Type 0 where
  same : pending f.buf f.eof f.reader ≡ total
  sound : IsReader f.reader
  full : f.eof ≡ false → min_size ≤ length f.buf
  small : length f.buf < min_size + 8192

pending-nil : (buf : Bytes) (eof : Bool) → pending buf eof [] ≡ buf ++ []
pending-nil buf true = sym (append-nil buf)
pending-nil buf false = refl

pending-block :
    (buf block : Bytes) (reader : Reader)
    → pending (buf ++ block) (is_empty block) reader ≡ buf ++ delivered (ok block ∷ reader)
pending-block buf [] reader = refl
pending-block buf (b ∷ bs) reader = append_assoc buf (b ∷ bs) (delivered reader)

fill-IsFilled :
    (min_size : ℕ) (buf : Bytes) (eof : Bool) (reader : Reader)
    → IsReader reader
    → length buf < min_size + 8192
    → (f : Filled) × (fill min_size buf eof reader ≡ ok f)
      × IsFilled min_size (pending buf eof reader) f
unfolding fill
fill-IsFilled min_size buf true reader h s = (
  record { buf = buf; eof = true; reader = reader },
  refl,
  record { same = refl; sound = h; full = λ e. cc; small = s },
)
fill-IsFilled min_size buf false [] h s = (
  record { buf = buf; eof = ltb (length buf) min_size; reader = [] },
  refl,
  record { same = pending-nil buf _; sound = tt; full = λ e. ground arith; small = s },
)
fill-IsFilled min_size buf false (err e ∷ reader) h s = absurd h
fill-IsFilled min_size buf false (ok block ∷ reader) h s =
    elim (Bool-cases (ltb (length buf) min_size)) [
      | inl t ↦
          let (f, run, good) =
            fill-IsFilled min_size (buf ++ block) (is_empty block) reader h.1
              (omega (arith, ltb→lt _ _ t, length-append buf block)) in
          (
            f,
            rw t run,
            record {
              same = good.same ∙ pending-block buf block reader;
              sound = good.sound;
              full = good.full;
              small = good.small;
            },
          )
      | inr t ↦ (
        record { buf = buf; eof = false; reader = ok block ∷ reader },
        rw t,
        record { same = refl; sound = h; full = λ _. ground arith; small = s },
      )
    ]

module _ {ℓ} {S : Type ℓ} (on_chunk : S → Chunk → Result S) where
  -- `on_chunk` called on each chunk in turn, up to its first error
  abbrev pub feed : S → List Chunk → Result S
  feed s [] = ok s
  feed s (c ∷ cs) = on_chunk s c >>= λ s'. feed s' cs

module _ (hash : Bytes → Bytes) (engine : ChunkEngine) where
  -- Whatever `on_chunk` does, the loop is `feed` over these chunks.
  abbrev pub Feeds : ℕ → Bytes → Bool → ℕ → Reader → List Chunk → Type 1
  Feeds fuel buf eof offset reader chunks =
      (S : Type 0) (on_chunk : S → Chunk → Result S) (s : S)
      → reader_loop hash on_chunk fuel engine buf eof offset reader s ≡ feed on_chunk s chunks

  module _ (fuel : ℕ) (buf : Bytes) (eof : Bool) (offset : ℕ) (reader : Reader) (f : Filled)
      (run : fill engine.min_size buf eof reader ≡ ok f) where
    reader_loop-round :
        (S : Type 0) (on_chunk : S → Chunk → Result S) (s : S)
        → reader_loop hash on_chunk (suc fuel) engine buf eof offset reader s
          ≡ reader_round hash on_chunk (reader_loop hash on_chunk fuel engine) engine offset f s
    unfolding reader_loop
    reader_loop-round S on_chunk s =
        ap
          (λ r. r >>= λ g.
            reader_round hash on_chunk (reader_loop hash on_chunk fuel engine) engine offset g s)
          run

    Feeds-done : is_empty f.buf ≡ true → Feeds (suc fuel) buf eof offset reader []
    unfolding reader_round
    Feeds-done e S on_chunk s = rw (reader_loop-round S on_chunk s, e)

    Feeds-last :
        is_empty f.buf ≡ false
        → (f.eof && is_empty (drop (chunk_len engine f.buf) f.buf)) ≡ true
        → Feeds
            (suc fuel)
            buf
            eof
            offset
            reader
            (make_chunk hash offset (take (chunk_len engine f.buf) f.buf) ∷ [])
    unfolding reader_round
    Feeds-last e last S on_chunk s = rw (reader_loop-round S on_chunk s, e, last)

    Feeds-more :
        (chunks : List Chunk)
        → is_empty f.buf ≡ false
        → (f.eof && is_empty (drop (chunk_len engine f.buf) f.buf)) ≡ false
        → Feeds fuel
            (drop (chunk_len engine f.buf) f.buf)
            f.eof
            (offset + chunk_len engine f.buf)
            f.reader
            chunks
        → Feeds
            (suc fuel)
            buf
            eof
            offset
            reader
            (make_chunk hash offset (take (chunk_len engine f.buf) f.buf) ∷ chunks)
    unfolding reader_round
    Feeds-more chunks e more ih S on_chunk s =
        rw (reader_loop-round S on_chunk s, e, more)
          (>>=-cong (on_chunk s _) λ s'. ih S on_chunk s')

-- What is pending before a chunk is taken is the chunk and what is pending behind it.
pending-take :
    (n : ℕ) (buf : Bytes) (eof : Bool) (reader : Reader)
    → take n buf ++ pending (drop n buf) eof reader ≡ pending buf eof reader
pending-take n buf true reader = take-append-drop n buf
pending-take n buf false reader =
    sym (append_assoc (take n buf) (drop n buf) (delivered reader))
    ∙ ap (λ t. t ++ delivered reader) (take-append-drop n buf)

pending-empty :
    (min_size : ℕ) (buf : Bytes) (eof : Bool) (reader : Reader)
    → 0 < min_size
    → (eof ≡ false → min_size ≤ length buf)
    → is_empty buf ≡ true
    → pending buf eof reader ≡ []
pending-empty min_size [] true reader m full e = refl
pending-empty min_size [] false reader m full e = let h = full refl in absurd (omega arith)
pending-empty min_size (b ∷ bs) eof reader m full e = cc

pending-last :
    (buf : Bytes) (eof : Bool) (reader : Reader)
    → (eof && is_empty buf) ≡ true
    → pending buf eof reader ≡ []
pending-last [] true reader e = refl
pending-last [] false reader e = cc
pending-last (b ∷ bs) true reader e = cc
pending-last (b ∷ bs) false reader e = cc

length-pos_of_not_empty : (buf : Bytes) → is_empty buf ≡ false → 0 < length buf
length-pos_of_not_empty [] e = cc
length-pos_of_not_empty (b ∷ bs) e = omega arith

module _ (hash : Bytes → Bytes) (engine : ChunkEngine) (offset n : ℕ) (buf : Bytes) (eof : Bool)
    (reader : Reader) (low : 0 < n) (high : n ≤ max engine.min_size engine.max_size)
    (fits : n ≤ length buf) where
  IsChunking-step :
      (chunks : List Chunk)
      → IsChunking hash engine (offset + n) (pending (drop n buf) eof reader) chunks
      → IsChunking hash engine offset
          (pending buf eof reader)
          (make_chunk hash offset (take n buf) ∷ chunks)
  unfolding make_chunk
  IsChunking-step chunks h =
      let l : length (take n buf) ≡ n = omega (arith, length-take n buf) in
      record {
        joined = ap (λ t. take n buf ++ t) h.joined ∙ pending-take n buf eof reader;
        laid = (refl, refl, refl, rw l h.laid);
        sized = (omega (arith, l), h.sized);
      }

  length-pending-drop :
      (fuel : ℕ)
      → length (pending buf eof reader) < suc fuel
      → length (pending (drop n buf) eof reader) < fuel
  length-pending-drop fuel h = omega (
    arith,
    ap length (pending-take n buf eof reader),
    length-append (take n buf) (pending (drop n buf) eof reader),
    length-take n buf,
  )

length-take_lt : (n : ℕ) {m : ℕ} (xs : Bytes) → length xs < m → length (take n xs) < m
length-take_lt n xs h = omega (arith, length-take n xs)

module _ (hash : Bytes → Bytes) (engine : ChunkEngine) (room : 0 < engine.max_size)
    (some_min : 0 < engine.min_size) where
  Ends : ℕ → Bytes → Bool → ℕ → Reader → Bytes → Type 1
  Ends fuel buf eof offset reader total =
      (chunks : List Chunk) × Feeds hash engine fuel buf eof offset reader chunks
      × IsChunking hash engine offset total chunks
      × All (λ (c : Chunk). c.size < engine.min_size + 8192) chunks

  -- one round, given what the others do
  module _ (fuel : ℕ) (buf : Bytes) (eof : Bool) (offset : ℕ) (reader : Reader) (f : Filled)
      (run : fill engine.min_size buf eof reader ≡ ok f) where
    round_total :
        (total : Bytes)
        → IsFilled engine.min_size total f
        → length total < suc fuel
        → (let n = chunk_len engine f.buf in
            length (pending (drop n f.buf) f.eof f.reader) < fuel
            → Ends fuel
                (drop n f.buf)
                f.eof
                (offset + n)
                f.reader
                (pending (drop n f.buf) f.eof f.reader))
        → Ends (suc fuel) buf eof offset reader total
    unfolding Ends make_chunk
    round_total total good l ih = elim (Bool-cases (is_empty f.buf)) [
      | inl e ↦ (
        [],
        Feeds-done hash engine fuel buf eof offset reader f run e,
        rw (sym good.same ∙ pending-empty engine.min_size f.buf f.eof f.reader some_min good.full e)
            (IsChunking-nil hash engine offset),
        tt,
      )
      | inr e ↦
          let (low, high, fits) =
            chunk_len_bounds engine f.buf room (length-pos_of_not_empty f.buf e) in
          let step =
            IsChunking-step hash engine offset (chunk_len engine f.buf) f.buf f.eof f.reader low
              high fits in
          let step_small = length-take_lt (chunk_len engine f.buf) f.buf good.small in
          elim (Bool-cases (f.eof && is_empty (drop (chunk_len engine f.buf) f.buf))) [
            | inl last ↦ (
              make_chunk hash offset (take (chunk_len engine f.buf) f.buf) ∷ [],
              Feeds-last hash engine fuel buf eof offset reader f run e last,
              rw (← good.same) (
                  step [] (rw (pending-last _ f.eof f.reader last) (IsChunking-nil hash engine _))),
              (step_small, tt),
            )
            | inr more ↦
                let shorter =
                  length-pending-drop hash engine offset (chunk_len engine f.buf) f.buf f.eof
                    f.reader low high fits fuel (rw good.same l) in
                let (chunks, feeds, tiles, small) = ih shorter in
                (
                  make_chunk hash offset (take (chunk_len engine f.buf) f.buf) ∷ chunks,
                  Feeds-more hash engine fuel buf eof offset reader f run chunks e more feeds,
                  rw (← good.same) (step chunks tiles),
                  (step_small, small),
                )
          ]
    ]

  reader_loop_total :
      (fuel : ℕ) (buf : Bytes) (eof : Bool) (offset : ℕ) (reader : Reader)
      → IsReader reader
      → length buf < engine.min_size + 8192
      → length (pending buf eof reader) < fuel
      → Ends fuel buf eof offset reader (pending buf eof reader)
  reader_loop_total zero buf eof offset reader h s l = absurd (omega arith)
  reader_loop_total (suc fuel) buf eof offset reader h s l =
      let (f, run, good) = fill-IsFilled engine.min_size buf eof reader h s in
      round_total fuel buf eof offset reader f run (pending buf eof reader) good l λ shorter.
        reader_loop_total fuel _ f.eof _ f.reader good.sound
          (omega (arith, length-drop (chunk_len engine f.buf) f.buf, good.small)) shorter

-- With enough fuel `chunk_reader` returns what `on_chunk` makes, one by one, of chunks that join to
-- all that an error-free reader delivers, whatever the lengths of its reads and whatever `on_chunk`
-- does; the chunks are laid out from offset 0 on, and their sizes are in the engine's limits and
-- below its smallest size plus 8192. The engine's smallest and largest size must not be 0.
pub chunk_reader-IsChunking :
    (hash : Bytes → Bytes) (engine : ChunkEngine) (reader : Reader) (fuel : ℕ)
    → 0 < engine.max_size
    → 0 < engine.min_size
    → IsReader reader
    → length (delivered reader) < fuel
    → (chunks : List Chunk) × ((S : Type 0) (on_chunk : S → Chunk → Result S) (s : S)
        → chunk_reader hash on_chunk fuel engine reader s ≡ feed on_chunk s chunks)
      × IsChunking hash engine 0 (delivered reader) chunks
      × All (λ (c : Chunk). c.size < engine.min_size + 8192) chunks
unfolding Ends chunk_reader
chunk_reader-IsChunking hash engine reader fuel room some_min h l =
    reader_loop_total hash engine room some_min fuel [] false 0 reader h (omega arith) l
