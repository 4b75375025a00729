-- ===== src/Tests/Objects.antt =====
-- The theorems on chunks, shards, objects and globs at concrete values.
use obsidian_backup_server.Prelude.{
  ℕ, ◌+◌, ◌≤◌, ◌<◌, ◌≡◌, ◌↔◌, Bool, refl, true, false, Option, none, some, List, [], ◌∷◌, ◌++◌,
  Bytes, length, replicate, All, Result, ok, err, empty_object, arith, ◌≢◌,
}
use obsidian_backup_server.Prelude.Text.{codes}
use obsidian_backup_server.Prelude.Words.{add64}
use obsidian_backup_server.Config.{default_storage}
use obsidian_backup_server.Chunker.{
  Chunk, ChunkEngine, with_sizes, find_boundary_at, chunk_file, Reader, chunk_reader,
}
use obsidian_backup_server.Chunker.Boundary.{
  IsFirst, find_boundary_at-IsFirst, find_boundary_at_bounds,
}
use obsidian_backup_server.Chunker.Pieces.{IsChunking}
use obsidian_backup_server.Chunker.Whole.{chunk_file-IsChunking}
use obsidian_backup_server.Chunker.Stream.{delivered, feed, chunk_reader-IsChunking}
use obsidian_backup_server.Erasure.{EncodedObject, encode, reconstruct}
use obsidian_backup_server.Erasure.Codec.{IsEncoding, encode-IsEncoding, reconstruct-Masks}
use obsidian_backup_server.Store.{ObjectStore}
use obsidian_backup_server.Store.Objects.{
  contains_object, read_object, individuals, write_individual_object, write_object,
  maybe_seal_packfiles,
}
use obsidian_backup_server.Store.Invariant.{IsStore}
use obsidian_backup_server.Store.Views.{Follows, SameView, maybe_seal_packfiles-Follows}
use obsidian_backup_server.Store.Writing.{Writes, write_individual_object-Writes}
use obsidian_backup_server.Store.Writing.Object.{write_object-Writes, write_object-unchanged}
use obsidian_backup_server.Store.Repair.{verify_object}
use obsidian_backup_server.Store.Repair.Others.{verify_object-others}
use obsidian_backup_server.Glob.{star, double_star, single_match, match_segments}
use obsidian_backup_server.Glob.Segments.{Matches, match_segments-Matches}
use obsidian_backup_server.Glob.Loop.{single_match-plain, single_match-diverges}
use obsidian_backup_server.Erasure.Shards.{IsBytes}
use obsidian_backup_server.Tests.Code
use obsidian_backup_server.Tests.Code.{code_of_numbers}

-- a stand-in for the digests: the bytes themselves
abbrev same_bytes : Bytes → Bytes
same_bytes bs = bs

abbrev sum_crc : ℕ → Bytes → ℕ
sum_crc crc bs = crc + length bs

abbrev some_input : Bytes
some_input = codes "a region file of a small world"

abbrev small_engine : ChunkEngine
small_engine = with_sizes 4 8 16

chunk_file-IsChunking_example :
    (chunks : List Chunk) × (chunk_file same_bytes small_engine some_input ≡ ok chunks)
    × IsChunking same_bytes small_engine 0 some_input chunks
chunk_file-IsChunking_example =
    chunk_file-IsChunking same_bytes small_engine some_input (omega arith)

abbrev two_reads : Reader
two_reads = ok (codes "level") ∷ ok (codes ".dat") ∷ []

chunk_reader-IsChunking_example :
    (chunks : List Chunk) × ((S : Type 0) (on_chunk : S → Chunk → Result S) (s : S)
      → chunk_reader same_bytes on_chunk 20 small_engine two_reads s ≡ feed on_chunk s chunks)
    × IsChunking same_bytes small_engine 0 (delivered two_reads) chunks
    × All (λ (c : Chunk). c.size < 4 + 8192) chunks
chunk_reader-IsChunking_example =
    chunk_reader-IsChunking same_bytes small_engine two_reads 20 (omega arith) (omega arith)
      (omega arith, (omega arith, tt)) (omega arith)

abbrev long_input : Bytes
long_input = replicate 60 7

find_boundary_at-IsFirst_example : IsFirst long_input 3 60 52 (find_boundary_at long_input 4 100 3)
find_boundary_at-IsFirst_example = find_boundary_at-IsFirst long_input 4 100 3 (omega arith)

find_boundary_at_bounds_example :
    (find_boundary_at long_input 4 100 3 ≤ 60)
    × (4 < 60 → 4 < find_boundary_at long_input 4 100 3)
    × (0 < 100 → 0 < 60 → 0 < find_boundary_at long_input 4 100 3)
find_boundary_at_bounds_example = find_boundary_at_bounds long_input 4 100 3

abbrev content : Bytes
content = 10 ∷ 20 ∷ 30 ∷ []

encode-IsEncoding_example :
    (enc : EncodedObject) × (encode code_of_numbers content ≡ ok enc)
    × IsEncoding code_of_numbers content enc
encode-IsEncoding_example = encode-IsEncoding code_of_numbers content (omega arith)

abbrev no_objects : ObjectStore
no_objects = record {
  config = default_storage;
  object_index = [];
  next_pack_id = 0;
  total_bytes = 0;
  total_raw_bytes = 0;
  files = [];
}

no_objects-IsStore : IsStore no_objects
no_objects-IsStore = record { distinct = tt; located = λ h loc e. absurd cc }

abbrev a_hash : Bytes
a_hash = codes "abc"

write_object-Writes_example :
    (s' : ObjectStore) × (write_object sum_crc code_of_numbers same_bytes a_hash content 3
        no_objects
      ≡ (ok tt, s'))
    × Writes a_hash content no_objects s'
unfolding contains_object individuals
write_object-Writes_example =
    write_object-Writes code_of_numbers same_bytes sum_crc no_objects a_hash content 3
      no_objects-IsStore (omega arith, omega arith) refl (omega arith)

write_object-unchanged_example :
    (contains_object no_objects a_hash ≡ true
      → (s' : ObjectStore) × (write_object sum_crc code_of_numbers same_bytes a_hash content 3
            no_objects
          ≡ (ok tt, s'))
        × SameView no_objects s'
        × (s'.files ≡ no_objects.files)
        × (s'.total_raw_bytes ≡ add64 0 3))
    × (contains_object no_objects a_hash ≡ false
        → true ≡ true
        → write_object sum_crc code_of_numbers same_bytes a_hash [] 3 no_objects
          ≡ (err empty_object, no_objects))
write_object-unchanged_example =
    write_object-unchanged code_of_numbers same_bytes sum_crc no_objects a_hash content 3

-- a store with `content` in shards
written :
    (s' : ObjectStore) × (write_object sum_crc code_of_numbers same_bytes a_hash content 3
        no_objects
      ≡ (ok tt, s'))
    × Writes a_hash content no_objects s'
unfolding contains_object individuals
written =
    write_object-Writes code_of_numbers same_bytes sum_crc no_objects a_hash content 3
      no_objects-IsStore (omega arith, omega arith) refl (omega arith)

abbrev sharded_store : ObjectStore
sharded_store = written.0

verify_object-others_example :
    ((j : Bytes)
      → a_hash ≢ j
      → read_object (verify_object same_bytes code_of_numbers a_hash true sharded_store).1 j
        ≡ read_object sharded_store j)
    × ((verify_object same_bytes code_of_numbers a_hash true sharded_store).1.object_index
        ≡ sharded_store.object_index)
    × (true ≡ false
        → (verify_object same_bytes code_of_numbers a_hash true sharded_store).1 ≡ sharded_store)
verify_object-others_example =
    verify_object-others same_bytes code_of_numbers a_hash true sharded_store written.2.valid

-- one loose object, in a store that seals at once
abbrev sealing_store : ObjectStore
sealing_store = record no_objects {
  config = record default_storage {
    packfile = record default_storage.packfile { max_packfile_size_mb = 0 };
  };
}

sealing_store-IsStore : IsStore sealing_store
sealing_store-IsStore = record { distinct = tt; located = λ h loc e. absurd cc }

abbrev one_object : ObjectStore
one_object = write_individual_object a_hash content sealing_store

maybe_seal_packfiles-Follows_example :
    (s' : ObjectStore) × (maybe_seal_packfiles sum_crc one_object ≡ (ok tt, s'))
    × Follows one_object s'
unfolding write_individual_object individuals
maybe_seal_packfiles-Follows_example =
    maybe_seal_packfiles-Follows sum_crc one_object
      (write_individual_object-Writes sealing_store sealing_store-IsStore a_hash content).valid
      (omega arith, omega arith)

-- `content` in shards
abbrev content_encoded : EncodedObject
content_encoded = record {
  data_shards =
      (10 ∷ []) ∷ (20 ∷ []) ∷ (30 ∷ []) ∷ (0 ∷ []) ∷ (0 ∷ []) ∷ (0 ∷ []) ∷ (0 ∷ []) ∷ (0 ∷ []) ∷ [];
  parity_shards = (1971210 ∷ []) ∷ (1971210 ∷ []) ∷ [];
  shard_size = 1;
  original_size = 3;
}

content_encoded-IsEncoding : IsEncoding code_of_numbers content content_encoded
unfolding code_of_numbers Code.encode
content_encoded-IsEncoding = record {
  data_count = refl;
  parity_count = refl;
  sizes = (refl, (refl, (refl, (refl, (refl, (refl, (refl, (refl, (refl, (refl, tt))))))))));
  original = refl;
  joined = refl;
  coded = refl;
}

small-IsBytes : All IsBytes content_encoded.data_shards
small-IsBytes =
    let low : (0 < 256) × Unit {0} = (omega arith, tt) in
    (
      (omega arith, tt),
      ((omega arith, tt), ((omega arith, tt), (low, (low, (low, (low, (low, tt))))))),
    )

-- the first data shard and the last parity shard are gone
abbrev left_data : List (Option Bytes)
left_data =
    none
    ∷ some (20 ∷ [])
    ∷ some (30 ∷ [])
    ∷ some (0 ∷ [])
    ∷ some (0 ∷ [])
    ∷ some (0 ∷ [])
    ∷ some (0 ∷ [])
    ∷ some (0 ∷ [])
    ∷ []

abbrev left_parity : List (Option Bytes)
left_parity = some (1971210 ∷ []) ∷ none ∷ []

reconstruct-Masks_example :
    reconstruct code_of_numbers left_data left_parity 1
    ≡ ok (content_encoded.data_shards, content_encoded.parity_shards)
reconstruct-Masks_example =
    reconstruct-Masks code_of_numbers content content_encoded content_encoded-IsEncoding
      small-IsBytes left_data left_parity (refl, (refl, (refl, (refl, (refl, (refl, (refl, tt)))))))
      (refl, tt)

single_match-plain_example : single_match 4 (codes "abc") (codes "abd") ≡ some false
single_match-plain_example = single_match-plain 4 (codes "abc") (codes "abd") (omega arith) refl

single_match-diverges_example :
    single_match 1000 ([] ++ star ∷ codes ".log") ([] ++ codes "server.log") ≡ none
single_match-diverges_example =
    single_match-diverges 1000 [] (codes ".log") (codes "server.log") refl refl

-- `**/a`
abbrev a_pattern : List Bytes
a_pattern = double_star ∷ codes "a" ∷ []

abbrev a_path : List Bytes
a_path = codes "x" ∷ codes "a" ∷ []

match_segments-Matches_example :
    (b : Bool) × (match_segments 20 a_pattern a_path ≡ some b)
    × ((b ≡ true) ↔ Matches a_pattern a_path)
match_segments-Matches_example =
    match_segments-Matches 20 a_pattern ((omega arith, refl), ((omega arith, refl), tt)) a_path
