-- ===== src/Store/Packfile.antt =====
-- `PackfileWriter` of object_store.rs. `crc32c::crc32c_append` is the parameter `crc32c_append`.
use obsidian_backup_server.Prelude.{ℕ, ◌*◌, ◌%◌, Bool, List, [], ◌∷◌, ◌++◌, Bytes, length, leb}
use obsidian_backup_server.Prelude.Assoc.{insert}
use obsidian_backup_server.Prelude.Decimal.{show}
use obsidian_backup_server.Prelude.Words.{add64, u64_mod, to_le_bytes}
use obsidian_backup_server.Store.{pack, idx, path_key, Files, PackfileEntry, PackfileWriter}

-- `PackfileWriter::new`: the file is created or truncated
unfoldable pub new : ℕ → ℕ → Files → PackfileWriter × Files
new pack_id max_size_mb files = (
  record {
    pack_id = pack_id;
    written = [];
    bytes_written = 0;
    max_size = (max_size_mb * 1024 * 1024) % u64_mod;
    index = [];
    crc = 0;
  },
  insert (pack pack_id) [] files,
)

unfoldable pub is_full : PackfileWriter → Bool
is_full w = leb w.max_size w.bytes_written

-- a line of the `.idx` file
unfoldable pub idx_line : PackfileEntry → Bytes
idx_line e = e.hash ++ b' ' ∷ show e.offset ++ b' ' ∷ show e.size ++ 10 ∷ []

unfoldable pub idx_text : List PackfileEntry → Bytes
idx_text [] = []
idx_text (e ∷ es) = idx_line e ++ idx_text es

module _ (crc32c_append : ℕ → Bytes → ℕ) where
  -- `PackfileWriter::write_object`
  unfoldable pub append : PackfileWriter → Bytes → Bytes → PackfileWriter
  append w hash content = record w {
    written = w.written ++ content;
    bytes_written = add64 w.bytes_written (length content);
    index = w.index ++ record { hash = hash; offset = w.bytes_written; size = length content } ∷ [];
    crc = crc32c_append w.crc content;
  }

-- `seal`: the CRC32C footer, 4 bytes, and the `.idx` file
unfoldable pub seal : PackfileWriter → Files → List PackfileEntry × Files
seal w files = (
  w.index,
  insert (idx w.pack_id) (idx_text w.index)
      (insert (pack w.pack_id) (w.written ++ to_le_bytes 4 w.crc) files),
)
