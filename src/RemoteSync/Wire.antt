-- ===== src/RemoteSync/Wire.antt =====
-- The encrypted frames of remote_sync.rs: `send_payload` and `recv_payload`. XChaCha20-Poly1305 is a parameter.
use obsidian_backup_server.Prelude.{
  ℕ, ◌*◌, ◌%◌, ◌≡◌, Option, none, some, ◌++◌, Bytes, length, take, drop, ltb, if◌then◌else◌, Result,
  ok, err, io, oversized_frame, encrypt_failed, decrypt_failed, ◌>>=◌,
}
use obsidian_backup_server.Prelude.Words.{u32_mod, to_le_bytes, from_le_bytes}

abbrev pub nonce_len : ℕ
nonce_len = 24

abbrev pub len_bytes : ℕ
len_bytes = 4

abbrev pub max_frame_bytes : ℕ
max_frame_bytes = 256 * 1024 * 1024

-- XChaCha20-Poly1305 under one key: with the nonce of a message, its text is what was encrypted.
pub record Cipher : Type 0 where
  pub encrypt : Bytes → Bytes → Option Bytes
  pub decrypt : Bytes → Bytes → Option Bytes
  pub decrypt-encrypt :
      (nonce content ct : Bytes) → encrypt nonce content ≡ some ct → decrypt nonce ct ≡ some content

-- `r.read_exact` of `n` bytes: what is read, and what is left
unfoldable pub read_exact : ℕ → Bytes → Result (Bytes × Bytes)
read_exact n r = if ltb (length r) n then err io else ok (take n r, drop n r)

module _ (cipher : Cipher) where
  -- what is written of a ciphertext; its length is cast to u32
  abbrev pub frame_bytes : Bytes → Bytes → Bytes
  frame_bytes nonce ct = to_le_bytes len_bytes (length ct % u32_mod) ++ (nonce ++ ct)

  abbrev pub write_encrypted : Bytes → Option Bytes → Bytes → Result Bytes
  write_encrypted nonce none w = err encrypt_failed
  write_encrypted nonce (some ct) w = ok (w ++ frame_bytes nonce ct)

  -- `send_payload`, with the random nonce: the bytes that have been written to `w`
  unfoldable pub send_payload : Bytes → Bytes → Bytes → Result Bytes
  send_payload nonce content w = write_encrypted nonce (cipher.encrypt nonce content) w

  abbrev pub decrypted : Option Bytes → Bytes → Result (Bytes × Bytes)
  decrypted none r = err decrypt_failed
  decrypted (some content) r = ok (content, r)

  -- `recv_payload` after the length
  abbrev pub recv_encrypted : ℕ → Bytes → Result (Bytes × Bytes)
  recv_encrypted len r = read_exact nonce_len r >>= λ (nonce, r2).
      read_exact len r2 >>= λ (ct, r3). decrypted (cipher.decrypt nonce ct) r3

  abbrev pub recv_sized : ℕ → Bytes → Result (Bytes × Bytes)
  recv_sized len r = if ltb max_frame_bytes len then err oversized_frame else recv_encrypted len r

  -- `recv_payload`: the payload, and what is left of the stream
  unfoldable pub recv_payload : Bytes → Result (Bytes × Bytes)
  recv_payload r = read_exact len_bytes r >>= λ (len_buf, r1). recv_sized (from_le_bytes len_buf) r1
