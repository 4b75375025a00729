-- ===== src/RemoteSync/Copy/Link.antt =====
-- Two sides of remote_sync.rs that talk over a stream in turns.
use obsidian_backup_server.Prelude.{
  ℕ, zero, suc, ◌+◌, ◌≤◌, ◌≡◌, ◌∙◌, refl, sym, ap, false, some, List, [], ◌∷◌, append-nil, Bytes,
  All, length, ltb, if_false, Result, ok, ◌>>=◌, >>=-ok, arith,
}
use obsidian_backup_server.RemoteSync.{Incoming}
use obsidian_backup_server.RemoteSync.Wire.{
  nonce_len, max_frame_bytes, Cipher, send_payload, recv_payload,
}
use obsidian_backup_server.RemoteSync.Frames.{recv_payload-send_payload}
use obsidian_backup_server.RemoteSync.Copy.Objects.{arrive}

-- what a run has sent
abbrev pub payloads : {S : Type 0} → Result (Unit {0}) × List Bytes × S → List Bytes
payloads (r, xs, s) = xs

-- The cipher of both sides, and the random nonces of all payloads.
pub record Link : Type 0 where
  pub cipher : Cipher
  pub nonce : ℕ → Bytes
  pub length-nonce : (n : ℕ) → length (nonce n) ≡ nonce_len

module _ (link : Link) where
  -- a payload that one side sends, as the other receives it
  abbrev pub carried : ℕ → Bytes → Result Bytes
  carried n payload = send_payload link.cipher (link.nonce n) payload [] >>= λ w.
      recv_payload link.cipher w >>= λ (content, rest). ok content

  -- payloads of one direction; the other direction has the nonces between
  unfoldable pub transmit : ℕ → List Bytes → Incoming
  transmit n [] = []
  transmit n (x ∷ xs) = carried n x ∷ transmit (n + 2) xs

  -- What the listener has sent after some turns. In a turn each side goes on until it waits for a payload that the
  -- other has not sent. A run on a stream that ends there has sent the same payloads: no branch sends anything after
  -- a failed read.
  unfoldable pub turns : (dialler listener : Incoming → List Bytes) → ℕ → List Bytes
  turns dialler listener zero = []
  turns dialler listener (suc n) =
      let back = turns dialler listener n in listener (transmit 0 (dialler (transmit 1 back)))

  -- Every encryption of the payload is within the ceiling of a frame.
  abbrev pub Fits : Bytes → Type 0
  Fits payload =
      (n : ℕ)
      → (ct : Bytes) × (link.cipher.encrypt (link.nonce n) payload ≡ some ct)
        × (length ct ≤ max_frame_bytes)

  carried-Fits : (n : ℕ) (payload : Bytes) → Fits payload → carried n payload ≡ ok payload
  carried-Fits n payload fits =
      let (ct, encrypted, bound) = fits n in
      let (frame, written, read) =
        recv_payload-send_payload link.cipher (link.nonce n) payload ct [] [] (link.length-nonce n)
          encrypted (omega (arith, bound)) in
      let low : ltb max_frame_bytes (length ct) ≡ false = ground (arith, bound) in
      >>=-ok _ _ written (
        >>=-ok _ _
          (ap (recv_payload link.cipher) (sym (append-nil frame)) ∙ read ∙ if_false _ _ low) refl)

  -- Payloads within the ceiling arrive as they are.
  pub transmit-arrive : (n : ℕ) (xs : List Bytes) → All Fits xs → transmit n xs ≡ arrive xs
  unfolding transmit
  transmit-arrive n [] h = refl
  transmit-arrive n (x ∷ xs) (f, h) = λ i. carried-Fits n x f i ∷ transmit-arrive (n + 2) xs h i

  -- One more turn, in which all arrives.
  pub turns-suc :
      (dialler listener : Incoming → List Bytes) (n : ℕ) {back out next : List Bytes}
      → turns dialler listener n ≡ back
      → All Fits back
      → dialler (arrive back) ≡ out
      → All Fits out
      → listener (arrive out) ≡ next
      → turns dialler listener (suc n) ≡ next
  unfolding turns
  turns-suc dialler listener n {back} {out} so_far heard says fit answers =
      ap (λ x. listener (transmit 0 (dialler x)))
        (ap (transmit 1) so_far ∙ transmit-arrive 1 back heard)
      ∙ ap (λ x. listener (transmit 0 x)) says
      ∙ ap listener (transmit-arrive 0 out fit)
      ∙ answers
