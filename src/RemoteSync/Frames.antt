-- ===== src/RemoteSync/Frames.antt =====
-- What `recv_payload` of remote_sync.rs reads of a stream, against what `send_payload` writes.
use obsidian_backup_server.Prelude.{
  ℕ, ◌%◌, ◌≤◌, ◌<◌, ◌≡◌, ◌∙◌, refl, sym, ap, false, inl, inr, Option, none, some, ◌++◌,
  append_assoc, Bytes, length, length-append, take-append-drop, length-take, take-append,
  drop-append, ltb, if◌then◌else◌, if_true, if_false, Bool-cases, ltb-eq-false, Result, ok, err,
  Error, oversized_frame, >>=-ok, >>=-eq-ok, arith,
}
use obsidian_backup_server.Prelude.Words.{
  u32_mod, to_le_bytes, from_le_bytes, from_le_bytes-to_le_bytes4,
}
use obsidian_backup_server.RemoteSync.Wire.{
  nonce_len, len_bytes, max_frame_bytes, Cipher, read_exact, frame_bytes, write_encrypted,
  send_payload, decrypted, recv_encrypted, recv_sized, recv_payload,
}

read_exact-append : (n : ℕ) (xs ys : Bytes) → length xs ≡ n → read_exact n (xs ++ ys) ≡ ok (xs, ys)
unfolding read_exact
read_exact-append n xs ys h =
    let enough : ltb (length (xs ++ ys)) n ≡ false = ground (arith, length-append xs ys) in
    if_false _ _ enough ∙ rw (sym h) (λ i. ok (take-append xs ys i, drop-append xs ys i))

failed : {A : Type 0} {a : A} {e : Error} → err e ≡ ok a → ⊥
failed q = cc

-- What has been read exactly is the start of the stream.
record Split (n : ℕ) (r x y : Bytes) : Type 0 where
  whole : r ≡ x ++ y
  size : length x ≡ n

parts :
    {a b x y : Bytes} → ◌≡◌ {A = Result (Bytes × Bytes)} (ok (a, b)) (ok (x, y)) → (a ≡ x) × (b ≡ y)
parts q = (cc, cc)

read_exact-Split : (n : ℕ) (r x y : Bytes) → read_exact n r ≡ ok (x, y) → Split n r x y
unfolding read_exact
read_exact-Split n r x y h = elim (Bool-cases (ltb (length r) n)) [
  | inl t ↦ absurd (failed (sym (if_true _ _ t) ∙ h))
  | inr f ↦
      let (first, second) = parts (sym (if_false _ _ f) ∙ h) in
      record {
        whole = sym (take-append-drop n r) ∙ (λ i. first i ++ second i);
        size = omega (arith, ltb-eq-false _ _ f, ap length first, length-take n r);
      }
]

module _ (cipher : Cipher) where
  -- A frame on a stream: its bytes, and what it is decrypted to.
  pub record FrameAt (r content rest : Bytes) : Type 0 where
    pub len_buf : Bytes
    pub nonce : Bytes
    pub ct : Bytes
    pub stream : r ≡ len_buf ++ (nonce ++ (ct ++ rest))
    pub len_size : length len_buf ≡ len_bytes
    pub nonce_size : length nonce ≡ nonce_len
    pub ct_size : length ct ≡ from_le_bytes len_buf
    pub bounded : length ct ≤ max_frame_bytes
    pub authentic : cipher.decrypt nonce ct ≡ some content

  decrypted-eq-ok :
      (o : Option Bytes) (r content rest : Bytes)
      → decrypted cipher o r ≡ ok (content, rest)
      → (o ≡ some content) × (r ≡ rest)
  decrypted-eq-ok none r content rest h = cc
  decrypted-eq-ok (some c) r content rest h = (cc, cc)

  recv_encrypted-eq-ok :
      (len : ℕ) (r content rest : Bytes)
      → recv_encrypted cipher len r ≡ ok (content, rest)
      → (nonce : Bytes) × (ct : Bytes) × (r ≡ nonce ++ (ct ++ rest))
        × (length nonce ≡ nonce_len)
        × (length ct ≡ len)
        × (cipher.decrypt nonce ct ≡ some content)
  recv_encrypted-eq-ok len r content rest h =
      let ((nonce, r2), e2, h2) = >>=-eq-ok (read_exact nonce_len r) _ h in
      let ((ct, r3), e3, h3) = >>=-eq-ok (read_exact len r2) _ h2 in
      let (shown, same) = decrypted-eq-ok (cipher.decrypt nonce ct) r3 content rest h3 in
      let first = read_exact-Split nonce_len r nonce r2 e2 in
      let second = read_exact-Split len r2 ct r3 e3 in
      (
        nonce,
        ct,
        first.whole ∙ ap (λ l. nonce ++ l) (second.whole ∙ ap (λ l. ct ++ l) same),
        first.size,
        second.size,
        shown,
      )

  -- What is received is a frame at the start of the stream, of at most the ceiling's size, that the cipher has
  -- authenticated; every other stream, cut short or tampered with, is an error.
  pub recv_payload-FrameAt :
      (r content rest : Bytes) → recv_payload cipher r ≡ ok (content, rest) → FrameAt r content rest
  unfolding recv_payload
  recv_payload-FrameAt r content rest h =
      let ((len_buf, r1), e1, h1) = >>=-eq-ok (read_exact len_bytes r) _ h in
      let start = read_exact-Split len_bytes r len_buf r1 e1 in
      elim (Bool-cases (ltb max_frame_bytes (from_le_bytes len_buf))) [
        | inl t ↦ absurd (failed (sym (if_true _ _ t) ∙ h1))
        | inr f ↦
            let (nonce, ct, whole, nonce_size, ct_size, shown) =
              recv_encrypted-eq-ok (from_le_bytes len_buf) r1 content rest
                (sym (if_false _ _ f) ∙ h1) in
            record {
              len_buf = len_buf;
              nonce = nonce;
              ct = ct;
              stream = start.whole ∙ ap (λ l. len_buf ++ l) whole;
              len_size = start.size;
              nonce_size = nonce_size;
              ct_size = ct_size;
              bounded = omega (arith, ltb-eq-false _ _ f, ct_size);
              authentic = shown;
            }
      ]

  recv_encrypted-append :
      (nonce ct rest : Bytes)
      → length nonce ≡ nonce_len
      → recv_encrypted cipher (length ct) (nonce ++ (ct ++ rest))
        ≡ decrypted cipher (cipher.decrypt nonce ct) rest
  recv_encrypted-append nonce ct rest h =
      >>=-ok _ _ (read_exact-append nonce_len nonce (ct ++ rest) h)
        (>>=-ok _ _ (read_exact-append (length ct) ct rest refl) refl)

  recv_payload-frame_bytes :
      (nonce ct rest : Bytes)
      → length nonce ≡ nonce_len
      → length ct < u32_mod
      → recv_payload cipher (frame_bytes cipher nonce ct ++ rest) ≡ (
          if ltb max_frame_bytes (length ct)
          then err oversized_frame
          else decrypted cipher (cipher.decrypt nonce ct) rest)
  unfolding recv_payload
  recv_payload-frame_bytes nonce ct rest h small =
      let e : frame_bytes cipher nonce ct ++ rest
          ≡ to_le_bytes len_bytes (length ct % u32_mod) ++ (nonce ++ (ct ++ rest)) =
        append_assoc (to_le_bytes len_bytes (length ct % u32_mod)) (nonce ++ ct) rest
        ∙ ap (λ l. to_le_bytes len_bytes (length ct % u32_mod) ++ l) (append_assoc nonce ct rest) in
      let same : from_le_bytes (to_le_bytes len_bytes (length ct % u32_mod)) ≡ length ct =
        from_le_bytes-to_le_bytes4 _ (omega arith) ∙ omega arith in
      ap (recv_payload cipher) e
      ∙ >>=-ok _ _
          (read_exact-append len_bytes (to_le_bytes len_bytes (length ct % u32_mod))
            (nonce ++ (ct ++ rest)) refl)
          refl
      ∙ ap (λ len. recv_sized cipher len (nonce ++ (ct ++ rest))) same
      ∙ ap (λ x. if ltb max_frame_bytes (length ct) then err oversized_frame else x)
          (recv_encrypted-append nonce ct rest h)

  -- A payload that is sent after what a stream holds is read back from there, with what follows it, if its ciphertext
  -- is within the ceiling; the sender does not ask that, and a longer one, up to what a u32 can tell, is refused.
  pub recv_payload-send_payload :
      (nonce content ct w rest : Bytes)
      → length nonce ≡ nonce_len
      → cipher.encrypt nonce content ≡ some ct
      → length ct < u32_mod
      → (frame : Bytes) × (send_payload cipher nonce content w ≡ ok (w ++ frame))
        × (recv_payload cipher (frame ++ rest)
            ≡ (if ltb max_frame_bytes (length ct) then err oversized_frame else ok (content, rest)))
  unfolding send_payload
  recv_payload-send_payload nonce content ct w rest h e small = (
    frame_bytes cipher nonce ct,
    ap (λ o. write_encrypted cipher nonce o w) e,
    recv_payload-frame_bytes nonce ct rest h small
        ∙ ap
            (λ o.
              if ltb max_frame_bytes (length ct)
              then err oversized_frame
              else decrypted cipher o rest)
            (cipher.decrypt-encrypt nonce content ct e),
  )
