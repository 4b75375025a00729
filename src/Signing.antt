-- ===== src/Signing.antt =====
-- sidecar/src/signing.rs: the key pair on disk, and the signature of a manifest. Ed25519 and base64 are parameters.
-- The files are a map from paths to contents; directories can be made, and files written.
use obsidian_backup_server.Prelude.{
  ℕ, ◌≡◌, ◌∙◌, refl, sym, ap, Bool, true, false, inl, inr, Option, none, some, List, ◌++◌, Bytes,
  length, length-append, ◌==◌, ==_iff, if◌then◌else◌, if_true, if_false, Bool-cases, Result, ok,
  err, Error, bad_signature, arith,
}
use obsidian_backup_server.Prelude.Assoc.{lookup, insert, lookup-insert, same_refl}
use obsidian_backup_server.Prelude.Text.{codes, bytes_eq, bytes_eq_iff, bytes_key}
use obsidian_backup_server.Prelude.Trim.{trim}

abbrev pub key_size : ℕ
key_size = 32

abbrev pub signature_size : ℕ
signature_size = 64

-- `ed25519_dalek` and the standard base64 engine: a key's signature has its size and is verified by the key's public
-- half, and what is encoded has no white space around it and is decoded again.
pub record Ed25519 : Type 0 where
  pub sign : Bytes → Bytes → Bytes
  pub verifying_key : Bytes → Bytes
  pub is_point : Bytes → Bool
  pub verify : Bytes → Bytes → Bytes → Bool
  pub encode_base64 : Bytes → Bytes
  pub decode_base64 : Bytes → Option Bytes
  pub length-sign : (key content : Bytes) → length (sign key content) ≡ signature_size
  pub length-verifying_key : (key : Bytes) → length (verifying_key key) ≡ key_size
  pub verifying_key-is_point : (key : Bytes) → is_point (verifying_key key) ≡ true
  pub verify-sign :
      (key content : Bytes) → verify (verifying_key key) content (sign key content) ≡ true
  pub trim-encode_base64 : (content : Bytes) → trim (encode_base64 content) ≡ encode_base64 content
  pub decode-encode_base64 :
      (content : Bytes) → decode_base64 (encode_base64 content) ≡ some content

pub record SnapshotSigner : Type 0 where
  pub signing_key : Bytes
  pub key_path : Bytes

abbrev pub KeyFiles : Type 0
KeyFiles = List (Bytes × Bytes)

abbrev pub public_key_path : Bytes → Bytes
public_key_path key_path = key_path ++ codes ".pub"

no_signer : {e : Error} {s : SnapshotSigner} → err e ≡ ok s → ⊥
no_signer q = cc

module _ (ed : Ed25519) where
  -- the key of the file, or a fresh one
  abbrev load_key : Bytes → Bytes → Option Bytes → KeyFiles → Result SnapshotSigner × KeyFiles
  load_key key_path fresh (some bytes) files =
      if length bytes == key_size
      then (ok (record { signing_key = bytes; key_path = key_path }), files)
      else (err bad_signature, files)
  load_key key_path fresh none files = (
    ok (record { signing_key = fresh; key_path = key_path }),
    insert (public_key_path key_path) (ed.verifying_key fresh) (insert key_path fresh files),
  )

  -- `load_or_create`, with the key that would be generated
  unfoldable pub load_or_create : Bytes → Bytes → KeyFiles → Result SnapshotSigner × KeyFiles
  load_or_create key_path fresh files = load_key key_path fresh (lookup key_path files) files

  unfoldable pub sign_base64 : SnapshotSigner → Bytes → Bytes
  sign_base64 signer content = ed.encode_base64 (ed.sign signer.signing_key content)

  abbrev pub verifying_key_bytes : SnapshotSigner → Bytes
  verifying_key_bytes signer = ed.verifying_key signer.signing_key

  abbrev check_signature : Option Bytes → Bytes → Bytes → Bool
  check_signature none content public_key = false
  check_signature (some sig) content public_key =
      if length sig == signature_size
      then (if length public_key == key_size
          then (if ed.is_point public_key then ed.verify public_key content sig else false)
          else false)
      else false

  unfoldable pub verify_signature : Bytes → Bytes → Bytes → Bool
  verify_signature content signature public_key =
      check_signature (ed.decode_base64 (trim signature)) content public_key

  not_itself : (path : Bytes) → bytes_eq (public_key_path path) path ≡ false
  not_itself path = elim (Bool-cases (bytes_eq (public_key_path path) path)) [
    | inl t ↦ absurd (
        omega (
          arith,
          ap length ((bytes_eq_iff (public_key_path path) path).0 t),
          length-append path (codes ".pub"),
        ))
    | inr f ↦ f
  ]

  lookup-created :
      (path fresh public : Bytes) (files : KeyFiles)
      → lookup path (insert (public_key_path path) public (insert path fresh files)) ≡ some fresh
  lookup-created path fresh public files =
      lookup-insert (public_key_path path) path public (insert path fresh files)
      ∙ if_false _ _ (not_itself path)
      ∙ lookup-insert path path fresh files
      ∙ if_true _ _ (same_refl path)

  -- What is on disk is loaded.
  load_key-found :
      (path later bytes : Bytes) (fs files' : KeyFiles) (signer : SnapshotSigner)
      → lookup path fs ≡ some bytes
      → length bytes ≡ key_size
      → ◌≡◌ {A = Result SnapshotSigner × KeyFiles}
          (ok (record { signing_key = bytes; key_path = path }), fs)
          (ok signer, files')
      → load_key path later (lookup path files') files' ≡ (ok signer, files')
  load_key-found path later bytes fs files' signer found sized h =
      ap (λ (f : KeyFiles). load_key path later (lookup path f) f)
        (sym (ap (λ (r : Result SnapshotSigner × KeyFiles). r.1) h))
      ∙ ap (λ o. load_key path later o fs) found
      ∙ if_true _ _ ((==_iff (length bytes) key_size).1 sized)
      ∙ h

  load_key-again :
      (path fresh later : Bytes) (o : Option Bytes) (files files' : KeyFiles)
      (signer : SnapshotSigner)
      → lookup path files ≡ o
      → length fresh ≡ key_size
      → load_key path fresh o files ≡ (ok signer, files')
      → load_key path later (lookup path files') files' ≡ (ok signer, files')
  load_key-again path fresh later none files files' signer found sized h =
      load_key-found path later fresh _ files' signer
        (lookup-created path fresh (ed.verifying_key fresh) files) sized h
  load_key-again path fresh later (some bytes) files files' signer found sized h =
      elim (Bool-cases (length bytes == key_size)) [
        | inl t ↦
            load_key-found path later bytes files files' signer found
              ((==_iff (length bytes) key_size).0 t) (sym (if_true _ _ t) ∙ h)
        | inr f ↦ absurd (
            no_signer
              (ap (λ (r : Result SnapshotSigner × KeyFiles). r.0) (sym (if_false _ _ f) ∙ h)))
      ]

  -- The key pair that a start of the sidecar has loaded or created is the one that every later start loads, whatever
  -- key that would generate, and the files stay; and what the one has signed, the public key of the other verifies. A
  -- generated key has 32 bytes.
  pub verify_signature-load_or_create :
      (key_path fresh later content : Bytes) (files files' : KeyFiles) (signer : SnapshotSigner)
      → length fresh ≡ key_size
      → load_or_create key_path fresh files ≡ (ok signer, files')
      → (load_or_create key_path later files' ≡ (ok signer, files'))
        × (verify_signature content (sign_base64 signer content) (verifying_key_bytes signer)
            ≡ true)
  unfolding load_or_create verify_signature sign_base64
  verify_signature-load_or_create key_path fresh later content files files' signer sized h = (
    load_key-again key_path fresh later (lookup key_path files) files files' signer refl sized h,
    ap (λ o. check_signature o content (ed.verifying_key signer.signing_key))
          (ap ed.decode_base64 (ed.trim-encode_base64 (ed.sign signer.signing_key content))
            ∙ ed.decode-encode_base64 (ed.sign signer.signing_key content))
        ∙ if_true _ _ ((==_iff _ _).1 (ed.length-sign signer.signing_key content))
        ∙ if_true _ _ ((==_iff _ _).1 (ed.length-verifying_key signer.signing_key))
        ∙ if_true _ _ (ed.verifying_key-is_point signer.signing_key)
        ∙ ed.verify-sign signer.signing_key content,
  )
