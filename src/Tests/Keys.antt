-- ===== src/Tests/Keys.antt =====
-- The theorem on the keys of the signatures at concrete values.
use obsidian_backup_server.Prelude.{
  ◌≡◌, refl, true, Option, none, [], ◌∷◌, ◌++◌, Bytes, replicate, ok,
}
use obsidian_backup_server.Prelude.Text.{codes, bytes_eq, strip_suffix}
use obsidian_backup_server.Prelude.Trim.{trim-append, strip_suffix-append}
use obsidian_backup_server.Signing.{
  Ed25519, SnapshotSigner, KeyFiles, load_or_create, sign_base64, verifying_key_bytes,
  verify_signature, verify_signature-load_or_create,
}

-- a text between two letters
abbrev unwrap : Bytes → Option Bytes
unwrap [] = none
unwrap (b ∷ rest) = strip_suffix 65 rest

-- one signature for all, which only that signature satisfies
abbrev pub one_signature : Ed25519
one_signature = record {
  sign = λ key content. replicate 64 7;
  verifying_key = λ key. replicate 32 1;
  is_point = λ key. true;
  verify = λ key content sig. bytes_eq sig (replicate 64 7);
  encode_base64 = λ content. 65 ∷ (content ++ 65 ∷ []);
  decode_base64 = unwrap;
  length-sign = λ key content. refl;
  length-verifying_key = λ key. refl;
  verifying_key-is_point = λ key. refl;
  verify-sign = λ key content. refl;
  trim-encode_base64 = λ content. trim-append [] 65 content 65 [] tt tt refl refl;
  decode-encode_base64 = λ content. strip_suffix-append 65 content;
}

abbrev a_key : Bytes
a_key = replicate 32 3

abbrev first_start : KeyFiles
first_start = (load_or_create one_signature (codes "sign.key") a_key []).1

abbrev a_signer : SnapshotSigner
a_signer = record { signing_key = a_key; key_path = codes "sign.key" }

a_signer-created :
    load_or_create one_signature (codes "sign.key") a_key [] ≡ (ok a_signer, first_start)
unfolding load_or_create
a_signer-created = refl

verify_signature-load_or_create_example :
    (load_or_create one_signature (codes "sign.key") (replicate 32 4) first_start
      ≡ (ok a_signer, first_start))
    × (verify_signature one_signature
          (codes "manifest")
          (sign_base64 one_signature a_signer (codes "manifest"))
          (verifying_key_bytes one_signature a_signer)
        ≡ true)
verify_signature-load_or_create_example =
    verify_signature-load_or_create one_signature (codes "sign.key") a_key (replicate 32 4)
      (codes "manifest") [] first_start a_signer refl a_signer-created
