-- ===== src/Ipc/Token.antt =====
-- `verify_token` of server.rs: the comparison in constant time.
use Prim.Native.Nat.{bit_or, bit_xor}
use obsidian_backup_server.Prelude.{
  ℕ, ◌≡◌, ◌≢◌, ◌∙◌, ◌↔◌, refl, sym, ap, true, false, inl, inr, [], ◌∷◌, Bytes, length, ◌==◌, ==_iff,
  if_true, if_false, Bool-cases, arith,
}
use obsidian_backup_server.Prelude.Bits.{bit_xor-eq-zero, bit_xor_self, bit_or-eq-zero}
use obsidian_backup_server.Config.{SidecarConfig}
use obsidian_backup_server.Ipc.{fold_bytes, expected_token, verify_token}

fold_bytes-eq-zero :
    (acc : ℕ) (xs ys : Bytes)
    → length xs ≡ length ys
    → fold_bytes acc xs ys ≡ 0
    → (acc ≡ 0) × (xs ≡ ys)
unfolding fold_bytes
fold_bytes-eq-zero acc [] [] len h = (h, refl)
fold_bytes-eq-zero acc [] (y ∷ ys) len h = absurd (omega arith)
fold_bytes-eq-zero acc (x ∷ xs) [] len h = absurd (omega arith)
fold_bytes-eq-zero acc (x ∷ xs) (y ∷ ys) len h =
    let (both, rest) = fold_bytes-eq-zero (bit_or acc (bit_xor x y)) xs ys (omega arith) h in
    let (none_before, none_here) = bit_or-eq-zero acc (bit_xor x y) both in
    (none_before, rw (bit_xor-eq-zero x y none_here, rest) refl)

fold_bytes_self : (xs : Bytes) → fold_bytes 0 xs xs ≡ 0
unfolding fold_bytes
fold_bytes_self [] = refl
fold_bytes_self (x ∷ xs) =
    ap (λ d. fold_bytes (bit_or 0 d) xs xs) (bit_xor_self x) ∙ fold_bytes_self xs

pub not_both : false ≡ true → ⊥
not_both e = cc

-- The comparison, which looks at every byte, accepts exactly the texts that are not empty and equal
-- to the configured token, or to the default token where none is configured.
pub verify_token_iff :
    (token : Bytes) (config : SidecarConfig)
    → (verify_token token config ≡ true) ↔ ((token ≢ []) × (token ≡ expected_token config))
unfolding verify_token
verify_token_iff [] config = ((λ e. cc), λ (ne, e). absurd (ne refl))
verify_token_iff (b ∷ bs) config = (
  (λ e. elim (Bool-cases (length (b ∷ bs) == length (expected_token config))) [
    | inl t ↦
        let same = (==_iff _ _).0 (sym (if_true _ _ t) ∙ e) in
        (
          (λ q. cc),
          (fold_bytes-eq-zero 0 (b ∷ bs) (expected_token config) ((==_iff _ _).0 t) same).1,
        )
    | inr f ↦ absurd (not_both (sym (if_false _ _ f) ∙ e))
  ]),
  λ (ne, e).
      if_true _ _ ((==_iff _ _).1 (ap length e))
      ∙ (==_iff _ _).1 (ap (fold_bytes 0 (b ∷ bs)) (sym e) ∙ fold_bytes_self (b ∷ bs)),
)
