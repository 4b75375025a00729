-- ===== src/Prelude/Outcome.antt =====
-- The result of a fallible operation. Each way in which the program fails has a constructor; the
-- message texts are left out.
use mathlib.Core.Path.{◌≡◌, refl, ap, ◌∙◌}
use mathlib.Core.Logic.{◌⊎◌, inl, inr}

pub data Error : Type 0 where
  -- the model's own: a loop has used up its fuel
  out_of_fuel : Error
  -- the program panics
  panicked : Error
  -- an operating-system or library call failed
  io : Error
  -- backup/mod.rs: validate_safe_path, parse_duration, the engine
  empty_path path_traversal absolute_path path_escapes bad_duration bad_number : Error
  invalid_snapshot_id snapshot_not_found missing_chunks invalid_coordinate : Error
  invalid_world_name world_exists no_snapshot_before aborted no_transaction : Error
  bad_signature no_verifying_key export_exists no_parent import_missing : Error
  -- storage
  object_not_found cannot_read_loose missing_shard missing_parity truncated_parity : Error
  empty_object too_many_corrupted shard_length : Error
  -- ipc and remote_sync
  auth_failed peer_error unexpected_frame size_mismatch oversized_frame encrypt_failed
        decrypt_failed :
      Error
  not_configured unknown_action : Error

pub data Result {ℓ} (A : Type ℓ) : Type ℓ where
  ok : A → Result A
  err : Error → Result A

pub Result-cases {ℓ} :
    {A : Type ℓ} (r : Result A) → ((a : A) × (r ≡ ok a)) ⊎ ((e : Error) × (r ≡ err e))
Result-cases (ok a) = inl (a, refl)
Result-cases (err e) = inr (e, refl)

module _ {ℓ κ} {X : Type ℓ} {Y : Type κ} where
  infixl 5 ◌>>=◌
  -- what follows is run on the value only
  abbrev pub ◌>>=◌ : Result X → (X → Result Y) → Result Y
  err failure >>= next = err failure
  ok x >>= next = next x

  module _ (first : Result X) (next : X → Result Y) where
    -- a sequence that has succeeded, taken apart
    pub >>=-eq-ok : {y : Y} → (first >>= next) ≡ ok y → (x : X) × (first ≡ ok x) × (next x ≡ ok y)
    >>=-eq-ok {y} whole =
        elim first as (λ r. (r >>= next) ≡ ok y → (x : X) × (r ≡ ok x) × (next x ≡ ok y)) [
          | err failure ↦ λ e. cc
          | ok x ↦ λ e. (x, refl, e)
        ]
          whole

    -- a sequence whose first part succeeds
    pub >>=-ok : {x : X} {r : Result Y} → first ≡ ok x → next x ≡ r → (first >>= next) ≡ r
    >>=-ok e rest = ap (λ m. m >>= next) e ∙ rest

  -- sequences that go on in the same way
  pub >>=-cong :
      (first : Result X) {next other : X → Result Y}
      → ((x : X) → next x ≡ other x)
      → (first >>= next) ≡ (first >>= other)
  >>=-cong (err failure) same = refl
  >>=-cong (ok x) same = same x
