-- ===== src/Orchestrator/Identity/Names.antt =====
-- What is named after a migration of internal/orchestrator/orchestrator.go: the Deployment of
-- internal/worker/manager.go, and the state file that the command `status` of
-- cmd/vm-migrator/main.go looks for.
use victoriametrics_data_mig.Prelude.{
  ℕ, zero, suc, ◌*◌, ◌/◌, ◌%◌, ◌≤◌, ◌<◌, ◌≡◌, refl, ◌⊎◌, true, List, [], ◌∷◌, ◌++◌, Text, codes,
  length, length-append, arith, All, Float,
}
use victoriametrics_data_mig.Config.{Config}
use victoriametrics_data_mig.Worker.Deploy.{deployment_name, take_text}
use victoriametrics_data_mig.Orchestrator.Identity.{
  generate_migration_id, state_file_name, hex, hex_digit, first_bytes, identity_text,
}
use victoriametrics_data_mig.Command.{is_state_file}

abbrev pub IsHexDigit : ℕ → Type 0
IsHexDigit c = ((b'0' ≤ c) × (c ≤ b'9')) ⊎ ((b'a' ≤ c) × (c ≤ b'f'))

hex_digit-IsHexDigit : (d : ℕ) → d < 16 → IsHexDigit (hex_digit d)
hex_digit-IsHexDigit d h = ground arith

hex-IsHexDigit : (bytes : List ℕ) → All (λ b. b < 256) bytes → All IsHexDigit (hex bytes)
hex-IsHexDigit [] h = tt
hex-IsHexDigit (b ∷ bytes) (low, h) = (
  hex_digit-IsHexDigit (b / 16) (omega arith),
  (hex_digit-IsHexDigit (b % 16) (omega arith), hex-IsHexDigit bytes h),
)

length-hex : (bytes : List ℕ) → length (hex bytes) ≡ 2 * length bytes
length-hex [] = refl
length-hex (b ∷ bytes) = omega (arith, length-hex bytes)

length-first_bytes : (n : ℕ) (bytes : List ℕ) → n ≤ length bytes → length (first_bytes n bytes) ≡ n
length-first_bytes zero bytes h = refl
length-first_bytes (suc n) [] h = absurd (omega arith)
length-first_bytes (suc n) (b ∷ bytes) h = omega (arith, length-first_bytes n bytes (omega arith))

first_bytes-All :
    (n : ℕ) (bytes : List ℕ) → All (λ b. b < 256) bytes → All (λ b. b < 256) (first_bytes n bytes)
first_bytes-All zero bytes h = tt
first_bytes-All (suc n) [] h = tt
first_bytes-All (suc n) (b ∷ bytes) (low, h) = (low, first_bytes-All n bytes h)

take_all : (n : ℕ) (s : Text) → length s ≤ n → take_text n s ≡ s
take_all zero [] h = refl
take_all zero (c ∷ s) h = absurd (omega arith)
take_all (suc n) [] h = refl
take_all (suc n) (c ∷ s) h = cc (take_all n s (omega arith))

deployment_name_whole :
    (id : Text) → length id ≤ 43 → deployment_name id ≡ codes "vm-migrator-workers-" ++ id
unfolding deployment_name
deployment_name_whole id h = take_all 63 (codes "vm-migrator-workers-" ++ id) (omega arith)

-- Whatever the identifier, `status` takes the name of its state file for one.
state_file_name-found : (id : Text) → is_state_file (state_file_name id) ≡ true
unfolding is_state_file state_file_name
state_file_name-found id = ground (arith, length-append id (codes ".json"))

-- A digest of SHA-256 has 32 bytes.
module _ {F : Float} (sha256 : Text → List ℕ) (digest_long : (s : Text) → length (sha256 s) ≡ 32)
    (digest_bytes : (s : Text) → All (λ b. b < 256) (sha256 s)) (cfg : Config F) where
  -- Where a digest has 32 bytes, the identifier of a migration is 12 hexadecimal digits. The
  -- Deployment's name is then not cut off: it ends in the whole identifier, and is no longer than a
  -- label of DNS may be. The name of the migration's state file is one that `status` takes for one.
  pub generate_migration_id-names :
      let id = generate_migration_id sha256 cfg in
      (length id ≡ 12)
      × All IsHexDigit id
      × (deployment_name id ≡ codes "vm-migrator-workers-" ++ id)
      × (length (deployment_name id) ≤ 63)
      × (is_state_file (state_file_name id) ≡ true)
  unfolding generate_migration_id
  generate_migration_id-names =
      let digest = sha256 (identity_text cfg) in
      let id = generate_migration_id sha256 cfg in
      let twelve : length id ≡ 12 = omega (
        arith,
        length-hex (first_bytes 6 digest),
        length-first_bytes 6 digest (omega (arith, digest_long (identity_text cfg))),
      ) in
      let whole = deployment_name_whole id (omega (arith, twelve)) in
      (
        twelve,
        hex-IsHexDigit (first_bytes 6 digest)
            (first_bytes-All 6 digest (digest_bytes (identity_text cfg))),
        whole,
        rw whole (omega (arith, twelve)),
        state_file_name-found id,
      )
