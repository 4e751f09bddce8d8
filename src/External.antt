-- ===== src/External.antt =====
-- The functions of third-party crates that the program calls, as one record of parameters: nothing
-- of them is defined here. `Option` stands for a `Result` whose error text the program only prints.
use polylayer_tee.Prelude.{ℕ, ◌≡◌, Bool, List, Bytes, Option, length}
use polylayer_tee.Json.{Number}

-- What the program calls on a `RlpStream`.
pub data RlpCall : Type 0 where
  begin_list : ℕ → RlpCall
  append : Bytes → RlpCall

pub record External : Type 0 where
  -- sha3: `Keccak256::digest`; sha2: `Sha256::digest`
  pub keccak256 : Bytes → Bytes
  pub sha256 : Bytes → Bytes
  -- solana_pubkey: `str::parse::<Pubkey>` and `Pubkey::find_program_address` without the bump
  pub parse_pubkey : Bytes → Option Bytes
  pub find_program_address : List Bytes → Bytes → Bytes
  -- alloy_primitives: `Address::from_str`, `B256::from_str`, `U256::from_str_radix(_, 10)`
  pub parse_address : Bytes → Option Bytes
  pub parse_b256 : Bytes → Option Bytes
  pub parse_u256 : Bytes → Option ℕ
  -- alloy_primitives: `U256::to_string`
  pub u256_to_string : ℕ → Bytes
  -- bs58 and hex: `decode`, and `encode`
  pub bs58_decode : Bytes → Option Bytes
  pub bs58_encode : Bytes → Bytes
  pub hex_decode : Bytes → Option Bytes
  pub hex_encode : Bytes → Bytes
  -- ed25519_dalek: `VerifyingKey::from_bytes` succeeds; `verify` of key, message and signature
  pub valid_verifying_key : Bytes → Bool
  pub ed25519_verify : Bytes → Bytes → Bytes → Bool
  -- ed25519_dalek: the public key of a private key, and the signature of a message
  pub ed25519_public : Bytes → Bytes
  pub ed25519_sign : Bytes → Bytes → Bytes
  -- k256: `SecretKey::from_bytes` and `SigningKey::from_bytes` succeed; the verifying key of a
  -- signing key and its uncompressed point; `sign_prehash` succeeds; `sign_prehash_recoverable` with
  -- its signature and recovery byte; `recover_from_prehash` of hash, signature and recovery byte
  pub secret_key_ok : Bytes → Bool
  pub signing_key_ok : Bytes → Bool
  pub verifying_key : Bytes → Bytes
  pub encoded_point : Bytes → Bytes
  pub sign_prehash_ok : Bytes → Bytes → Bool
  pub sign_prehash_recoverable : Bytes → Bytes → Option (Bytes × ℕ)
  pub recover_from_prehash : Bytes → Bytes → ℕ → Option Bytes
  -- rlp: the bytes of a `RlpStream` after the calls
  pub rlp_raw : List RlpCall → Bytes
  -- hkdf over sha2: salt, key material, info and the length to expand to
  pub hkdf_sha256 : Bytes → Bytes → Bytes → ℕ → Option Bytes
  -- hmac over sha2: the key, then the text
  pub hmac_sha512 : Bytes → Bytes → Bytes
  pub hmac_sha256 : Bytes → Bytes → Bytes
  -- serde_json: the text of a string and of a number, and whether a float is finite
  pub json_string : Bytes → Bytes
  pub json_number : Number → Bytes
  pub is_finite : Bytes → Bool
  -- `str::trim`, which goes by Unicode tables
  pub trim : Bytes → Bytes

-- Documented behaviour: a Keccak-256 digest has 32 bytes.
abbrev pub DigestsAre32 : External → Type 0
DigestsAre32 x = (bs : Bytes) → length (x.keccak256 bs) ≡ 32
