-- ===== src/Derive.antt =====
-- crates/core/src/derive.rs: the per-user EVM keys and the link message. The master is known by its
-- seed; the master account at its BIP-44 path is the bip32 crate's.
pub mod Keys
pub mod Links
use polylayer_tee.Prelude.{
  ℕ, zero, suc, ◌+◌, Bool, List, [], ◌∷◌, ◌++◌, Bytes, bytes_eq, text, ◌==◌, ◌||◌, ltb, drop, not,
  if◌then◌else◌, Option, none, some, Outcome, ok, err, ◌>>=◌, ◌>>◌, guard, ok_or, expect,
}
use polylayer_tee.External.{External}

abbrev pub derivation_version : Bytes
derivation_version = text "hkdf-v1"

abbrev pub derivation_salt : Bytes
derivation_salt = text "polylayer-user-evm-hkdf-v1"

abbrev pub link_message_prefix : Bytes
link_message_prefix = text "polylayer-link-v1"

abbrev pub session_dek_salt : Bytes
session_dek_salt = text "polylayer-sessions-dek-v1"

pub data DeriveError : Type 0 where
  invalid_mnemonic bip32 hkdf_retry_exhausted sign self_check_failed : DeriveError
  bad_recovery_id : ℕ → DeriveError

pub record DerivedAccount : Type 0 where
  pub private_key : Bytes
  pub address : Bytes
  pub solana_pubkey : Bytes
  pub version : Bytes

pub record LinkMessageSignature : Type 0 where
  pub evm_address : Bytes
  pub message : Bytes
  pub message_hash : Bytes
  pub signature : Bytes
  pub recovery_id : ℕ

-- The key material's context: the public key, behind attempt 0 with the attempt's number.
unfoldable pub info_of : Bytes → ℕ → Bytes
info_of solana_pubkey attempt =
    if attempt == 0 then solana_pubkey else solana_pubkey ++ attempt ∷ []

module _ (x : External) where
  open x use {
    keccak256, hkdf_sha256, secret_key_ok, signing_key_ok, verifying_key, encoded_point,
    sign_prehash_ok, sign_prehash_recoverable, recover_from_prehash,
  }

  -- An uncompressed point has 65 bytes, a hash has 32.
  unfoldable pub evm_address_from_verifying_key : Bytes → Bytes
  evm_address_from_verifying_key vk = drop 12 (keccak256 (drop 1 (encoded_point vk)))

  -- `n` attempts are left, the first of them `attempt`.
  unfoldable pub try_attempts : Bytes → Bytes → ℕ → ℕ → Outcome DeriveError Bytes
  try_attempts seed solana_pubkey attempt zero = err hkdf_retry_exhausted
  try_attempts seed solana_pubkey attempt (suc n) =
      let rest = try_attempts seed solana_pubkey (attempt + 1) n in
      do
        output ← expect (hkdf_sha256 derivation_salt seed (info_of solana_pubkey attempt) 32)
        if secret_key_ok output then ok output else rest

  unfoldable pub derive_user_private_key : Bytes → Bytes → Outcome DeriveError Bytes
  derive_user_private_key seed solana_pubkey = try_attempts seed solana_pubkey 0 256

  unfoldable pub derive_user_evm_account : Bytes → Bytes → Outcome DeriveError DerivedAccount
  derive_user_evm_account seed solana_pubkey = do
    secret ← derive_user_private_key seed solana_pubkey
    guard (signing_key_ok secret) sign
    ok (record {
      private_key = secret;
      address = evm_address_from_verifying_key (verifying_key secret);
      solana_pubkey = solana_pubkey;
      version = derivation_version;
    })

  unfoldable pub session_dek : Bytes → Outcome DeriveError Bytes
  session_dek seed = expect (hkdf_sha256 session_dek_salt seed (text "session-dek") 32)

  unfoldable pub sign_link_message : Bytes → Bytes → Outcome DeriveError LinkMessageSignature
  sign_link_message seed solana_pubkey = do
    secret ← derive_user_private_key seed solana_pubkey
    guard (signing_key_ok secret) sign
    let address = evm_address_from_verifying_key (verifying_key secret)
    let message = link_message_prefix ++ solana_pubkey
    let hash = keccak256 message
    guard (sign_prehash_ok secret hash) sign
    (sig, rec_byte) ← ok_or (sign_prehash_recoverable secret hash) sign
    guard ((rec_byte == 0) || (rec_byte == 1)) (bad_recovery_id rec_byte)
    recovered_vk ← ok_or (recover_from_prehash hash sig rec_byte) sign
    let recovered_addr = evm_address_from_verifying_key recovered_vk
    guard (bytes_eq recovered_addr address) self_check_failed
    ok (record {
      evm_address = address;
      message = message;
      message_hash = hash;
      signature = sig;
      recovery_id = rec_byte;
    })
