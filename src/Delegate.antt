-- ===== src/Delegate.antt =====
-- crates/core/src/solana_attestor/delegate.rs: the per-user Solana delegate keys. The master is
-- known by its seed.
use polylayer_tee.Prelude.{Bytes, text, Outcome, ok, ◌>>=◌, ok_or}
use polylayer_tee.External.{External}

pub data DelegateError : Type 0 where
  hkdf : DelegateError

pub record SolanaDelegate : Type 0 where
  pub private_key : Bytes
  pub public_key : Bytes

abbrev pub jupiter_delegate_salt : Bytes
jupiter_delegate_salt = text "polylayer-jupiter-delegate-v1"

abbrev pub session_delegate_salt : Bytes
session_delegate_salt = text "polylayer-session-delegate-v1"

module _ (x : External) where
  open x use {hkdf_sha256, ed25519_public, bs58_encode}

  unfoldable pub derive_delegate_with_salt :
      Bytes → Bytes → Bytes → Outcome DelegateError SolanaDelegate
  derive_delegate_with_salt seed solana_pubkey salt = do
    private_key ← ok_or (hkdf_sha256 salt seed solana_pubkey 32) hkdf
    ok (record { private_key = private_key; public_key = ed25519_public private_key })

  unfoldable pub derive_jupiter_delegate : Bytes → Bytes → Outcome DelegateError SolanaDelegate
  derive_jupiter_delegate seed solana_pubkey =
      derive_delegate_with_salt seed solana_pubkey jupiter_delegate_salt

  unfoldable pub derive_session_delegate : Bytes → Bytes → Outcome DelegateError SolanaDelegate
  derive_session_delegate seed solana_pubkey =
      derive_delegate_with_salt seed solana_pubkey session_delegate_salt

  unfoldable pub public_key_bs58 : SolanaDelegate → Bytes
  public_key_bs58 d = bs58_encode d.public_key
