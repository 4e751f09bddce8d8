-- ===== src/Attestation/Signer.antt =====
-- crates/core/src/solana_attestor/signer.rs: the attestor's key by SLIP-0010 along
-- m/44'/501'/0'/0', and its signatures.
use polylayer_tee.Prelude.{ℕ, ◌+◌, ◌^◌, List, [], ◌∷◌, ◌++◌, Bytes, text, be_bytes, take, drop}
use polylayer_tee.External.{External}

abbrev pub solana_attestor_path : List ℕ
solana_attestor_path = 44 ∷ 501 ∷ 0 ∷ 0 ∷ []

pub record SolanaAttestorKeypair : Type 0 where
  pub private_key : Bytes
  pub public_key : Bytes

module _ (x : External) where
  open x use {hmac_sha512, ed25519_public, ed25519_sign, bs58_encode}

  -- One hardened child of a private key and a chain code. `index | 0x8000_0000` is a sum, since
  -- every index of the path is below 2^31.
  unfoldable pub child : ℕ → Bytes × Bytes → Bytes × Bytes
  child index (priv_key, chain_code) =
      let hardened = index + 2 ^ 31 in
      let i = hmac_sha512 chain_code (0 ∷ (priv_key ++ be_bytes 4 hardened)) in
      (take 32 i, drop 32 i)

  unfoldable pub along : List ℕ → Bytes × Bytes → Bytes × Bytes
  unfolding child
  along [] keys = keys
  along (index ∷ path) keys = along path (child index keys)

  -- HMAC takes a key of any length, so that the derivation has no error.
  unfoldable pub slip10_derive : Bytes → Bytes × Bytes
  unfolding along
  slip10_derive seed =
      let i = hmac_sha512 (text "ed25519 seed") seed in
      along solana_attestor_path (take 32 i, drop 32 i)

  unfoldable pub derive_solana_attestor_keypair : Bytes → SolanaAttestorKeypair
  derive_solana_attestor_keypair seed =
      let (priv_key, chain_code) = slip10_derive seed in
      record { private_key = priv_key; public_key = ed25519_public priv_key }

  unfoldable pub sign : SolanaAttestorKeypair → Bytes → Bytes
  sign attestor message = ed25519_sign attestor.private_key message

  unfoldable pub public_key_bs58 : SolanaAttestorKeypair → Bytes
  public_key_bs58 attestor = bs58_encode attestor.public_key
