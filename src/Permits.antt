-- ===== src/Permits.antt =====
-- crates/core/src/evm/permits.rs: the permit that lets the bridge of an exchange draw on a user's
-- dollars.
pub mod Route
use polylayer_tee.Prelude.{
  ℕ, ◌+◌, [], ◌∷◌, ◌++◌, Bytes, bytes_eq, text, be_bytes, take, drop, Outcome, ok, ◌>>=◌, ◌>>◌,
  guard, ok_or,
}
use polylayer_tee.External.{External}
use polylayer_tee.Derive.{evm_address_from_verifying_key}
use polylayer_tee.Polymarket.{addr_word, eip712_domain_type_hash, eip712_digest}

abbrev usdc_arbitrum_address : Bytes
usdc_arbitrum_address = be_bytes 20 0xaf88d065e77c8cC2239327C5EDb3A432268e5831

abbrev pub hl_bridge2_arbitrum_address : Bytes
hl_bridge2_arbitrum_address = be_bytes 20 0x2df1c51e09aecf9cacb7bc98cb1742757f163df7

abbrev arbitrum_chain_id : ℕ
arbitrum_chain_id = 42161

pub data PermitError : Type 0 where
  owner_mismatch : Bytes → Bytes → PermitError
  bad_key : PermitError
  sign : PermitError

pub record Erc2612PermitSplitSig : Type 0 where
  pub r : Bytes
  pub s : Bytes
  pub v : ℕ
  pub signature : Bytes

module _ (x : External) where
  open x use {keccak256, signing_key_ok, verifying_key, sign_prehash_recoverable}

  unfoldable pub permit_type_hash : Bytes
  permit_type_hash =
      keccak256
        (text "Permit(address owner,address spender,uint256 value,uint256 nonce,uint256 deadline)")

  unfoldable pub usdc_domain : Bytes
  usdc_domain = keccak256 (
      eip712_domain_type_hash x
      ++ (keccak256 (text "USD Coin")
          ++ (keccak256 (text "2")
              ++ (be_bytes 32 arbitrum_chain_id ++ addr_word usdc_arbitrum_address))))

  unfoldable pub hash_permit : Bytes → Bytes → ℕ → ℕ → ℕ → Bytes
  hash_permit owner spender value nonce deadline = keccak256 (
      permit_type_hash
      ++ (addr_word owner
          ++ (addr_word spender
              ++ (be_bytes 32 value ++ (be_bytes 32 nonce ++ be_bytes 32 deadline)))))

  unfoldable pub permit_digest : Bytes → Bytes → ℕ → ℕ → ℕ → Bytes
  permit_digest owner spender value nonce deadline =
      eip712_digest x usdc_domain (hash_permit owner spender value nonce deadline)

  unfoldable pub sign_usdc_permit_arbitrum :
      Bytes → Bytes → Bytes → ℕ → ℕ → ℕ → Outcome PermitError Erc2612PermitSplitSig
  sign_usdc_permit_arbitrum priv_key owner spender value nonce deadline = do
    guard (signing_key_ok priv_key) bad_key
    let derived = evm_address_from_verifying_key x (verifying_key priv_key)
    guard (bytes_eq derived owner) (owner_mismatch owner derived)
    (r_s, recovery_id) ←
        ok_or (sign_prehash_recoverable priv_key (permit_digest owner spender value nonce deadline))
          sign
    let v = 27 + recovery_id
    ok (record { r = take 32 r_s; s = drop 32 r_s; v = v; signature = r_s ++ v ∷ [] })
