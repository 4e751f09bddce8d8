-- ===== src/Hyperliquid.antt =====
-- crates/core/src/hyperliquid.rs: signatures of actions of an exchange. Its copy of `eip712_digest`
-- is that of the orders; `signature[64]` adds in a `u8`, where an id is at most 3.
pub mod Domains
pub mod Route
use polylayer_tee.Prelude.{
  ℕ, ◌+◌, List, [], ◌∷◌, ◌++◌, Bytes, text, be_bytes, take, drop, Outcome, ok, ◌>>=◌, ◌>>◌, guard,
  ok_or,
}
use polylayer_tee.External.{External}
use polylayer_tee.Derive.{evm_address_from_verifying_key}
use polylayer_tee.Polymarket.{addr_word, eip712_domain_type_hash, eip712_digest}

abbrev hl_verifying_contract : Bytes
hl_verifying_contract = be_bytes 20 0

abbrev pub hl_l1_chain_id : ℕ
hl_l1_chain_id = 1337

abbrev pub hl_l1_domain_name : Bytes
hl_l1_domain_name = text "Exchange"

abbrev pub hl_l1_domain_version : Bytes
hl_l1_domain_version = text "1"

abbrev pub hl_user_domain_name : Bytes
hl_user_domain_name = text "HyperliquidSignTransaction"

abbrev pub hl_user_domain_version : Bytes
hl_user_domain_version = text "1"

pub data HyperliquidError : Type 0 where
  bad_key : HyperliquidError
  sign : HyperliquidError
  bad_network : Bytes → HyperliquidError

pub data HyperliquidNetwork : Type 0 where
  mainnet : HyperliquidNetwork
  testnet : HyperliquidNetwork

unfoldable pub source_tag : HyperliquidNetwork → Bytes
source_tag mainnet = text "a"
source_tag testnet = text "b"

-- The fields `r`, `s` and `v` repeat the parts of the signature.
pub record HyperliquidSignature : Type 0 where
  pub signature : Bytes
  pub evm_address : Bytes
  pub r : Bytes
  pub s : Bytes
  pub v : ℕ

module _ (x : External) where
  open x use {keccak256, signing_key_ok, verifying_key, sign_prehash_recoverable}

  unfoldable pub agent_type_hash : Bytes
  agent_type_hash = keccak256 (text "Agent(string source,bytes32 connectionId)")

  unfoldable pub l1_domain_separator : Bytes
  l1_domain_separator = keccak256 (
      eip712_domain_type_hash x
      ++ (keccak256 hl_l1_domain_name
          ++ (keccak256 hl_l1_domain_version
              ++ (be_bytes 32 hl_l1_chain_id ++ addr_word hl_verifying_contract))))

  unfoldable pub user_domain_separator : ℕ → Bytes
  user_domain_separator chain_id = keccak256 (
      eip712_domain_type_hash x
      ++ (keccak256 hl_user_domain_name
          ++ (keccak256 hl_user_domain_version
              ++ (be_bytes 32 chain_id ++ addr_word hl_verifying_contract))))

  unfoldable pub hash_agent_struct : Bytes → Bytes → Bytes
  hash_agent_struct source connection_id =
      keccak256 (agent_type_hash ++ (keccak256 source ++ connection_id))

  unfoldable pub sign_digest : Bytes → Bytes → Bytes → Outcome HyperliquidError HyperliquidSignature
  sign_digest signing_key evm_address digest = do
    (r_s, recovery_id) ← ok_or (sign_prehash_recoverable signing_key digest) sign
    let v = 27 + recovery_id
    ok (record {
      signature = r_s ++ v ∷ [];
      evm_address = evm_address;
      r = take 32 r_s;
      s = take 32 (drop 32 r_s);
      v = v;
    })

  -- What is signed for an action of either kind.
  unfoldable pub l1_digest : HyperliquidNetwork → Bytes → Bytes
  l1_digest network connection_id =
      eip712_digest x l1_domain_separator (hash_agent_struct (source_tag network) connection_id)

  unfoldable pub user_digest : ℕ → Bytes → Bytes
  user_digest signature_chain_id struct_hash =
      eip712_digest x (user_domain_separator signature_chain_id) struct_hash

  unfoldable pub sign_l1_action :
      Bytes → HyperliquidNetwork → Bytes → Outcome HyperliquidError HyperliquidSignature
  unfolding sign_digest
  sign_l1_action priv_key network connection_id = do
    guard (signing_key_ok priv_key) bad_key
    sign_digest priv_key (evm_address_from_verifying_key x (verifying_key priv_key))
        (l1_digest network connection_id)

  unfoldable pub sign_user_action :
      Bytes → ℕ → Bytes → Outcome HyperliquidError HyperliquidSignature
  unfolding sign_digest
  sign_user_action priv_key signature_chain_id struct_hash = do
    guard (signing_key_ok priv_key) bad_key
    sign_digest priv_key (evm_address_from_verifying_key x (verifying_key priv_key))
        (user_digest signature_chain_id struct_hash)
