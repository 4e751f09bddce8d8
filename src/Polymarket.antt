-- ===== src/Polymarket.antt =====
-- crates/core/src/polymarket and the routes that sign with it: orders of the order book and batches
-- of a deposit wallet. Here constants.rs, the wallet's address of deposit_wallet.rs, and the words
-- and hashes of EIP-712. A buffer that is filled from front to back is the list of what it is
-- filled with; a word of 32 bytes is `be_bytes 32`.
pub mod Batch
pub mod Order
pub mod Route
use polylayer_tee.Prelude.{
  ℕ, ◌+◌, ◌*◌, ◌^◌, Bool, List, [], ◌∷◌, ◌++◌, Bytes, text, be_bytes, length, drop, replicate,
}
use polylayer_tee.External.{External}

abbrev pub polygon_chain_id : ℕ
polygon_chain_id = 137

abbrev pub ctf_exchange_v2_address : Bytes
ctf_exchange_v2_address = be_bytes 20 0xE111180000d2663C0091e4f400237545B87B996B

abbrev pub neg_risk_ctf_exchange_v2_address : Bytes
neg_risk_ctf_exchange_v2_address = be_bytes 20 0xe2222d279d744050d28e00520010520000310F59

abbrev deposit_wallet_factory_address : Bytes
deposit_wallet_factory_address = be_bytes 20 0x00000000000Fb5C9ADea0298D729A0CB3823Cc07

abbrev deposit_wallet_implementation_address : Bytes
deposit_wallet_implementation_address = be_bytes 20 0x58CA52ebe0DadfdF531Cde7062e76746de4Db1eB

abbrev pub sig_type_poly_1271 : ℕ
sig_type_poly_1271 = 3

abbrev erc1967_const1 : Bytes
erc1967_const1 = be_bytes 32 0xcc3735a920a3ca505d382bbc545af43d6000803e6038573d6000fd5b3d6000f3

abbrev erc1967_const2 : Bytes
erc1967_const2 = be_bytes 32 0x5155f3363d3d373d3d363d7f360894a13ba1a3210667c828492db98dca3e2076

abbrev erc1967_prefix : ℕ
erc1967_prefix = 0x61003d3d8160233d3973

abbrev pub polymarket_v2_order_type_string : Bytes
polymarket_v2_order_type_string =
    text
      "Order(uint256 salt,address maker,address signer,uint256 tokenId,uint256 makerAmount,uint256 takerAmount,uint8 side,uint8 signatureType,uint256 timestamp,bytes32 metadata,bytes32 builder)"

-- Address to word: 12 zero bytes and the 20 bytes of the address.
unfoldable pub addr_word : Bytes → Bytes
addr_word addr = replicate 12 0 ++ addr

module _ (x : External) where
  open x use {keccak256}

  unfoldable pub eip712_domain_type_hash : Bytes
  eip712_domain_type_hash =
      keccak256
        (text "EIP712Domain(string name,string version,uint256 chainId,address verifyingContract)")

  unfoldable pub deposit_wallet_domain_name_hash : Bytes
  deposit_wallet_domain_name_hash = keccak256 (text "DepositWallet")

  unfoldable pub deposit_wallet_domain_version_hash : Bytes
  deposit_wallet_domain_version_hash = keccak256 (text "1")

  -- `keccak256(0x1901 || domain_separator || struct_hash)`
  unfoldable pub eip712_digest : Bytes → Bytes → Bytes
  eip712_digest domain_separator struct_hash =
      keccak256 (0x19 ∷ 0x01 ∷ (domain_separator ++ struct_hash))

  -- The prefix has the length of the arguments in its upper bytes; the lower ten bytes are taken.
  unfoldable pub init_code_hash_erc1967 : Bytes → Bytes → Bytes
  init_code_hash_erc1967 implementation args =
      let combined_10 = be_bytes 10 (erc1967_prefix + length args * 2 ^ 56) in
      keccak256 (
        combined_10
        ++ (implementation ++ (0x60 ∷ 0x09 ∷ (erc1967_const2 ++ (erc1967_const1 ++ args)))))

  unfoldable pub create2_address : Bytes → Bytes → Bytes → Bytes
  create2_address from salt bytecode_hash =
      drop 12 (keccak256 (0xff ∷ (from ++ (salt ++ bytecode_hash))))

  unfoldable pub derive_deposit_wallet_address : Bytes → Bytes
  unfolding addr_word
  derive_deposit_wallet_address owner =
      let wallet_id = addr_word owner in
      let args = addr_word deposit_wallet_factory_address ++ wallet_id in
      let salt = keccak256 args in
      let bytecode_hash = init_code_hash_erc1967 deposit_wallet_implementation_address args in
      create2_address deposit_wallet_factory_address salt bytecode_hash

-- `r || s || v` with v = 27 + recovery id. The source adds in a `u8`; an id is at most 3.
unfoldable pub pack_eth_signature : Bytes → ℕ → Bytes
pack_eth_signature sig recovery_id = sig ++ (27 + recovery_id) ∷ []
