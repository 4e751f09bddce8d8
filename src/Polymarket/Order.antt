-- ===== src/Polymarket/Order.antt =====
-- crates/core/src/polymarket/sign.rs: the signature of an order by the owner of a deposit wallet.
pub mod Binding
pub mod Signed
pub mod Words
use polylayer_tee.Prelude.{
  ℕ, ◌^◌, Bool, true, false, [], ◌∷◌, ◌++◌, Bytes, bytes_eq, text, be_bytes, ltb, ◌==◌,
  if◌then◌else◌, length, replicate, Option, none, some, Outcome, ok, ◌>>=◌, ◌>>◌, guard, ok_or,
  expect,
}
use polylayer_tee.External.{External}
use polylayer_tee.Derive.{evm_address_from_verifying_key}
use polylayer_tee.Polymarket.{
  polygon_chain_id, ctf_exchange_v2_address, neg_risk_ctf_exchange_v2_address, sig_type_poly_1271,
  polymarket_v2_order_type_string, addr_word, eip712_domain_type_hash,
  deposit_wallet_domain_name_hash, deposit_wallet_domain_version_hash, eip712_digest,
  derive_deposit_wallet_address, pack_eth_signature,
}

pub data PolymarketError : Type 0 where
  wrong_sig_type : ℕ → PolymarketError
  maker_mismatch : Bytes → Bytes → PolymarketError
  signer_mismatch : Bytes → Bytes → PolymarketError
  bad_key : PolymarketError
  sign : PolymarketError

pub record V2Order : Type 0 where
  pub salt : ℕ
  pub maker : Bytes
  pub signer : Bytes
  pub token_id : ℕ
  pub maker_amount : ℕ
  pub taker_amount : ℕ
  pub side : ℕ
  pub signature_type : ℕ
  pub timestamp : ℕ
  pub metadata : Bytes
  pub builder : Bytes

pub record SignV2OrderArgs : Type 0 where
  pub priv_key : Bytes
  pub order : V2Order
  pub neg_risk : Bool

pub record V2OrderSignature : Type 0 where
  pub signature : Bytes
  pub evm_address : Bytes
  pub deposit_wallet_address : Bytes
  pub neg_risk : Bool

-- u8 to word: 31 zero bytes and the byte.
unfoldable pub u8_word : ℕ → Bytes
u8_word v = replicate 31 0 ++ v ∷ []

-- The words of an order behind its type hash.
unfoldable pub order_words : V2Order → Bytes
unfolding u8_word
order_words order =
    be_bytes 32 order.salt
    ++ (addr_word order.maker
        ++ (addr_word order.signer
            ++ (be_bytes 32 order.token_id
                ++ (be_bytes 32 order.maker_amount
                    ++ (be_bytes 32 order.taker_amount
                        ++ (u8_word order.side
                            ++ (u8_word order.signature_type
                                ++ (be_bytes 32 order.timestamp
                                    ++ (order.metadata ++ order.builder)))))))))

-- `u16::try_from(len)`
unfoldable pub to_u16 : ℕ → Option ℕ
to_u16 n = if ltb n (2 ^ 16) then some n else none

module _ (x : External) where
  open x use {keccak256, signing_key_ok, verifying_key, sign_prehash_recoverable}

  unfoldable pub typed_data_sign_type_hash : Bytes
  typed_data_sign_type_hash = keccak256 (
      text
        "TypedDataSign(Order contents,string name,string version,uint256 chainId,address verifyingContract,bytes32 salt)"
      ++ polymarket_v2_order_type_string)

  unfoldable pub order_type_hash : Bytes
  order_type_hash = keccak256 polymarket_v2_order_type_string

  unfoldable pub hash_struct_order : V2Order → Bytes
  hash_struct_order order = keccak256 (order_type_hash ++ order_words order)

  unfoldable pub verifying_contract : Bool → Bytes
  verifying_contract neg_risk =
      if neg_risk then neg_risk_ctf_exchange_v2_address else ctf_exchange_v2_address

  unfoldable pub exchange_domain_separator : Bool → Bytes
  exchange_domain_separator neg_risk = keccak256 (
      eip712_domain_type_hash x
      ++ (keccak256 (text "Polymarket CTF Exchange")
          ++ (keccak256 (text "2")
              ++ (be_bytes 32 polygon_chain_id ++ addr_word (verifying_contract neg_risk)))))

  unfoldable pub hash_struct_typed_data_sign : Bytes → Bytes → Bytes
  hash_struct_typed_data_sign contents_hash wallet = keccak256 (
      typed_data_sign_type_hash
      ++ (contents_hash
          ++ (deposit_wallet_domain_name_hash x
              ++ (deposit_wallet_domain_version_hash x
                  ++ (be_bytes 32 polygon_chain_id ++ (addr_word wallet ++ replicate 32 0))))))

  -- What is signed for an order of a wallet.
  unfoldable pub message_hash : V2Order → Bytes → Bool → Bytes
  message_hash order wallet neg_risk =
      eip712_digest x (exchange_domain_separator neg_risk)
        (hash_struct_typed_data_sign (hash_struct_order order) wallet)

  unfoldable pub check_order : V2Order → Bytes → Outcome PolymarketError (Unit {0})
  check_order order wallet = do
    guard (order.signature_type == sig_type_poly_1271) (wrong_sig_type order.signature_type)
    guard (bytes_eq order.maker wallet) (maker_mismatch order.maker wallet)
    guard (bytes_eq order.signer wallet) (signer_mismatch order.signer wallet)

  -- The signature with what a verifier needs behind it.
  unfoldable pub blob : Bytes → Bytes → Bytes → ℕ → Bytes
  blob inner_sig domain_sep contents_hash type_len =
      inner_sig
      ++ (domain_sep ++ (contents_hash ++ (polymarket_v2_order_type_string ++ be_bytes 2 type_len)))

  unfoldable pub sign_v2_order : SignV2OrderArgs → Outcome PolymarketError V2OrderSignature
  unfolding check_order
  sign_v2_order args = do
    guard (signing_key_ok args.priv_key) bad_key
    let signer_address = evm_address_from_verifying_key x (verifying_key args.priv_key)
    let wallet = derive_deposit_wallet_address x signer_address
    check_order args.order wallet
    let digest = message_hash args.order wallet args.neg_risk
    (sig, recovery_id) ← ok_or (sign_prehash_recoverable args.priv_key digest) sign
    type_len ← expect (to_u16 (length polymarket_v2_order_type_string))
    ok (record {
      signature =
          blob (pack_eth_signature sig recovery_id) (exchange_domain_separator args.neg_risk)
            (hash_struct_order args.order) type_len;
      evm_address = signer_address;
      deposit_wallet_address = wallet;
      neg_risk = args.neg_risk;
    })
