-- ===== src/Polymarket/Route.antt =====
-- crates/server/src/routes/sign_polymarket_order.rs: the route that signs an order.
pub mod Ordered
use polylayer_tee.Prelude.{ℕ, Bool, ◌++◌, Bytes, text, Outcome, ok, ◌>>=◌, ok_or, map_err}
use polylayer_tee.External.{External}
use polylayer_tee.Api.{ApiError, bad_request, internal}
use polylayer_tee.Solana.{decode_pubkey}
use polylayer_tee.Derive.{derive_user_evm_account}
use polylayer_tee.Polymarket.Order.{V2Order, SignV2OrderArgs, V2OrderSignature, sign_v2_order}

pub record OrderInput : Type 0 where
  pub salt : Bytes
  pub maker : Bytes
  pub signer : Bytes
  pub token_id : Bytes
  pub maker_amount : Bytes
  pub taker_amount : Bytes
  pub side : ℕ
  pub signature_type : ℕ
  pub timestamp : Bytes
  pub metadata : Bytes
  pub builder : Bytes

pub record OrderReq : Type 0 where
  pub solana_pubkey : Bytes
  pub order : OrderInput
  pub neg_risk : Bool

-- The fields of the answer.
pub record OrderResponse : Type 0 where
  pub signature : Bytes
  pub evm_address : Bytes
  pub deposit_wallet_address : Bytes
  pub neg_risk : Bool

module _ (x : External) where
  open x use {parse_address, parse_u256, parse_b256, hex_encode}

  unfoldable pub parse_addr_field : Bytes → Outcome ApiError Bytes
  parse_addr_field s = ok_or (parse_address s) (bad_request "invalid_address")

  unfoldable pub parse_u256_field : Bytes → Outcome ApiError ℕ
  parse_u256_field s = ok_or (parse_u256 s) (bad_request "invalid_u256")

  unfoldable pub parse_b256_field : Bytes → Outcome ApiError Bytes
  parse_b256_field s = ok_or (parse_b256 s) (bad_request "invalid_b256")

  unfoldable pub parse_order : OrderInput → Outcome ApiError V2Order
  unfolding parse_addr_field parse_u256_field parse_b256_field
  parse_order input = do
    salt ← parse_u256_field input.salt
    maker ← parse_addr_field input.maker
    signer ← parse_addr_field input.signer
    token_id ← parse_u256_field input.token_id
    maker_amount ← parse_u256_field input.maker_amount
    taker_amount ← parse_u256_field input.taker_amount
    timestamp ← parse_u256_field input.timestamp
    metadata ← parse_b256_field input.metadata
    builder ← parse_b256_field input.builder
    ok (record {
      salt = salt;
      maker = maker;
      signer = signer;
      token_id = token_id;
      maker_amount = maker_amount;
      taker_amount = taker_amount;
      side = input.side;
      signature_type = input.signature_type;
      timestamp = timestamp;
      metadata = metadata;
      builder = builder;
    })

  unfoldable pub order_answer : V2OrderSignature → OrderResponse
  order_answer sig = record {
    signature = text "0x" ++ hex_encode sig.signature;
    evm_address = text "0x" ++ hex_encode sig.evm_address;
    deposit_wallet_address = text "0x" ++ hex_encode sig.deposit_wallet_address;
    neg_risk = sig.neg_risk;
  }

  -- POST /v1/sign/polymarket-order, in an enclave with the seed
  unfoldable pub sign_order : Bytes → OrderReq → Outcome ApiError OrderResponse
  unfolding parse_order
  sign_order seed req = do
    pubkey ← map_err (λ e. bad_request "invalid_solana_pubkey") (decode_pubkey x req.solana_pubkey)
    derived ← map_err (λ e. internal) (derive_user_evm_account x seed pubkey)
    order ← parse_order req.order
    sig ←
        map_err (λ e. bad_request "polymarket_sign")
          (sign_v2_order x
            (record { priv_key = derived.private_key; order = order; neg_risk = req.neg_risk }))
    ok (order_answer sig)
