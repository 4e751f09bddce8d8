-- ===== src/Hyperliquid/Route.antt =====
-- crates/server/src/routes/sign_hyperliquid_order.rs: the route that signs an order of the exchange.
pub mod Signs
use polylayer_tee.Prelude.{
  ℕ, ◌++◌, Bytes, bytes_eq, text, if◌then◌else◌, Option, none, some, Outcome, ok, ◌>>=◌, ok_or,
  map_err,
}
use polylayer_tee.External.{External}
use polylayer_tee.Api.{ApiError, bad_request, internal}
use polylayer_tee.Solana.{decode_pubkey}
use polylayer_tee.Derive.{derive_user_evm_account}
use polylayer_tee.Hyperliquid.{
  HyperliquidNetwork, mainnet, testnet, HyperliquidSignature, sign_l1_action,
}

pub record HlOrderReq : Type 0 where
  pub solana_pubkey : Bytes
  pub network : Bytes
  pub connection_id : Bytes

-- The fields of the answer.
pub record HlOrderResponse : Type 0 where
  pub r : Bytes
  pub s : Bytes
  pub v : ℕ
  pub signature : Bytes
  pub evm_address : Bytes

-- `match req.network.as_str()`
unfoldable pub network_of : Bytes → Option HyperliquidNetwork
network_of name =
    if bytes_eq name (text "mainnet")
    then some mainnet
    else if bytes_eq name (text "testnet")
    then some testnet
    else none

module _ (x : External) where
  open x use {hex_encode, parse_b256}

  unfoldable pub hl_order_answer : HyperliquidSignature → HlOrderResponse
  hl_order_answer sig = record {
    r = text "0x" ++ hex_encode sig.r;
    s = text "0x" ++ hex_encode sig.s;
    v = sig.v;
    signature = text "0x" ++ hex_encode sig.signature;
    evm_address = text "0x" ++ hex_encode sig.evm_address;
  }

  -- POST /v1/sign/hyperliquid-order, in an enclave with the seed
  unfoldable pub sign_hl_order : Bytes → HlOrderReq → Outcome ApiError HlOrderResponse
  unfolding network_of
  sign_hl_order seed req = do
    pubkey ← map_err (λ e. bad_request "invalid_solana_pubkey") (decode_pubkey x req.solana_pubkey)
    derived ← map_err (λ e. internal) (derive_user_evm_account x seed pubkey)
    network ← ok_or (network_of req.network) (bad_request "invalid_network")
    connection_id ← ok_or (parse_b256 req.connection_id) (bad_request "invalid_connection_id")
    sig ←
        map_err (λ e. bad_request "hl_sign")
          (sign_l1_action x derived.private_key network connection_id)
    ok (hl_order_answer sig)
