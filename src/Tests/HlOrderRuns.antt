-- ===== src/Tests/HlOrderRuns.antt =====
-- An order of the exchange signed by the route, and the digests of two actions.
use polylayer_tee.Prelude.{◌≡◌, ◌⊎◌, refl, ◌++◌, ◌∷◌, [], Bytes, text, be_bytes, le_bytes, ok}
use polylayer_tee.Solana.{decode_pubkey}
use polylayer_tee.Derive.{
  derive_user_evm_account, derive_user_private_key, try_attempts, info_of,
  evm_address_from_verifying_key,
}
use polylayer_tee.Polymarket.{eip712_digest, eip712_domain_type_hash}
use polylayer_tee.Hyperliquid.{testnet, l1_digest, l1_domain_separator, sign_digest, sign_l1_action}
use polylayer_tee.Hyperliquid.Domains.{l1, ActionClash, action_digest_binds}
use polylayer_tee.Hyperliquid.Route.{
  HlOrderReq, HlOrderResponse, network_of, hl_order_answer, sign_hl_order,
}
use polylayer_tee.Hyperliquid.Route.Signs.{HlSigned, sign_hl_order_iff}
use polylayer_tee.Tests.Samples.{pad, sample, sample-DigestsAre32}

abbrev seed : Bytes
seed = pad 64 (text "seed")

abbrev user_key : Bytes
user_key = pad 32 (text "user")

abbrev connection_id : Bytes
connection_id = pad 32 (text "connection")

abbrev request : HlOrderReq
request = record {
  solana_pubkey = user_key;
  network = text "testnet";
  connection_id = text "connection";
}

abbrev response : HlOrderResponse
response = hl_order_answer sample (record {
  signature = user_key ++ l1_digest sample testnet connection_id ++ 27 ∷ [];
  evm_address = evm_address_from_verifying_key sample user_key;
  r = user_key;
  s = l1_digest sample testnet connection_id;
  v = 27;
})

hl_order_signs : sign_hl_order sample seed request ≡ ok response
unfolding sign_hl_order decode_pubkey derive_user_evm_account derive_user_private_key try_attempts
    info_of network_of sign_l1_action sign_digest l1_digest eip712_digest
    evm_address_from_verifying_key be_bytes le_bytes hl_order_answer l1_domain_separator
    eip712_domain_type_hash
hl_order_signs = refl

sign_hl_order_iff_example : HlSigned sample seed request response
sign_hl_order_iff_example = (sign_hl_order_iff sample seed request response).0 hl_order_signs

action_digest_binds_example :
    (l1 testnet connection_id ≡ l1 testnet connection_id)
    ⊎ ActionClash sample (l1 testnet connection_id) (l1 testnet connection_id)
action_digest_binds_example =
    action_digest_binds sample sample-DigestsAre32 (l1 testnet connection_id)
      (l1 testnet connection_id) refl refl refl
