-- ===== src/Tests/OrderRuns.antt =====
-- An order signed by the route, and the message of an order.
use polylayer_tee.Prelude.{
  ◌≡◌, ◌⊎◌, refl, true, ◌++◌, Bytes, text, be_bytes, le_bytes, length, ok, arith,
}
use polylayer_tee.Solana.{decode_pubkey}
use polylayer_tee.Derive.{
  derive_user_evm_account, derive_user_private_key, try_attempts, info_of,
  evm_address_from_verifying_key,
}
use polylayer_tee.Polymarket.{
  derive_deposit_wallet_address, init_code_hash_erc1967, create2_address, addr_word,
  polymarket_v2_order_type_string, pack_eth_signature,
}
use polylayer_tee.Polymarket.Order.{
  V2Order, V2OrderSignature, sign_v2_order, check_order, to_u16, blob, message_hash,
  hash_struct_order, exchange_domain_separator,
}
use polylayer_tee.Polymarket.Order.Binding.{SomeClash, message_hash_binds}
use polylayer_tee.Polymarket.Order.Words.{FitsOrder}
use polylayer_tee.Polymarket.Route.{
  OrderReq, order_answer, parse_order, sign_order, parse_u256_field, parse_addr_field,
  parse_b256_field,
}
use polylayer_tee.Polymarket.Route.Ordered.{Ordered, sign_order-Ordered}
use polylayer_tee.Numeric.{digits_value, is_digit}
use polylayer_tee.Tests.Samples.{pad, sample, sample-DigestsAre32}

abbrev seed : Bytes
seed = pad 64 (text "seed")

abbrev user : Bytes
user = pad 32 (text "user")

abbrev wallet : Bytes
wallet = derive_deposit_wallet_address sample (evm_address_from_verifying_key sample user)

abbrev order : V2Order
order = record {
  salt = 7;
  maker = wallet;
  signer = wallet;
  token_id = 12345;
  maker_amount = 500000;
  taker_amount = 1000000;
  side = 0;
  signature_type = 3;
  timestamp = 1700000;
  metadata = pad 32 (text "");
  builder = pad 32 (text "");
}

abbrev request : OrderReq
request = record {
  solana_pubkey = user;
  order = record {
    salt = text "7";
    maker = wallet;
    signer = wallet;
    token_id = text "12345";
    maker_amount = text "500000";
    taker_amount = text "1000000";
    side = 0;
    signature_type = 3;
    timestamp = text "1700000";
    metadata = text "";
    builder = text "";
  };
  neg_risk = true;
}

abbrev result : V2OrderSignature
result = record {
  signature =
      blob sample (pack_eth_signature (user ++ message_hash sample order wallet true) 0)
        (exchange_domain_separator sample true) (hash_struct_order sample order)
        (length polymarket_v2_order_type_string);
  evm_address = evm_address_from_verifying_key sample user;
  deposit_wallet_address = wallet;
  neg_risk = true;
}

order_signs : sign_order sample seed request ≡ ok (order_answer sample result)
unfolding sign_order decode_pubkey derive_user_evm_account derive_user_private_key try_attempts
    info_of parse_order parse_u256_field parse_addr_field parse_b256_field digits_value is_digit
    sign_v2_order check_order to_u16 evm_address_from_verifying_key derive_deposit_wallet_address
    init_code_hash_erc1967 create2_address addr_word be_bytes le_bytes
order_signs = refl

sign_order-Ordered_example : Ordered sample seed request (order_answer sample result)
sign_order-Ordered_example =
    sign_order-Ordered sample seed request (order_answer sample result) order_signs

wallet_len : length wallet ≡ 20
unfolding derive_deposit_wallet_address create2_address be_bytes
wallet_len = refl

order-FitsOrder : FitsOrder order
order-FitsOrder = record {
  salt_fits = omega arith;
  maker_len = wallet_len;
  signer_len = wallet_len;
  token_fits = omega arith;
  maker_amount_fits = omega arith;
  taker_amount_fits = omega arith;
  timestamp_fits = omega arith;
  metadata_len = refl;
}

message_hash_binds_example :
    ((order ≡ order) × (wallet ≡ wallet) × (◌≡◌ true true))
    ⊎ SomeClash sample order order wallet wallet true true
message_hash_binds_example =
    message_hash_binds sample sample-DigestsAre32 order order wallet wallet true true
      order-FitsOrder order-FitsOrder wallet_len wallet_len refl
