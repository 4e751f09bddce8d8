-- ===== src/Tests/RouteRuns.antt =====
-- A signed token transfer, a burn and an amount through sign_evm_tx.rs, and a payload of evm/tx.rs.
use polylayer_tee.Prelude.{
  ◌≡◌, refl, true, [], ◌++◌, Bytes, be_bytes, be_value, text, some, Outcome, ok, arith,
}
use polylayer_tee.Json.{Value, string, object, end, field, get, find, as_str, as_u64}
use polylayer_tee.Api.{ApiError, AppState}
use polylayer_tee.Tests.Samples.{pad, sample}
use polylayer_tee.Numeric.{digits_value, parse_uint}
use polylayer_tee.Canonical.{
  canonical_bytes, write_canonical, canonicalize, number_text, entries_text, insert, key_le, sort,
}
use polylayer_tee.Solana.{
  decode_pubkey, decode_signature, looks_hex, strip_0x, all, is_ascii_hexdigit,
  decode_bs58_signature, verify_signature,
}
use polylayer_tee.Intents.{verify_intent_signature, expected_pubkey, non_empty, check_expiry}
use polylayer_tee.Derive.{derive_user_evm_account, derive_user_private_key, try_attempts, info_of}
use polylayer_tee.Evm.Abi.{require_selector, selector_of, word_address, word_from, word_u256}
use polylayer_tee.Evm.Flows.{validate_erc20_transfer, erc20_transfer}
use polylayer_tee.Evm.Cctp.{
  token_messenger_v2_address, decode_deposit_for_burn, deposit_for_burn_v2_selector,
  validate_against_intent, derive_solana_usdc_ata,
}
use polylayer_tee.Evm.Tx.{Eip1559Tx, sign_eip1559}
use polylayer_tee.Evm.Tx.Injective.{InRange, unsigned_calls_inj}
use polylayer_tee.EvmRoute.{
  Req, Response, handler, parse_tx, check_action, is_withdraw, intent_str, intent_address,
  intent_u256_decimal, cctp_destination, cctp_amount_max, decimal_usdc_to_base_units, split_dot,
  validate_erc20_transfer_action, validate_cctp_withdraw,
}
use polylayer_tee.EvmRoute.Checks.{Allows, check_action_iff}
use polylayer_tee.EvmRoute.Signs.{Authorized, handler-Authorized}
use polylayer_tee.EvmRoute.Amounts.{ParsesDigits, decimal_usdc_to_base_units-value}

abbrev signer : Bytes
signer = pad 32 (text "signer")

abbrev transfer : Value
transfer = object (
    field (text "action") (string (text "erc20_transfer")) (
      field (text "amount") (string (text "9")) (
        field (text "recipient") (string (text "friend")) (
          field (text "solana_pubkey") (string signer)
            (field (text "token") (string (text "token")) end)))))

abbrev request : Req
request = record {
  intent = transfer;
  intent_sig = signer ++ text "{\"action\":\"erc20_transfer\",\"amou";
  unsigned_tx = record {
    chain_id = 137;
    to = text "token";
    data_text = text "tran" ++ be_bytes 12 0 ++ pad 20 (text "friend") ++ be_bytes 32 9;
    value = text "0";
    nonce = text "3";
    gas_limit = text "90000";
    max_fee_per_gas = text "30";
    max_priority_fee_per_gas = text "2";
  };
}

abbrev app : AppState
app = record { seed = pad 64 (text "seed"); has_sessions = true }

abbrev response_of : Outcome ApiError Response → Response
response_of (ok r) = r
response_of _ = record { signed_tx_hex = []; tx_hash = []; evm_address = [] }

abbrev response : Response
response = response_of (handler sample app (some 600) request)

transfer_signs : handler sample app (some 600) request ≡ ok response
unfolding handler verify_intent_signature expected_pubkey non_empty get find as_str as_u64
    check_expiry decode_pubkey decode_signature looks_hex strip_0x all is_ascii_hexdigit
    decode_bs58_signature canonical_bytes write_canonical canonicalize number_text entries_text
    insert key_le sort verify_signature derive_user_evm_account derive_user_private_key try_attempts
    info_of parse_tx parse_uint digits_value be_bytes be_value check_action is_withdraw
    validate_erc20_transfer_action intent_address intent_str intent_u256_decimal
    validate_erc20_transfer erc20_transfer require_selector selector_of word_address word_from
    word_u256 sign_eip1559
transfer_signs = refl

handler-Authorized_example : Authorized sample app (some 600) request response
handler-Authorized_example =
    handler-Authorized sample app (some 600) request response transfer_signs

-- A burn of 5 units, of at most 7.5 USDC.
abbrev withdraw : Value
withdraw = object (
    field (text "action") (string (text "withdraw")) (
      field (text "amount") (string (text "7.5"))
        (field (text "solana_destination") (string (text "owner")) end)))

abbrev burn : Eip1559Tx
burn = record {
  chain_id = 42161;
  nonce = 1;
  max_priority_fee_per_gas = 2;
  max_fee_per_gas = 30;
  gas_limit = 90000;
  to = token_messenger_v2_address;
  value = 0;
  data_bytes =
      text "depo"
      ++ be_bytes 32 5
      ++ be_bytes 32 5
      ++ pad 32 (text "ATokenGPvbdGVxr1b2hvZbsiqW5xWH25efTNsLJA8knL")
      ++ be_bytes 32 0xaf88d065e77c8cc2239327c5edb3a432268e5831
      ++ be_bytes 32 0
      ++ be_bytes 32 1
      ++ be_bytes 32 2000;
  access_list = [];
}

withdraw_passes : check_action sample (text "withdraw") withdraw burn ≡ ok tt
unfolding check_action is_withdraw validate_cctp_withdraw decode_deposit_for_burn
    deposit_for_burn_v2_selector selector_of cctp_destination cctp_amount_max
    decimal_usdc_to_base_units split_dot get find as_str digits_value validate_against_intent
    derive_solana_usdc_ata be_bytes be_value
withdraw_passes = refl

check_action_iff_example : Allows sample (text "withdraw") withdraw burn
check_action_iff_example =
    (check_action_iff sample (text "withdraw") withdraw burn).0 withdraw_passes

sample-ParsesDigits : ParsesDigits sample
sample-ParsesDigits ds v h small = h

ten : digits_value 0 (text "10") ≡ some 10
unfolding digits_value
ten = refl

five : digits_value 0 (text "5") ≡ some 5
unfolding digits_value
five = refl

decimal_usdc_to_base_units-value_example :
    decimal_usdc_to_base_units sample (text "10.5") ≡ ok 10500000
decimal_usdc_to_base_units-value_example =
    decimal_usdc_to_base_units-value sample sample-ParsesDigits (text "10") (text "5") 10 5 ten five
      (omega arith) (omega arith)

burn-InRange : InRange burn
burn-InRange = record {
  chain_id = omega arith;
  nonce = omega arith;
  max_priority_fee_per_gas = omega arith;
  max_fee_per_gas = omega arith;
  gas_limit = omega arith;
  value = omega arith;
}

unsigned_calls_inj_example : burn ≡ burn
unsigned_calls_inj_example = unsigned_calls_inj burn burn burn-InRange burn-InRange refl
