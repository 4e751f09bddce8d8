-- ===== src/Tests/BatchRuns.antt =====
-- The approvals of a new wallet, signed by the route.
use polylayer_tee.Prelude.{
  ◌≡◌, ◌↔◌, refl, ◌++◌, ◌∷◌, [], List, Bytes, text, some, be_bytes, le_bytes, ok,
}
use polylayer_tee.Solana.{decode_pubkey}
use polylayer_tee.Derive.{
  derive_user_evm_account, derive_user_private_key, try_attempts, info_of,
  evm_address_from_verifying_key,
}
use polylayer_tee.Polymarket.{
  derive_deposit_wallet_address, init_code_hash_erc1967, create2_address, addr_word,
  pack_eth_signature,
}
use polylayer_tee.Polymarket.Route.{parse_u256_field}
use polylayer_tee.Polymarket.Batch.{
  DepositWalletCall, DepositWalletBatchSignature, bootstrap_approval_calls, approvals,
  encode_approve, encode_set_approval_for_all, batch_digest, sign_deposit_wallet_batch,
}
use polylayer_tee.Polymarket.Batch.Route.{
  CallInput, BatchReq, BatchResponse, trim_start_0x, is_bootstrap, call_eq, calls_eq, parse_call,
  parse_supplied_calls, check_supplied, batch_answer, sign_batch,
}
use polylayer_tee.Polymarket.Batch.Signs.{Bootstrapped, sign_batch_iff}
use polylayer_tee.Numeric.{digits_value, is_digit}
use polylayer_tee.Tests.Samples.{pad, sample}

abbrev seed : Bytes
seed = pad 64 (text "seed")

abbrev user : Bytes
user = pad 32 (text "user")

abbrev wallet : Bytes
wallet = derive_deposit_wallet_address sample (evm_address_from_verifying_key sample user)

-- The texts that the sample reads as a call.
abbrev as_sent : List DepositWalletCall → List CallInput
as_sent [] = []
as_sent (c ∷ cs) =
    record { target = c.target; value = text "0"; data_text = text "0x" ++ c.data_bytes }
    ∷ as_sent cs

-- The request repeats the calls.
abbrev request : BatchReq
request = record {
  solana_pubkey = some user;
  purpose = some (text "bootstrap_approvals");
  deposit_wallet = wallet;
  nonce = text "3";
  deadline = text "1700000";
  calls = as_sent bootstrap_approval_calls;
}

abbrev result : DepositWalletBatchSignature
result = record {
  signature =
      pack_eth_signature (user ++ batch_digest sample wallet 3 1700000 bootstrap_approval_calls) 0;
  evm_address = evm_address_from_verifying_key sample user;
  wallet_address = wallet;
}

abbrev response : BatchResponse
response = batch_answer sample request wallet bootstrap_approval_calls result

batch_signs : sign_batch sample seed request ≡ ok response
unfolding sign_batch decode_pubkey derive_user_evm_account derive_user_private_key try_attempts
    info_of is_bootstrap check_supplied parse_supplied_calls parse_call trim_start_0x calls_eq
    call_eq encode_approve encode_set_approval_for_all parse_u256_field digits_value is_digit
    sign_deposit_wallet_batch bootstrap_approval_calls approvals evm_address_from_verifying_key
    derive_deposit_wallet_address init_code_hash_erc1967 create2_address addr_word be_bytes le_bytes
batch_signs = refl

sign_batch_iff_example :
    (sign_batch sample seed request ≡ ok response) ↔ Bootstrapped sample seed request response
sign_batch_iff_example = sign_batch_iff sample seed request response
