-- ===== src/Tests/PermitRuns.antt =====
-- A permit signed by the route.
use polylayer_tee.Prelude.{◌≡◌, refl, ◌++◌, ◌∷◌, [], Bytes, text, be_bytes, le_bytes, ok}
use polylayer_tee.Solana.{decode_pubkey}
use polylayer_tee.Derive.{
  derive_user_evm_account, derive_user_private_key, try_attempts, info_of,
  evm_address_from_verifying_key,
}
use polylayer_tee.Permits.{hl_bridge2_arbitrum_address, permit_digest, sign_usdc_permit_arbitrum}
use polylayer_tee.Permits.Route.{PermitReq, PermitResponse, permit_answer, sign_bridge_permit}
use polylayer_tee.Permits.Route.Signs.{Permitted, sign_bridge_permit_iff}
use polylayer_tee.Numeric.{digits_value, is_digit}
use polylayer_tee.Tests.Samples.{pad, sample}

abbrev seed : Bytes
seed = pad 64 (text "seed")

abbrev user : Bytes
user = pad 32 (text "user")

abbrev owner : Bytes
owner = evm_address_from_verifying_key sample user

abbrev digest : Bytes
digest = permit_digest sample owner hl_bridge2_arbitrum_address 5000000 2 1700000

abbrev request : PermitReq
request = record {
  solana_pubkey = user;
  value = text "5000000";
  nonce = text "2";
  deadline = text "1700000";
}

abbrev response : PermitResponse
response =
    permit_answer sample
      (record { r = user; s = digest; v = 27; signature = user ++ (digest ++ 27 ∷ []) }) owner

permit_signs : sign_bridge_permit sample seed request ≡ ok response
unfolding sign_bridge_permit decode_pubkey derive_user_evm_account derive_user_private_key
    try_attempts info_of digits_value is_digit sign_usdc_permit_arbitrum permit_digest permit_answer
    evm_address_from_verifying_key be_bytes le_bytes
permit_signs = refl

sign_bridge_permit_iff_example : Permitted sample seed request response
sign_bridge_permit_iff_example =
    (sign_bridge_permit_iff sample seed request response).0 permit_signs
