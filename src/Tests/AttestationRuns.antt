-- ===== src/Tests/AttestationRuns.antt =====
-- Attestations assembled, read back and signed by the routes.
use polylayer_tee.Prelude.{◌≡◌, refl, Bytes, text, some, Outcome, ok, length, le_bytes, arith}
use polylayer_tee.Solana.{strip_0x}
use polylayer_tee.Tests.Samples.{pad, sample}
use polylayer_tee.Attestation.{
  natural, AttestationCommon, HistoricalLiquidationPayload, put, build_header, signed_le_bytes,
  is_negative, build_historical_liquidation,
}
use polylayer_tee.Attestation.Reads.{Attestation, liquidation, build, parse, Fits}
use polylayer_tee.Attestation.RoundTrip.{IsSound, parse-build, build_iff}
use polylayer_tee.Attestation.Signer.{SolanaAttestorKeypair}
use polylayer_tee.Attestation.Routes.{
  LiquidationReq, signed_answer, sign_liquidation, parse_market_id,
}
use polylayer_tee.Attestation.Answers.{for_liquidation, answer, Attested, answer-Attested}

abbrev common : AttestationCommon
common = record { market_id = pad 32 (text "market"); signed_unix_ts = 1700000000; nonce = 7 }

abbrev breach : HistoricalLiquidationPayload
breach = record {
  pmlc_pubkey = pad 32 (text "pmlc");
  breach_mark_fp = 1000;
  breach_unix_ts = natural 1600000000;
}

abbrev statement : Attestation
statement = liquidation common breach

statement-Fits : Fits statement
statement-Fits = (
  record { market_id_len = refl; ts_fits = omega arith; nonce_fits = omega arith },
  record { pmlc_len = refl; mark_fits = omega arith; breach_fits = λ n e. ground arith },
)

abbrev unwrap : {E : Type 0} → Outcome E Bytes → Bytes
unwrap (ok bytes) = bytes
unwrap _ = text ""

message : Bytes
unfolding build build_historical_liquidation build_header put signed_le_bytes is_negative
message = unwrap (build statement)

message_builds : build statement ≡ ok message
unfolding message
message_builds = refl

message_len : length message ≡ 104
unfolding message build build_historical_liquidation build_header put signed_le_bytes is_negative
    le_bytes
message_len = refl

parse-build_example : parse message ≡ some statement
parse-build_example = parse-build statement message statement-Fits message_builds

build_iff_example : IsSound statement
build_iff_example = (build_iff statement statement-Fits).0 (message, message_builds, message_len)

abbrev attestor : SolanaAttestorKeypair
attestor = record { private_key = pad 32 (text "attestor"); public_key = pad 32 (text "attestor") }

abbrev request : LiquidationReq
request = record {
  market_id = common.market_id;
  signed_unix_ts = 1700000000;
  nonce = 7;
  pmlc_pubkey = breach.pmlc_pubkey;
  breach_mark_fp = 1000;
  breach_unix_ts = natural 1600000000;
}

request_signs :
    answer sample attestor (for_liquidation request) ≡ ok (signed_answer sample attestor message)
unfolding message answer sign_liquidation parse_market_id strip_0x
request_signs = refl

answer-Attested_example :
    Attested sample attestor (for_liquidation request) (signed_answer sample attestor message)
answer-Attested_example =
    answer-Attested sample attestor (for_liquidation request)
      (signed_answer sample attestor message)
      (record { ts_fits = omega arith; nonce_fits = omega arith }, omega arith, λ n e. ground arith)
      request_signs
