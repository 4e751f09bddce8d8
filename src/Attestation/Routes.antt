-- ===== src/Attestation/Routes.antt =====
-- crates/server/src/routes/sign_solana_liquidation.rs, sign_solana_price_twap.rs and
-- sign_solana_resolution.rs: the three routes that sign an attestation.
use polylayer_tee.Prelude.{
  ℕ, ◌==◌, ◌++◌, Bytes, text, length, Outcome, ok, ◌>>=◌, ◌>>◌, guard, ok_or, map_err,
}
use polylayer_tee.External.{External}
use polylayer_tee.Api.{ApiError, bad_request}
use polylayer_tee.Solana.{strip_0x}
use polylayer_tee.Attestation.{
  Signed64, AttestationCommon, HistoricalLiquidationPayload, ResolutionPayload, PriceTwapPayload,
  build_historical_liquidation, build_resolution, build_price_twap,
}
use polylayer_tee.Attestation.Signer.{SolanaAttestorKeypair, sign, public_key_bs58}

pub record LiquidationReq : Type 0 where
  pub market_id : Bytes
  pub signed_unix_ts : ℕ
  pub nonce : ℕ
  pub pmlc_pubkey : Bytes
  pub breach_mark_fp : ℕ
  pub breach_unix_ts : Signed64

pub record ResolutionReq : Type 0 where
  pub market_id : Bytes
  pub signed_unix_ts : ℕ
  pub nonce : ℕ
  pub final_outcome_bps : ℕ
  pub resolved_at_ts : ℕ

pub record PriceTwapReq : Type 0 where
  pub market_id : Bytes
  pub signed_unix_ts : ℕ
  pub nonce : ℕ
  pub price_fp : ℕ
  pub twap_window_slots : ℕ
  pub observation_start_ts : ℕ
  pub observation_end_ts : ℕ

-- The fields of the answer.
pub record SignedAttestation : Type 0 where
  pub attestation_hex : Bytes
  pub signature_hex : Bytes
  pub signature_bs58 : Bytes
  pub attestor_pubkey_bs58 : Bytes

module _ (x : External) where
  open x use {hex_decode, hex_encode, bs58_encode}

  unfoldable pub parse_market_id : Bytes → Outcome ApiError Bytes
  parse_market_id s = do
    bytes ← ok_or (hex_decode (strip_0x s)) (bad_request "invalid_market_id")
    guard (length bytes == 32) (bad_request "invalid_market_id")
    ok bytes

  -- The end that the three handlers share.
  unfoldable pub signed_answer : SolanaAttestorKeypair → Bytes → SignedAttestation
  signed_answer attestor bytes =
      let sig = sign x attestor bytes in
      record {
        attestation_hex = text "0x" ++ hex_encode bytes;
        signature_hex = text "0x" ++ hex_encode sig;
        signature_bs58 = bs58_encode sig;
        attestor_pubkey_bs58 = public_key_bs58 x attestor;
      }

  module _ (attestor : SolanaAttestorKeypair) where
    -- POST /v1/sign/solana-liquidation
    unfoldable pub sign_liquidation : LiquidationReq → Outcome ApiError SignedAttestation
    unfolding parse_market_id
    sign_liquidation req = do
      market_id ← parse_market_id req.market_id
      pmlc_pubkey ← parse_market_id req.pmlc_pubkey
      let common : AttestationCommon = record {
        market_id = market_id;
        signed_unix_ts = req.signed_unix_ts;
        nonce = req.nonce;
      }
      let payload : HistoricalLiquidationPayload = record {
        pmlc_pubkey = pmlc_pubkey;
        breach_mark_fp = req.breach_mark_fp;
        breach_unix_ts = req.breach_unix_ts;
      }
      bytes ← map_err (λ e. bad_request "attestation") (build_historical_liquidation common payload)
      ok (signed_answer attestor bytes)

    -- POST /v1/sign/solana-resolution
    unfoldable pub sign_resolution : ResolutionReq → Outcome ApiError SignedAttestation
    sign_resolution req = do
      market_id ← parse_market_id req.market_id
      let common : AttestationCommon = record {
        market_id = market_id;
        signed_unix_ts = req.signed_unix_ts;
        nonce = req.nonce;
      }
      let payload : ResolutionPayload = record {
        final_outcome_bps = req.final_outcome_bps;
        resolved_at_ts = req.resolved_at_ts;
      }
      ok (signed_answer attestor (build_resolution common payload))

    -- POST /v1/sign/solana-price-twap
    unfoldable pub sign_price_twap : PriceTwapReq → Outcome ApiError SignedAttestation
    sign_price_twap req = do
      market_id ← parse_market_id req.market_id
      let common : AttestationCommon = record {
        market_id = market_id;
        signed_unix_ts = req.signed_unix_ts;
        nonce = req.nonce;
      }
      let payload : PriceTwapPayload = record {
        price_fp = req.price_fp;
        twap_window_slots = req.twap_window_slots;
        observation_start_ts = req.observation_start_ts;
        observation_end_ts = req.observation_end_ts;
      }
      bytes ← map_err (λ e. bad_request "attestation") (build_price_twap common payload)
      ok (signed_answer attestor bytes)
