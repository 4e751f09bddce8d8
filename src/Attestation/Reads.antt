-- ===== src/Attestation/Reads.antt =====
-- The message format read back, as the comment at the top of attestation.rs gives it: magic, type,
-- padding, market, time, nonce and 48 bytes of payload.
use polylayer_tee.Prelude.{
  ℕ, ◌-◌, ◌^◌, ◌<◌, ◌≡◌, ◌&&◌, [], ◌∷◌, Bytes, bytes_eq, le_value, length, take, drop, ltb, ◌==◌,
  if◌then◌else◌, Option, none, some, Outcome, ok,
}
use polylayer_tee.Attestation.{
  Signed64, natural, negative, AttestationError, AttestationCommon, HistoricalLiquidationPayload,
  ResolutionPayload, PriceTwapPayload, attestation_magic, build_historical_liquidation,
  build_resolution, build_price_twap,
}

-- What an attestation says.
pub data Attestation : Type 0 where
  liquidation : AttestationCommon → HistoricalLiquidationPayload → Attestation
  resolution : AttestationCommon → ResolutionPayload → Attestation
  price_twap : AttestationCommon → PriceTwapPayload → Attestation

unfoldable pub build : Attestation → Outcome AttestationError Bytes
build (liquidation c p) = build_historical_liquidation c p
build (resolution c p) = ok (build_resolution c p)
build (price_twap c p) = build_price_twap c p

abbrev pub read_u64 : Bytes → ℕ
read_u64 bs = le_value (take 8 bs)

abbrev pub read_i64 : Bytes → Signed64
read_i64 bs = let n = read_u64 bs in if ltb n (2 ^ 63) then natural n else negative (2 ^ 64 - 1 - n)

abbrev pub read_common : Bytes → AttestationCommon
read_common body = record {
  market_id = take 32 body;
  signed_unix_ts = read_u64 (drop 32 body);
  nonce = read_u64 (drop 8 (drop 32 body));
}

abbrev pub read_liquidation : Bytes → HistoricalLiquidationPayload
read_liquidation bs = record {
  pmlc_pubkey = take 32 bs;
  breach_mark_fp = read_u64 (drop 32 bs);
  breach_unix_ts = read_i64 (drop 8 (drop 32 bs));
}

abbrev pub read_resolution : Bytes → ResolutionPayload
read_resolution bs = record {
  final_outcome_bps = le_value (take 2 bs);
  resolved_at_ts = read_u64 (drop 2 bs);
}

abbrev pub read_price_twap : Bytes → PriceTwapPayload
read_price_twap bs = record {
  price_fp = read_u64 bs;
  twap_window_slots = read_u64 (drop 8 bs);
  observation_start_ts = read_u64 (drop 8 (drop 8 bs));
  observation_end_ts = read_u64 (drop 8 (drop 8 (drop 8 bs)));
}

abbrev pub read_typed : ℕ → Bytes → Option Attestation
read_typed t body =
    let payload = drop 8 (drop 8 (drop 32 body)) in
    if t == 3
    then some (liquidation (read_common body) (read_liquidation payload))
    else if t == 2
    then some (resolution (read_common body) (read_resolution payload))
    else if t == 1
    then some (price_twap (read_common body) (read_price_twap payload))
    else none

unfoldable pub parse : Bytes → Option Attestation
parse (a ∷ b ∷ c ∷ d ∷ t ∷ p ∷ q ∷ r ∷ body) =
    if bytes_eq (a ∷ b ∷ c ∷ d ∷ []) attestation_magic
      && bytes_eq (p ∷ q ∷ r ∷ []) (0 ∷ 0 ∷ 0 ∷ [])
      && (length body == 96)
    then read_typed t body
    else none
parse _ = none

-- The widths of the fields, which the types of the source give.
pub record FitsCommon (c : AttestationCommon) : Type 0 where
  pub market_id_len : length c.market_id ≡ 32
  pub ts_fits : c.signed_unix_ts < 2 ^ 64
  pub nonce_fits : c.nonce < 2 ^ 64

pub record FitsLiquidation (p : HistoricalLiquidationPayload) : Type 0 where
  pub pmlc_len : length p.pmlc_pubkey ≡ 32
  pub mark_fits : p.breach_mark_fp < 2 ^ 64
  pub breach_fits : (n : ℕ) → p.breach_unix_ts ≡ natural n → n < 2 ^ 63

pub record FitsResolution (p : ResolutionPayload) : Type 0 where
  pub bps_fits : p.final_outcome_bps < 2 ^ 16
  pub resolved_fits : p.resolved_at_ts < 2 ^ 64

pub record FitsPriceTwap (p : PriceTwapPayload) : Type 0 where
  pub price_fits : p.price_fp < 2 ^ 64
  pub slots_fit : p.twap_window_slots < 2 ^ 64
  pub start_fits : p.observation_start_ts < 2 ^ 64
  pub end_fits : p.observation_end_ts < 2 ^ 64

abbrev pub Fits : Attestation → Type 0
Fits (liquidation c p) = FitsCommon c × FitsLiquidation p
Fits (resolution c p) = FitsCommon c × FitsResolution p
Fits (price_twap c p) = FitsCommon c × FitsPriceTwap p
