-- ===== src/Attestation.antt =====
-- crates/core/src/solana_attestor/attestation.rs: the three attestation messages, assembled in
-- zeroed buffers of fixed size. An array of n bytes is a list of n bytes.

pub mod Reads
pub mod Layout
pub mod Fields
pub mod RoundTrip
pub mod Signer
pub mod Routes
pub mod Answers
use polylayer_tee.Prelude.{
  ℕ, ◌+◌, ◌-◌, ◌^◌, Bool, true, false, [], ◌∷◌, ◌++◌, Bytes, text, le_bytes, ltb, not, length, take,
  drop, replicate, Outcome, ok, ◌>>◌, guard,
}

abbrev pub attestation_len : ℕ
attestation_len = 104

abbrev pub attestation_payload_offset : ℕ
attestation_payload_offset = 56

abbrev pub attestation_magic : Bytes
attestation_magic = text "ATT1"

abbrev pub att_type_price_twap : ℕ
att_type_price_twap = 1

abbrev pub att_type_resolution : ℕ
att_type_resolution = 2

abbrev pub att_type_historical_liquidation : ℕ
att_type_historical_liquidation = 3

-- An i64: `negative n` is -(n + 1).
pub data Signed64 : Type 0 where
  natural : ℕ → Signed64
  negative : ℕ → Signed64

-- The two length errors of the enum are never made.
pub data AttestationError : Type 0 where
  negative_breach_ts : Signed64 → AttestationError
  observation_ordering : ℕ → ℕ → AttestationError

pub record AttestationCommon : Type 0 where
  pub market_id : Bytes
  pub signed_unix_ts : ℕ
  pub nonce : ℕ

pub record HistoricalLiquidationPayload : Type 0 where
  pub pmlc_pubkey : Bytes
  pub breach_mark_fp : ℕ
  pub breach_unix_ts : Signed64

pub record ResolutionPayload : Type 0 where
  pub final_outcome_bps : ℕ
  pub resolved_at_ts : ℕ

pub record PriceTwapPayload : Type 0 where
  pub price_fp : ℕ
  pub twap_window_slots : ℕ
  pub observation_start_ts : ℕ
  pub observation_end_ts : ℕ

-- `buf[at..at + bytes.len()].copy_from_slice(&bytes)`
unfoldable pub put : ℕ → Bytes → Bytes → Bytes
put offset bytes buf = take offset buf ++ (bytes ++ drop (offset + length bytes) buf)

unfoldable pub build_header : ℕ → AttestationCommon → Bytes
unfolding put
build_header att_type common =
    let buf = put 0 attestation_magic (replicate attestation_payload_offset 0) in
    let buf = put 4 (att_type ∷ []) buf in
    let buf = put 8 common.market_id buf in
    let buf = put 40 (le_bytes 8 common.signed_unix_ts) buf in put 48 (le_bytes 8 common.nonce) buf

-- `to_le_bytes` of an i64 in two's complement, and the test `< 0`.
unfoldable pub signed_le_bytes : Signed64 → Bytes
signed_le_bytes (natural n) = le_bytes 8 n
signed_le_bytes (negative n) = le_bytes 8 (2 ^ 64 - 1 - n)

unfoldable pub is_negative : Signed64 → Bool
is_negative (natural n) = false
is_negative (negative n) = true

unfoldable pub build_historical_liquidation :
    AttestationCommon → HistoricalLiquidationPayload → Outcome AttestationError Bytes
unfolding put
build_historical_liquidation common payload = do
  guard (not (is_negative payload.breach_unix_ts)) (negative_breach_ts payload.breach_unix_ts)
  let header = build_header att_type_historical_liquidation common
  let out = put 0 header (replicate attestation_len 0)
  let out = put 56 payload.pmlc_pubkey out
  let out = put 88 (le_bytes 8 payload.breach_mark_fp) out
  ok (put 96 (signed_le_bytes payload.breach_unix_ts) out)

unfoldable pub build_resolution : AttestationCommon → ResolutionPayload → Bytes
unfolding put
build_resolution common payload =
    let header = build_header att_type_resolution common in
    let out = put 0 header (replicate attestation_len 0) in
    let out = put 56 (le_bytes 2 payload.final_outcome_bps) out in
    put 58 (le_bytes 8 payload.resolved_at_ts) out

unfoldable pub build_price_twap :
    AttestationCommon → PriceTwapPayload → Outcome AttestationError Bytes
unfolding put
build_price_twap common payload = do
  guard (not (ltb payload.observation_end_ts payload.observation_start_ts))
      (observation_ordering payload.observation_start_ts payload.observation_end_ts)
  let header = build_header att_type_price_twap common
  let out = put 0 header (replicate attestation_len 0)
  let out = put 56 (le_bytes 8 payload.price_fp) out
  let out = put 64 (le_bytes 8 payload.twap_window_slots) out
  let out = put 72 (le_bytes 8 payload.observation_start_ts) out
  ok (put 80 (le_bytes 8 payload.observation_end_ts) out)
