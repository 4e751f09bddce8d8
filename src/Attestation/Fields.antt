-- ===== src/Attestation/Fields.antt =====
-- The fields of a message are read back, one reader after the other.
use polylayer_tee.Prelude.{
  ℕ, ◌+◌, ◌^◌, ◌<◌, ◌≡◌, refl, true, [], ◌++◌, Bytes, le_bytes, le_value-le_bytes, length-le_bytes,
  length, drop, take-append_left, drop-append_left, length-append, ltb, arith,
}
use polylayer_tee.Attestation.{
  natural, AttestationCommon, HistoricalLiquidationPayload, ResolutionPayload, PriceTwapPayload,
}
use polylayer_tee.Attestation.Reads.{
  parse, read_typed, read_common, read_liquidation, read_resolution, read_price_twap, read_u64,
  FitsCommon, FitsLiquidation, FitsResolution, FitsPriceTwap,
}
use polylayer_tee.Attestation.Layout.{header_fields}

read_u64-le_bytes : (n : ℕ) (rest : Bytes) → n < 2 ^ 64 → read_u64 (le_bytes 8 n ++ rest) ≡ n
read_u64-le_bytes n rest h =
    rw (take-append_left (le_bytes 8 n) rest 8 (length-le_bytes 8 n)) (le_value-le_bytes 8 n h)

drop-le_bytes : (w n : ℕ) (rest : Bytes) → drop w (le_bytes w n ++ rest) ≡ rest
drop-le_bytes w n rest = drop-append_left (le_bytes w n) rest w (length-le_bytes w n)

pub read_common_fields :
    (c : AttestationCommon) (rest : Bytes)
    → FitsCommon c
    → let body = c.market_id ++ (le_bytes 8 c.signed_unix_ts ++ (le_bytes 8 c.nonce ++ rest)) in
      (read_common body ≡ c) × (drop 8 (drop 8 (drop 32 body)) ≡ rest)
read_common_fields c rest f =
    let tail = le_bytes 8 c.signed_unix_ts ++ (le_bytes 8 c.nonce ++ rest) in
    rw
      (
        take-append_left c.market_id tail 32 f.market_id_len,
        drop-append_left c.market_id tail 32 f.market_id_len,
        drop-le_bytes 8 c.signed_unix_ts (le_bytes 8 c.nonce ++ rest),
        drop-le_bytes 8 c.nonce rest,
        read_u64-le_bytes c.signed_unix_ts (le_bytes 8 c.nonce ++ rest) f.ts_fits,
        read_u64-le_bytes c.nonce rest f.nonce_fits,
      )
      (refl, refl)

pub read_liquidation_fields :
    (p : HistoricalLiquidationPayload) (n : ℕ)
    → FitsLiquidation p
    → p.breach_unix_ts ≡ natural n
    → read_liquidation (p.pmlc_pubkey ++ (le_bytes 8 p.breach_mark_fp ++ (le_bytes 8 n ++ []))) ≡ p
read_liquidation_fields p n f e =
    let tail = le_bytes 8 p.breach_mark_fp ++ (le_bytes 8 n ++ []) in
    let small : ltb n (2 ^ 63) ≡ true = ground (arith, f.breach_fits n e) in
    rw
      (
        take-append_left p.pmlc_pubkey tail 32 f.pmlc_len,
        drop-append_left p.pmlc_pubkey tail 32 f.pmlc_len,
        drop-le_bytes 8 p.breach_mark_fp (le_bytes 8 n ++ []),
        read_u64-le_bytes p.breach_mark_fp (le_bytes 8 n ++ []) f.mark_fits,
        read_u64-le_bytes n [] (omega (arith, f.breach_fits n e)),
        small,
      )
      (rw (← e) refl)

pub read_resolution_fields :
    (p : ResolutionPayload) (rest : Bytes)
    → FitsResolution p
    → read_resolution (le_bytes 2 p.final_outcome_bps ++ (le_bytes 8 p.resolved_at_ts ++ rest)) ≡ p
read_resolution_fields p rest f =
    let tail = le_bytes 8 p.resolved_at_ts ++ rest in
    rw
      (
        take-append_left (le_bytes 2 p.final_outcome_bps) tail 2
            (length-le_bytes 2 p.final_outcome_bps),
        le_value-le_bytes 2 p.final_outcome_bps f.bps_fits,
        drop-le_bytes 2 p.final_outcome_bps tail,
        read_u64-le_bytes p.resolved_at_ts rest f.resolved_fits,
      )
      refl

pub read_price_twap_fields :
    (p : PriceTwapPayload) (rest : Bytes)
    → FitsPriceTwap p
    → read_price_twap (
        le_bytes 8 p.price_fp
        ++ (le_bytes 8 p.twap_window_slots
            ++ (le_bytes 8 p.observation_start_ts ++ (le_bytes 8 p.observation_end_ts ++ rest))))
      ≡ p
read_price_twap_fields p rest f =
    let tail3 = le_bytes 8 p.observation_end_ts ++ rest in
    let tail2 = le_bytes 8 p.observation_start_ts ++ tail3 in
    let tail1 = le_bytes 8 p.twap_window_slots ++ tail2 in
    rw
      (
        drop-le_bytes 8 p.price_fp tail1,
        drop-le_bytes 8 p.twap_window_slots tail2,
        drop-le_bytes 8 p.observation_start_ts tail3,
        read_u64-le_bytes p.price_fp tail1 f.price_fits,
        read_u64-le_bytes p.twap_window_slots tail2 f.slots_fit,
        read_u64-le_bytes p.observation_start_ts tail3 f.start_fits,
        read_u64-le_bytes p.observation_end_ts rest f.end_fits,
      )
      refl

pub length_u64 : (n : ℕ) (rest : Bytes) → length (le_bytes 8 n ++ rest) ≡ 8 + length rest
length_u64 n rest = omega (arith, length-append (le_bytes 8 n) rest, length-le_bytes 8 n)

-- A message of the right length is read by its type.
pub parse-header_fields :
    (t : ℕ) (c : AttestationCommon) (rest : Bytes)
    → FitsCommon c
    → length rest ≡ 48
    → (parse (header_fields t c rest)
        ≡ read_typed t
            (c.market_id ++ (le_bytes 8 c.signed_unix_ts ++ (le_bytes 8 c.nonce ++ rest))))
      × (length (header_fields t c rest) ≡ 104)
unfolding parse
parse-header_fields t c rest f h =
    let body = c.market_id ++ (le_bytes 8 c.signed_unix_ts ++ (le_bytes 8 c.nonce ++ rest)) in
    let whole : length body ≡ 96 = omega (
      arith,
      length-append c.market_id (le_bytes 8 c.signed_unix_ts ++ (le_bytes 8 c.nonce ++ rest)),
      length_u64 c.signed_unix_ts (le_bytes 8 c.nonce ++ rest),
      length_u64 c.nonce rest,
      f.market_id_len,
      h,
    ) in
    (rw whole refl, omega (arith, whole))
