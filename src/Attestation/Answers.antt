-- ===== src/Attestation/Answers.antt =====
-- What the three attestation routes sign.
use polylayer_tee.Prelude.{
  ok_inj, ℕ, ◌^◌, ◌<◌, ◌≡◌, refl, sym, ap, ◌∙◌, ◌++◌, Bytes, text, length, ◌==◌, ==_iff, Outcome,
  ok, some, >>=-eq-ok, map_err-ok, guard-ok, ok_or-ok,
}
use polylayer_tee.External.{External}
use polylayer_tee.Api.{ApiError, bad_request}
use polylayer_tee.Solana.{strip_0x}
use polylayer_tee.Attestation.{
  natural, build_historical_liquidation, build_resolution, build_price_twap,
}
use polylayer_tee.Attestation.Reads.{
  Attestation, liquidation, resolution, price_twap, build, parse, Fits,
}
use polylayer_tee.Attestation.RoundTrip.{IsSound, build-IsSound, parse-build}
use polylayer_tee.Attestation.Signer.{SolanaAttestorKeypair, sign, public_key_bs58}
use polylayer_tee.Attestation.Routes.{
  LiquidationReq, ResolutionReq, PriceTwapReq, SignedAttestation, parse_market_id, signed_answer,
  sign_liquidation, sign_resolution, sign_price_twap,
}

-- A call of one of the three routes.
pub data Request : Type 0 where
  for_liquidation : LiquidationReq → Request
  for_resolution : ResolutionReq → Request
  for_price_twap : PriceTwapReq → Request

-- The widths of the fields, which their types in the source give.
pub record FitsRequest (ts nonce : ℕ) : Type 0 where
  pub ts_fits : ts < 2 ^ 64
  pub nonce_fits : nonce < 2 ^ 64

abbrev pub IsTyped : Request → Type 0
IsTyped (for_liquidation r) =
    FitsRequest r.signed_unix_ts r.nonce
    × (r.breach_mark_fp < 2 ^ 64)
    × ((n : ℕ) → r.breach_unix_ts ≡ natural n → n < 2 ^ 63)
IsTyped (for_resolution r) =
    FitsRequest r.signed_unix_ts r.nonce
    × (r.final_outcome_bps < 2 ^ 16)
    × (r.resolved_at_ts < 2 ^ 64)
IsTyped (for_price_twap r) =
    FitsRequest r.signed_unix_ts r.nonce
    × (r.price_fp < 2 ^ 64)
    × (r.twap_window_slots < 2 ^ 64)
    × (r.observation_start_ts < 2 ^ 64)
    × (r.observation_end_ts < 2 ^ 64)

module _ (x : External) where
  unfoldable pub answer : SolanaAttestorKeypair → Request → Outcome ApiError SignedAttestation
  answer attestor (for_liquidation r) = sign_liquidation x attestor r
  answer attestor (for_resolution r) = sign_resolution x attestor r
  answer attestor (for_price_twap r) = sign_price_twap x attestor r

  -- The attestation says what the request says, with its identifiers decoded.
  abbrev pub Says : Request → Attestation → Type 0
  Says (for_liquidation r) a =
      (market : Bytes) × (pmlc : Bytes) × (parse_market_id x r.market_id ≡ ok market)
      × (parse_market_id x r.pmlc_pubkey ≡ ok pmlc)
      × (a
          ≡ liquidation
              (record { market_id = market; signed_unix_ts = r.signed_unix_ts; nonce = r.nonce })
              (record {
                pmlc_pubkey = pmlc;
                breach_mark_fp = r.breach_mark_fp;
                breach_unix_ts = r.breach_unix_ts;
              }))
  Says (for_resolution r) a =
      (market : Bytes) × (parse_market_id x r.market_id ≡ ok market)
      × (a
          ≡ resolution
              (record { market_id = market; signed_unix_ts = r.signed_unix_ts; nonce = r.nonce })
              (record {
                final_outcome_bps = r.final_outcome_bps;
                resolved_at_ts = r.resolved_at_ts;
              }))
  Says (for_price_twap r) a =
      (market : Bytes) × (parse_market_id x r.market_id ≡ ok market)
      × (a
          ≡ price_twap
              (record { market_id = market; signed_unix_ts = r.signed_unix_ts; nonce = r.nonce })
              (record {
                price_fp = r.price_fp;
                twap_window_slots = r.twap_window_slots;
                observation_start_ts = r.observation_start_ts;
                observation_end_ts = r.observation_end_ts;
              }))

  pub record Attested (attestor : SolanaAttestorKeypair) (req : Request) (res : SignedAttestation)
      : Type 0 where
    pub attestation : Attestation
    pub says : Says req attestation
    pub sound : IsSound attestation
    pub bytes : Bytes
    pub reads : parse bytes ≡ some attestation
    pub signed : res ≡ record {
      attestation_hex = text "0x" ++ x.hex_encode bytes;
      signature_hex = text "0x" ++ x.hex_encode (x.ed25519_sign attestor.private_key bytes);
      signature_bs58 = x.bs58_encode (x.ed25519_sign attestor.private_key bytes);
      attestor_pubkey_bs58 = x.bs58_encode attestor.public_key;
    }

  length-parse_market_id :
      (s : Bytes) {bytes : Bytes} → parse_market_id x s ≡ ok bytes → length bytes ≡ 32
  unfolding parse_market_id
  length-parse_market_id s h =
      let (raw, e, h1) =
        ok_or-ok (x.hex_decode (strip_0x s)) (bad_request "invalid_market_id") _ h in
      let (len, h2) = guard-ok (length raw == 32) (bad_request "invalid_market_id") _ h1 in
      ap length (ok_inj (sym h2)) ∙ (==_iff (length raw) 32).0 len

  module _ (attestor : SolanaAttestorKeypair) where
    attested :
        (req : Request) (a : Attestation) (bytes : Bytes) {res : SignedAttestation}
        → Says req a
        → Fits a
        → build a ≡ ok bytes
        → ◌≡◌ {A = Outcome ApiError SignedAttestation}
            (ok (signed_answer x attestor bytes))
            (ok res)
        → Attested attestor req res
    unfolding signed_answer sign public_key_bs58
    attested req a bytes says f e h = record {
      attestation = a;
      says = says;
      sound = build-IsSound a bytes e;
      bytes = bytes;
      reads = parse-build a bytes f e;
      signed = res_eq h;
    }
      where
        res_eq :
            {p q : SignedAttestation}
            → ◌≡◌ {A = Outcome ApiError SignedAttestation} (ok p) (ok q)
            → q ≡ p
        res_eq h = cc (h)

    -- For a request whose numbers fit their types, whenever one of the three attestation routes
    -- answers, it shows in hex, behind 0x, bytes that read back, by the message format, as exactly
    -- the attestation of the request (its type, its decoded market and contract identifiers, its
    -- time, nonce and payload), with the Ed25519 signature of these bytes under the attestor's
    -- private key in hex and in base58 and the attestor's public key in base58, and that
    -- attestation is sound: a liquidation is not before the epoch and an observation window does
    -- not end before it starts.
    pub answer-Attested :
        (req : Request) (res : SignedAttestation)
        → IsTyped req
        → answer attestor req ≡ ok res
        → Attested attestor req res
    unfolding answer sign_liquidation sign_resolution sign_price_twap build
    answer-Attested (for_liquidation r) res (f, mark, breach) h =
        let (market, m, h1) = >>=-eq-ok (parse_market_id x r.market_id) _ h in
        let (pmlc, p, h2) = >>=-eq-ok (parse_market_id x r.pmlc_pubkey) _ h1 in
        let (bytes, e, h3) = map_err-ok _ (build_historical_liquidation _ _) _ h2 in
        attested (for_liquidation r) (liquidation _ _) bytes (market, pmlc, m, p, refl)
          (
            record {
              market_id_len = length-parse_market_id r.market_id m;
              ts_fits = f.ts_fits;
              nonce_fits = f.nonce_fits;
            },
            record {
              pmlc_len = length-parse_market_id r.pmlc_pubkey p;
              mark_fits = mark;
              breach_fits = breach;
            },
          )
          e h3
    answer-Attested (for_resolution r) res (f, bps, resolved) h =
        let (market, m, h1) = >>=-eq-ok (parse_market_id x r.market_id) _ h in
        attested (for_resolution r) (resolution _ _) (build_resolution _ _) (market, m, refl)
          (
            record {
              market_id_len = length-parse_market_id r.market_id m;
              ts_fits = f.ts_fits;
              nonce_fits = f.nonce_fits;
            },
            record { bps_fits = bps; resolved_fits = resolved },
          )
          refl h1
    answer-Attested (for_price_twap r) res (f, price, slots, start, stop) h =
        let (market, m, h1) = >>=-eq-ok (parse_market_id x r.market_id) _ h in
        let (bytes, e, h2) = map_err-ok _ (build_price_twap _ _) _ h1 in
        attested (for_price_twap r) (price_twap _ _) bytes (market, m, refl)
          (
            record {
              market_id_len = length-parse_market_id r.market_id m;
              ts_fits = f.ts_fits;
              nonce_fits = f.nonce_fits;
            },
            record { price_fits = price; slots_fit = slots; start_fits = start; end_fits = stop },
          )
          e h2
