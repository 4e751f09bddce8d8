-- ===== src/Attestation/Layout.antt =====
-- The assembled buffers written out as their fields in order.
use polylayer_tee.Prelude.{
  ℕ, zero, suc, ◌+◌, ◌-◌, ◌^◌, ◌≤◌, ◌≡◌, refl, ap, sym, ◌∙◌, false, [], ◌∷◌, ◌++◌, Bytes, le_bytes,
  length-le_bytes, length, ltb, replicate, drop-append_left, length-append, ok, arith, append_assoc,
}
use polylayer_tee.Attestation.{
  Signed64, natural, negative, is_negative, AttestationCommon, HistoricalLiquidationPayload,
  ResolutionPayload, PriceTwapPayload, attestation_len, attestation_magic, put, build_header,
  build_historical_liquidation, build_resolution, build_price_twap, signed_le_bytes,
}
use polylayer_tee.Attestation.Reads.{FitsCommon, FitsLiquidation}

-- Writing behind a front part, and over the front part itself.
put_behind :
    (pre rest bytes : Bytes) (n k : ℕ)
    → length pre ≡ n
    → put (n + k) bytes (pre ++ rest) ≡ pre ++ put k bytes rest
unfolding put
put_behind [] rest bytes zero k h = ap (λ t. put t bytes rest) (omega arith)
put_behind [] rest bytes (suc n) k h = absurd (omega arith)
put_behind (x ∷ pre) rest bytes zero k h = absurd (omega arith)
put_behind (x ∷ pre) rest bytes (suc n) k h =
    let e : suc n + k ≡ suc (n + k) = omega arith in
    let f : suc (n + k) + length bytes ≡ suc (n + k + length bytes) = omega arith in
    rw (e, f) (ap (λ t. x ∷ t) (put_behind pre rest bytes n k (omega arith)))

put_first :
    (bytes old post : Bytes) → length old ≡ length bytes → put 0 bytes (old ++ post) ≡ bytes ++ post
unfolding put
put_first bytes old post h =
    let e : 0 + length bytes ≡ length bytes = omega arith in
    rw (e, put) (rw (drop-append_left old post (length bytes) h))

-- Writing over the part `old` in the middle.
put_field :
    (pre old post bytes : Bytes) (n : ℕ)
    → length pre ≡ n
    → length old ≡ length bytes
    → put n bytes (pre ++ (old ++ post)) ≡ pre ++ (bytes ++ post)
put_field pre old post bytes n h k =
    let e : n ≡ n + 0 = omega arith in
    ap (λ t. put t bytes (pre ++ (old ++ post))) e
    ∙ put_behind pre (old ++ post) bytes n 0 h
    ∙ ap (λ t. pre ++ t) (put_first bytes old post k)

abbrev zeros : ℕ → Bytes
zeros n = replicate n 0

abbrev front : ℕ → Bytes
front t = attestation_magic ++ (t ∷ 0 ∷ 0 ∷ 0 ∷ [])

-- The fields of the header, in front of what follows.
abbrev pub header_fields : ℕ → AttestationCommon → Bytes → Bytes
header_fields t c rest =
    front t ++ (c.market_id ++ (le_bytes 8 c.signed_unix_ts ++ (le_bytes 8 c.nonce ++ rest)))

type_written :
    (t : ℕ)
    → put 4 (t ∷ []) (put 0 attestation_magic (zeros 56)) ≡ front t ++ (zeros 32 ++ zeros 16)
unfolding put
type_written t = refl

module _ (t : ℕ) (c : AttestationCommon) (f : FitsCommon c) where
  market_written :
      put 8 c.market_id (put 4 (t ∷ []) (put 0 attestation_magic (zeros 56)))
      ≡ front t ++ (c.market_id ++ (zeros 8 ++ zeros 8))
  market_written =
      ap (put 8 c.market_id) (type_written t)
      ∙ put_field (front t) (zeros 32) (zeros 16) c.market_id 8 refl (sym f.market_id_len)

  ts_written :
      put 40 (le_bytes 8 c.signed_unix_ts) (front t ++ (c.market_id ++ (zeros 8 ++ zeros 8)))
      ≡ front t ++ (c.market_id ++ (le_bytes 8 c.signed_unix_ts ++ zeros 8))
  ts_written =
      put_behind (front t) _ (le_bytes 8 c.signed_unix_ts) 8 32 refl
      ∙ ap (λ z. front t ++ z)
          (put_field c.market_id (zeros 8) (zeros 8) (le_bytes 8 c.signed_unix_ts) 32
            f.market_id_len (sym (length-le_bytes 8 c.signed_unix_ts)))

  nonce_written :
      put 48
        (le_bytes 8 c.nonce)
        (front t ++ (c.market_id ++ (le_bytes 8 c.signed_unix_ts ++ zeros 8)))
      ≡ header_fields t c []
  nonce_written =
      put_behind (front t) _ (le_bytes 8 c.nonce) 8 40 refl
      ∙ ap (λ z. front t ++ z)
          (put_behind c.market_id _ (le_bytes 8 c.nonce) 32 8 f.market_id_len
            ∙ ap (λ z. c.market_id ++ z)
                (put_field (le_bytes 8 c.signed_unix_ts) (zeros 8) [] (le_bytes 8 c.nonce) 8
                  (length-le_bytes 8 c.signed_unix_ts) (sym (length-le_bytes 8 c.nonce))))

  build_header_fields : build_header t c ≡ header_fields t c []
  unfolding build_header
  build_header_fields =
      ap (λ z. put 48 (le_bytes 8 c.nonce) (put 40 (le_bytes 8 c.signed_unix_ts) z)) market_written
      ∙ ap (put 48 (le_bytes 8 c.nonce)) ts_written
      ∙ nonce_written

  pub build_header-append : (rest : Bytes) → build_header t c ++ rest ≡ header_fields t c rest
  build_header-append rest = ap (λ z. z ++ rest) build_header_fields ∙ simp (append_assoc) refl

  length-build_header : length (build_header t c) ≡ 56
  length-build_header =
      ap length build_header_fields
      ∙ omega (
        arith,
        length-append c.market_id (le_bytes 8 c.signed_unix_ts ++ (le_bytes 8 c.nonce ++ [])),
        length-append (le_bytes 8 c.signed_unix_ts) (le_bytes 8 c.nonce ++ []),
        length-append (le_bytes 8 c.nonce) [],
        length-le_bytes 8 c.signed_unix_ts,
        length-le_bytes 8 c.nonce,
        f.market_id_len,
      )

  -- A header copied to the front of a zeroed message, and a field written behind it.
  header_written : put 0 (build_header t c) (zeros attestation_len) ≡ build_header t c ++ zeros 48
  header_written = put_first (build_header t c) (zeros 56) (zeros 48) (sym length-build_header)

  pub behind_header :
      (k : ℕ) (bytes rest : Bytes)
      → put (56 + k) bytes (build_header t c ++ rest) ≡ build_header t c ++ put k bytes rest
  behind_header k bytes rest = put_behind (build_header t c) rest bytes 56 k length-build_header

length-signed_le_bytes : (n : Signed64) → length (signed_le_bytes n) ≡ 8
unfolding signed_le_bytes
length-signed_le_bytes (natural n) = length-le_bytes 8 n
length-signed_le_bytes (negative n) = length-le_bytes 8 (2 ^ 64 - 1 - n)

liquidation_payload :
    (p : HistoricalLiquidationPayload)
    → FitsLiquidation p
    → put 40
        (signed_le_bytes p.breach_unix_ts)
        (put 32 (le_bytes 8 p.breach_mark_fp) (put 0 p.pmlc_pubkey (zeros 48)))
      ≡ p.pmlc_pubkey ++ (le_bytes 8 p.breach_mark_fp ++ (signed_le_bytes p.breach_unix_ts ++ []))
liquidation_payload p f =
    let mark = le_bytes 8 p.breach_mark_fp in
    let ts = signed_le_bytes p.breach_unix_ts in
    ap (λ z. put 40 ts (put 32 mark z))
      (put_first p.pmlc_pubkey (zeros 32) (zeros 16) (sym f.pmlc_len))
    ∙ ap (put 40 ts) (
        put_field p.pmlc_pubkey (zeros 8) (zeros 8) mark 32 f.pmlc_len
          (sym (length-le_bytes 8 p.breach_mark_fp)))
    ∙ put_behind p.pmlc_pubkey (mark ++ zeros 8) ts 32 8 f.pmlc_len
    ∙ ap (λ z. p.pmlc_pubkey ++ z)
        (put_field mark (zeros 8) [] ts 8 (length-le_bytes 8 p.breach_mark_fp)
          (sym (length-signed_le_bytes p.breach_unix_ts)))

resolution_payload :
    (bps ts : ℕ)
    → put 2 (le_bytes 8 ts) (put 0 (le_bytes 2 bps) (zeros 48))
      ≡ le_bytes 2 bps ++ (le_bytes 8 ts ++ zeros 38)
unfolding put le_bytes
resolution_payload bps ts = refl

price_twap_payload :
    (price slots start stop : ℕ)
    → put 24
        (le_bytes 8 stop)
        (put 16 (le_bytes 8 start) (put 8 (le_bytes 8 slots) (put 0 (le_bytes 8 price) (zeros 48))))
      ≡ le_bytes 8 price
        ++ (le_bytes 8 slots ++ (le_bytes 8 start ++ (le_bytes 8 stop ++ zeros 16)))
unfolding put le_bytes
price_twap_payload price slots start stop = refl

pub liquidation_fields :
    (c : AttestationCommon) (p : HistoricalLiquidationPayload) (n : ℕ)
    → FitsCommon c
    → FitsLiquidation p
    → p.breach_unix_ts ≡ natural n
    → build_historical_liquidation c p
      ≡ ok (
          header_fields 3 c
            (p.pmlc_pubkey ++ (le_bytes 8 p.breach_mark_fp ++ (le_bytes 8 n ++ []))))
unfolding build_historical_liquidation is_negative signed_le_bytes
liquidation_fields c p n f g e =
    let mark = le_bytes 8 p.breach_mark_fp in
    let ts = signed_le_bytes p.breach_unix_ts in
    let at = behind_header 3 c f in
    let written =
      ap (λ z. put 96 ts (put 88 mark (put 56 p.pmlc_pubkey z))) (header_written 3 c f)
      ∙ ap (λ z. put 96 ts (put 88 mark z)) (at 0 p.pmlc_pubkey (zeros 48))
      ∙ ap (put 96 ts) (at 32 mark (put 0 p.pmlc_pubkey (zeros 48)))
      ∙ at 40 ts (put 32 mark (put 0 p.pmlc_pubkey (zeros 48)))
      ∙ ap (λ z. build_header 3 c ++ z) (liquidation_payload p g)
      ∙ build_header-append 3 c f (p.pmlc_pubkey ++ (mark ++ (ts ++ []))) in
    rw e (ap ok (rw e at written))

pub resolution_fields :
    (c : AttestationCommon) (p : ResolutionPayload)
    → FitsCommon c
    → build_resolution c p
      ≡ header_fields 2 c
          (le_bytes 2 p.final_outcome_bps ++ (le_bytes 8 p.resolved_at_ts ++ zeros 38))
unfolding build_resolution
resolution_fields c p f =
    let bps = le_bytes 2 p.final_outcome_bps in
    let ts = le_bytes 8 p.resolved_at_ts in
    ap (λ z. put 58 ts (put 56 bps z)) (header_written 2 c f)
    ∙ ap (put 58 ts) (behind_header 2 c f 0 bps (zeros 48))
    ∙ behind_header 2 c f 2 ts (put 0 bps (zeros 48))
    ∙ ap (λ z. build_header 2 c ++ z) (resolution_payload p.final_outcome_bps p.resolved_at_ts)
    ∙ build_header-append 2 c f (bps ++ (ts ++ zeros 38))

pub price_twap_fields :
    (c : AttestationCommon) (p : PriceTwapPayload)
    → FitsCommon c
    → p.observation_start_ts ≤ p.observation_end_ts
    → build_price_twap c p
      ≡ ok (
          header_fields 1 c (
            le_bytes 8 p.price_fp
            ++ (le_bytes 8 p.twap_window_slots
                ++ (le_bytes 8 p.observation_start_ts
                    ++ (le_bytes 8 p.observation_end_ts ++ zeros 16)))))
unfolding build_price_twap
price_twap_fields c p f h =
    let price = le_bytes 8 p.price_fp in
    let slots = le_bytes 8 p.twap_window_slots in
    let start = le_bytes 8 p.observation_start_ts in
    let stop = le_bytes 8 p.observation_end_ts in
    let at = behind_header 1 c f in
    let one = put 0 price (zeros 48) in
    let written =
      ap (λ z. put 80 stop (put 72 start (put 64 slots (put 56 price z)))) (header_written 1 c f)
      ∙ ap (λ z. put 80 stop (put 72 start (put 64 slots z))) (at 0 price (zeros 48))
      ∙ ap (λ z. put 80 stop (put 72 start z)) (at 8 slots one)
      ∙ ap (put 80 stop) (at 16 start (put 8 slots one))
      ∙ at 24 stop (put 16 start (put 8 slots one))
      ∙ ap (λ z. build_header 1 c ++ z)
          (price_twap_payload p.price_fp p.twap_window_slots p.observation_start_ts
            p.observation_end_ts)
      ∙ build_header-append 1 c f _ in
    let ordered : ltb p.observation_end_ts p.observation_start_ts ≡ false = ground arith in
    rw ordered (ap ok written)
