-- ===== src/Attestation/RoundTrip.antt =====
-- What was attested is read back, and only sound statements are attested.
use polylayer_tee.Prelude.{
  ok_inj, ◌↔◌, ℕ, ◌≤◌, ◌≡◌, refl, ap, sym, ◌∙◌, Bool, true, false, [], ◌++◌, Bytes, le_bytes,
  length-le_bytes, length, replicate, length-append, some, ok, arith,
}
use polylayer_tee.Attestation.{
  Signed64, natural, negative, AttestationCommon, HistoricalLiquidationPayload, ResolutionPayload,
  PriceTwapPayload, build_historical_liquidation, build_price_twap, is_negative,
}
use polylayer_tee.Attestation.Reads.{
  Attestation, liquidation, resolution, price_twap, build, parse, Fits, FitsCommon, FitsLiquidation,
  FitsResolution, FitsPriceTwap,
}
use polylayer_tee.Attestation.Layout.{
  header_fields, liquidation_fields, resolution_fields, price_twap_fields,
}
use polylayer_tee.Attestation.Fields.{
  read_common_fields, read_liquidation_fields, read_resolution_fields, read_price_twap_fields,
  length_u64, parse-header_fields,
}

-- What makes a statement sound: a breach that is not before the epoch, a window that does not end
-- before it starts.
abbrev pub IsSound : Attestation → Type 0
IsSound (liquidation c p) = is_negative p.breach_unix_ts ≡ false
IsSound (resolution c p) = Unit
IsSound (price_twap c p) = p.observation_start_ts ≤ p.observation_end_ts

abbrev Attests : Attestation → Bytes → Type 0
Attests a out = (build a ≡ ok out) × (parse out ≡ some a) × (length out ≡ 104)

sound_liquidation :
    (c : AttestationCommon) (p : HistoricalLiquidationPayload) (n : ℕ)
    → FitsCommon c
    → FitsLiquidation p
    → p.breach_unix_ts ≡ natural n
    → (out : Bytes) × Attests (liquidation c p) out
unfolding build
sound_liquidation c p n f g e =
    let payload = p.pmlc_pubkey ++ (le_bytes 8 p.breach_mark_fp ++ (le_bytes 8 n ++ [])) in
    let len : length payload ≡ 48 = omega (
      arith,
      length-append p.pmlc_pubkey (le_bytes 8 p.breach_mark_fp ++ (le_bytes 8 n ++ [])),
      length_u64 p.breach_mark_fp (le_bytes 8 n ++ []),
      length_u64 n [],
      g.pmlc_len,
    ) in
    let (read, whole) = parse-header_fields 3 c payload f len in
    let (common, behind) = read_common_fields c payload f in
    (
      header_fields 3 c payload,
      (
        liquidation_fields c p n f g e,
        read ∙ rw (common, behind, read_liquidation_fields p n g e) refl,
        whole,
      ),
    )

sound_resolution :
    (c : AttestationCommon) (p : ResolutionPayload)
    → FitsCommon c
    → FitsResolution p
    → (out : Bytes) × Attests (resolution c p) out
unfolding build
sound_resolution c p f g =
    let rest = replicate 38 0 in
    let payload = le_bytes 2 p.final_outcome_bps ++ (le_bytes 8 p.resolved_at_ts ++ rest) in
    let len : length payload ≡ 48 = omega (
      arith,
      length-append (le_bytes 2 p.final_outcome_bps) (le_bytes 8 p.resolved_at_ts ++ rest),
      length-le_bytes 2 p.final_outcome_bps,
      length_u64 p.resolved_at_ts rest,
    ) in
    let (read, whole) = parse-header_fields 2 c payload f len in
    let (common, behind) = read_common_fields c payload f in
    (
      header_fields 2 c payload,
      (
        ap ok (resolution_fields c p f),
        read ∙ rw (common, behind, read_resolution_fields p rest g) refl,
        whole,
      ),
    )

sound_price_twap :
    (c : AttestationCommon) (p : PriceTwapPayload)
    → FitsCommon c
    → FitsPriceTwap p
    → p.observation_start_ts ≤ p.observation_end_ts
    → (out : Bytes) × Attests (price_twap c p) out
unfolding build
sound_price_twap c p f g h =
    let rest = replicate 16 0 in
    let tail3 = le_bytes 8 p.observation_end_ts ++ rest in
    let tail2 = le_bytes 8 p.observation_start_ts ++ tail3 in
    let tail1 = le_bytes 8 p.twap_window_slots ++ tail2 in
    let payload = le_bytes 8 p.price_fp ++ tail1 in
    let len : length payload ≡ 48 = omega (
      arith,
      length_u64 p.price_fp tail1,
      length_u64 p.twap_window_slots tail2,
      length_u64 p.observation_start_ts tail3,
      length_u64 p.observation_end_ts rest,
    ) in
    let (read, whole) = parse-header_fields 1 c payload f len in
    let (common, behind) = read_common_fields c payload f in
    (
      header_fields 1 c payload,
      (
        price_twap_fields c p f h,
        read ∙ rw (common, behind, read_price_twap_fields p rest g) refl,
        whole,
      ),
    )

true_ne_false : ◌≡◌ {A = Bool} true false → ⊥
true_ne_false h = cc (h)

sound_builds : (a : Attestation) → Fits a → IsSound a → (out : Bytes) × Attests a out
unfolding is_negative
sound_builds (liquidation c p) (f, g) s = by_time p.breach_unix_ts refl
  where
    by_time : (n : Signed64) → p.breach_unix_ts ≡ n → (out : Bytes) × Attests (liquidation c p) out
    by_time (natural n) e = sound_liquidation c p n f g e
    by_time (negative n) e = absurd (true_ne_false (rw (e) at s))
sound_builds (resolution c p) (f, g) s = sound_resolution c p f g
sound_builds (price_twap c p) (f, g) s = sound_price_twap c p f g s

pub build-IsSound : (a : Attestation) (out : Bytes) → build a ≡ ok out → IsSound a
unfolding build build_historical_liquidation build_price_twap
build-IsSound (liquidation c p) out h = ground arith
build-IsSound (resolution c p) out h = tt
build-IsSound (price_twap c p) out h = ground arith

module _ (a : Attestation) where
  -- For an attestation whose fields fit their widths, the bytes that are built for it are read
  -- back, by an independent reader of the documented format, as that attestation, so that no two
  -- attestations, of whatever types, share their bytes.
  pub parse-build : (out : Bytes) → Fits a → build a ≡ ok out → parse out ≡ some a
  parse-build out f h =
      let (made, (e, read, whole)) = sound_builds a f (build-IsSound a out h) in
      let same : made ≡ out = ok_inj (sym e ∙ h) in rw same at read

  Message : Type 0
  Message = (out : Bytes) × (build a ≡ ok out) × (length out ≡ 104)

  Message-IsSound : Message → IsSound a
  unfolding Message
  Message-IsSound (out, e, whole) = build-IsSound a out e

  IsSound-Message : Fits a → IsSound a → Message
  unfolding Message
  IsSound-Message f s = let (out, (e, read, whole)) = sound_builds a f s in (out, e, whole)

  -- For an attestation whose fields fit their widths, a message is built, and is then 104 bytes
  -- long, exactly when a liquidation is not before the epoch and an observation window does not
  -- end before it starts.
  pub build_iff : Fits a → ((out : Bytes) × (build a ≡ ok out) × (length out ≡ 104)) ↔ IsSound a
  unfolding Message
  build_iff f = (Message-IsSound, IsSound-Message f)
