-- ===== src/Evm/Cctp/Accepts.antt =====
-- When a `depositForBurn` call passes.
use polylayer_tee.Prelude.{◌≤◌, ◌≡◌, ◌↔◌, bytes_eq_iff, Outcome-cases, ok, arith, ◌⊎◌, inl, inr}
use polylayer_tee.External.{External}
use polylayer_tee.Evm.Cctp.{
  DepositForBurnArgs, CctpIntentBounds, validate_against_intent, derive_solana_usdc_ata,
  polygon_usdc, arbitrum_usdc,
}

module _ (x : External) where
  -- What the bounds of an intent allow.
  pub record Allowed (args : DepositForBurnArgs) (bounds : CctpIntentBounds) : Type 0 where
    pub token :
        (bounds.source_chain_id ≡ 137) × (args.burn_token ≡ polygon_usdc)
        ⊎ (bounds.source_chain_id ≡ 42161) × (args.burn_token ≡ arbitrum_usdc)
    pub domain : args.destination_domain ≡ 5
    pub amount : args.amount ≤ bounds.intent_amount_max
    pub finality : args.min_finality_threshold ≡ 2000
    pub recipient : derive_solana_usdc_ata x bounds.destination_owner_bs58 ≡ ok args.mint_recipient

  validate_against_intent-Allowed :
      (args : DepositForBurnArgs) (bounds : CctpIntentBounds)
      → validate_against_intent x args bounds ≡ ok tt
      → Allowed args bounds
  unfolding validate_against_intent
  validate_against_intent-Allowed args bounds h =
      elim (Outcome-cases (derive_solana_usdc_ata x bounds.destination_owner_bs58)) [
        | inl (ata, e) ↦ record {
          token = ground (
            arith,
            h,
            e,
            bytes_eq_iff args.burn_token polygon_usdc,
            bytes_eq_iff args.burn_token arbitrum_usdc,
          );
          domain = ground (arith, h, e);
          amount = ground (arith, h, e);
          finality = ground (arith, h, e);
          recipient = ground (arith, h, e, bytes_eq_iff args.mint_recipient ata);
        }
        | inr (inl (y, e)) ↦ absurd (ground (arith, h, e))
        | inr (inr e) ↦ absurd (ground (arith, h, e))
      ]

  Allowed-validate_against_intent :
      (args : DepositForBurnArgs) (bounds : CctpIntentBounds)
      → Allowed args bounds
      → validate_against_intent x args bounds ≡ ok tt
  unfolding validate_against_intent
  Allowed-validate_against_intent args bounds a = ground (
    arith,
    bytes_eq_iff args.burn_token polygon_usdc,
    bytes_eq_iff args.burn_token arbitrum_usdc,
    bytes_eq_iff args.mint_recipient args.mint_recipient,
  )

  -- A decoded burn passes exactly when its token is the native USDC of the chain (Polygon or
  -- Arbitrum), its domain is Solana, its amount is at most the intent's maximum, its finality is
  -- the standard one, and its recipient is the USDC account derived from the owner the intent
  -- names.
  pub validate_against_intent_iff :
      (args : DepositForBurnArgs) (bounds : CctpIntentBounds)
      → (validate_against_intent x args bounds ≡ ok tt) ↔ Allowed args bounds
  validate_against_intent_iff args bounds =
      (validate_against_intent-Allowed args bounds, Allowed-validate_against_intent args bounds)
