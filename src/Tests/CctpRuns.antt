-- ===== src/Tests/CctpRuns.antt =====
-- A withdrawal of 5 units from Arbitrum to a Solana account, through evm/cctp.rs.
use polylayer_tee.Prelude.{◌≡◌, refl, ◌≤◌, ◌++◌, Bytes, be_bytes, be_value, text, ok, length}
use polylayer_tee.Tests.Samples.{pad, sample, sample-DigestsAre32}
use polylayer_tee.Evm.Abi.{selector_of}
use polylayer_tee.Evm.Cctp.{
  DepositForBurnArgs, CctpIntentBounds, decode_deposit_for_burn, validate_against_intent,
  deposit_for_burn_v2_selector, derive_solana_usdc_ata, arbitrum_usdc,
}
use polylayer_tee.Evm.Cctp.Accepts.{Allowed, validate_against_intent_iff}
use polylayer_tee.Evm.Cctp.Decode.{DecodedWords, decode_deposit_for_burn_iff}

abbrev ata : Bytes
ata = pad 32 (text "ATokenGPvbdGVxr1b2hvZbsiqW5xWH25efTNsLJA8knL")

abbrev words : Bytes
words =
    be_bytes 32 5
    ++ be_bytes 32 5
    ++ ata
    ++ be_bytes 32 0xaf88d065e77c8cc2239327c5edb3a432268e5831
    ++ be_bytes 32 0
    ++ be_bytes 32 1
    ++ be_bytes 32 2000

abbrev call : Bytes
call = text "depo" ++ words

abbrev args : DepositForBurnArgs
args = record {
  amount = 5;
  destination_domain = 5;
  mint_recipient = ata;
  burn_token = arbitrum_usdc;
  destination_caller = be_bytes 32 0;
  max_fee = 1;
  min_finality_threshold = 2000;
}

abbrev bounds : CctpIntentBounds
bounds = record {
  source_chain_id = 42161;
  destination_owner_bs58 = text "owner";
  intent_amount_max = 7;
}

call_decodes : decode_deposit_for_burn sample call ≡ ok args
unfolding decode_deposit_for_burn deposit_for_burn_v2_selector selector_of be_bytes be_value
call_decodes = refl

call_passes : validate_against_intent sample args bounds ≡ ok tt
unfolding validate_against_intent derive_solana_usdc_ata be_bytes
call_passes = refl

decode_deposit_for_burn_iff_example :
    (rest : Bytes) × (call ≡ deposit_for_burn_v2_selector sample ++ rest)
    × (224 ≤ length rest)
    × DecodedWords rest args
decode_deposit_for_burn_iff_example =
    (decode_deposit_for_burn_iff sample sample-DigestsAre32 call args).0 call_decodes

validate_against_intent_iff_example : Allowed sample args bounds
validate_against_intent_iff_example = (validate_against_intent_iff sample args bounds).0 call_passes
