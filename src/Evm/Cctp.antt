-- ===== src/Evm/Cctp.antt =====
-- crates/core/src/evm/cctp.rs: decoding `depositForBurn` calldata and checking it against the
-- bounds of a withdrawal intent.
pub mod Accepts
pub mod Decode
use polylayer_tee.Prelude.{
  ℕ, ◌+◌, ◌*◌, List, [], ◌∷◌, Bytes, bytes_eq, be_value, be_bytes, text, ltb, leb, ◌==◌, not,
  if◌then◌else◌, length, take, drop, Option, none, some, Outcome, ok, err, panic, ◌>>=◌, ◌>>◌,
  guard, slice, ok_or,
}
use Prim.Native.String.{String}
use polylayer_tee.External.{External}
use polylayer_tee.Evm.Abi.{selector_of}

abbrev pub deposit_for_burn_v2_sig : String
deposit_for_burn_v2_sig = "depositForBurn(uint256,uint32,bytes32,address,bytes32,uint256,uint32)"

abbrev pub token_messenger_v2_address : Bytes
token_messenger_v2_address = be_bytes 20 0x28b5a0e9c621a5badaa536219b3a228c8168cf5d

abbrev pub polygon_usdc : Bytes
polygon_usdc = be_bytes 20 0x3c499c542cef5e3811e1192ce70d8cc03d5c3359

abbrev pub arbitrum_usdc : Bytes
arbitrum_usdc = be_bytes 20 0xaf88d065e77c8cc2239327c5edb3a432268e5831

abbrev pub cctp_domain_solana : ℕ
cctp_domain_solana = 5

abbrev pub cctp_standard_finality : ℕ
cctp_standard_finality = 2000

pub data CctpError : Type 0 where
  too_short : ℕ → CctpError
  wrong_selector : CctpError
  wrong_destination_domain : ℕ → CctpError
  wrong_burn_token : Bytes → Bytes → CctpError
  amount_exceeds_intent : ℕ → ℕ → CctpError
  wrong_mint_recipient : Bytes → Bytes → Bytes → CctpError
  wrong_finality : ℕ → CctpError
  unsupported_source_chain : ℕ → CctpError
  bad_solana_destination : CctpError

pub record DepositForBurnArgs : Type 0 where
  pub amount : ℕ
  pub destination_domain : ℕ
  pub mint_recipient : Bytes
  pub burn_token : Bytes
  pub destination_caller : Bytes
  pub max_fee : ℕ
  pub min_finality_threshold : ℕ

pub record CctpIntentBounds : Type 0 where
  pub source_chain_id : ℕ
  pub destination_owner_bs58 : Bytes
  pub intent_amount_max : ℕ

-- `str.parse().expect(…)` of a literal in a `Lazy` static
expect_pubkey : External → String → Outcome CctpError Bytes
expect_pubkey x s = elim (x.parse_pubkey (text s)) [ none ↦ panic | some k ↦ ok k ]

module _ (x : External) where
  open x use {keccak256, parse_pubkey, find_program_address}

  unfoldable pub deposit_for_burn_v2_selector : Bytes
  deposit_for_burn_v2_selector = selector_of keccak256 deposit_for_burn_v2_sig

  unfoldable pub decode_deposit_for_burn : Bytes → Outcome CctpError DepositForBurnArgs
  decode_deposit_for_burn calldata = do
    guard (not (ltb (length calldata) (4 + 7 * 32))) (too_short (length calldata))
    guard (bytes_eq (take 4 calldata) deposit_for_burn_v2_selector) wrong_selector
    let args = drop 4 calldata
    amount ← slice args 0 32
    destination_domain ← slice args 60 64
    mint_recipient ← slice args 64 96
    burn_token ← slice args 108 128
    destination_caller ← slice args 128 160
    max_fee ← slice args 160 192
    min_finality_threshold ← slice args 220 224
    ok (record {
      amount = be_value amount;
      destination_domain = be_value destination_domain;
      mint_recipient = mint_recipient;
      burn_token = burn_token;
      destination_caller = destination_caller;
      max_fee = be_value max_fee;
      min_finality_threshold = be_value min_finality_threshold;
    })

  unfoldable pub derive_solana_usdc_ata : Bytes → Outcome CctpError Bytes
  unfolding expect_pubkey
  derive_solana_usdc_ata owner_bs58 = do
    owner ← ok_or (parse_pubkey owner_bs58) bad_solana_destination
    spl_token_program ← expect_pubkey x "TokenkegQfeZyiNwAJbNbGKPFXCWuBvf9Ss623VQ5DA"
    solana_usdc_mint ← expect_pubkey x "EPjFWdd5AufqSSqeM2qN1xzybapC8G4wEGGkZwyTDt1v"
    spl_ata_program ← expect_pubkey x "ATokenGPvbdGVxr1b2hvZbsiqW5xWH25efTNsLJA8knL"
    ok (find_program_address (owner ∷ spl_token_program ∷ solana_usdc_mint ∷ []) spl_ata_program)

  -- `match bounds.source_chain_id`
  unfoldable pub native_usdc : ℕ → Outcome CctpError Bytes
  native_usdc source_chain_id =
      if source_chain_id == 137
      then ok polygon_usdc
      else if source_chain_id == 42161
      then ok arbitrum_usdc
      else err (unsupported_source_chain source_chain_id)

  unfoldable pub validate_against_intent :
      DepositForBurnArgs → CctpIntentBounds → Outcome CctpError (Unit {0})
  unfolding native_usdc
  validate_against_intent args bounds = do
    expected_burn_token ← native_usdc bounds.source_chain_id
    guard (bytes_eq args.burn_token expected_burn_token)
        (wrong_burn_token args.burn_token expected_burn_token)
    guard (args.destination_domain == cctp_domain_solana)
        (wrong_destination_domain args.destination_domain)
    guard (leb args.amount bounds.intent_amount_max)
        (amount_exceeds_intent args.amount bounds.intent_amount_max)
    guard (args.min_finality_threshold == cctp_standard_finality)
        (wrong_finality args.min_finality_threshold)
    expected_ata ← derive_solana_usdc_ata bounds.destination_owner_bs58
    guard (bytes_eq args.mint_recipient expected_ata)
        (wrong_mint_recipient args.mint_recipient expected_ata bounds.destination_owner_bs58)
    ok tt
