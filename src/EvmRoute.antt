-- ===== src/EvmRoute.antt =====
-- crates/server/src/routes/sign_evm_tx.rs: the route that signs an EVM transaction for an intent.
pub mod Checks
pub mod Signs
pub mod Amounts
use polylayer_tee.Prelude.{
  ℕ, zero, suc, ◌-◌, ◌∷◌, [], ◌++◌, Bool, true, false, ◌||◌, Bytes, bytes_eq, text, ltb, leb, ◌==◌,
  not, if◌then◌else◌, length, replicate, Option, none, some, Outcome, ok, err, ◌>>=◌, ◌>>◌, guard,
  ok_or, map_err,
}
use Prim.Native.String.{String}
use polylayer_tee.External.{External}
use polylayer_tee.Json.{Value, get_str, get_u64}
use polylayer_tee.Api.{ApiError, bad_request, internal, not_implemented, AppState, now_unix}
use polylayer_tee.Numeric.{parse_uint}
use polylayer_tee.Solana.{decode_pubkey, strip_0x}
use polylayer_tee.Intents.{IntentVerifyArgs, verify_intent_signature}
use polylayer_tee.Derive.{DerivedAccount, derive_user_evm_account}
use polylayer_tee.Evm.Tx.{Eip1559Tx, SignedEip1559Tx, sign_eip1559}
use polylayer_tee.Evm.Cctp.{
  CctpIntentBounds, decode_deposit_for_burn, validate_against_intent, token_messenger_v2_address,
}
use polylayer_tee.Evm.Flows.{
  Erc20TransferIntent, PusdWrapIntent, CtfRedeemIntent, NegRiskRedeemIntent,
  validate_erc20_transfer, validate_pusd_wrap, validate_ctf_redeem, validate_neg_risk_redeem,
}

pub record UnsignedTxInput : Type 0 where
  pub chain_id : ℕ
  pub to : Bytes
  pub data_text : Bytes
  pub value : Bytes
  pub nonce : Bytes
  pub gas_limit : Bytes
  pub max_fee_per_gas : Bytes
  pub max_priority_fee_per_gas : Bytes

pub record Req : Type 0 where
  pub intent : Value
  pub intent_sig : Bytes
  pub unsigned_tx : UnsignedTxInput

pub record Response : Type 0 where
  pub signed_tx_hex : Bytes
  pub tx_hash : Bytes
  pub evm_address : Bytes

-- `intent.get(field)…ok_or_else(intent_missing)`
abbrev pub missing : ApiError
missing = bad_request "intent_missing"

abbrev pub invalid : ApiError
invalid = bad_request "intent_invalid"

unfoldable pub intent_str : Value → String → Outcome ApiError Bytes
intent_str intent field = ok_or (get_str intent (text field)) missing

unfoldable pub intent_u8 : Value → String → Outcome ApiError ℕ
intent_u8 intent field = do
  n ← ok_or (get_u64 intent (text field)) missing
  guard (ltb n 256) invalid
  ok n

-- `destination`, or else `solana_destination`
unfoldable pub cctp_destination : Value → Outcome ApiError Bytes
cctp_destination intent = elim (get_str intent (text "destination")) [
  | some s ↦ ok s
  | none ↦ ok_or (get_str intent (text "solana_destination")) missing
]

-- `s.split_once('.')`, or the whole text and an empty one
unfoldable pub split_dot : Bytes → Bytes × Bytes
split_dot [] = ([], [])
split_dot (b ∷ bs) = let (i, f) = split_dot bs in if b == b'.' then ([], bs) else (b ∷ i, f)

module _ (x : External) where
  open x use {parse_address, parse_b256, parse_u256, hex_decode, hex_encode}

  unfoldable pub intent_address : Value → String → Outcome ApiError Bytes
  intent_address intent field = do s ← intent_str intent field; ok_or (parse_address s) invalid

  unfoldable pub intent_b256 : Value → String → Outcome ApiError Bytes
  intent_b256 intent field = do s ← intent_str intent field; ok_or (parse_b256 s) invalid

  unfoldable pub intent_u256_decimal : Value → String → Outcome ApiError ℕ
  intent_u256_decimal intent field = do s ← intent_str intent field; ok_or (parse_u256 s) invalid

  unfoldable pub parse_tx : UnsignedTxInput → Outcome ApiError Eip1559Tx
  parse_tx input = do
    to ← ok_or (parse_address input.to) (bad_request "invalid_to")
    data_bytes ← ok_or (hex_decode (strip_0x input.data_text)) (bad_request "invalid_data")
    value ← ok_or (parse_u256 input.value) (bad_request "invalid_value")
    nonce ← ok_or (parse_uint 64 input.nonce) (bad_request "invalid_nonce")
    gas_limit ← ok_or (parse_uint 64 input.gas_limit) (bad_request "invalid_gas_limit")
    max_fee ← ok_or (parse_u256 input.max_fee_per_gas) (bad_request "invalid_max_fee")
    max_priority ←
        ok_or (parse_u256 input.max_priority_fee_per_gas) (bad_request "invalid_max_priority_fee")
    ok (record {
      chain_id = input.chain_id;
      nonce = nonce;
      max_priority_fee_per_gas = max_priority;
      max_fee_per_gas = max_fee;
      gas_limit = gas_limit;
      to = to;
      value = value;
      data_bytes = data_bytes;
      access_list = [];
    })

  -- A decimal text in USDC as base units, of which 10 ^ 6 are one USDC.
  unfoldable pub decimal_usdc_to_base_units : Bytes → Outcome ApiError ℕ
  decimal_usdc_to_base_units s = do
    let (int_part, frac_part) = split_dot s
    guard (leb (length frac_part) 6) invalid
    let buf = int_part ++ (frac_part ++ replicate (6 - length frac_part) b'0')
    ok_or (parse_u256 buf) invalid

  -- `amount_wei` in base units, or else `amount` in USDC
  unfoldable pub cctp_amount_max : Value → Outcome ApiError ℕ
  cctp_amount_max intent = elim (get_str intent (text "amount_wei")) [
    | some s ↦ ok_or (parse_u256 s) invalid
    | none ↦ elim (get_str intent (text "amount")) [
      | some s ↦ decimal_usdc_to_base_units s
      | none ↦ err missing
    ]
  ]

  unfoldable pub validate_cctp_withdraw : Value → Eip1559Tx → Outcome ApiError (Unit {0})
  validate_cctp_withdraw intent tx = do
    guard (bytes_eq tx.to token_messenger_v2_address) (bad_request "withdraw_wrong_target")
    args ← map_err (λ e. bad_request "cctp_decode") (decode_deposit_for_burn x tx.data_bytes)
    destination ← cctp_destination intent
    amount_max ← cctp_amount_max intent
    map_err (λ e. bad_request "cctp_validate")
        (validate_against_intent x args (record {
          source_chain_id = tx.chain_id;
          destination_owner_bs58 = destination;
          intent_amount_max = amount_max;
        }))

  unfoldable pub validate_pusd_wrap_action : Value → Eip1559Tx → Outcome ApiError (Unit {0})
  validate_pusd_wrap_action intent tx = do
    source_token ← intent_address intent "source_token"
    deposit_wallet ← intent_address intent "deposit_wallet"
    max_amount ← intent_u256_decimal intent "max_amount"
    amount ←
        map_err (λ e. bad_request "pusd_wrap_validate")
          (validate_pusd_wrap x tx.to tx.data_bytes (record {
            source_token = source_token;
            deposit_wallet = deposit_wallet;
            max_amount = max_amount;
          }))
    ok tt

  unfoldable pub validate_ctf_redeem_action : Value → Eip1559Tx → Outcome ApiError (Unit {0})
  validate_ctf_redeem_action intent tx = do
    condition_id ← intent_b256 intent "condition_id"
    outcome_index ← intent_u8 intent "outcome_index"
    map_err (λ e. bad_request "ctf_redeem_validate")
        (validate_ctf_redeem x tx.to tx.data_bytes
          (record { condition_id = condition_id; outcome_index = outcome_index }))

  unfoldable pub validate_neg_risk_redeem_action : Value → Eip1559Tx → Outcome ApiError (Unit {0})
  validate_neg_risk_redeem_action intent tx = do
    condition_id ← intent_b256 intent "condition_id"
    outcome_index ← intent_u8 intent "outcome_index"
    max_amount ← intent_u256_decimal intent "max_amount"
    map_err (λ e. bad_request "neg_risk_redeem_validate")
        (validate_neg_risk_redeem x tx.to tx.data_bytes (record {
          condition_id = condition_id;
          outcome_index = outcome_index;
          max_amount = max_amount;
        }))

  unfoldable pub validate_erc20_transfer_action : Value → Eip1559Tx → Outcome ApiError (Unit {0})
  validate_erc20_transfer_action intent tx = do
    token ← intent_address intent "token"
    recipient ← intent_address intent "recipient"
    amount ← intent_u256_decimal intent "amount"
    map_err (λ e. bad_request "erc20_transfer_validate")
        (validate_erc20_transfer x tx.to tx.data_bytes
          (record { token = token; recipient = recipient; amount = amount }))

  -- Three names of a burn
  unfoldable pub is_withdraw : Bytes → Bool
  is_withdraw action =
      bytes_eq action (text "withdraw")
      || bytes_eq action (text "polymarket_to_solana_withdraw")
      || bytes_eq action (text "hyperliquid_to_solana_withdraw")

  -- `match action`
  unfoldable pub check_action : Bytes → Value → Eip1559Tx → Outcome ApiError (Unit {0})
  check_action action intent tx =
      if is_withdraw action
      then validate_cctp_withdraw intent tx
      else if bytes_eq action (text "pusd_wrap")
      then validate_pusd_wrap_action intent tx
      else if bytes_eq action (text "ctf_redeem")
      then validate_ctf_redeem_action intent tx
      else if bytes_eq action (text "neg_risk_redeem")
      then validate_neg_risk_redeem_action intent tx
      else if bytes_eq action (text "erc20_transfer")
      then validate_erc20_transfer_action intent tx
      else err (not_implemented "unsupported_action")

  -- The arguments of the signature check; the clock has been read.
  unfoldable pub verify_args : Req → ℕ → IntentVerifyArgs
  verify_args req now = record {
    intent = req.intent;
    signature_bs58 = req.intent_sig;
    expected_pubkey_bs58 = none;
    enforce_expiry = true;
    now_unix_secs = now;
  }

  unfoldable pub handler : AppState → Option ℕ → Req → Outcome ApiError Response
  unfolding verify_args
  handler app clock req = do
    now ← now_unix clock
    map_err (λ e. bad_request "intent_verify") (verify_intent_signature x (verify_args req now))
    action ← ok_or (get_str req.intent (text "action")) missing
    solana_pubkey_bs58 ← ok_or (get_str req.intent (text "solana_pubkey")) missing
    solana_pubkey ←
        map_err (λ e. bad_request "invalid_solana_pubkey") (decode_pubkey x solana_pubkey_bs58)
    derived ← map_err (λ e. internal) (derive_user_evm_account x app.seed solana_pubkey)
    tx ← parse_tx req.unsigned_tx
    check_action action req.intent tx
    signed ← map_err (λ e. bad_request "sign") (sign_eip1559 x derived.private_key tx)
    ok (record {
      signed_tx_hex = signed.raw_hex;
      tx_hash = text "0x" ++ hex_encode signed.tx_hash;
      evm_address = text "0x" ++ hex_encode signed.from;
    })
