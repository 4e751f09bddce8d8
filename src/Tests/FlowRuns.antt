-- ===== src/Tests/FlowRuns.antt =====
-- One accepted call of each kind through evm/polymarket_flows.rs, and arrays through evm/abi.rs.
use polylayer_tee.Prelude.{
  ℕ, ◌≡◌, refl, ◌-◌, ◌^◌, ◌<◌, [], ◌∷◌, ◌++◌, Bytes, be_bytes, be_value, text, ok, panic, length,
  arith,
}
use polylayer_tee.Tests.Samples.{sample, sample-DigestsAre32}
use polylayer_tee.Evm.Abi.{
  dynamic_u256_array, read_words, require_selector, selector_of, word_address, word_bytes32,
  word_from, word_u256,
}
use polylayer_tee.Evm.Abi.Arrays.{
  encode_array, dynamic_u256_array-encode_array, dynamic_u256_array-panics,
}
use polylayer_tee.Evm.Flows.{
  Erc20TransferIntent, Erc20ApproveIntent, PusdWrapIntent, CtfRedeemIntent, NegRiskRedeemIntent,
  validate_erc20_transfer, validate_erc20_approve, validate_pusd_wrap, validate_ctf_redeem,
  validate_neg_risk_redeem, erc20_transfer, erc20_approve, onramp_wrap, ctf_redeem, neg_risk_redeem,
  only_outcome, index, union_of, pusd, ctf, neg_risk_adapter, collateral_onramp,
}
use polylayer_tee.Evm.Flows.Transfers.{
  TransferCall, ApproveCall, WrapCall, validate_erc20_transfer_iff, validate_erc20_approve_iff,
  validate_pusd_wrap_iff,
}
use polylayer_tee.Evm.Flows.Redeems.{
  CtfCall, NegRiskCall, validate_ctf_redeem_iff, validate_neg_risk_redeem_iff,
}

abbrev friend : ℕ
friend = 0xaabb

-- transfer(friend, 9) on pUSD
abbrev transfer_intent : Erc20TransferIntent
transfer_intent = record { token = pusd; recipient = be_bytes 20 friend; amount = 9 }

abbrev transfer_data : Bytes
transfer_data = text "tran" ++ be_bytes 32 friend ++ be_bytes 32 9

transfer_passes : validate_erc20_transfer sample pusd transfer_data transfer_intent ≡ ok tt
unfolding validate_erc20_transfer erc20_transfer require_selector selector_of word_address word_from
    word_u256 be_bytes be_value
transfer_passes = refl

validate_erc20_transfer_iff_example :
    TransferCall sample sample-DigestsAre32 pusd transfer_data transfer_intent
validate_erc20_transfer_iff_example =
    (validate_erc20_transfer_iff sample sample-DigestsAre32 pusd transfer_data transfer_intent).0
      transfer_passes

-- approve(friend, 9) on pUSD, of at most 10
abbrev approve_intent : Erc20ApproveIntent
approve_intent = record { token = pusd; spender = be_bytes 20 friend; max_amount = 10 }

abbrev approve_data : Bytes
approve_data = text "appr" ++ be_bytes 32 friend ++ be_bytes 32 9

approve_passes : validate_erc20_approve sample pusd approve_data approve_intent ≡ ok 9
unfolding validate_erc20_approve erc20_approve require_selector selector_of word_address word_from
    word_u256 be_bytes be_value
approve_passes = refl

validate_erc20_approve_iff_example :
    ApproveCall sample sample-DigestsAre32 pusd approve_data approve_intent 9
validate_erc20_approve_iff_example =
    (validate_erc20_approve_iff sample sample-DigestsAre32 pusd approve_data approve_intent 9).0
      approve_passes

-- wrap(token, friend, 9), of at most 10
abbrev wrap_intent : PusdWrapIntent
wrap_intent = record {
  source_token = be_bytes 20 1;
  deposit_wallet = be_bytes 20 friend;
  max_amount = 10;
}

abbrev wrap_data : Bytes
wrap_data = text "wrap" ++ be_bytes 32 1 ++ be_bytes 32 friend ++ be_bytes 32 9

wrap_passes : validate_pusd_wrap sample collateral_onramp wrap_data wrap_intent ≡ ok 9
unfolding validate_pusd_wrap onramp_wrap require_selector selector_of word_address word_from
    word_u256 be_bytes be_value
wrap_passes = refl

validate_pusd_wrap_iff_example :
    WrapCall sample sample-DigestsAre32 collateral_onramp wrap_data wrap_intent 9
validate_pusd_wrap_iff_example =
    (validate_pusd_wrap_iff sample sample-DigestsAre32 collateral_onramp wrap_data wrap_intent 9).0
      wrap_passes

-- redeemPositions(pUSD, 0, 1, [2]): outcome 1
abbrev ctf_intent : CtfRedeemIntent
ctf_intent = record { condition_id = be_bytes 32 1; outcome_index = 1 }

abbrev ctf_words : Bytes
ctf_words =
    be_bytes 32 0xc011a7e12a19f7b1f670d46f03b03f3342e82dfb
    ++ be_bytes 32 0
    ++ be_bytes 32 1
    ++ be_bytes 32 128

abbrev ctf_data : Bytes
ctf_data = text "rede" ++ ctf_words ++ encode_array (2 ∷ [])

ctf_passes : validate_ctf_redeem sample ctf ctf_data ctf_intent ≡ ok tt
unfolding validate_ctf_redeem ctf_redeem dynamic_u256_array read_words union_of word_bytes32
    require_selector selector_of word_address word_from word_u256 be_bytes be_value
ctf_passes = refl

validate_ctf_redeem_iff_example : CtfCall sample sample-DigestsAre32 ctf ctf_data ctf_intent
validate_ctf_redeem_iff_example =
    (validate_ctf_redeem_iff sample sample-DigestsAre32 ctf ctf_data ctf_intent).0 ctf_passes

-- redeemPositions(1, [0, 9]): outcome 1, of at most 10
abbrev neg_risk_intent : NegRiskRedeemIntent
neg_risk_intent = record { condition_id = be_bytes 32 1; outcome_index = 1; max_amount = 10 }

abbrev neg_risk_data : Bytes
neg_risk_data = text "rede" ++ be_bytes 32 1 ++ be_bytes 32 64 ++ encode_array (0 ∷ 9 ∷ [])

neg_risk_passes :
    validate_neg_risk_redeem sample neg_risk_adapter neg_risk_data neg_risk_intent ≡ ok tt
unfolding validate_neg_risk_redeem neg_risk_redeem dynamic_u256_array read_words only_outcome index
    word_bytes32 require_selector selector_of word_address word_from word_u256 be_bytes be_value
neg_risk_passes = refl

validate_neg_risk_redeem_iff_example :
    NegRiskCall sample sample-DigestsAre32 neg_risk_adapter neg_risk_data neg_risk_intent
validate_neg_risk_redeem_iff_example =
    (validate_neg_risk_redeem_iff sample sample-DigestsAre32 neg_risk_adapter neg_risk_data
        neg_risk_intent).0
      neg_risk_passes

-- An array of two numbers behind one static word.
abbrev array_args : Bytes
array_args = be_bytes 32 32 ++ encode_array (7 ∷ 8 ∷ [])

array_offset : word_u256 array_args 0 ≡ ok 32
unfolding word_u256 word_from be_bytes be_value
array_offset = refl

array_fits : length array_args < 2 ^ 63
unfolding be_bytes
array_fits = omega arith

dynamic_u256_array-encode_array_example : dynamic_u256_array array_args 1 0 ≡ ok (7 ∷ 8 ∷ [])
unfolding be_bytes
dynamic_u256_array-encode_array_example =
    dynamic_u256_array-encode_array array_args (be_bytes 32 32) [] (7 ∷ 8 ∷ []) 1 0
      (omega arith, (omega arith, tt)) (omega arith) array_fits refl (omega arith) array_offset

-- The offset word 2 ^ 64 - 1
abbrev bad_offset : Bytes
bad_offset = be_bytes 32 (2 ^ 64 - 1)

bad_offset_word : word_u256 bad_offset 0 ≡ ok (2 ^ 64 - 1)
unfolding word_u256 word_from be_bytes be_value
bad_offset_word = refl

dynamic_u256_array-panics_example : dynamic_u256_array bad_offset 1 0 ≡ panic
unfolding be_bytes
dynamic_u256_array-panics_example =
    (dynamic_u256_array-panics bad_offset 1 0 (omega arith) (omega arith) (omega arith)).1
      (2 ^ 64 - 1, bad_offset_word, omega arith, omega arith)
