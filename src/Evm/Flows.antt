-- ===== src/Evm/Flows.antt =====
-- crates/core/src/evm/polymarket_flows.rs: one validator for each call shape, which compares the
-- target and the calldata of a transaction with the user's intent.
pub mod Transfers
pub mod Redeems
use polylayer_tee.Prelude.{
  ℕ, zero, suc, ◌+◌, ◌^◌, Bool, ◌||◌, List, [], ◌∷◌, Bytes, bytes_eq, be_bytes, leb, ltb, ◌==◌, not,
  length, get_elem?, replicate, Option, none, some, Outcome, ok, err, panic, ◌>>=◌, ◌>>◌, guard,
  map_err,
}
use Prim.Native.Nat.{bit_or}
use polylayer_tee.External.{External}
use polylayer_tee.Evm.Abi.{
  AbiError, require_selector, word_address, word_u256, word_bytes32, dynamic_u256_array,
  selector_of,
}

abbrev pub pusd : Bytes
pusd = be_bytes 20 0xC011a7E12a19f7B1f670d46F03B03f3342E82DFB

abbrev pub ctf : Bytes
ctf = be_bytes 20 0x4D97DCd97eC945f40cF65F87097ACe5EA0476045

abbrev pub neg_risk_adapter : Bytes
neg_risk_adapter = be_bytes 20 0xd91E80cF2E7be2e162c6513ceD06f1dD0dA35296

abbrev pub collateral_onramp : Bytes
collateral_onramp = be_bytes 20 0x93070a847efEf7F70739046A929D47a521F5B8ee

pub data FlowError : Type 0 where
  abi : AbiError → FlowError
  wrong_target : Bytes → Bytes → FlowError
  spender_not_allowed : Bytes → FlowError
  approve_amount_exceeds_max : ℕ → ℕ → FlowError
  amount_exceeds_intent : ℕ → ℕ → FlowError
  wrong_recipient : Bytes → Bytes → FlowError
  wrong_condition_id : FlowError
  wrong_collateral : Bytes → FlowError
  non_zero_parent_collection : FlowError
  partition_length_mismatch : ℕ → ℕ → FlowError
  partition_value_mismatch : ℕ → FlowError
  unauthorized_amount : ℕ → FlowError
  outcome_index_oob : ℕ → ℕ → FlowError
  index_sets_mismatch : FlowError

pub record Erc20TransferIntent : Type 0 where
  pub token : Bytes
  pub recipient : Bytes
  pub amount : ℕ

pub record Erc20ApproveIntent : Type 0 where
  pub token : Bytes
  pub spender : Bytes
  pub max_amount : ℕ

pub record PusdWrapIntent : Type 0 where
  pub source_token : Bytes
  pub deposit_wallet : Bytes
  pub max_amount : ℕ

pub record CtfRedeemIntent : Type 0 where
  pub condition_id : Bytes
  pub outcome_index : ℕ

pub record NegRiskRedeemIntent : Type 0 where
  pub condition_id : Bytes
  pub outcome_index : ℕ
  pub max_amount : ℕ

-- The union of the index sets: `for s in &index_sets { union |= *s; }`
unfoldable pub union_of : ℕ → List ℕ → ℕ
union_of union [] = union
union_of union (s ∷ index_sets) = union_of (bit_or union s) index_sets

-- `for (i, a) in amounts.iter().enumerate()`: every amount but that of outcome `oi` is zero.
unfoldable pub only_outcome : ℕ → ℕ → List ℕ → Outcome FlowError (Unit {0})
only_outcome oi i [] = ok tt
only_outcome oi i (a ∷ amounts) =
    let rest = only_outcome oi (i + 1) amounts in
    do guard ((i == oi) || (a == 0)) (unauthorized_amount i); rest

-- `amounts[oi]`
unfoldable pub index : List ℕ → ℕ → Outcome FlowError ℕ
index amounts oi = elim (get_elem? amounts oi) [ none ↦ panic | some a ↦ ok a ]

module _ (x : External) where
  open x use {keccak256}

  unfoldable pub erc20_approve : Bytes
  erc20_approve = selector_of keccak256 "approve(address,uint256)"

  unfoldable pub erc20_transfer : Bytes
  erc20_transfer = selector_of keccak256 "transfer(address,uint256)"

  unfoldable pub onramp_wrap : Bytes
  onramp_wrap = selector_of keccak256 "wrap(address,address,uint256)"

  unfoldable pub ctf_redeem : Bytes
  ctf_redeem = selector_of keccak256 "redeemPositions(address,bytes32,bytes32,uint256[])"

  unfoldable pub neg_risk_redeem : Bytes
  neg_risk_redeem = selector_of keccak256 "redeemPositions(bytes32,uint256[])"

  unfoldable pub validate_erc20_transfer :
      Bytes → Bytes → Erc20TransferIntent → Outcome FlowError (Unit {0})
  validate_erc20_transfer call_target calldata intent = do
    guard (bytes_eq call_target intent.token) (wrong_target intent.token call_target)
    args ← map_err abi (require_selector calldata erc20_transfer)
    recipient ← map_err abi (word_address args 0)
    amount ← map_err abi (word_u256 args 1)
    guard (bytes_eq recipient intent.recipient) (wrong_recipient recipient intent.recipient)
    guard (amount == intent.amount) (amount_exceeds_intent amount intent.amount)
    ok tt

  unfoldable pub validate_erc20_approve : Bytes → Bytes → Erc20ApproveIntent → Outcome FlowError ℕ
  validate_erc20_approve call_target calldata intent = do
    guard (bytes_eq call_target intent.token) (wrong_target intent.token call_target)
    args ← map_err abi (require_selector calldata erc20_approve)
    spender ← map_err abi (word_address args 0)
    amount ← map_err abi (word_u256 args 1)
    guard (bytes_eq spender intent.spender) (spender_not_allowed spender)
    guard (leb amount intent.max_amount) (approve_amount_exceeds_max amount intent.max_amount)
    ok amount

  unfoldable pub validate_pusd_wrap : Bytes → Bytes → PusdWrapIntent → Outcome FlowError ℕ
  validate_pusd_wrap call_target calldata intent = do
    guard (bytes_eq call_target collateral_onramp) (wrong_target collateral_onramp call_target)
    args ← map_err abi (require_selector calldata onramp_wrap)
    asset ← map_err abi (word_address args 0)
    to ← map_err abi (word_address args 1)
    amount ← map_err abi (word_u256 args 2)
    guard (bytes_eq asset intent.source_token) (wrong_target intent.source_token asset)
    guard (bytes_eq to intent.deposit_wallet) (wrong_recipient to intent.deposit_wallet)
    guard (leb amount intent.max_amount) (amount_exceeds_intent amount intent.max_amount)
    ok amount

  -- `U256::from(1u64) << outcome_index` for a `u8` is `2 ^ outcome_index`.
  unfoldable pub validate_ctf_redeem :
      Bytes → Bytes → CtfRedeemIntent → Outcome FlowError (Unit {0})
  validate_ctf_redeem call_target calldata intent = do
    guard (bytes_eq call_target ctf) (wrong_target ctf call_target)
    args ← map_err abi (require_selector calldata ctf_redeem)
    collateral ← map_err abi (word_address args 0)
    parent_collection ← map_err abi (word_bytes32 args 1)
    condition_id ← map_err abi (word_bytes32 args 2)
    index_sets ← map_err abi (dynamic_u256_array args 4 3)
    guard (bytes_eq collateral pusd) (wrong_collateral collateral)
    guard (bytes_eq parent_collection (replicate 32 0)) non_zero_parent_collection
    guard (bytes_eq condition_id intent.condition_id) wrong_condition_id
    guard (union_of 0 index_sets == 2 ^ intent.outcome_index) index_sets_mismatch
    ok tt

  unfoldable pub validate_neg_risk_redeem :
      Bytes → Bytes → NegRiskRedeemIntent → Outcome FlowError (Unit {0})
  validate_neg_risk_redeem call_target calldata intent = do
    guard (bytes_eq call_target neg_risk_adapter) (wrong_target neg_risk_adapter call_target)
    args ← map_err abi (require_selector calldata neg_risk_redeem)
    condition_id ← map_err abi (word_bytes32 args 0)
    amounts ← map_err abi (dynamic_u256_array args 2 1)
    guard (bytes_eq condition_id intent.condition_id) wrong_condition_id
    let oi = intent.outcome_index
    guard (ltb oi (length amounts)) (outcome_index_oob oi (length amounts))
    only_outcome oi 0 amounts
    amount ← index amounts oi
    guard (leb amount intent.max_amount) (amount_exceeds_intent amount intent.max_amount)
    ok tt
