-- ===== src/Polymarket/Batch.antt =====
-- crates/core/src/polymarket/batch.rs: the signature of a batch of calls of a deposit wallet, and
-- the one batch that is signed, the approvals of a new wallet. Its copies of `eip712_digest`,
-- `pack_eth_signature` and the word of an address are those of sign.rs.
pub mod Route
pub mod Signs
pub mod Supplied
use polylayer_tee.Prelude.{
  ℕ, ◌-◌, ◌^◌, Bool, true, false, List, [], ◌∷◌, ◌++◌, Bytes, text, be_bytes, ltb, ◌==◌, not,
  length, replicate, Outcome, ok, ◌>>=◌, ◌>>◌, guard, ok_or,
}
use polylayer_tee.External.{External}
use polylayer_tee.Derive.{evm_address_from_verifying_key}
use polylayer_tee.Polymarket.{
  polygon_chain_id, ctf_exchange_v2_address, neg_risk_ctf_exchange_v2_address, addr_word,
  eip712_domain_type_hash, deposit_wallet_domain_name_hash, deposit_wallet_domain_version_hash,
  eip712_digest, pack_eth_signature,
}

pub data BatchError : Type 0 where
  bad_key : BatchError
  sign : BatchError
  empty_batch : BatchError
  batch_too_long : ℕ → BatchError

-- A single call within a batch.
pub record DepositWalletCall : Type 0 where
  pub target : Bytes
  pub value : ℕ
  pub data_bytes : Bytes

pub record DepositWalletBatchSignature : Type 0 where
  pub signature : Bytes
  pub evm_address : Bytes
  pub wallet_address : Bytes

pub record SignBatchArgs : Type 0 where
  pub priv_key : Bytes
  pub wallet_address : Bytes
  pub nonce : ℕ
  pub deadline : ℕ
  pub calls : List DepositWalletCall

abbrev pub pusd_contract_address : Bytes
pusd_contract_address = be_bytes 20 0xC011a7E12a19f7B1f670d46F03B03f3342E82DFB

abbrev pub ctf_contract_address : Bytes
ctf_contract_address = be_bytes 20 0x4D97DCd97eC945f40cF65F87097ACe5EA0476045

abbrev neg_risk_adapter_address : Bytes
neg_risk_adapter_address = be_bytes 20 0xd91E80cF2E7be2e162c6513ceD06f1dD0dA35296

-- `approve(address,uint256)` and `setApprovalForAll(address,bool)`
abbrev approve_selector : Bytes
approve_selector = 0x09 ∷ 0x5e ∷ 0xa7 ∷ 0xb3 ∷ []

abbrev set_approval_for_all_selector : Bytes
set_approval_for_all_selector = 0xa2 ∷ 0x2c ∷ 0xb4 ∷ 0x65 ∷ []

abbrev bootstrap_spenders : List Bytes
bootstrap_spenders =
    ctf_exchange_v2_address ∷ neg_risk_ctf_exchange_v2_address ∷ neg_risk_adapter_address ∷ []

unfoldable pub encode_approve : Bytes → ℕ → Bytes
encode_approve spender amount = approve_selector ++ (addr_word spender ++ be_bytes 32 amount)

-- `u8::from(approved)`
abbrev flag : Bool → ℕ
flag true = 1
flag false = 0

unfoldable pub encode_set_approval_for_all : Bytes → Bool → Bytes
encode_set_approval_for_all operator approved =
    set_approval_for_all_selector ++ (addr_word operator ++ (replicate 31 0 ++ flag approved ∷ []))

-- The two calls for each spender, in order.
unfoldable pub approvals : List Bytes → List DepositWalletCall
approvals [] = []
approvals (spender ∷ spenders) =
    record {
      target = pusd_contract_address;
      value = 0;
      data_bytes = encode_approve spender (2 ^ 256 - 1);
    }
    ∷ record {
      target = ctf_contract_address;
      value = 0;
      data_bytes = encode_set_approval_for_all spender true;
    }
    ∷ approvals spenders

unfoldable pub bootstrap_approval_calls : List DepositWalletCall
unfolding approvals
bootstrap_approval_calls = approvals bootstrap_spenders

module _ (x : External) where
  open x use {keccak256, signing_key_ok, verifying_key, sign_prehash_recoverable}

  unfoldable pub call_type_hash : Bytes
  call_type_hash = keccak256 (text "Call(address target,uint256 value,bytes data)")

  unfoldable pub batch_type_hash : Bytes
  batch_type_hash = keccak256 (
      text
        "Batch(address wallet,uint256 nonce,uint256 deadline,Call[] calls)Call(address target,uint256 value,bytes data)")

  unfoldable pub batch_domain_separator : Bytes → Bytes
  batch_domain_separator wallet_address = keccak256 (
      eip712_domain_type_hash x
      ++ (deposit_wallet_domain_name_hash x
          ++ (deposit_wallet_domain_version_hash x
              ++ (be_bytes 32 polygon_chain_id ++ addr_word wallet_address))))

  unfoldable pub hash_struct_call : DepositWalletCall → Bytes
  hash_struct_call call = keccak256 (
      call_type_hash
      ++ (addr_word call.target ++ (be_bytes 32 call.value ++ keccak256 call.data_bytes)))

  -- The hashes of the calls, one behind the other.
  unfoldable pub calls_concat : List DepositWalletCall → Bytes
  calls_concat [] = []
  calls_concat (call ∷ calls) = hash_struct_call call ++ calls_concat calls

  unfoldable pub hash_struct_batch : Bytes → ℕ → ℕ → List DepositWalletCall → Bytes
  hash_struct_batch wallet nonce deadline calls = keccak256 (
      batch_type_hash
      ++ (addr_word wallet
          ++ (be_bytes 32 nonce ++ (be_bytes 32 deadline ++ keccak256 (calls_concat calls)))))

  -- What is signed for a batch.
  unfoldable pub batch_digest : Bytes → ℕ → ℕ → List DepositWalletCall → Bytes
  batch_digest wallet nonce deadline calls =
      eip712_digest x (batch_domain_separator wallet)
        (hash_struct_batch wallet nonce deadline calls)

  unfoldable pub sign_deposit_wallet_batch :
      SignBatchArgs → Outcome BatchError DepositWalletBatchSignature
  sign_deposit_wallet_batch args = do
    guard (not (length args.calls == 0)) empty_batch
    guard (not (ltb 24 (length args.calls))) (batch_too_long (length args.calls))
    guard (signing_key_ok args.priv_key) bad_key
    let evm_address = evm_address_from_verifying_key x (verifying_key args.priv_key)
    let digest = batch_digest args.wallet_address args.nonce args.deadline args.calls
    (sig, recovery_id) ← ok_or (sign_prehash_recoverable args.priv_key digest) sign
    ok (record {
      signature = pack_eth_signature sig recovery_id;
      evm_address = evm_address;
      wallet_address = args.wallet_address;
    })
