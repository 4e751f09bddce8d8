-- ===== src/Polymarket/Batch/Route.antt =====
-- crates/server/src/routes/sign_polymarket_wallet_batch.rs: the route that signs the approvals of a
-- new deposit wallet.
use polylayer_tee.Prelude.{
  ℕ, ◌==◌, Bool, true, false, ◌&&◌, if◌then◌else◌, List, [], ◌∷◌, ◌++◌, Bytes, bytes_eq, text,
  Option, none, some, Outcome, ok, ◌>>=◌, ◌>>◌, guard, ok_or, map_err,
}
use polylayer_tee.External.{External}
use polylayer_tee.Api.{ApiError, bad_request, internal, not_implemented}
use polylayer_tee.Solana.{decode_pubkey}
use polylayer_tee.Derive.{derive_user_evm_account}
use polylayer_tee.Polymarket.{polygon_chain_id, derive_deposit_wallet_address}
use polylayer_tee.Polymarket.Route.{parse_u256_field}
use polylayer_tee.Polymarket.Batch.{
  DepositWalletCall, SignBatchArgs, DepositWalletBatchSignature, bootstrap_approval_calls,
  sign_deposit_wallet_batch,
}

pub record CallInput : Type 0 where
  pub target : Bytes
  pub value : Bytes
  pub data_text : Bytes

pub record BatchReq : Type 0 where
  pub solana_pubkey : Option Bytes
  pub purpose : Option Bytes
  pub deposit_wallet : Bytes
  pub nonce : Bytes
  pub deadline : Bytes
  pub calls : List CallInput

pub record BatchDomain : Type 0 where
  pub name : Bytes
  pub version : Bytes
  pub chain_id : ℕ
  pub verifying_contract : Bytes

-- The fields of the answer.
pub record BatchResponse : Type 0 where
  pub signature : Bytes
  pub evm_address : Bytes
  pub deposit_wallet_address : Bytes
  pub nonce : Bytes
  pub deadline : Bytes
  pub calls : List CallInput
  pub domain : BatchDomain

-- `s.trim_start_matches("0x")`, which takes away every "0x" in front.
unfoldable pub trim_start_0x : Bytes → Bytes
trim_start_0x [] = []
trim_start_0x (b ∷ []) = b ∷ []
trim_start_0x (b ∷ c ∷ rest) =
    let trimmed = trim_start_0x rest in if (b == b'0') && (c == b'x') then trimmed else b ∷ c ∷ rest

-- `req.purpose.as_deref() == Some("bootstrap_approvals")`
unfoldable pub is_bootstrap : Option Bytes → Bool
is_bootstrap none = false
is_bootstrap (some purpose) = bytes_eq purpose (text "bootstrap_approvals")

-- The derived equality of calls and of lists of them.
unfoldable pub call_eq : DepositWalletCall → DepositWalletCall → Bool
call_eq a b =
    bytes_eq a.target b.target && (a.value == b.value) && bytes_eq a.data_bytes b.data_bytes

unfoldable pub calls_eq : List DepositWalletCall → List DepositWalletCall → Bool
unfolding call_eq
calls_eq [] [] = true
calls_eq [] (b ∷ bs) = false
calls_eq (a ∷ as_) [] = false
calls_eq (a ∷ as_) (b ∷ bs) = call_eq a b && calls_eq as_ bs

module _ (x : External) where
  open x use {parse_address, hex_decode, hex_encode, u256_to_string}

  unfoldable pub parse_call : CallInput → Outcome ApiError DepositWalletCall
  unfolding parse_u256_field trim_start_0x
  parse_call c = do
    target ← ok_or (parse_address c.target) (bad_request "invalid_call_target")
    value ← parse_u256_field x c.value
    data_bytes ← ok_or (hex_decode (trim_start_0x c.data_text)) (bad_request "invalid_call_data")
    ok (record { target = target; value = value; data_bytes = data_bytes })

  -- The calls in order, up to the first that is not one.
  unfoldable pub parse_supplied_calls : List CallInput → Outcome ApiError (List DepositWalletCall)
  unfolding parse_call
  parse_supplied_calls [] = ok []
  parse_supplied_calls (c ∷ cs) = do
    call ← parse_call c
    calls ← parse_supplied_calls cs
    ok (call ∷ calls)

  -- Calls that the request repeats are the calls that are signed.
  unfoldable pub check_supplied :
      List CallInput → List DepositWalletCall → Outcome ApiError (Unit {0})
  unfolding calls_eq
  check_supplied [] calls = ok tt
  check_supplied (c ∷ cs) calls = do
    supplied ← parse_supplied_calls (c ∷ cs)
    guard (calls_eq supplied calls) (bad_request "non_canonical_bootstrap_batch")

  unfoldable pub hex_0x : Bytes → Bytes
  hex_0x bs = text "0x" ++ hex_encode bs

  unfoldable pub calls_json : List DepositWalletCall → List CallInput
  unfolding hex_0x
  calls_json [] = []
  calls_json (c ∷ cs) =
      record {
        target = hex_0x c.target;
        value = u256_to_string c.value;
        data_text = hex_0x c.data_bytes;
      }
      ∷ calls_json cs

  unfoldable pub batch_answer :
      BatchReq → Bytes → List DepositWalletCall → DepositWalletBatchSignature → BatchResponse
  unfolding calls_json
  batch_answer req deposit_wallet calls sig = record {
    signature = hex_0x sig.signature;
    evm_address = hex_0x sig.evm_address;
    deposit_wallet_address = hex_0x sig.wallet_address;
    nonce = req.nonce;
    deadline = req.deadline;
    calls = calls_json calls;
    domain = record {
      name = text "DepositWallet";
      version = text "1";
      chain_id = polygon_chain_id;
      verifying_contract = hex_0x deposit_wallet;
    };
  }

  -- POST /v1/sign/polymarket-wallet-batch, in an enclave with the seed
  unfoldable pub sign_batch : Bytes → BatchReq → Outcome ApiError BatchResponse
  unfolding is_bootstrap check_supplied bootstrap_approval_calls
  sign_batch seed req = do
    guard (is_bootstrap req.purpose) (not_implemented "wallet_batch_purpose")
    solana_pubkey ← ok_or req.solana_pubkey (bad_request "missing_solana_pubkey")
    pubkey ← map_err (λ e. bad_request "invalid_solana_pubkey") (decode_pubkey x solana_pubkey)
    derived ← map_err (λ e. internal) (derive_user_evm_account x seed pubkey)
    deposit_wallet ← ok_or (parse_address req.deposit_wallet) (bad_request "invalid_deposit_wallet")
    let expected = derive_deposit_wallet_address x derived.address
    guard (bytes_eq deposit_wallet expected) (bad_request "deposit_wallet_mismatch")
    nonce ← parse_u256_field x req.nonce
    deadline ← parse_u256_field x req.deadline
    let calls = bootstrap_approval_calls
    check_supplied req.calls calls
    let args : SignBatchArgs = record {
      priv_key = derived.private_key;
      wallet_address = deposit_wallet;
      nonce = nonce;
      deadline = deadline;
      calls = calls;
    }
    sig ← map_err (λ e. bad_request "batch_sign") (sign_deposit_wallet_batch x args)
    ok (batch_answer req deposit_wallet calls sig)
