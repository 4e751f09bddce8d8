-- ===== src/Permits/Route.antt =====
-- crates/server/src/routes/sign_hl_bridge_permit.rs: the route that signs a permit for the bridge.
pub mod Signs
use polylayer_tee.Prelude.{ℕ, ◌++◌, Bytes, text, Outcome, ok, ◌>>=◌, ok_or, map_err}
use polylayer_tee.External.{External}
use polylayer_tee.Api.{ApiError, bad_request, internal}
use polylayer_tee.Solana.{decode_pubkey}
use polylayer_tee.Derive.{derive_user_evm_account}
use polylayer_tee.Permits.{
  hl_bridge2_arbitrum_address, Erc2612PermitSplitSig, sign_usdc_permit_arbitrum,
}

pub record PermitReq : Type 0 where
  pub solana_pubkey : Bytes
  pub value : Bytes
  pub nonce : Bytes
  pub deadline : Bytes

-- The fields of the answer.
pub record PermitResponse : Type 0 where
  pub r : Bytes
  pub s : Bytes
  pub v : ℕ
  pub signature : Bytes
  pub evm_address : Bytes
  pub spender : Bytes

module _ (x : External) where
  open x use {hex_encode, parse_u256}

  unfoldable pub permit_answer : Erc2612PermitSplitSig → Bytes → PermitResponse
  permit_answer sig address = record {
    r = text "0x" ++ hex_encode sig.r;
    s = text "0x" ++ hex_encode sig.s;
    v = sig.v;
    signature = text "0x" ++ hex_encode sig.signature;
    evm_address = text "0x" ++ hex_encode address;
    spender = text "0x" ++ hex_encode hl_bridge2_arbitrum_address;
  }

  -- POST /v1/sign/hl-bridge-permit, in an enclave with the seed
  unfoldable pub sign_bridge_permit : Bytes → PermitReq → Outcome ApiError PermitResponse
  sign_bridge_permit seed req = do
    pubkey ← map_err (λ e. bad_request "invalid_solana_pubkey") (decode_pubkey x req.solana_pubkey)
    derived ← map_err (λ e. internal) (derive_user_evm_account x seed pubkey)
    value ← ok_or (parse_u256 req.value) (bad_request "invalid_value")
    nonce ← ok_or (parse_u256 req.nonce) (bad_request "invalid_nonce")
    deadline ← ok_or (parse_u256 req.deadline) (bad_request "invalid_deadline")
    sig ←
        map_err (λ e. bad_request "permit_sign")
          (sign_usdc_permit_arbitrum x derived.private_key derived.address
            hl_bridge2_arbitrum_address value nonce deadline)
    ok (permit_answer sig derived.address)
