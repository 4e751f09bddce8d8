-- ===== src/Jupiter/Route.antt =====
-- crates/server/src/routes/sign_jupiter_tx.rs: the route that signs a Jupiter trade with the user's
-- delegate key.
pub mod Traded
use polylayer_tee.Prelude.{
  ℕ, zero, suc, ◌+◌, Bool, true, false, List, [], ◌∷◌, map, Bytes, bytes_eq, text, ◌==◌, not,
  if◌then◌else◌, get_elem?, replicate, Option, none, some, Outcome, ok, err, guard, ok_or, map_err,
  expect, ◌>>=◌, ◌>>◌,
}
use polylayer_tee.External.{External}
use polylayer_tee.Json.{Value, get_str}
use polylayer_tee.Api.{ApiError, bad_request, internal, AppState, now_unix, Exec, lift, continue}
use polylayer_tee.Store.{Rows, Codec}
use polylayer_tee.Solana.{decode_pubkey}
use polylayer_tee.Intents.{IntentVerifyArgs, verify_intent_signature}
use polylayer_tee.Delegate.{SolanaDelegate, derive_jupiter_delegate, public_key_bs58}
use polylayer_tee.Jupiter.Bounds.{JupiterSession}
use polylayer_tee.Jupiter.Session.{debit}
use polylayer_tee.Jupiter.Decode.{
  DecodeError, DecodedAccounts, DecodedJupiterIx, increase, decrease, decode_jupiter_perps_ix,
  hard_coded, custody_to_asset,
}
use polylayer_tee.Jupiter.Scan.{scan}
use polylayer_tee.Jupiter.Sign.{
  Instruction, Message, VersionedTransaction, Wire, SignedJupiterTx, sign_versioned_transaction,
}

pub record TradeReq : Type 0 where
  pub intent : Value
  pub intent_sig : Bytes
  pub unsigned_tx_b64 : Bytes

pub record TradeResponse : Type 0 where
  pub signed_tx_b64 : Bytes
  pub signature_index : ℕ
  pub delegate_pubkey_bs58 : Bytes
  pub decoded_asset : Bytes

unfoldable pub custody_of : DecodedJupiterIx → Bytes
custody_of (increase args accounts) = accounts.custody
custody_of (decrease args accounts) = accounts.custody

unfoldable pub trade_size_usd : DecodedJupiterIx → ℕ
trade_size_usd (increase args accounts) = args.size_usd_delta
trade_size_usd (decrease args accounts) = args.size_usd_delta

unfoldable pub trade_args : TradeReq → ℕ → IntentVerifyArgs
trade_args req now = record {
  intent = req.intent;
  signature_bs58 = req.intent_sig;
  expected_pubkey_bs58 = none;
  enforce_expiry = true;
  now_unix_secs = now;
}

-- What the checks find.
pub record Trade : Type 0 where
  pub now : ℕ
  pub decoded : DecodedJupiterIx
  pub asset_label : Bytes
  pub solana_pubkey_bs58 : Bytes
  pub solana_pubkey : Bytes

module _ (x : External) (wire : Wire) where
  -- The one perpetuals instruction of the transaction
  unfoldable pub find_trade : Bytes → Outcome ApiError DecodedJupiterIx
  find_trade unsigned_tx_b64 = do
    raw ← ok_or (wire.b64_decode unsigned_tx_b64) (bad_request "base64")
    tx ← ok_or (wire.deserialize raw) (bad_request "tx_deserialize")
    (perps_ixes, decoded_match) ←
        scan x tx.message.static_account_keys tx.message.instructions 0 none
    guard (perps_ixes == 1) (bad_request "perps_ix_count")
    decoded ← expect decoded_match
    ok decoded

  -- The label of its asset, which the intent has to name
  unfoldable pub match_asset : DecodedJupiterIx → Bytes → Outcome ApiError Bytes
  match_asset decoded asset_intent = do
    asset ← custody_to_asset x (custody_of decoded)
    asset_label ← ok_or asset (bad_request "unknown_custody")
    guard (bytes_eq asset_label asset_intent) (bad_request "asset_mismatch")
    ok asset_label

  -- The handler up to its session check: nothing of it reads or writes the session table.
  unfoldable pub check_trade : Option ℕ → TradeReq → Outcome ApiError Trade
  unfolding trade_args
  check_trade clock req = do
    now ← now_unix clock
    map_err (λ e. bad_request "intent_verify") (verify_intent_signature x (trade_args req now))
    asset_intent ← ok_or (get_str req.intent (text "asset")) (bad_request "intent_missing")
    decoded ← find_trade req.unsigned_tx_b64
    asset_label ← match_asset decoded asset_intent
    solana_pubkey_bs58 ←
        ok_or (get_str req.intent (text "solana_pubkey")) (bad_request "intent_missing")
    solana_pubkey ←
        map_err (λ e. bad_request "invalid_solana_pubkey") (decode_pubkey x solana_pubkey_bs58)
    ok (record {
      now = now;
      decoded = decoded;
      asset_label = asset_label;
      solana_pubkey_bs58 = solana_pubkey_bs58;
      solana_pubkey = solana_pubkey;
    })

  -- The signature of the user's delegate, once the session has been debited.
  unfoldable pub sign_trade : AppState → TradeReq → Trade → Outcome ApiError TradeResponse
  sign_trade app req t = do
    d ← map_err (λ e. internal) (derive_jupiter_delegate x app.seed t.solana_pubkey)
    signed ←
        map_err (λ e. bad_request "sign")
          (sign_versioned_transaction x wire req.unsigned_tx_b64 d.private_key)
    ok (record {
      signed_tx_b64 = signed.signed_tx_b64;
      signature_index = signed.signature_index;
      delegate_pubkey_bs58 = public_key_bs58 x d;
      decoded_asset = t.asset_label;
    })

  module _ (rows : Rows) (json : Codec JupiterSession) (app : AppState) where
    unfoldable pub handler : Option ℕ → TradeReq → Exec rows.State TradeResponse
    handler clock req s =
        continue (check_trade clock req)
          (λ t. λ s'.
            let (debited, s'') =
              debit x rows json app t.solana_pubkey_bs58 t.asset_label (trade_size_usd t.decoded)
                t.now s' in
            continue debited (λ _. lift (sign_trade app req t)) s'')
          s
