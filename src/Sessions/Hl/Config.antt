-- ===== src/Sessions/Hl/Config.antt =====
-- crates/server/src/routes/hl_session.rs: the stored session and the intent that asks for it.
use polylayer_tee.Prelude.{
  ℕ, Bool, true, false, List, ◌++◌, Bytes, bytes_eq, text, Option, none, some, Outcome, ok, err,
  ◌>>=◌, ok_or,
}
use polylayer_tee.Json.{Value, get, get_str, as_array, strings_of}
use polylayer_tee.Api.{ApiError, bad_request, not_found}
use polylayer_tee.Sessions.{req_str, req_u64}

unfoldable pub session_key : Bytes → Bytes
session_key session_id = text "hl-sess-v1#" ++ session_id

unfoldable pub index_key : Bytes → Bytes
index_key solana_pubkey_bs58 = text "hl-idx-v1#" ++ solana_pubkey_bs58

pub record HlSession : Type 0 where
  pub session_id : Bytes
  pub solana_pubkey : Bytes
  pub surface : Bytes
  pub allowed_coins : List Bytes
  pub max_total_usd : Bytes
  pub max_order_size_usd : Bytes
  pub max_leverage : ℕ
  pub delegate_pubkey : Option Bytes
  pub expiry : ℕ
  pub total_usd_filled : Bytes
  pub revoked : Bool

abbrev pub owner : HlSession → Bytes
owner s = s.solana_pubkey

unfoldable pub coins_of : Value → Option (List Bytes)
coins_of intent = elim (get intent (text "allowed_coins")) [
  | none ↦ none
  | some v ↦ elim (as_array v) [ none ↦ none | some a ↦ some (strings_of a) ]
]

-- The session that an intent asks for.
unfoldable pub session_of : Value → Outcome ApiError HlSession
unfolding coins_of
session_of intent = do
  solana_pubkey ← req_str intent (text "solana_pubkey")
  session_id ← req_str intent (text "session_id")
  allowed_coins ← ok_or (coins_of intent) (bad_request "intent_missing")
  surface ← req_str intent (text "surface")
  max_total_usd ← req_str intent (text "max_total_usd")
  max_order_size_usd ← req_str intent (text "max_order_size_usd")
  max_leverage ← req_u64 intent (text "max_leverage")
  expiry ← req_u64 intent (text "expiry")
  ok (record {
    session_id = session_id;
    solana_pubkey = solana_pubkey;
    surface = surface;
    allowed_coins = allowed_coins;
    max_total_usd = max_total_usd;
    max_order_size_usd = max_order_size_usd;
    max_leverage = max_leverage;
    delegate_pubkey = get_str intent (text "delegate_pubkey");
    expiry = expiry;
    total_usd_filled = text "0";
    revoked = false;
  })

-- `Some(s) if s.solana_pubkey == q.solana_pubkey`
unfoldable pub if_owned : Bytes → Option HlSession → Outcome ApiError HlSession
if_owned solana_pubkey none = err (not_found "session_not_found")
if_owned solana_pubkey (some s) = elim (bytes_eq s.solana_pubkey solana_pubkey) [
  | false ↦ err (not_found "session_not_found")
  | true ↦ ok s
]
