-- ===== src/Sessions/Generic/Config.antt =====
-- crates/server/src/routes/generic_session.rs: the stored session and the intent that asks for it.
use polylayer_tee.Prelude.{
  ℕ, Bool, false, List, [], ◌++◌, Bytes, text, ltb, if◌then◌else◌, Option, none, some, Outcome, ok,
  ◌>>=◌,
}
use polylayer_tee.Json.{Value, get, get_str, as_array, strings_of}
use polylayer_tee.Api.{ApiError}
use polylayer_tee.Sessions.{req_str, req_u64}

unfoldable pub session_key : Bytes → Bytes
session_key session_id = text "gen-v1#" ++ session_id

unfoldable pub index_key : Bytes → Bytes
index_key solana_pubkey_bs58 = text "gen-idx-v1#" ++ solana_pubkey_bs58

pub record GenericSession : Type 0 where
  pub session_id : Bytes
  pub solana_pubkey : Bytes
  pub surface : Bytes
  pub whitelist_mode : Bytes
  pub whitelist_ids : List Bytes
  pub max_total_usdc : Bytes
  pub max_order_size_usdc : Bytes
  pub max_price : Bytes
  pub min_price : Bytes
  pub delegate_pubkey : Option Bytes
  pub expiry : ℕ
  pub total_usdc_filled : Bytes
  pub created_at : ℕ
  pub revoked : Bool

abbrev pub owner : GenericSession → Bytes
owner s = s.solana_pubkey

-- The row that is listed: the session without its owner, and `has_api_key`, which is false.
pub record SessionListRow : Type 0 where
  pub session_id : Bytes
  pub surface : Bytes
  pub whitelist_mode : Bytes
  pub whitelist_ids : List Bytes
  pub max_total_usdc : Bytes
  pub max_order_size_usdc : Bytes
  pub max_price : Bytes
  pub min_price : Bytes
  pub delegate_pubkey : Option Bytes
  pub expiry : ℕ
  pub total_usdc_filled : Bytes
  pub created_at : ℕ
  pub revoked : Bool
  pub has_api_key : Bool

unfoldable pub list_row : GenericSession → SessionListRow
list_row s = record {
  session_id = s.session_id;
  surface = s.surface;
  whitelist_mode = s.whitelist_mode;
  whitelist_ids = s.whitelist_ids;
  max_total_usdc = s.max_total_usdc;
  max_order_size_usdc = s.max_order_size_usdc;
  max_price = s.max_price;
  min_price = s.min_price;
  delegate_pubkey = s.delegate_pubkey;
  expiry = s.expiry;
  total_usdc_filled = s.total_usdc_filled;
  created_at = s.created_at;
  revoked = s.revoked;
  has_api_key = false;
}

unfoldable pub whitelist_of : Value → List Bytes
whitelist_of intent = elim (get intent (text "whitelist_ids")) [
  | none ↦ []
  | some v ↦ elim (as_array v) [ none ↦ [] | some a ↦ strings_of a ]
]

unfoldable pub min_price_of : Value → Bytes
min_price_of intent = elim (get_str intent (text "min_price")) [ none ↦ text "0" | some p ↦ p ]

-- The session that an intent asks for at the time `now`.
unfoldable pub session_of : Value → ℕ → Outcome ApiError GenericSession
unfolding whitelist_of min_price_of
session_of intent now = do
  solana_pubkey ← req_str intent (text "solana_pubkey")
  session_id ← req_str intent (text "session_id")
  surface ← req_str intent (text "surface")
  whitelist_mode ← req_str intent (text "whitelist_mode")
  max_total_usdc ← req_str intent (text "max_total_usdc")
  max_order_size_usdc ← req_str intent (text "max_order_size_usdc")
  max_price ← req_str intent (text "max_price")
  expiry ← req_u64 intent (text "expiry")
  ok (record {
    session_id = session_id;
    solana_pubkey = solana_pubkey;
    surface = surface;
    whitelist_mode = whitelist_mode;
    whitelist_ids = whitelist_of intent;
    max_total_usdc = max_total_usdc;
    max_order_size_usdc = max_order_size_usdc;
    max_price = max_price;
    min_price = min_price_of intent;
    delegate_pubkey = get_str intent (text "delegate_pubkey");
    expiry = expiry;
    total_usdc_filled = text "0";
    created_at = now;
    revoked = false;
  })

-- An expiry of 0 never expires, so that the row gets no time to live.
unfoldable pub ttl_of : GenericSession → Option ℕ
ttl_of session = if ltb 0 session.expiry then some session.expiry else none
