-- ===== src/Sessions/Hl.antt =====
-- crates/server/src/routes/hl_session.rs: Hyperliquid sessions.
pub mod Config
pub mod Created
pub mod Revoked
pub mod Shown
pub mod Distinct
use polylayer_tee.Prelude.{
  ℕ, Bool, true, false, List, ◌++◌, Bytes, bytes_eq, text, Option, none, some, Outcome, ok, err,
}
use polylayer_tee.External.{External}
use polylayer_tee.Json.{Value, get, get_str, as_array, strings_of}
use polylayer_tee.Api.{
  ApiError, bad_request, not_found, AppState, sessions, now_unix, Exec, pure, lift, ◌>>=◌, ◌>>◌,
}
use polylayer_tee.Store.{Rows, Codec, store_get, store_put}
use polylayer_tee.Sessions.{
  IntentBody, SessionIndex, req_str, req_u64, verified, ids_of, append_to_index, list_rows,
}
use polylayer_tee.Sessions.Hl.Config.{
  session_key, index_key, HlSession, owner, if_owned, session_of,
}

module _ (rows : Rows) (json : Codec HlSession) where
  -- `Some(mut s) if s.solana_pubkey == solana_pubkey`
  unfoldable pub revoke_owned : Bytes → Bytes → Option HlSession → Exec rows.State Bool
  revoke_owned key solana_pubkey none st = (ok false, st)
  revoke_owned key solana_pubkey (some s) st = elim (bytes_eq s.solana_pubkey solana_pubkey) [
    | false ↦ (ok false, st)
    | true ↦ (store_put rows json key (record s { revoked = true }) (some s.expiry) >> pure true) st
  ]

module _ (x : External) (rows : Rows) (json : Codec HlSession) (indices : Codec SessionIndex)
    (app : AppState) where
  -- The writes of `create`.
  unfoldable pub store_session : HlSession → Exec rows.State HlSession
  store_session session = do
    store_put rows json (session_key session.session_id) session (some session.expiry)
    append_to_index rows indices (index_key session.solana_pubkey) session.session_id
    pure session

  -- POST /v1/hl-session/create
  unfoldable pub create : IntentBody → Option ℕ → Exec rows.State HlSession
  unfolding store_session
  create req clock = do
    lift (sessions app)
    now ← lift (now_unix clock)
    lift (verified x req now)
    session ← lift (session_of req.intent)
    store_session session

  -- POST /v1/hl-session/revoke
  unfoldable pub revoke : IntentBody → Option ℕ → Exec rows.State Bool
  unfolding revoke_owned
  revoke req clock = do
    lift (sessions app)
    now ← lift (now_unix clock)
    lift (verified x req now)
    solana_pubkey ← lift (req_str req.intent (text "solana_pubkey"))
    session_id ← lift (req_str req.intent (text "session_id"))
    let key = session_key session_id
    row ← store_get rows json key
    revoke_owned rows json key solana_pubkey row

  -- GET /v1/hl-session/get
  unfoldable pub get_session : Bytes → Bytes → Exec rows.State HlSession
  unfolding if_owned
  get_session solana_pubkey session_id = do
    lift (sessions app)
    row ← store_get rows json (session_key session_id)
    lift (if_owned solana_pubkey row)

  -- GET /v1/hl-session/list
  unfoldable pub list : Bytes → Exec rows.State (List HlSession)
  list solana_pubkey = do
    lift (sessions app)
    index ← store_get rows indices (index_key solana_pubkey)
    list_rows rows json session_key owner solana_pubkey (ids_of index)
