-- ===== src/Sessions/Generic.antt =====
-- crates/server/src/routes/generic_session.rs: sessions of the Polymarket order book.
pub mod Config
pub mod Created
use polylayer_tee.Prelude.{
  ℕ, Bool, true, false, List, map, [], ◌++◌, Bytes, bytes_eq, text, ltb, if◌then◌else◌, Option,
  none, some, Outcome, ok, err,
}
use polylayer_tee.External.{External}
use polylayer_tee.Json.{Value, get, get_str, as_array, strings_of}
use polylayer_tee.Api.{ApiError, AppState, sessions, now_unix, Exec, pure, lift, ◌>>=◌, ◌>>◌}
use polylayer_tee.Store.{Rows, Codec, store_get, store_put}
use polylayer_tee.Sessions.{
  IntentBody, SessionIndex, req_str, req_u64, verified, ids_of, append_to_index, list_rows,
}
use polylayer_tee.Sessions.Generic.Config.{
  session_key, index_key, GenericSession, owner, SessionListRow, list_row, whitelist_of,
  min_price_of, session_of, ttl_of,
}

module _ (rows : Rows) (json : Codec GenericSession) where
  unfoldable pub revoke_owned : Bytes → Bytes → Option GenericSession → Exec rows.State (Unit {0})
  unfolding ttl_of
  revoke_owned key solana_pubkey none st = (ok tt, st)
  revoke_owned key solana_pubkey (some s) st = elim (bytes_eq s.solana_pubkey solana_pubkey) [
    | false ↦ (ok tt, st)
    | true ↦ store_put rows json key (record s { revoked = true }) (ttl_of s) st
  ]

module _ (x : External) (rows : Rows) (json : Codec GenericSession) (indices : Codec SessionIndex)
    (app : AppState) where
  -- The writes of `create`.
  unfoldable pub store_session : GenericSession → Exec rows.State Bytes
  store_session session = do
    store_put rows json (session_key session.session_id) session (ttl_of session)
    append_to_index rows indices (index_key session.solana_pubkey) session.session_id
    pure session.session_id

  -- POST /v1/session/create, which answers with the id
  unfoldable pub create : IntentBody → Option ℕ → Exec rows.State Bytes
  unfolding store_session
  create req clock = do
    lift (sessions app)
    now ← lift (now_unix clock)
    lift (verified x req now)
    session ← lift (session_of req.intent now)
    store_session session

  -- POST /v1/session/revoke
  unfoldable pub revoke : IntentBody → Option ℕ → Exec rows.State (Unit {0})
  unfolding revoke_owned
  revoke req clock = do
    lift (sessions app)
    now ← lift (now_unix clock)
    lift (verified x req now)
    solana_pubkey ← lift (req_str req.intent (text "solana_pubkey"))
    session_id ← lift (req_str req.intent (text "session_id"))
    let key = session_key session_id
    row ← store_get rows json key
    revoke_owned rows json key solana_pubkey row

  -- GET /v1/session/list
  unfoldable pub list : Bytes → Exec rows.State (List SessionListRow)
  list solana_pubkey = do
    lift (sessions app)
    index ← store_get rows indices (index_key solana_pubkey)
    found ← list_rows rows json session_key owner solana_pubkey (ids_of index)
    pure (map list_row found)
