-- ===== src/Jupiter/Session.antt =====
-- crates/server/src/routes/jupiter_session.rs: the routes that store, read and revoke a user's
-- Jupiter session, and the debit of crates/server/src/routes/sign_jupiter_tx.rs.
pub mod Ledger
pub mod Debits
use polylayer_tee.Prelude.{
  ℕ, Bool, true, false, List, [], ◌∷◌, ◌++◌, Bytes, text, Option, none, some, Outcome, ok, err,
  map_err,
}
use polylayer_tee.External.{External}
use polylayer_tee.Api.{
  ApiError, bad_request, internal, conflict, AppState, sessions, now_unix, Exec, pure, lift, ◌>>=◌,
  ◌>>◌,
}
use polylayer_tee.Store.{Rows, Codec, store_get, store_put}
use polylayer_tee.Solana.{decode_pubkey}
use polylayer_tee.Delegate.{SolanaDelegate, derive_jupiter_delegate, public_key_bs58}
use polylayer_tee.Numeric.{to_string}
use polylayer_tee.Jupiter.Bounds.{
  JupiterSession, SessionBoundError, session_revoked, expired, asset_not_allowed,
  per_intent_exceeded, cumulative_exceeded, parse, check_session_bounds,
}

unfoldable pub jup_session_key : Bytes → Bytes
jup_session_key solana_pubkey_bs58 = text "jup-v1#" ++ solana_pubkey_bs58

pub record UpsertBody : Type 0 where
  pub solana_pubkey : Bytes
  pub per_intent_max_size_usdc_atoms : Bytes
  pub cumulative_size_usdc_cap : Bytes
  pub allowed_assets : List Bytes
  pub expires_at_unix_ts : ℕ
  pub surface : Option Bytes

abbrev or_default {ℓ} : {A : Type ℓ} → Option A → A → A
or_default none d = d
or_default (some a) d = a

-- The counter and the creation time survive from a prior row.
unfoldable pub used_after : Option JupiterSession → Bytes
used_after none = text "0"
used_after (some p) = p.cumulative_size_usdc_used

unfoldable pub created_after : Option JupiterSession → ℕ → ℕ
created_after none now = now
created_after (some p) now = p.created_at_unix_ts

unfoldable pub upserted : UpsertBody → Bytes → Option JupiterSession → ℕ → JupiterSession
unfolding used_after created_after
upserted req delegate_b58 prior now = record {
  solana_pubkey = req.solana_pubkey;
  delegate_pubkey_b58 = delegate_b58;
  per_intent_max_size_usdc_atoms = req.per_intent_max_size_usdc_atoms;
  cumulative_size_usdc_cap = req.cumulative_size_usdc_cap;
  cumulative_size_usdc_used = used_after prior;
  allowed_assets = req.allowed_assets;
  expires_at_unix_ts = req.expires_at_unix_ts;
  created_at_unix_ts = created_after prior now;
  revoked = false;
  surface = or_default req.surface (text "browser");
}

-- How the sign route answers each bound that a trade violates.
unfoldable pub bound_error : SessionBoundError → ApiError
bound_error session_revoked = bad_request "session_revoked"
bound_error expired = bad_request "session_expired"
bound_error asset_not_allowed = bad_request "asset_not_allowed"
bound_error per_intent_exceeded = conflict "per_intent_exceeded"
bound_error cumulative_exceeded = conflict "cumulative_exceeded"
bound_error (parse field) = internal

module _ (rows : Rows) (json : Codec JupiterSession) where
  revoke_row : Bytes → Option JupiterSession → Exec rows.State (Option JupiterSession)
  revoke_row key none = pure none
  revoke_row key (some s) = do
    let s' = record s { revoked = true }
    store_put rows json key s' (some s.expires_at_unix_ts)
    pure (some s')

  upsert_row :
      Bytes → UpsertBody → Bytes → ℕ → Option JupiterSession → Exec rows.State JupiterSession
  upsert_row key req delegate_b58 now prior = do
    let session = upserted req delegate_b58 prior now
    store_put rows json key session (some req.expires_at_unix_ts)
    pure session

  pub debit_row : Bytes → Bytes → ℕ → ℕ → Option JupiterSession → Exec rows.State (Unit {0})
  debit_row key asset_label trade_size_usd now none = pure tt
  debit_row key asset_label trade_size_usd now (some session) = do
    new_used ←
        lift (map_err bound_error (check_session_bounds session asset_label trade_size_usd now))
    store_put rows json key (record session { cumulative_size_usdc_used = to_string new_used })
        (some session.expires_at_unix_ts)

module _ (x : External) (rows : Rows) (json : Codec JupiterSession) (app : AppState) where
  -- GET /v1/jupiter/delegate
  unfoldable pub delegate : Bytes → Exec rows.State SolanaDelegate
  delegate solana = do
    pk ← lift (map_err (λ e. bad_request "invalid_solana_pubkey") (decode_pubkey x solana))
    lift (map_err (λ e. internal) (derive_jupiter_delegate x app.seed pk))

  -- POST /v1/jupiter/session/get
  unfoldable pub session_get : Bytes → Exec rows.State (Option JupiterSession)
  session_get solana_pubkey = do
    lift (sessions app)
    store_get rows json (jup_session_key solana_pubkey)

  -- POST /v1/jupiter/session/upsert
  unfoldable pub session_upsert : UpsertBody → Option ℕ → Exec rows.State JupiterSession
  unfolding upsert_row
  session_upsert req clock = do
    lift (sessions app)
    pk ←
        lift
          (map_err (λ e. bad_request "invalid_solana_pubkey") (decode_pubkey x req.solana_pubkey))
    d ← lift (map_err (λ e. internal) (derive_jupiter_delegate x app.seed pk))
    now ← lift (now_unix clock)
    let key = jup_session_key req.solana_pubkey
    prior ← store_get rows json key
    upsert_row rows json key req (public_key_bs58 x d) now prior

  -- POST /v1/jupiter/session/revoke
  unfoldable pub session_revoke : Bytes → Exec rows.State (Option JupiterSession)
  unfolding revoke_row
  session_revoke solana_pubkey = do
    lift (sessions app)
    let key = jup_session_key solana_pubkey
    row ← store_get rows json key
    revoke_row rows json key row

  -- The part of `sign_jupiter_tx::handler` between its validation and its signature: a user without
  -- a stored session, or an enclave without a store, passes.
  unfoldable pub debit : Bytes → Bytes → ℕ → ℕ → Exec rows.State (Unit {0})
  unfolding debit_row
  debit solana_pubkey_bs58 asset_label trade_size_usd now = elim app.has_sessions [
    | false ↦ pure tt
    | true ↦ do
      let key = jup_session_key solana_pubkey_bs58
      row ← store_get rows json key
      debit_row rows json key asset_label trade_size_usd now row
  ]
