-- ===== src/Sessions/Polyleverage.antt =====
-- crates/server/src/routes/polyleverage_session.rs: the one session of a user that mirrors a
-- session on the chain.
pub mod Mirrored
use polylayer_tee.Prelude.{
  ℕ, Bool, true, false, List, [], ◌++◌, Bytes, text, Option, none, some, Outcome, ok, err, map_err,
}
use polylayer_tee.External.{External}
use polylayer_tee.Api.{
  ApiError, bad_request, internal, AppState, sessions, now_unix, Exec, pure, lift, ◌>>=◌, ◌>>◌,
}
use polylayer_tee.Store.{Rows, Codec, store_get, store_put}
use polylayer_tee.Solana.{decode_pubkey}
use polylayer_tee.Delegate.{SolanaDelegate, derive_session_delegate, public_key_bs58}

unfoldable pub plv_session_key : Bytes → Bytes
plv_session_key solana_pubkey_bs58 = text "plv-v1#" ++ solana_pubkey_bs58

pub record PolyleverageSession : Type 0 where
  pub solana_pubkey : Bytes
  pub delegate_pubkey_b58 : Bytes
  pub expires_at_slot : Bytes
  pub per_intent_max_collateral_atoms : Bytes
  pub cumulative_collateral_used : Bytes
  pub cumulative_collateral_cap : Bytes
  pub allowed_instruments : List Bytes
  pub created_at_unix_ts : ℕ
  pub revoked : Bool
  pub on_chain_version_seen : Bytes

pub record MirrorBody : Type 0 where
  pub solana_pubkey : Bytes
  pub expires_at_slot : Bytes
  pub per_intent_max_collateral_atoms : Bytes
  pub cumulative_collateral_cap : Bytes
  pub allowed_instruments : List Bytes
  pub cumulative_collateral_used : Option Bytes
  pub revoked : Option Bool
  pub on_chain_version_seen : Option Bytes

abbrev pub unwrap_or {ℓ} : {A : Type ℓ} → Option A → A → A
unwrap_or none d = d
unwrap_or (some a) d = a

-- The counter of the request, or else of the prior row, or else 0.
unfoldable pub cumulative_used : Option Bytes → Option PolyleverageSession → Bytes
cumulative_used (some used) prior = used
cumulative_used none (some p) = p.cumulative_collateral_used
cumulative_used none none = text "0"

unfoldable pub created_at : Option PolyleverageSession → ℕ → ℕ
created_at none now = now
created_at (some p) now = p.created_at_unix_ts

unfoldable pub mirrored : MirrorBody → Bytes → Option PolyleverageSession → ℕ → PolyleverageSession
unfolding cumulative_used created_at
mirrored req delegate_b58 prior now = record {
  solana_pubkey = req.solana_pubkey;
  delegate_pubkey_b58 = delegate_b58;
  expires_at_slot = req.expires_at_slot;
  per_intent_max_collateral_atoms = req.per_intent_max_collateral_atoms;
  cumulative_collateral_used = cumulative_used req.cumulative_collateral_used prior;
  cumulative_collateral_cap = req.cumulative_collateral_cap;
  allowed_instruments = req.allowed_instruments;
  created_at_unix_ts = created_at prior now;
  revoked = unwrap_or req.revoked false;
  on_chain_version_seen = unwrap_or req.on_chain_version_seen [];
}

module _ (rows : Rows) (json : Codec PolyleverageSession) where
  unfoldable pub mirror_row :
      Bytes
      → MirrorBody
      → Bytes
      → ℕ
      → Option PolyleverageSession
      → Exec rows.State PolyleverageSession
  unfolding mirrored
  mirror_row key req delegate_b58 now prior = do
    let session = mirrored req delegate_b58 prior now
    store_put rows json key session none
    pure session

  unfoldable pub revoke_mirror :
      Bytes → Option PolyleverageSession → Exec rows.State (Option PolyleverageSession)
  revoke_mirror key none = pure none
  revoke_mirror key (some s) = do
    let s' = record s { revoked = true }
    store_put rows json key s' none
    pure (some s')

module _ (x : External) (rows : Rows) (json : Codec PolyleverageSession) (app : AppState) where
  -- GET /v1/polyleverage/delegate
  unfoldable pub delegate : Bytes → Exec rows.State SolanaDelegate
  delegate solana = do
    pk ← lift (map_err (λ e. bad_request "invalid_solana_pubkey") (decode_pubkey x solana))
    lift (map_err (λ e. internal) (derive_session_delegate x app.seed pk))

  -- POST /v1/polyleverage/session/get
  unfoldable pub session_get : Bytes → Exec rows.State (Option PolyleverageSession)
  session_get solana_pubkey = do
    lift (sessions app)
    store_get rows json (plv_session_key solana_pubkey)

  -- POST /v1/polyleverage/session/upsert
  unfoldable pub session_upsert : MirrorBody → Option ℕ → Exec rows.State PolyleverageSession
  unfolding mirror_row
  session_upsert req clock = do
    lift (sessions app)
    d ← delegate req.solana_pubkey
    now ← lift (now_unix clock)
    let key = plv_session_key req.solana_pubkey
    prior ← store_get rows json key
    mirror_row rows json key req (public_key_bs58 x d) now prior

  -- POST /v1/polyleverage/session/revoke
  unfoldable pub session_revoke : Bytes → Exec rows.State (Option PolyleverageSession)
  unfolding revoke_mirror
  session_revoke solana_pubkey = do
    lift (sessions app)
    let key = plv_session_key solana_pubkey
    row ← store_get rows json key
    revoke_mirror rows json key row
