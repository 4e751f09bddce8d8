-- ===== src/Jupiter/Bounds.antt =====
-- `check_session_bounds` of crates/server/src/routes/jupiter_session.rs.
pub mod Fits
use polylayer_tee.Prelude.{
  ℕ, Bool, ◌||◌, false, List, [], ◌∷◌, Bytes, bytes_eq, ltb, leb, not, Outcome, ok, ◌>>=◌, ◌>>◌,
  guard, ok_or, add_u128,
}
use Prim.Native.String.{String}
use polylayer_tee.Numeric.{parse_uint}

pub record JupiterSession : Type 0 where
  pub solana_pubkey : Bytes
  pub delegate_pubkey_b58 : Bytes
  pub per_intent_max_size_usdc_atoms : Bytes
  pub cumulative_size_usdc_cap : Bytes
  pub cumulative_size_usdc_used : Bytes
  pub allowed_assets : List Bytes
  pub expires_at_unix_ts : ℕ
  pub created_at_unix_ts : ℕ
  pub revoked : Bool
  pub surface : Bytes

pub data SessionBoundError : Type 0 where
  session_revoked : SessionBoundError
  expired : SessionBoundError
  asset_not_allowed : SessionBoundError
  per_intent_exceeded : SessionBoundError
  cumulative_exceeded : SessionBoundError
  parse : String → SessionBoundError

-- `.iter().any(|a| a.as_str() == asset_label)`
unfoldable pub contains : List Bytes → Bytes → Bool
contains [] asset_label = false
contains (a ∷ assets) asset_label = bytes_eq a asset_label || contains assets asset_label

unfoldable pub check_session_bounds : JupiterSession → Bytes → ℕ → ℕ → Outcome SessionBoundError ℕ
check_session_bounds session asset_label trade_size_usd now_unix_secs = do
  guard (not session.revoked) session_revoked
  guard (not (ltb session.expires_at_unix_ts now_unix_secs)) expired
  guard (contains session.allowed_assets asset_label) asset_not_allowed
  per_intent_max ←
      ok_or (parse_uint 128 session.per_intent_max_size_usdc_atoms)
        (parse "per_intent_max_size_usdc_atoms")
  guard (leb trade_size_usd per_intent_max) per_intent_exceeded
  cap ← ok_or (parse_uint 128 session.cumulative_size_usdc_cap) (parse "cumulative_size_usdc_cap")
  used ←
      ok_or (parse_uint 128 session.cumulative_size_usdc_used) (parse "cumulative_size_usdc_used")
  new_used ← add_u128 used trade_size_usd
  guard (leb new_used cap) cumulative_exceeded
  ok new_used
