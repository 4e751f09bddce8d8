-- ===== src/Sessions.antt =====
-- What the session routes of crates/server/src/routes share: hl_session.rs and generic_session.rs
-- keep many sessions for a user, each in a row of its own, and one row with the list of their ids.
pub mod Index
pub mod Listing
pub mod Checked
pub mod Hl
pub mod Generic
pub mod Polyleverage
use polylayer_tee.Prelude.{
  ℕ, Bool, true, false, List, [], ◌∷◌, ◌++◌, Bytes, bytes_eq, Option, none, some, Outcome, ok, err,
  ok_or, map_err, if◌then◌else◌,
}
use Prim.Native.String.{String}
use polylayer_tee.External.{External}
use polylayer_tee.Json.{Value, get_str, get_u64}
use polylayer_tee.Api.{ApiError, bad_request, Exec, pure, lift, ◌>>=◌, ◌>>◌}
use polylayer_tee.Store.{Rows, Codec, store_get, store_put}
use polylayer_tee.Intents.{IntentVerifyArgs, verify_intent_signature}
use polylayer_tee.Jupiter.Bounds.{contains}

pub record IntentBody : Type 0 where
  pub intent : Value
  pub intent_sig : Bytes

pub record SessionIndex : Type 0 where
  pub session_ids : List Bytes

unfoldable pub req_str : Value → Bytes → Outcome ApiError Bytes
req_str intent field = ok_or (get_str intent field) (bad_request "intent_missing")

unfoldable pub req_u64 : Value → Bytes → Outcome ApiError ℕ
req_u64 intent field = ok_or (get_u64 intent field) (bad_request "intent_missing")

unfoldable pub intent_args : IntentBody → ℕ → IntentVerifyArgs
intent_args req now = record {
  intent = req.intent;
  signature_bs58 = req.intent_sig;
  expected_pubkey_bs58 = none;
  enforce_expiry = false;
  now_unix_secs = now;
}

unfoldable pub verified : External → IntentBody → ℕ → Outcome ApiError (Unit {0})
verified x req now =
    map_err (λ e. bad_request "intent_verify") (verify_intent_signature x (intent_args req now))

-- `.unwrap_or_default()` of an index
unfoldable pub ids_of : Option SessionIndex → List Bytes
ids_of none = []
ids_of (some index) = index.session_ids

module _ (rows : Rows) (indices : Codec SessionIndex) where
  -- `if !index.session_ids.contains(&session_id) { push; put }`
  unfoldable pub add_id : Bytes → Bytes → List Bytes → Exec rows.State (Unit {0})
  add_id key session_id ids s =
      if contains ids session_id
      then (ok tt, s)
      else store_put rows indices key (record { session_ids = ids ++ session_id ∷ [] }) none s

  unfoldable pub append_to_index : Bytes → Bytes → Exec rows.State (Unit {0})
  unfolding add_id
  append_to_index key session_id = do
    index ← store_get rows indices key
    add_id key session_id (ids_of index)

-- The rows of a kind of session, their key and their owner.
module _ (rows : Rows) {T : Type 0} (json : Codec T) (key_of : Bytes → Bytes)
    (owner : T → Bytes) where
  -- A row is kept if it is there and belongs to the asker.
  unfoldable pub keep : Bytes → Option T → List T → List T
  keep solana_pubkey none sessions = sessions
  keep solana_pubkey (some s) sessions =
      if bytes_eq (owner s) solana_pubkey then s ∷ sessions else sessions

  -- The loop over the ids of an index.
  unfoldable pub list_rows : Bytes → List Bytes → Exec rows.State (List T)
  unfolding keep
  list_rows solana_pubkey [] = pure []
  list_rows solana_pubkey (id ∷ ids) = do
    row ← store_get rows json (key_of id)
    sessions ← list_rows solana_pubkey ids
    pure (keep solana_pubkey row sessions)
