-- ===== src/Intents.antt =====
-- crates/core/src/intents.rs: the check of a user's signature over the canonical text of an intent.
pub mod Verified
pub mod Decimals
use polylayer_tee.Prelude.{
  ℕ, Bool, true, false, List, [], ◌∷◌, Bytes, text, ltb, not, if◌then◌else◌, Option, none, some,
  Outcome, ok, err, ◌>>=◌, ◌>>◌, guard, map_err,
}
use polylayer_tee.External.{External}
use polylayer_tee.Json.{Value, get, as_str, as_u64, get_str, get_u64}
use polylayer_tee.Canonical.{CanonicalError, canonical_bytes}
use polylayer_tee.Solana.{
  SolanaError, bs58_pubkey, pubkey_length, signature_decode, bs58_signature_length,
  hex_signature_length, decode_pubkey, decode_signature, verify_signature, is_empty,
}

pub data IntentError : Type 0 where
  missing_pubkey : IntentError
  expired : ℕ → ℕ → IntentError
  bad_bs58 : IntentError
  pubkey_wrong_length : ℕ → IntentError
  signature_wrong_length : ℕ → IntentError
  invalid_signature : IntentError
  canonical_encode : CanonicalError → IntentError
  solana : SolanaError → IntentError
  invalid_integer_string : Bytes → IntentError
  invalid_decimal_string : Bytes → IntentError
  overflow : IntentError

pub record IntentVerifyArgs : Type 0 where
  pub intent : Value
  pub signature_bs58 : Bytes
  pub expected_pubkey_bs58 : Option Bytes
  pub enforce_expiry : Bool
  pub now_unix_secs : ℕ

-- `Some(s) if !s.is_empty() => s`
unfoldable pub non_empty : Option Bytes → Option Bytes
non_empty none = none
non_empty (some s) = if is_empty s then none else some s

-- The override, or else the public key of the intent.
unfoldable pub expected_pubkey : IntentVerifyArgs → Outcome IntentError Bytes
expected_pubkey args = elim (non_empty args.expected_pubkey_bs58) [
  | some s ↦ ok s
  | none ↦ elim (non_empty (get_str args.intent (text "solana_pubkey"))) [
    | some s ↦ ok s
    | none ↦ err missing_pubkey
  ]
]

unfoldable pub check_expiry : IntentVerifyArgs → Outcome IntentError (Unit {0})
check_expiry args =
    if args.enforce_expiry
    then elim (get_u64 args.intent (text "expiry")) [
      | none ↦ ok tt
      | some exp ↦ guard (not (ltb exp args.now_unix_secs)) (expired exp args.now_unix_secs)
    ]
    else ok tt

unfoldable pub pubkey_error : SolanaError → IntentError
pubkey_error bs58_pubkey = bad_bs58
pubkey_error (pubkey_length expected got) = pubkey_wrong_length got
pubkey_error other = solana other

unfoldable pub signature_error : SolanaError → IntentError
signature_error signature_decode = bad_bs58
signature_error (bs58_signature_length expected got) = signature_wrong_length got
signature_error (hex_signature_length expected got) = signature_wrong_length got
signature_error other = solana other

unfoldable pub verify_intent_signature :
    External → IntentVerifyArgs → Outcome IntentError (Unit {0})
verify_intent_signature x args = do
  pubkey ← expected_pubkey args
  check_expiry args
  pubkey_bytes ← map_err pubkey_error (decode_pubkey x pubkey)
  sig_bytes ← map_err signature_error (decode_signature x args.signature_bs58)
  message ← map_err canonical_encode (canonical_bytes x args.intent)
  valid ← map_err solana (verify_signature x message sig_bytes pubkey_bytes)
  guard valid invalid_signature
