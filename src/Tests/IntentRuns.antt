-- ===== src/Tests/IntentRuns.antt =====
-- A signed intent through intents.rs.
use polylayer_tee.Prelude.{
  ◌≡◌, refl, true, false, ◌++◌, Bytes, bytes_eq, bytes_eq_iff, text, none, ok,
}
use polylayer_tee.Json.{
  Value, null, bool, string, number, object, Fields, end, field, pos_int, get, find, as_str, as_u64,
}
use polylayer_tee.Canonical.{
  canonical_bytes, write_canonical, canonicalize, number_text, entries_text, insert, key_le, sort,
}
use polylayer_tee.Canonical.Order.{Reordered, swap, canonicalize-Reordered}
use polylayer_tee.Solana.{
  decode_pubkey, decode_signature, looks_hex, strip_0x, all, is_ascii_hexdigit,
  decode_bs58_signature, verify_signature,
}
use polylayer_tee.Tests.Samples.{pad, sample}
use polylayer_tee.Intents.{
  IntentVerifyArgs, expected_pubkey, non_empty, check_expiry, verify_intent_signature,
}
use polylayer_tee.Intents.Verified.{Verified, verify_intent_signature_iff}

abbrev signer : Bytes
signer = pad 32 (text "signer")

abbrev intent : Value
intent = object (
    field (text "solana_pubkey") (string signer) (field (text "expiry") (number (pos_int 700)) end))

abbrev args : IntentVerifyArgs
args = record {
  intent = intent;
  signature_bs58 = signer ++ text "{\"expiry\":0,\"solana_pubkey\":\"sig";
  expected_pubkey_bs58 = none;
  enforce_expiry = true;
  now_unix_secs = 600;
}

intent_passes : verify_intent_signature sample args ≡ ok tt
unfolding verify_intent_signature expected_pubkey non_empty get find as_str as_u64 check_expiry
    decode_pubkey decode_signature looks_hex strip_0x all is_ascii_hexdigit decode_bs58_signature
    canonical_bytes write_canonical canonicalize number_text entries_text insert key_le sort
    verify_signature
intent_passes = refl

verify_intent_signature_iff_example : Verified sample args
verify_intent_signature_iff_example = (verify_intent_signature_iff sample args).0 intent_passes

abbrev name : Fields
name = field (text "name") (string (text "x")) end

abbrev straight : Fields
straight = field (text "b") null (field (text "a") (bool true) name)

abbrev crossed : Fields
crossed = field (text "a") (bool true) (field (text "b") null name)

keys_differ : bytes_eq (text "b") (text "a") ≡ false
keys_differ = refl

straight-crossed : Reordered straight crossed
straight-crossed =
    swap (text "b") (text "a") null (bool true) name
      (λ e. cc (keys_differ, (bytes_eq_iff (text "b") (text "a")).1 e))

straight_writes :
    canonicalize sample (object straight) ≡ ok (text "{\"a\":true,\"b\":null,\"name\":\"x\"}")
unfolding canonicalize write_canonical entries_text insert key_le sort
straight_writes = refl

canonicalize-Reordered_example :
    canonicalize sample (object crossed) ≡ ok (text "{\"a\":true,\"b\":null,\"name\":\"x\"}")
canonicalize-Reordered_example =
    canonicalize-Reordered sample straight crossed (text "{\"a\":true,\"b\":null,\"name\":\"x\"}")
      straight-crossed straight_writes
