-- ===== src/Tests/HlRuns.antt =====
-- A Hyperliquid session created, listed and revoked.
use polylayer_tee.Prelude.{
  ◌≡◌, ◌≢◌, ◌⊎◌, refl, ap, true, false, [], ◌∷◌, ◌++◌, List, Bytes, text, none, some, ok, All,
}
use polylayer_tee.Json.{
  Value, string, number, object, array, nil, cons, end, field, pos_int, get, find, as_str, as_u64,
  as_array, strings_of,
}
use polylayer_tee.Canonical.{
  canonical_bytes, write_canonical, canonicalize, number_text, entries_text, insert, key_le, sort,
}
use polylayer_tee.Solana.{
  decode_pubkey, decode_signature, looks_hex, strip_0x, all, is_ascii_hexdigit,
  decode_bs58_signature, verify_signature,
}
use polylayer_tee.Intents.{expected_pubkey, non_empty, check_expiry, verify_intent_signature}
use polylayer_tee.Api.{AppState}
use polylayer_tee.Store.{store_get, store_put}
use polylayer_tee.Jupiter.Bounds.{contains}
use polylayer_tee.Sessions.{
  IntentBody, SessionIndex, req_str, req_u64, verified, intent_args, ids_of, append_to_index,
  add_id, list_rows, keep,
}
use polylayer_tee.Sessions.Index.{NoDup, IsDistinct}
use polylayer_tee.Sessions.Listing.{IsIn}
use polylayer_tee.Sessions.Hl.Config.{HlSession, session_of, coins_of, session_key, index_key}
use polylayer_tee.Sessions.Hl.{create, revoke, revoke_owned, list, store_session}
use polylayer_tee.Sessions.Hl.Created.{Created, create-Created}
use polylayer_tee.Sessions.Hl.Revoked.{Revoked, revoke-Settled}
use polylayer_tee.Sessions.Hl.Shown.{list-create}
use polylayer_tee.Sessions.Hl.Distinct.{Call, creates, revokes, step, run, run-NoDup}
use polylayer_tee.Tests.Samples.{pad, sample}
use polylayer_tee.Tests.SampleRows.{Table, empty_table, sample_rows, sample_rows-RowsLaws}
use polylayer_tee.Tests.SessionRows.{
  index_codec, index_codec-RoundTrips, hl_codec, hl_codec-RoundTrips,
}

abbrev signer : Bytes
signer = pad 32 (text "signer")

abbrev intent : Value
intent = object (
    field (text "solana_pubkey") (string signer) (
      field (text "session_id") (string (text "s1")) (
        field (text "surface") (string (text "browser")) (
          field (text "allowed_coins") (array (cons (string (text "BTC")) nil)) (
            field (text "max_total_usd") (string (text "900")) (
              field (text "max_order_size_usd") (string (text "90")) (
                field (text "max_leverage") (number (pos_int 5))
                  (field (text "expiry") (number (pos_int 700)) end))))))))

abbrev body : IntentBody
body = record {
  intent = intent;
  intent_sig = signer ++ text "{\"allowed_coins\":[\"BTC\"],\"expiry";
}

abbrev app : AppState
app = record { seed = pad 64 (text "seed"); has_sessions = true }

abbrev session : HlSession
session = record {
  session_id = text "s1";
  solana_pubkey = signer;
  surface = text "browser";
  allowed_coins = text "BTC" ∷ [];
  max_total_usd = text "900";
  max_order_size_usd = text "90";
  max_leverage = 5;
  delegate_pubkey = none;
  expiry = 700;
  total_usd_filled = text "0";
  revoked = false;
}

abbrev after : Table
after = (create sample sample_rows hl_codec index_codec app body (some 500) empty_table).1

create_answers :
    (create sample sample_rows hl_codec index_codec app body (some 500) empty_table).0 ≡ ok session
unfolding create session_of coins_of get find as_str as_u64 as_array strings_of req_str req_u64
    store_session store_put append_to_index store_get add_id ids_of contains session_key index_key
    verified intent_args verify_intent_signature expected_pubkey non_empty check_expiry
    decode_pubkey decode_signature looks_hex strip_0x all is_ascii_hexdigit decode_bs58_signature
    canonical_bytes write_canonical canonicalize number_text entries_text insert key_le sort
    verify_signature
create_answers = refl

create_makes :
    create sample sample_rows hl_codec index_codec app body (some 500) empty_table
    ≡ (ok session, after)
create_makes = ap (λ r. (r, after)) create_answers

create-Created_example :
    Created sample sample_rows hl_codec index_codec app sample_rows-RowsLaws hl_codec-RoundTrips
      index_codec-RoundTrips body
      (some 500)
      session
      after
create-Created_example =
    create-Created sample sample_rows hl_codec index_codec app sample_rows-RowsLaws
      hl_codec-RoundTrips index_codec-RoundTrips body (some 500) empty_table session after
      create_makes

revoke-Settled_example :
    (((revoke sample sample_rows hl_codec index_codec app body (some 500) after).0 ≡ ok true)
      × Revoked sample sample_rows hl_codec index_codec app sample_rows-RowsLaws hl_codec-RoundTrips
          body after
          (revoke sample sample_rows hl_codec index_codec app body (some 500) after).1)
    ⊎ (((revoke sample sample_rows hl_codec index_codec app body (some 500) after).0 ≢ ok true)
        × ((revoke sample sample_rows hl_codec index_codec app body (some 500) after).1 ≡ after))
revoke-Settled_example =
    revoke-Settled sample sample_rows hl_codec index_codec app sample_rows-RowsLaws
      hl_codec-RoundTrips body (some 500) after

abbrev shown : Table
shown = (list sample sample_rows hl_codec index_codec app signer after).1

list_answers : (list sample sample_rows hl_codec index_codec app signer after).0 ≡ ok (session ∷ [])
unfolding list list_rows keep create session_of coins_of get find as_str as_u64 as_array strings_of
    req_str req_u64 store_session store_put append_to_index store_get add_id ids_of contains
    session_key index_key verified intent_args verify_intent_signature expected_pubkey non_empty
    check_expiry decode_pubkey decode_signature looks_hex strip_0x all is_ascii_hexdigit
    decode_bs58_signature canonical_bytes write_canonical canonicalize number_text entries_text
    insert key_le sort verify_signature
list_answers = refl

list-create_example :
    IsIn session (session ∷ [])
    × All (λ t. t.solana_pubkey ≡ signer) (session ∷ [])
    × (after ≡ shown)
list-create_example =
    list-create sample sample_rows hl_codec index_codec app sample_rows-RowsLaws hl_codec-RoundTrips
      index_codec-RoundTrips body (some 500) empty_table session after (session ∷ []) shown
      create_makes (ap (λ r. (r, shown)) list_answers)

abbrev calls : List Call
calls = creates body (some 500) ∷ revokes body (some 501) ∷ creates body (some 502) ∷ []

empty-IsDistinct :
    (pubkey : Bytes)
    → IsDistinct sample_rows index_codec sample_rows-RowsLaws index_codec-RoundTrips
        (index_key pubkey)
        empty_table
unfolding store_get
empty-IsDistinct pubkey index read = cc (read)

abbrev listed : SessionIndex
listed = record { session_ids = text "s1" ∷ [] }

index_reads :
    (store_get sample_rows index_codec
      (index_key signer)
      (run sample sample_rows hl_codec index_codec app calls empty_table)).0
    ≡ ok (some listed)
unfolding run step revoke revoke_owned create session_of coins_of get find as_str as_u64 as_array
    strings_of req_str req_u64 store_session store_put append_to_index store_get add_id ids_of
    contains session_key index_key verified intent_args verify_intent_signature expected_pubkey
    non_empty check_expiry decode_pubkey decode_signature looks_hex strip_0x all is_ascii_hexdigit
    decode_bs58_signature canonical_bytes write_canonical canonicalize number_text entries_text
    insert key_le sort verify_signature
index_reads = refl

run-NoDup_example : NoDup (text "s1" ∷ [])
run-NoDup_example =
    run-NoDup sample sample_rows hl_codec index_codec app sample_rows-RowsLaws hl_codec-RoundTrips
      index_codec-RoundTrips calls empty_table signer listed empty-IsDistinct index_reads
