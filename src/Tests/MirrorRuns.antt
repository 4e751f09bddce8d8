-- ===== src/Tests/MirrorRuns.antt =====
-- Sessions of the order book and of polyleverage, stored and read back.
use polylayer_tee.Prelude.{◌≡◌, refl, ap, true, false, [], ◌∷◌, ◌++◌, Bytes, text, none, some, ok}
use polylayer_tee.Json.{
  Value, string, number, object, end, field, pos_int, get, find, as_str, as_u64, as_array,
  strings_of,
}
use polylayer_tee.Canonical.{
  canonical_bytes, write_canonical, canonicalize, number_text, entries_text, insert, key_le, sort,
}
use polylayer_tee.Solana.{
  decode_pubkey, decode_signature, looks_hex, strip_0x, all, is_ascii_hexdigit,
  decode_bs58_signature, verify_signature,
}
use polylayer_tee.Intents.{expected_pubkey, non_empty, check_expiry, verify_intent_signature}
use polylayer_tee.Intents.Verified.{Verified}
use polylayer_tee.Delegate.{derive_session_delegate, derive_delegate_with_salt, public_key_bs58}
use polylayer_tee.Api.{AppState}
use polylayer_tee.Store.{store_get, store_put}
use polylayer_tee.Jupiter.Bounds.{contains}
use polylayer_tee.Sessions.{
  IntentBody, req_str, req_u64, verified, intent_args, ids_of, append_to_index, add_id, list_rows,
  keep,
}
use polylayer_tee.Sessions.Listing.{IsIn}
use polylayer_tee.Sessions.Generic.Config.{
  GenericSession, session_of, whitelist_of, min_price_of, session_key, index_key, list_row, ttl_of,
}
use polylayer_tee.Sessions.Generic.{create, list, store_session}
use polylayer_tee.Sessions.Generic.Created.{create-IsIn}
use polylayer_tee.Sessions.Polyleverage.{
  PolyleverageSession, MirrorBody, session_upsert, delegate, mirrored, mirror_row, cumulative_used,
  created_at,
}
use polylayer_tee.Sessions.Polyleverage.Mirrored.{Mirrored, session_upsert-Mirrored}
use polylayer_tee.Tests.Samples.{pad, sample}
use polylayer_tee.Tests.SampleRows.{Table, empty_table, sample_rows, sample_rows-RowsLaws}
use polylayer_tee.Tests.SessionRows.{
  index_codec, index_codec-RoundTrips, generic_codec, generic_codec-RoundTrips, plv_codec,
  plv_codec-RoundTrips,
}

abbrev signer : Bytes
signer = pad 32 (text "signer")

abbrev intent : Value
intent = object (
    field (text "solana_pubkey") (string signer) (
      field (text "session_id") (string (text "s1")) (
        field (text "surface") (string (text "browser")) (
          field (text "whitelist_mode") (string (text "all")) (
            field (text "max_total_usdc") (string (text "900")) (
              field (text "max_order_size_usdc") (string (text "90")) (
                field (text "max_price") (string (text "1"))
                  (field (text "expiry") (number (pos_int 700)) end))))))))

abbrev body : IntentBody
body = record { intent = intent; intent_sig = signer ++ text "{\"expiry\":0,\"max_order_size_usdc" }

abbrev app : AppState
app = record { seed = pad 64 (text "seed"); has_sessions = true }

abbrev session : GenericSession
session = record {
  session_id = text "s1";
  solana_pubkey = signer;
  surface = text "browser";
  whitelist_mode = text "all";
  whitelist_ids = [];
  max_total_usdc = text "900";
  max_order_size_usdc = text "90";
  max_price = text "1";
  min_price = text "0";
  delegate_pubkey = none;
  expiry = 700;
  total_usdc_filled = text "0";
  created_at = 500;
  revoked = false;
}

config : session_of intent 500 ≡ ok session
unfolding session_of whitelist_of min_price_of get find as_str as_u64 as_array req_str req_u64
config = refl

abbrev after : Table
after = (create sample sample_rows generic_codec index_codec app body (some 500) empty_table).1

create_answers :
    (create sample sample_rows generic_codec index_codec app body (some 500) empty_table).0
    ≡ ok (text "s1")
unfolding create session_of whitelist_of min_price_of get find as_str as_u64 as_array strings_of
    req_str req_u64 ttl_of store_session store_put append_to_index store_get add_id ids_of contains
    session_key index_key verified intent_args verify_intent_signature expected_pubkey non_empty
    check_expiry decode_pubkey decode_signature looks_hex strip_0x all is_ascii_hexdigit
    decode_bs58_signature canonical_bytes write_canonical canonicalize number_text entries_text
    insert key_le sort verify_signature
create_answers = refl

abbrev shown : Table
shown = (list sample sample_rows generic_codec index_codec app signer after).1

list_answers :
    (list sample sample_rows generic_codec index_codec app signer after).0
    ≡ ok (list_row session ∷ [])
unfolding list list_rows keep create session_of whitelist_of min_price_of get find as_str as_u64
    as_array strings_of req_str req_u64 ttl_of list_row store_session store_put append_to_index
    store_get add_id ids_of contains session_key index_key verified intent_args
    verify_intent_signature expected_pubkey non_empty check_expiry decode_pubkey decode_signature
    looks_hex strip_0x all is_ascii_hexdigit decode_bs58_signature canonical_bytes write_canonical
    canonicalize number_text entries_text insert key_le sort verify_signature
list_answers = refl

create-IsIn_example :
    Verified sample (intent_args body 500)
    × (text "s1" ≡ session.session_id)
    × (session.revoked ≡ false)
    × IsIn (list_row session) (list_row session ∷ [])
    × (after ≡ shown)
create-IsIn_example =
    create-IsIn sample sample_rows generic_codec index_codec app sample_rows-RowsLaws
      generic_codec-RoundTrips index_codec-RoundTrips body 500 empty_table session (text "s1") after
      (list_row session ∷ []) shown config (ap (λ r. (r, after)) create_answers)
      (ap (λ r. (r, shown)) list_answers)

abbrev mirror : MirrorBody
mirror = record {
  solana_pubkey = signer;
  expires_at_slot = text "99";
  per_intent_max_collateral_atoms = text "10";
  cumulative_collateral_cap = text "100";
  allowed_instruments = text "perp" ∷ [];
  cumulative_collateral_used = none;
  revoked = none;
  on_chain_version_seen = none;
}

abbrev plv_session : PolyleverageSession
plv_session = record {
  solana_pubkey = signer;
  delegate_pubkey_b58 = signer;
  expires_at_slot = text "99";
  per_intent_max_collateral_atoms = text "10";
  cumulative_collateral_used = text "0";
  cumulative_collateral_cap = text "100";
  allowed_instruments = text "perp" ∷ [];
  created_at_unix_ts = 500;
  revoked = false;
  on_chain_version_seen = [];
}

abbrev plv_after : Table
plv_after = (session_upsert sample sample_rows plv_codec app mirror (some 500) empty_table).1

upsert_answers :
    (session_upsert sample sample_rows plv_codec app mirror (some 500) empty_table).0
    ≡ ok plv_session
unfolding session_upsert delegate decode_pubkey derive_session_delegate derive_delegate_with_salt
    public_key_bs58 store_get store_put mirror_row mirrored cumulative_used created_at
upsert_answers = refl

session_upsert-Mirrored_example :
    Mirrored sample sample_rows plv_codec app sample_rows-RowsLaws plv_codec-RoundTrips mirror
      (some 500)
      plv_session
      empty_table
      plv_after
session_upsert-Mirrored_example =
    session_upsert-Mirrored sample sample_rows plv_codec app sample_rows-RowsLaws
      plv_codec-RoundTrips mirror (some 500) empty_table plv_session plv_after
      (ap (λ r. (r, plv_after)) upsert_answers)
