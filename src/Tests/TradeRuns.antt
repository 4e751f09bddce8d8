-- ===== src/Tests/TradeRuns.antt =====
-- A Jupiter trade of 40 dollars: its decoding, its search, its signature and the whole route.
use polylayer_tee.Prelude.{
  ◌≡◌, ◌≢◌, refl, ◌+◌, ◌^◌, ◌<◌, true, false, List, ◌∷◌, [], ◌++◌, Bytes, le_bytes, le_value, text,
  none, some, ok, length, drop, bytes_eq, bytes_eq_iff, arith,
}
use polylayer_tee.Json.{string, object, end, field, get, find, as_str, as_u64}
use polylayer_tee.Api.{AppState}
use polylayer_tee.Tests.Samples.{pad, sample, length-pad}
use polylayer_tee.Tests.SampleRows.{Table, sample_rows, sample_codec}
use polylayer_tee.Numeric.{digits_value, parse_uint}
use polylayer_tee.Canonical.{
  canonical_bytes, write_canonical, canonicalize, number_text, entries_text, insert, key_le, sort,
}
use polylayer_tee.Solana.{
  decode_pubkey, decode_signature, looks_hex, strip_0x, all, is_ascii_hexdigit,
  decode_bs58_signature, verify_signature,
}
use polylayer_tee.Intents.{verify_intent_signature, expected_pubkey, non_empty, check_expiry}
use polylayer_tee.Delegate.{derive_jupiter_delegate, derive_delegate_with_salt, public_key_bs58}
use polylayer_tee.Store.{store_get, store_put}
use polylayer_tee.Jupiter.Bounds.{JupiterSession, check_session_bounds, contains}
use polylayer_tee.Jupiter.Session.{debit}
use polylayer_tee.Jupiter.Decode.{
  IncreaseArgs, DecreaseArgs, DecodedAccounts, DecodedJupiterIx, increase, decrease, read_bytes,
  read_u8, read_u64, read_opt_u64, require, collect_accounts, read_increase, increase_discriminator,
  decrease_discriminator, decode_jupiter_perps_ix, hard_coded, custody_to_asset,
}
use polylayer_tee.Jupiter.Decode.RoundTrip.{
  encode_increase, encode_decrease, IncreaseInRange, DecreaseInRange, AccountsAt,
  decode_jupiter_perps_ix-encode_increase, decode_jupiter_perps_ix-encode_decrease,
}
use polylayer_tee.Jupiter.Sign.{
  Instruction, VersionedTransaction, Wire, SignedJupiterTx, position, set_at,
  sign_versioned_transaction,
}
use polylayer_tee.Jupiter.Sign.Slots.{Slotted, sign_versioned_transaction-Slotted}
use polylayer_tee.Jupiter.Scan.{key_at, perps_ix, scan}
use polylayer_tee.Jupiter.Scan.Only.{Skipped, OnlyOne, scan-OnlyOne, scan-skips}
use polylayer_tee.Jupiter.Route.{
  TradeReq, TradeResponse, custody_of, trade_size_usd, trade_args, find_trade, match_asset,
  check_trade, sign_trade, handler,
}
use polylayer_tee.Jupiter.Route.Traded.{Traded, handler-Traded}

abbrev user : Bytes
user = pad 32 (text "user")

abbrev sol : Bytes
sol = text "7xS2gz2bTp3fwCC7knJvUWTEU9Tycczu"

abbrev perps : Bytes
perps = text "PERPHjGBqRHArX4DySjwM6UJHiR3sWAa"

abbrev increase_args : IncreaseArgs
increase_args = record {
  size_usd_delta = 40;
  collateral_token_delta = 3;
  side = 1;
  price_slippage = 2;
  jupiter_minimum_out = some 5;
  counter = 6;
}

abbrev accounts : DecodedAccounts
accounts = record { owner = user; custody = sol; collateral_custody = sol }

abbrev pubkeys : List Bytes
pubkeys = user ∷ [] ∷ [] ∷ [] ∷ [] ∷ [] ∷ [] ∷ sol ∷ sol ∷ []

accounts-AccountsAt : AccountsAt pubkeys accounts
accounts-AccountsAt = record { owner = refl; custody = refl; collateral = refl }

increase_args-IncreaseInRange : IncreaseInRange increase_args
increase_args-IncreaseInRange = record {
  size = omega arith;
  collateral = omega arith;
  side = omega arith;
  slippage = omega arith;
  minimum = omega arith;
  counter = omega arith;
}

increase_fits : length (encode_increase increase_args []) < 2 ^ 64
unfolding le_bytes
increase_fits = omega arith

sha256_32 : (bs : Bytes) → length (sample.sha256 bs) ≡ 32
sha256_32 bs = length-pad 32 (drop 7 bs)

decode_jupiter_perps_ix-encode_increase_example :
    decode_jupiter_perps_ix sample
      (increase_discriminator sample ++ encode_increase increase_args [])
      pubkeys
    ≡ ok (some (increase increase_args accounts))
decode_jupiter_perps_ix-encode_increase_example =
    decode_jupiter_perps_ix-encode_increase sample sha256_32 increase_args [] pubkeys accounts
      increase_args-IncreaseInRange accounts-AccountsAt increase_fits

abbrev decrease_args : DecreaseArgs
decrease_args = record {
  collateral_usd_delta = 3;
  size_usd_delta = 40;
  price_slippage = 2;
  jupiter_minimum_out = none;
  entire_position = some true;
  counter = 6;
}

decrease_args-DecreaseInRange : DecreaseInRange decrease_args
decrease_args-DecreaseInRange = record {
  collateral = omega arith;
  size = omega arith;
  slippage = omega arith;
  minimum = tt;
  counter = omega arith;
}

decrease_fits : length (encode_decrease decrease_args []) < 2 ^ 64
unfolding le_bytes
decrease_fits = omega arith

discriminators_differ :
    bytes_eq (increase_discriminator sample) (decrease_discriminator sample) ≡ false
unfolding increase_discriminator decrease_discriminator
discriminators_differ = refl

other_discriminator : increase_discriminator sample ≢ decrease_discriminator sample
other_discriminator h = cc (
  discriminators_differ,
  (bytes_eq_iff (increase_discriminator sample) (decrease_discriminator sample)).1 h,
)

decode_jupiter_perps_ix-encode_decrease_example :
    decode_jupiter_perps_ix sample
      (decrease_discriminator sample ++ encode_decrease decrease_args [])
      pubkeys
    ≡ ok (some (decrease decrease_args accounts))
decode_jupiter_perps_ix-encode_decrease_example =
    decode_jupiter_perps_ix-encode_decrease sample sha256_32 decrease_args [] pubkeys accounts
      decrease_args-DecreaseInRange accounts-AccountsAt other_discriminator decrease_fits

-- The transaction: a transfer of another program, then the trade.
abbrev keys : List Bytes
keys = user ∷ sol ∷ perps ∷ []

abbrev transfer_ix : Instruction
transfer_ix = record { program_id_index = 9; accounts = 0 ∷ []; ix_data = 1 ∷ [] }

abbrev trade_ix : Instruction
trade_ix = record {
  program_id_index = 2;
  accounts = 0 ∷ 9 ∷ 9 ∷ 9 ∷ 9 ∷ 9 ∷ 9 ∷ 1 ∷ 1 ∷ [];
  ix_data = increase_discriminator sample ++ encode_increase increase_args [];
}

transfer_ix-Skipped : Skipped sample keys transfer_ix
unfolding perps_ix hard_coded key_at
transfer_ix-Skipped = refl

trade_scans :
    scan sample keys (transfer_ix ∷ trade_ix ∷ []) 0 none
    ≡ ok (0 + 1, some (increase increase_args accounts))
unfolding scan perps_ix hard_coded key_at decode_jupiter_perps_ix increase_discriminator
    read_increase read_u64 read_u8 read_opt_u64 read_bytes le_bytes le_value collect_accounts
    require
trade_scans = refl

scan-OnlyOne_example :
    (d : DecodedJupiterIx) × (some (increase increase_args accounts) ≡ some d)
    × OnlyOne sample keys (transfer_ix ∷ trade_ix ∷ []) d
scan-OnlyOne_example =
    scan-OnlyOne sample keys (transfer_ix ∷ trade_ix ∷ []) 0 none
      (some (increase increase_args accounts)) trade_scans

scan-skips_example :
    scan sample keys ([] ++ transfer_ix ∷ trade_ix ∷ []) 0 none
    ≡ scan sample keys ([] ++ trade_ix ∷ []) 0 none
scan-skips_example =
    scan-skips sample keys [] (trade_ix ∷ []) transfer_ix 0 none transfer_ix-Skipped

abbrev transaction : VersionedTransaction
transaction = record {
  signatures = [] ∷ [] ∷ [];
  message = record {
    static_account_keys = keys;
    instructions = transfer_ix ∷ trade_ix ∷ [];
    others = [];
  };
}

abbrev wire : Wire
wire = record {
  b64_decode = λ t. some t;
  b64_encode = λ bs. bs;
  deserialize = λ raw. some transaction;
  serialize = λ tx. some (text "signed");
  serialize_message = λ m. some (text "message");
}

abbrev signed : SignedJupiterTx
signed = record {
  signed_tx_b64 = text "signed";
  signature = user ++ pad 32 (text "message");
  signature_index = 0;
}

transaction_signs : sign_versioned_transaction sample wire (text "tx") user ≡ ok signed
unfolding sign_versioned_transaction position set_at
transaction_signs = refl

sign_versioned_transaction-Slotted_example : Slotted sample wire (text "tx") user signed
sign_versioned_transaction-Slotted_example =
    sign_versioned_transaction-Slotted sample wire (text "tx") user signed transaction_signs

-- The route
abbrev request : TradeReq
request = record {
  intent = object (
      field (text "asset") (string (text "SOL"))
        (field (text "id") (string (text "7")) (field (text "solana_pubkey") (string user) end)));
  intent_sig = user ++ text "{\"asset\":\"SOL\",\"id\":\"7\",\"solana_";
  unsigned_tx_b64 = text "tx";
}

abbrev session : JupiterSession
session = record {
  solana_pubkey = user;
  delegate_pubkey_b58 = user;
  per_intent_max_size_usdc_atoms = text "50";
  cumulative_size_usdc_cap = text "100";
  cumulative_size_usdc_used = text "0";
  allowed_assets = text "SOL" ∷ [];
  expires_at_unix_ts = 1000;
  created_at_unix_ts = 1;
  revoked = false;
  surface = text "browser";
}

abbrev table : Table
table key = some (sample_codec.to_vec session, some 1000)

abbrev app : AppState
app = record { seed = pad 64 (text "seed"); has_sessions = true }

abbrev response : TradeResponse
response = record {
  signed_tx_b64 = text "signed";
  signature_index = 0;
  delegate_pubkey_bs58 = user;
  decoded_asset = text "SOL";
}

trade_passes :
    handler sample wire sample_rows sample_codec app (some 500) request table
    ≡ (ok response, (handler sample wire sample_rows sample_codec app (some 500) request table).1)
unfolding handler find_trade match_asset check_trade sign_trade trade_args verify_intent_signature
    expected_pubkey non_empty get find as_str as_u64 check_expiry decode_pubkey decode_signature
    looks_hex strip_0x all is_ascii_hexdigit decode_bs58_signature canonical_bytes write_canonical
    canonicalize number_text entries_text insert key_le sort verify_signature scan perps_ix
    hard_coded key_at decode_jupiter_perps_ix increase_discriminator read_increase read_u64 read_u8
    read_opt_u64 read_bytes le_bytes le_value collect_accounts require custody_to_asset custody_of
    trade_size_usd debit store_get store_put check_session_bounds contains parse_uint digits_value
    derive_jupiter_delegate derive_delegate_with_salt public_key_bs58 sign_versioned_transaction
    position set_at
trade_passes = refl

handler-Traded_example :
    Traded sample wire request sample_rows sample_codec app
      (some 500)
      table
      (handler sample wire sample_rows sample_codec app (some 500) request table).1
      response
handler-Traded_example =
    handler-Traded sample wire request sample_rows sample_codec app (some 500) table
      (handler sample wire sample_rows sample_codec app (some 500) request table).1 response
      trade_passes
