-- ===== src/Tests/JupiterRuns.antt =====
-- One user's Jupiter session in a store: trades within and over the cap, and a revocation.
use polylayer_tee.Prelude.{
  ℕ, ◌≡◌, ◌⊎◌, ◌<◌, All, none, refl, ◌+◌, ◌-◌, ◌^◌, true, false, List, [], ◌∷◌, Bytes, text, some,
  ok, err, arith,
}
use polylayer_tee.Api.{AppState, bad_request}
use polylayer_tee.Tests.Samples.{sample}
use polylayer_tee.Tests.SampleRows.{
  Table, sample_rows, sample_rows-RowsLaws, sample_codec, sample_codec-RoundTrips,
}
use polylayer_tee.Store.{store_get, store_put}
use polylayer_tee.Numeric.{parse_uint, digits_value, to_string}
use polylayer_tee.Numeric.RoundTrip.{parse_uint-to_string}
use polylayer_tee.Jupiter.Bounds.{JupiterSession, check_session_bounds, contains}
use polylayer_tee.Jupiter.Bounds.Fits.{Fits, check_session_bounds_iff}
use polylayer_tee.Jupiter.Session.{jup_session_key, bound_error, session_revoke, debit}
use polylayer_tee.Jupiter.Session.Ledger.{Event, trade, revoke, run, step, Counter, InTime}
use polylayer_tee.Jupiter.Session.Ledger.Runs.{run-Counter}
use polylayer_tee.Jupiter.Session.Debits.{Debited, debit-Debited, session_revoke-stops}

abbrev user : Bytes
user = text "user"

abbrev session : JupiterSession
session = record {
  solana_pubkey = user;
  delegate_pubkey_b58 = text "delegate";
  per_intent_max_size_usdc_atoms = text "50";
  cumulative_size_usdc_cap = text "100";
  cumulative_size_usdc_used = text "0";
  allowed_assets = text "SOL" ∷ [];
  expires_at_unix_ts = 1000;
  created_at_unix_ts = 1;
  revoked = false;
  surface = text "browser";
}

abbrev app : AppState
app = record { seed = text "seed"; has_sessions = true }

abbrev table : Table
table key = some (sample_codec.to_vec session, some 1000)

zero_used : parse_uint 128 (text "0") ≡ some 0
unfolding parse_uint digits_value
zero_used = refl

abbrev counted : Counter sample_rows sample_codec user 900 0 table
counted = record {
  session = session;
  stored = refl;
  counter = zero_used;
  expiry = refl;
  lasts = omega arith;
}

fits : check_session_bounds session (text "SOL") 40 500 ≡ ok 40
unfolding check_session_bounds contains parse_uint digits_value
fits = refl

check_session_bounds_iff_example : Fits session (text "SOL") 40 500 40
check_session_bounds_iff_example = (check_session_bounds_iff session (text "SOL") 40 500 40).0 fits

parse_uint-to_string_example : parse_uint 128 (to_string (2 ^ 128 - 1)) ≡ some (2 ^ 128 - 1)
parse_uint-to_string_example = parse_uint-to_string (2 ^ 128 - 1) (omega arith)

-- Each with the time at which it is handled.
abbrev trades : List (ℕ × Event)
trades =
    (500, trade (text "SOL") 40 500)
    ∷ (600, trade (text "SOL") 50 600)
    ∷ (700, trade (text "SOL") 50 700)
    ∷ (800, revoke)
    ∷ (900, trade (text "SOL") 1 900)
    ∷ []

trades-InTime : All (InTime sample_rows sample_codec user 900) trades
trades-InTime = (omega arith, (omega arith, (omega arith, (omega arith, (omega arith, tt)))))

trades_total : (run sample_rows sample_codec user 900 sample app trades table).0 ≡ 90
unfolding run step debit session_revoke store_get store_put check_session_bounds contains parse_uint
    digits_value bound_error to_string jup_session_key
trades_total = refl

run-Counter_example :
    Counter sample_rows sample_codec user 900
      (0 + (run sample_rows sample_codec user 900 sample app trades table).0)
      (run sample_rows sample_codec user 900 sample app trades table).1
run-Counter_example =
    run-Counter sample_rows sample_codec user 900 sample_rows-RowsLaws sample_codec-RoundTrips
      sample app trades 0 table refl trades-InTime counted

debit_passes :
    debit sample sample_rows sample_codec app user (text "SOL") 40 500 table
    ≡ (ok tt, (debit sample sample_rows sample_codec app user (text "SOL") 40 500 table).1)
unfolding debit store_get store_put check_session_bounds contains parse_uint digits_value
debit_passes = refl

debit-Debited_example :
    Debited sample sample_rows sample_codec app sample_rows-RowsLaws sample_codec-RoundTrips user
      session
      (text "SOL")
      40
      500
      (debit sample sample_rows sample_codec app user (text "SOL") 40 500 table).1
debit-Debited_example =
    debit-Debited sample sample_rows sample_codec app sample_rows-RowsLaws sample_codec-RoundTrips
      user session (text "SOL") 40 500 table
      (debit sample sample_rows sample_codec app user (text "SOL") 40 500 table).1 refl refl
      debit_passes

revoke_passes : session_revoke sample sample_rows sample_codec app user table ≡ (
  ok (some (record session { revoked = true })),
  (session_revoke sample sample_rows sample_codec app user table).1,
)
unfolding session_revoke store_get store_put
revoke_passes = refl

abbrev revoked_table : Table
revoked_table = (session_revoke sample sample_rows sample_codec app user table).1

-- Once the table has deleted the row, the trade is let through.
deleted_passes :
    (debit sample sample_rows sample_codec app user
      (text "SOL")
      40
      2000
      (sample_rows.sweep 2000 revoked_table)).0
    ≡ ok tt
unfolding debit session_revoke store_get store_put jup_session_key
deleted_passes = refl

session_revoke-stops_example :
    (debit sample sample_rows sample_codec app user
        (text "SOL")
        40
        2000
        (sample_rows.sweep 2000 revoked_table)
      ≡ (err (bad_request "session_revoked"), sample_rows.sweep 2000 revoked_table))
    ⊎ ((1000 < 2000)
        × (sample_rows.read (jup_session_key user) (sample_rows.sweep 2000 revoked_table) ≡ ok none)
        × (debit sample sample_rows sample_codec app user
              (text "SOL")
              40
              2000
              (sample_rows.sweep 2000 revoked_table)
            ≡ (ok tt, sample_rows.sweep 2000 revoked_table)))
session_revoke-stops_example =
    session_revoke-stops sample sample_rows sample_codec app sample_rows-RowsLaws
      sample_codec-RoundTrips user session table revoked_table
      (some (record session { revoked = true })) refl refl revoke_passes (text "SOL") 40 2000 2000
