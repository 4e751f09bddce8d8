-- ===== src/Jupiter/Session/Ledger.antt =====
-- The spend counter of a Jupiter session is a ledger of the trades that were let through.
pub mod Runs
use polylayer_tee.Prelude.{
  ℕ, ◌+◌, ◌≤◌, ◌<◌, All, ◌≡◌, ◌≢◌, refl, sym, ap, subst, ◌∙◌, ◌⊎◌, inl, inr, true, List, [], ◌∷◌,
  Bytes, Option, some, Outcome, ok, err, panic, arith, map_err,
}
use polylayer_tee.External.{External}
use polylayer_tee.Api.{
  ApiError, AppState, bad_request, internal, sessions, now_unix, lift, Exec, ◌>>=◌, lift-keeps,
  then_pure,
}
use polylayer_tee.Delegate.{SolanaDelegate, derive_jupiter_delegate, public_key_bs58}
use polylayer_tee.Store.{Rows, RowsLaws, Codec, RoundTrips, store_get, store_put}
use polylayer_tee.Store.Access.{store_get-HoldsRow, store_put-cases, store_put-expires_at}
use polylayer_tee.Solana.{decode_pubkey}
use polylayer_tee.Numeric.{parse_uint, to_string}
use polylayer_tee.Numeric.RoundTrip.{parse_uint-to_string, parse_uint-lt}
use polylayer_tee.Jupiter.Bounds.{JupiterSession, SessionBoundError, check_session_bounds}
use polylayer_tee.Jupiter.Bounds.Fits.{check_session_bounds_iff}
use polylayer_tee.Jupiter.Session.{
  UpsertBody, jup_session_key, upserted, bound_error, session_upsert, session_revoke, debit,
  revoke_row, upsert_row, debit_row,
}

-- What happens to one user's session: a trade, a registration by the lambda, or a revocation.
pub data Event : Type 0 where
  trade : Bytes → ℕ → ℕ → Event
  upsert : UpsertBody → Option ℕ → Event
  revoke : Event

-- The size of a trade that was let through.
abbrev pub debited : ℕ → Outcome ApiError (Unit {0}) → ℕ
debited size (ok u) = size
debited size _ = 0

module _ (rows : Rows) (json : Codec JupiterSession) (user : Bytes) (until : ℕ) where
  abbrev key : Bytes
  key = jup_session_key user

  -- The store holds a session of the user with the counter `used`, which lasts until a time at
  -- least.
  pub record Counter (used : ℕ) (s : rows.State) : Type 0 where
    pub session : JupiterSession
    pub stored : rows.read key s ≡ ok (some (json.to_vec session))
    pub counter : parse_uint 128 session.cumulative_size_usdc_used ≡ some used
    pub expiry : rows.expires_at key s ≡ some session.expires_at_unix_ts
    pub lasts : until ≤ session.expires_at_unix_ts

  -- An event is handled by that time, and no upsert lets the session end before it.
  abbrev pub InTime : ℕ × Event → Type 0
  InTime (at, trade asset size now) = at ≤ until
  InTime (at, upsert req clock) = (at ≤ until) × (until ≤ req.expires_at_unix_ts)
  InTime (at, revoke) = at ≤ until

  -- A trade was let through and counted, or it was refused and the counter stands.
  abbrev pub Counted : ℕ → ℕ → Outcome ApiError (Unit {0}) × rows.State → Type 0
  Counted used size (m, s) = Counter (used + debited size m) s

  module _ (x : External) (app : AppState) where
    -- One event: the size that was let through, and the state after it.
    unfoldable pub step : Event → rows.State → ℕ × rows.State
    step (trade asset size now) s =
        let (m, s') = debit x rows json app user asset size now s in (debited size m, s')
    step (upsert req clock) s =
        (0, (session_upsert x rows json app (record req { solana_pubkey = user }) clock s).1)
    step revoke s = (0, (session_revoke x rows json app user s).1)

    -- The events one after the other, each behind the deletions of the table by its time: the sizes
    -- that were let through, in all, and the state after them.
    unfoldable pub run : List (ℕ × Event) → rows.State → ℕ × rows.State
    run [] s = (0, s)
    run ((at, e) ∷ events) s =
        let (size, s') = step e (rows.sweep at s) in
        let (total, s'') = run events s' in (size + total, s'')

  module _ (laws : RowsLaws rows) (trips : RoundTrips json) where
    -- A write of a session with the counter `used`.
    pub put-Counter :
        (session : JupiterSession) (used : ℕ) (s : rows.State)
        → until ≤ session.expires_at_unix_ts
        → parse_uint 128 session.cumulative_size_usdc_used ≡ some used
        → ((m : Outcome ApiError (Unit {0})) × (store_put rows json key session
                (some session.expires_at_unix_ts)
                s
              ≡ (m, s))
            × (m ≢ ok tt))
          ⊎ ((s' : rows.State) × (store_put rows json key session
                  (some session.expires_at_unix_ts)
                  s
                ≡ (ok tt, s'))
              × Counter used s')
    put-Counter session used s lasts c =
        let ttl = some session.expires_at_unix_ts in
        elim (store_put-cases rows json trips laws key session ttl s) [
          | inl (s', e, h, k) ↦ inr (
            s',
            e,
            record {
              session = session;
              stored = h;
              counter = c;
              expiry = store_put-expires_at rows json trips laws key session ttl s e;
              lasts = lasts;
            },
          )
          | inr failed ↦ inl failed
        ]

    refused :
        (used size : ℕ) (s : rows.State) (m : Outcome ApiError (Unit {0}))
        → m ≢ ok tt
        → Counter used s
        → Counted used size (m, s)
    refused used size s (ok u) ne c = absurd (ne refl)
    refused used size s (err e) ne c = let z : used ≡ used + 0 = omega arith in rw (← z) c
    refused used size s panic ne c = let z : used ≡ used + 0 = omega arith in rw (← z) c

    -- A write of the counter that a trade leaves.
    put-Counted :
        (session : JupiterSession) (used size : ℕ) (s : rows.State)
        → until ≤ session.expires_at_unix_ts
        → parse_uint 128 session.cumulative_size_usdc_used ≡ some (used + size)
        → Counter used s
        → Counted used size (store_put rows json key session (some session.expires_at_unix_ts) s)
    put-Counted session used size s lasts e c = elim (put-Counter session (used + size) s lasts e) [
      | inl (m, p, ne) ↦ subst (Counted used size) (sym p) (refused used size s m ne c)
      | inr (s', p, c') ↦ subst (Counted used size) (sym p) c'
    ]

    pub debit_row-Counted :
        (asset : Bytes) (size now used : ℕ) (s : rows.State) (c : Counter used s)
        → Counted used size (debit_row rows json key asset size now (some c.session) s)
    unfolding debit_row
    debit_row-Counted asset size now used s c =
        by_check (check_session_bounds c.session asset size now) refl
      where
        by_check :
            (m : Outcome SessionBoundError ℕ)
            → check_session_bounds c.session asset size now ≡ m
            → Counted used size (debit_row rows json key asset size now (some c.session) s)
        by_check (ok n) e =
            let f = (check_session_bounds_iff c.session asset size now n).0 e in
            let old : f.used ≡ used = cc (f.used_is, c.counter) in
            let bound = parse_uint-lt 128 c.session.cumulative_size_usdc_cap f.cap_is in
            let counted : n ≡ used + size = omega (arith, f.counted, old) in
            let printed : parse_uint 128 (to_string n) ≡ some (used + size) =
              parse_uint-to_string n (omega (arith, f.within, bound)) ∙ ap some counted in
            rw e (put-Counted _ used size s c.lasts printed c)
        by_check (err y) e = rw e (refused used size s (err (bound_error y)) (λ h. cc) c)
        by_check panic e = rw e (refused used size s panic (λ h. cc) c)

    pub upserted-used :
        (req : UpsertBody) (d : Bytes) (p : JupiterSession) (now : ℕ)
        → parse_uint 128 (upserted req d (some p) now).cumulative_size_usdc_used
          ≡ parse_uint 128 p.cumulative_size_usdc_used
    unfolding upserted
    upserted-used req d p now = refl
