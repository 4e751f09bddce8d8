-- ===== src/Jupiter/Session/Debits.antt =====
-- What a trade that was let through, and a revocation, leave in the session store.
use polylayer_tee.Prelude.{
  ℕ, ◌≡◌, ◌≢◌, refl, ap, sym, ◌∙◌, ◌⊎◌, inl, inr, true, ◌<◌, arith, Bytes, Option, none, some,
  Outcome, ok, err, panic,
}
use polylayer_tee.External.{External}
use polylayer_tee.Api.{ApiError, AppState, bad_request}
use polylayer_tee.Store.{Rows, RowsLaws, Codec, RoundTrips, store_get, store_put}
use polylayer_tee.Store.Access.{HoldsRow, store_get-HoldsRow, store_put-cases, store_put-expires_at}
use polylayer_tee.Numeric.{to_string}
use polylayer_tee.Jupiter.Bounds.{JupiterSession, SessionBoundError, check_session_bounds}
use polylayer_tee.Jupiter.Bounds.Fits.{Fits, check_session_bounds_iff}
use polylayer_tee.Jupiter.Session.{
  jup_session_key, bound_error, session_revoke, debit, revoke_row, debit_row,
}

-- The session after a trade that makes its counter `n`.
abbrev pub with_used : JupiterSession → ℕ → JupiterSession
with_used session n = record session { cumulative_size_usdc_used = to_string n }

module _ (x : External) (rows : Rows) (json : Codec JupiterSession) (app : AppState)
    (laws : RowsLaws rows) (trips : RoundTrips json) (user : Bytes) where
  abbrev pub Stored : JupiterSession → rows.State → Type 0
  Stored = HoldsRow rows json trips (jup_session_key user)

  -- The trade was within the session's bounds, and the session is stored with the new counter.
  pub record Debited (session : JupiterSession) (asset : Bytes) (size now : ℕ) (s' : rows.State)
      : Type 0 where
    pub new_used : ℕ
    pub fits : Fits session asset size now new_used
    pub stored : Stored (with_used session new_used) s'

  module _ (session : JupiterSession) (asset : Bytes) (size now : ℕ) (s : rows.State) where
    debit-reads :
        app.has_sessions ≡ true
        → Stored session s
        → debit x rows json app user asset size now s
          ≡ debit_row rows json (jup_session_key user) asset size now (some session) s
    unfolding debit
    debit-reads on h =
        rw (on, store_get-HoldsRow rows json trips (jup_session_key user) session s h) refl

    debit_row-Debited :
        (s' : rows.State)
        → debit_row rows json (jup_session_key user) asset size now (some session) s ≡ (ok tt, s')
        → Debited session asset size now s'
    unfolding debit_row
    debit_row-Debited s' = by_check (check_session_bounds session asset size now) refl
      where
        by_check :
            (m : Outcome SessionBoundError ℕ)
            → check_session_bounds session asset size now ≡ m
            → debit_row rows json (jup_session_key user) asset size now (some session) s
              ≡ (ok tt, s')
            → Debited session asset size now s'
        by_check (ok n) e h =
            elim (store_put-cases rows json trips laws (jup_session_key user) (with_used session n)
              (some session.expires_at_unix_ts) s) [
                | inl (s'', p, k, _) ↦
                    let h1 : store_put rows json (jup_session_key user) (with_used session n)
                          (some session.expires_at_unix_ts) s
                        ≡ (ok tt, s') =
                      rw e at h in
                    let same : s'' ≡ s' = ap (λ r. r.1) (sym p ∙ h1) in
                    record {
                      new_used = n;
                      fits = (check_session_bounds_iff session asset size now n).0 e;
                      stored = rw same at k;
                    }
                | inr (m, p, ne) ↦
                    let h1 : store_put rows json (jup_session_key user) (with_used session n)
                          (some session.expires_at_unix_ts) s
                        ≡ (ok tt, s') =
                      rw e at h in
                    absurd (ne (ap (λ r. r.0) (sym p ∙ h1)))
              ]
        by_check (err y) e h = let h1 = rw e at h in cc (h1)
        by_check panic e h = let h1 = rw e at h in cc (h1)

    -- For a session store that keeps what is written and a codec that round-trips, a trade of a
    -- user with a stored session that is let through fits the bounds of that session, and the
    -- session is stored with the new counter.
    pub debit-Debited :
        (s' : rows.State)
        → app.has_sessions ≡ true
        → Stored session s
        → debit x rows json app user asset size now s ≡ (ok tt, s')
        → Debited session asset size now s'
    debit-Debited s' on h e = debit_row-Debited s' (sym (debit-reads on h) ∙ e)

    debit_row-revoked :
        session.revoked ≡ true
        → debit_row rows json (jup_session_key user) asset size now (some session) s
          ≡ (err (bad_request "session_revoked"), s)
    unfolding debit_row check_session_bounds bound_error
    debit_row-revoked r = rw r refl

  abbrev revoked_of : JupiterSession → JupiterSession
  revoked_of session = record session { revoked = true }

  -- A revocation writes the session back as revoked, or answers with an error.
  session_revoke-cases :
      (session : JupiterSession) (s : rows.State)
      → app.has_sessions ≡ true
      → Stored session s
      → ((s' : rows.State) × (session_revoke x rows json app user s
            ≡ (ok (some (revoked_of session)), s'))
          × Stored (revoked_of session) s'
          × (rows.expires_at (jup_session_key user) s' ≡ some session.expires_at_unix_ts))
        ⊎ ((m : Outcome ApiError (Option JupiterSession)) × (session_revoke x rows json app user s
              ≡ (m, s))
            × ((r : Option JupiterSession) → m ≢ ok r))
  unfolding session_revoke revoke_row
  session_revoke-cases session s on h =
      elim (store_put-cases rows json trips laws (jup_session_key user) (revoked_of session)
        (some session.expires_at_unix_ts) s) [
          | inl (s', p, k, _) ↦ inl (
            s',
            rw (on, store_get-HoldsRow rows json trips (jup_session_key user) session s h, p) refl,
            k,
            store_put-expires_at rows json trips laws (jup_session_key user) (revoked_of session)
                (some session.expires_at_unix_ts) s p,
          )
          | inr (ok u, p, ne) ↦ absurd (ne refl)
          | inr (err y, p, ne) ↦ inr (
            err y,
            rw (on, store_get-HoldsRow rows json trips (jup_session_key user) session s h, p) refl,
            λ r q. cc,
          )
          | inr (panic, p, ne) ↦ inr (
            panic,
            rw (on, store_get-HoldsRow rows json trips (jup_session_key user) session s h, p) refl,
            λ r q. cc,
          )
        ]

  -- A user without a row passes.
  debit-none :
      (asset : Bytes) (size now : ℕ) (s : rows.State)
      → app.has_sessions ≡ true
      → rows.read (jup_session_key user) s ≡ ok none
      → debit x rows json app user asset size now s ≡ (ok tt, s)
  unfolding debit debit_row store_get
  debit-none asset size now s on h = rw (on, h) refl

  -- For a session store that behaves as documented and a codec that round-trips, after a
  -- revocation of a stored session that succeeds, whatever the table has deleted by a time `at`,
  -- every trade of that user is refused with `session_revoked` and leaves the store as it is,
  -- unless `at` is past the expiry of the session and its row has been deleted, where the trade is
  -- let through and nothing is counted.
  pub session_revoke-stops :
      (session : JupiterSession) (s s' : rows.State) (r : Option JupiterSession)
      → app.has_sessions ≡ true
      → Stored session s
      → session_revoke x rows json app user s ≡ (ok r, s')
      → (asset : Bytes) (size now at : ℕ)
      → (debit x rows json app user asset size now (rows.sweep at s')
          ≡ (err (bad_request "session_revoked"), rows.sweep at s'))
        ⊎ ((session.expires_at_unix_ts < at)
            × (rows.read (jup_session_key user) (rows.sweep at s') ≡ ok none)
            × (debit x rows json app user asset size now (rows.sweep at s')
                ≡ (ok tt, rows.sweep at s')))
  session_revoke-stops session s s' r on h e asset size now at =
      elim (session_revoke-cases session s on h) [
        | inl (s'', p, k, ttl) ↦
            let same : s'' ≡ s' = ap (λ q. q.1) (sym p ∙ e) in
            let holds : Stored (revoked_of session) s' = rw same at k in
            let ends : rows.expires_at (jup_session_key user) s' ≡ some session.expires_at_unix_ts =
              rw same at ttl in
            elim (laws.sweep-cases (jup_session_key user) at s') [
              | inl (kept, _) ↦ inl (
                  debit-reads (revoked_of session) asset size now (rows.sweep at s') on
                    (kept ∙ holds)
                  ∙ debit_row-revoked (revoked_of session) asset size now (rows.sweep at s') refl)
              | inr (t, t_is, past, gone) ↦
                  let when : t ≡ session.expires_at_unix_ts = cc (t_is, ends) in
                  inr (
                    omega (arith, past, when),
                    gone,
                    debit-none asset size now (rows.sweep at s') on gone,
                  )
            ]
        | inr (m, p, ne) ↦ absurd (ne r (ap (λ q. q.0) (sym p ∙ e)))
      ]
