-- ===== src/Jupiter/Session/Ledger/Runs.antt =====
-- The ledger over any sequence of events, while the session lasts.
use polylayer_tee.Prelude.{
  ℕ, ◌+◌, ◌≤◌, All, ◌≡◌, sym, subst, ◌∙◌, inl, inr, true, List, [], ◌∷◌, Bytes, Option, some, arith,
  map_err,
}
use polylayer_tee.External.{External}
use polylayer_tee.Api.{
  AppState, bad_request, internal, sessions, now_unix, lift, Exec, ◌>>=◌, lift-keeps, then_pure,
}
use polylayer_tee.Delegate.{SolanaDelegate, derive_jupiter_delegate, public_key_bs58}
use polylayer_tee.Store.{Rows, RowsLaws, Codec, RoundTrips, store_get, store_put}
use polylayer_tee.Store.Access.{store_get-HoldsRow}
use polylayer_tee.Solana.{decode_pubkey}
use polylayer_tee.Numeric.{parse_uint}
use polylayer_tee.Jupiter.Bounds.{JupiterSession}
use polylayer_tee.Jupiter.Session.{
  UpsertBody, jup_session_key, upserted, session_upsert, session_revoke, debit, revoke_row,
  upsert_row,
}
use polylayer_tee.Jupiter.Session.Ledger.{
  Event, trade, upsert, revoke, Counter, InTime, Counted, step, run, put-Counter, debit_row-Counted,
  upserted-used,
}

module _ (rows : Rows) (json : Codec JupiterSession) (user : Bytes) (until : ℕ) where
  abbrev key : Bytes
  key = jup_session_key user

  module _ (laws : RowsLaws rows) (trips : RoundTrips json) where
    module _ (x : External) (app : AppState) where
      debit-Counted :
          (asset : Bytes) (size now used : ℕ) (s : rows.State)
          → app.has_sessions ≡ true
          → Counter rows json user until used s
          → Counted rows json user until used size (debit x rows json app user asset size now s)
      unfolding debit
      debit-Counted asset size now used s on c =
          rw (on, store_get-HoldsRow rows json trips key c.session s c.stored)
            (debit_row-Counted rows json user until laws trips asset size now used s c)

      -- The counter that an upsert or a revocation leaves, whether it succeeds or not.
      kept :
          (session : JupiterSession) (used : ℕ) (s : rows.State)
          → until ≤ session.expires_at_unix_ts
          → parse_uint 128 session.cumulative_size_usdc_used ≡ some used
          → Counter rows json user until used s
          → Counter rows json user until used
              (store_put rows json key session (some session.expires_at_unix_ts) s).1
      kept session used s lasts e c =
          elim (put-Counter rows json user until laws trips session used s lasts e) [
            | inl (m, p, ne) ↦ rw p c
            | inr (s', p, c') ↦ rw p c'
          ]

      -- What follows a read of the user's row goes on with the stored session.
      read_then :
          {A : Type 0} (k : Option JupiterSession → Exec rows.State A) (used : ℕ) (s : rows.State)
          (c : Counter rows json user until used s)
          → Counter rows json user until used (k (some c.session) s).1
          → Counter rows json user until used ((store_get rows json key >>= k) s).1
      read_then k used s c h = rw (store_get-HoldsRow rows json trips key c.session s c.stored) h

      upsert_row-Counter :
          (req : UpsertBody) (d : Bytes) (now used : ℕ) (s : rows.State)
          (c : Counter rows json user until used s)
          → until ≤ req.expires_at_unix_ts
          → Counter rows json user until used
              (upsert_row rows json key req d now (some c.session) s).1
      unfolding upsert_row upserted
      upsert_row-Counter req d now used s c lasts =
          let new = upserted req d (some c.session) now in
          let ttl = some req.expires_at_unix_ts in
          let same : parse_uint 128 new.cumulative_size_usdc_used ≡ some used =
            upserted-used rows json user until laws trips req d c.session now ∙ c.counter in
          subst (Counter rows json user until used)
            (sym (then_pure (store_put rows json key new ttl) new s)) (kept new used s lasts same c)

      revoke_row-Counter :
          (used : ℕ) (s : rows.State) (c : Counter rows json user until used s)
          → Counter rows json user until used (revoke_row rows json key (some c.session) s).1
      unfolding revoke_row
      revoke_row-Counter used s c =
          let old = c.session in
          let new = record old { revoked = true } in
          let ttl = some old.expires_at_unix_ts in
          subst (Counter rows json user until used)
            (sym (then_pure (store_put rows json key new ttl) (some new) s))
            (kept new used s c.lasts c.counter c)

      upsert-Counter :
          (req : UpsertBody) (clock : Option ℕ) (used : ℕ) (s : rows.State)
          → until ≤ req.expires_at_unix_ts
          → Counter rows json user until used s
          → Counter rows json user until used
              (session_upsert x rows json app (record req { solana_pubkey = user }) clock s).1
      unfolding session_upsert
      upsert-Counter req clock used s lasts c =
          let body = record req { solana_pubkey = user } in
          let bad = map_err (λ e. bad_request "invalid_solana_pubkey") (decode_pubkey x user) in
          let derived =
            λ (pk : Bytes). map_err (λ e. internal) (derive_jupiter_delegate x app.seed pk) in
          let write = λ (d : SolanaDelegate) (now : ℕ).
            upsert_row rows json key body (public_key_bs58 x d) now in
          let read = λ (d : SolanaDelegate) (now : ℕ). store_get rows json key >>= write d now in
          let timed = λ (d : SolanaDelegate). lift (now_unix clock) >>= read d in
          let derive = λ (pk : Bytes). lift (derived pk) >>= timed in
          lift-keeps (Counter rows json user until used) (sessions app)
            (λ (u : Unit {0}). lift bad >>= derive) s c
            λ u on. lift-keeps (Counter rows json user until used) bad derive s c λ pk _.
              lift-keeps (Counter rows json user until used) (derived pk) timed s c λ d _.
                lift-keeps (Counter rows json user until used) (now_unix clock) (read d) s c
                  λ now _.
                    read_then (write d now) used s c
                      (upsert_row-Counter body (public_key_bs58 x d) now used s c lasts)

      revoke-Counter :
          (used : ℕ) (s : rows.State)
          → Counter rows json user until used s
          → Counter rows json user until used (session_revoke x rows json app user s).1
      unfolding session_revoke
      revoke-Counter used s c =
          lift-keeps (Counter rows json user until used) (sessions app)
            (λ _. store_get rows json key >>= revoke_row rows json key) s c
            λ u on. read_then (revoke_row rows json key) used s c (revoke_row-Counter used s c)

      -- The table deletes nothing of the user by a time before the session ends.
      sweep-Counter :
          (at used : ℕ) (s : rows.State)
          → at ≤ until
          → Counter rows json user until used s
          → Counter rows json user until used (rows.sweep at s)
      sweep-Counter at used s early c = elim (laws.sweep-cases key at s) [
        | inl (same, ttl) ↦ record {
          session = c.session;
          stored = same ∙ c.stored;
          counter = c.counter;
          expiry = ttl ∙ c.expiry;
          lasts = c.lasts;
        }
        | inr (e, ttl, past, gone) ↦
            let when : e ≡ c.session.expires_at_unix_ts = cc (ttl, c.expiry) in
            absurd (omega (arith, early, past, when, c.lasts))
      ]

      early_of : (at : ℕ) (e : Event) → InTime rows json user until (at, e) → at ≤ until
      early_of at (trade asset size now) h = h
      early_of at (upsert req clock) h = h.0
      early_of at revoke h = h

      step-Counter :
          (at : ℕ) (e : Event) (used : ℕ) (s : rows.State)
          → app.has_sessions ≡ true
          → InTime rows json user until (at, e)
          → Counter rows json user until used s
          → Counter rows json user until
              (used + (step rows json user until x app e s).0)
              (step rows json user until x app e s).1
      unfolding step
      step-Counter at (trade asset size now) used s on early c =
          debit-Counted asset size now used s on c
      step-Counter at (upsert req clock) used s on early c =
          let z : used ≡ used + 0 = omega arith in
          rw (← z) (upsert-Counter req clock used s early.1 c)
      step-Counter at revoke used s on early c =
          let z : used ≡ used + 0 = omega arith in rw (← z) (revoke-Counter used s c)

      -- For a session store that behaves as documented, whose rows are deleted once their TTL is
      -- in the past and not before, and a codec that round-trips: if an enclave that has a store
      -- holds a session of the user whose counter reads `used`, which ends at a time `until` or
      -- later, then after any sequence of trades, upserts and revocations of that user, handled
      -- one after the other and each by that time, with failing writes among them, where no upsert
      -- lets the session end before `until`, the store holds a session whose counter reads `used`
      -- plus the sizes of the trades that were let through: no upsert or revocation resets it.
      -- Requests that interleave, and what follows the deletion of the row, are not covered.
      pub run-Counter :
          (events : List (ℕ × Event)) (used : ℕ) (s : rows.State)
          → app.has_sessions ≡ true
          → All (InTime rows json user until) events
          → Counter rows json user until used s
          → Counter rows json user until
              (used + (run rows json user until x app events s).0)
              (run rows json user until x app events s).1
      unfolding run
      run-Counter [] used s on early c = let z : used ≡ used + 0 = omega arith in rw (← z) c
      run-Counter ((at, e) ∷ events) used s on early c =
          let swept = rows.sweep at s in
          let (size, s') = step rows json user until x app e swept in
          let z : used + (size + (run rows json user until x app events s').0)
              ≡ used + size + (run rows json user until x app events s').0 =
            omega arith in
          subst (λ n. Counter rows json user until n (run rows json user until x app events s').1)
            (sym z)
            (run-Counter events (used + size) s' on early.1 (
              step-Counter at e used swept on early.0
                (sweep-Counter at used s (early_of at e early.0) c)))
