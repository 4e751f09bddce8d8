-- ===== src/Sessions/Hl/Revoked.antt =====
-- What a revocation does, and what the list shows after a creation.
use polylayer_tee.Prelude.{
  ℕ, ◌≡◌, ◌≢◌, refl, sym, ap, ◌∙◌, ◌⊎◌, inl, inr, Bool, true, false, Bytes, bytes_eq, bytes_eq_iff,
  text, Option, none, some, Outcome, ok, err, panic,
}
use polylayer_tee.External.{External}
use polylayer_tee.Json.{get_str}
use polylayer_tee.Api.{
  ApiError, AppState, sessions, now_unix, Exec, continue, pure, ◌>>◌, ◌>>=◌, lift, lift-cases,
}
use polylayer_tee.Store.{Rows, RowsLaws, Codec, RoundTrips, store_get, store_put}
use polylayer_tee.Store.Access.{store_get-HoldsRow, store_put-cases}
use polylayer_tee.Intents.Verified.{Verified}
use polylayer_tee.Sessions.{IntentBody, SessionIndex, intent_args, verified, req_str}
use polylayer_tee.Sessions.Checked.{verified-Verified, req_str-some}
use polylayer_tee.Sessions.Hl.Config.{session_key, HlSession}
use polylayer_tee.Sessions.Hl.{revoke, revoke_owned}

module _ (x : External) (rows : Rows) (json : Codec HlSession) (indices : Codec SessionIndex)
    (app : AppState) (laws : RowsLaws rows) (trips : RoundTrips json) where
  -- What `revoke` has done when it answers that the session is revoked: the session was stored under
  -- the id that the intent names, it belongs to the key that signed the intent, and it is
  -- stored as revoked, the other rows as they were.
  pub record Revoked (req : IntentBody) (s s' : rows.State) : Type 0 where
    pub now : ℕ
    pub signed : Verified x (intent_args req now)
    pub session_id : Bytes
    pub id_is : get_str req.intent (text "session_id") ≡ some session_id
    pub session : HlSession
    pub was : (store_get rows json (session_key session_id) s).0 ≡ ok (some session)
    pub own : get_str req.intent (text "solana_pubkey") ≡ some session.solana_pubkey
    pub becomes :
        (store_get rows json (session_key session_id) s').0
        ≡ ok (some (record session { revoked = true }))
    pub others : (key : Bytes) → key ≢ session_key session_id → rows.read key s' ≡ rows.read key s

  abbrev Settled : IntentBody → rows.State → Outcome ApiError Bool × rows.State → Type 0
  Settled req s (m, s') = ((m ≡ ok true) × Revoked req s s') ⊎ ((m ≢ ok true) × (s' ≡ s))

  module _ (req : IntentBody) (s : rows.State) (now : ℕ) (pubkey id : Bytes)
      (signed : Verified x (intent_args req now))
      (pubkey_is : get_str req.intent (text "solana_pubkey") ≡ some pubkey)
      (id_is : get_str req.intent (text "session_id") ≡ some id) where
    abbrev after : HlSession → HlSession
    after session = record session { revoked = true }

    unwritten :
        (m : Outcome ApiError (Unit {0}))
        → m ≢ ok tt
        → Settled req s (continue m (λ u. pure true) s)
    unwritten (ok u) ne = absurd (ne refl)
    unwritten (err e) ne = inr (λ h. cc (h), refl)
    unwritten panic ne = inr (λ h. cc (h), refl)

    write-Settled :
        (session : HlSession)
        → (store_get rows json (session_key id) s).0 ≡ ok (some session)
        → session.solana_pubkey ≡ pubkey
        → Settled req s (
            (store_put rows json (session_key id) (after session) (some session.expiry)
                >> pure true)
              s)
    write-Settled session was own =
        elim (store_put-cases rows json trips laws (session_key id) (after session)
          (some session.expiry) s) [
            | inl (s', e, holds, others) ↦ rw e (
                inl (
                  refl,
                  record {
                    now = now;
                    signed = signed;
                    session_id = id;
                    id_is = id_is;
                    session = session;
                    was = was;
                    own = pubkey_is ∙ ap some (sym own);
                    becomes =
                        ap (λ p. p.0)
                          (store_get-HoldsRow rows json trips (session_key id) (after session) s'
                            holds);
                    others = others;
                  },
                ))
            | inr (m, e, ne) ↦ rw e (unwritten m ne)
          ]

    revoke_owned-Settled :
        (row : Option HlSession)
        → (store_get rows json (session_key id) s).0 ≡ ok row
        → Settled req s (revoke_owned rows json (session_key id) pubkey row s)
    unfolding revoke_owned
    revoke_owned-Settled none was = inr (λ h. cc (h), refl)
    revoke_owned-Settled (some session) was = by_owner (bytes_eq session.solana_pubkey pubkey) refl
      where
        by_owner :
            (b : Bool)
            → bytes_eq session.solana_pubkey pubkey ≡ b
            → Settled req s (revoke_owned rows json (session_key id) pubkey (some session) s)
        by_owner false e = rw (revoke_owned, e) (inr (λ h. cc (h), refl))
        by_owner true e =
            rw (revoke_owned, e)
              (write-Settled session was ((bytes_eq_iff session.solana_pubkey pubkey).0 e))

  row-Settled :
      (req : IntentBody) (s : rows.State) (now : ℕ) (pubkey id : Bytes)
      → Verified x (intent_args req now)
      → get_str req.intent (text "solana_pubkey") ≡ some pubkey
      → get_str req.intent (text "session_id") ≡ some id
      → Settled req s (
          (store_get rows json (session_key id) >>= revoke_owned rows json (session_key id) pubkey)
            s)
  unfolding store_get
  row-Settled req s now pubkey id signed p i =
      by_read (store_get rows json (session_key id) s).0 refl
    where
      by_read :
          (m : Outcome ApiError (Option HlSession))
          → (store_get rows json (session_key id) s).0 ≡ m
          → Settled req s (continue m (revoke_owned rows json (session_key id) pubkey) s)
      by_read (ok row) e = revoke_owned-Settled req s now pubkey id signed p i row e
      by_read (err y) e = inr (λ h. cc (h), refl)
      by_read panic e = inr (λ h. cc (h), refl)

  lift-Settled :
      {A : Type 0} (req : IntentBody) (s : rows.State) (m : Outcome ApiError A)
      (k : A → Exec rows.State Bool)
      → ((a : A) → m ≡ ok a → Settled req s (k a s))
      → Settled req s ((lift m >>= k) s)
  lift-Settled req s m k =
      lift-cases (Settled req s) m k s (λ e. inr (λ h. cc (h), refl)) (inr (λ h. cc (h), refl))

  -- For a session store that keeps what is written and a codec that round-trips, a call of the
  -- route that revokes a Hyperliquid session either answers that the session is revoked, and then
  -- the intent of the request verifies, the session was stored under the id it names and belongs
  -- to the public key it names, the store now reads that session with the revoked flag set, and
  -- every other row is as it was; or it answers otherwise, and the state is as it was.
  pub revoke-Settled :
      (req : IntentBody) (clock : Option ℕ) (s : rows.State)
      → (((revoke x rows json indices app req clock s).0 ≡ ok true)
          × Revoked req s (revoke x rows json indices app req clock s).1)
        ⊎ (((revoke x rows json indices app req clock s).0 ≢ ok true)
            × ((revoke x rows json indices app req clock s).1 ≡ s))
  unfolding revoke
  revoke-Settled req clock s = lift-Settled req s (sessions app) _ λ u on.
      lift-Settled req s (now_unix clock) _ λ now c.
        lift-Settled req s (verified x req now) _ λ v signed.
          lift-Settled req s (req_str req.intent (text "solana_pubkey")) _ λ pubkey p.
            lift-Settled req s (req_str req.intent (text "session_id")) _ λ id i.
              row-Settled req s now pubkey id (verified-Verified x req now signed)
                (req_str-some req.intent (text "solana_pubkey") p)
                (req_str-some req.intent (text "session_id") i)
