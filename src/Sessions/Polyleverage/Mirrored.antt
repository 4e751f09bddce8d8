-- ===== src/Sessions/Polyleverage/Mirrored.antt =====
-- What an upsert stores, and what reading and revoking find afterwards.
use polylayer_tee.Prelude.{
  ℕ, ◌≡◌, ◌≢◌, sym, ap, subst, ◌∙◌, refl, true, false, [], text, Bytes, Option, none, some, Outcome,
  ok, ok_inj, guard-true, map_err, err, panic,
}
use polylayer_tee.External.{External}
use polylayer_tee.Api.{AppState, bad_request, sessions, now_unix, Exec-ok, lift-ok}
use polylayer_tee.Solana.{decode_pubkey}
use polylayer_tee.Delegate.{SolanaDelegate, derive_session_delegate, public_key_bs58}
use polylayer_tee.Store.{Rows, RowsLaws, Codec, RoundTrips, store_get, store_put}
use polylayer_tee.Store.Access.{HoldsRow, store_get-HoldsRow, store_put-ok, store_get-ok}
use polylayer_tee.Sessions.Checked.{now_unix-some}
use polylayer_tee.Sessions.Polyleverage.{
  PolyleverageSession, MirrorBody, plv_session_key, cumulative_used, created_at, unwrap_or,
  mirrored, mirror_row, delegate, session_get, session_upsert,
}

map_err-ok_inv :
    {E F : Type 0} {A : Type 0} (f : E → F) (m : Outcome E A) {a : A}
    → map_err f m ≡ ok a
    → m ≡ ok a
map_err-ok_inv f (ok b) h = ap ok (ok_inj h)
map_err-ok_inv f (err e) h = cc (h)
map_err-ok_inv f panic h = cc (h)

-- The counter is the one that is given, or else that of the prior row, or else 0.
abbrev pub IsUsed : Option Bytes → Option PolyleverageSession → Bytes → Type 0
IsUsed (some used) prior v = v ≡ used
IsUsed none (some p) v = v ≡ p.cumulative_collateral_used
IsUsed none none v = v ≡ text "0"

-- The creation time is that of the prior row, or else the time of the call.
abbrev pub IsCreated : Option PolyleverageSession → ℕ → ℕ → Type 0
IsCreated none now v = v ≡ now
IsCreated (some p) now v = v ≡ p.created_at_unix_ts

abbrev pub IsGiven {ℓ} : {A : Type ℓ} → Option A → A → A → Type ℓ
IsGiven none d v = v ≡ d
IsGiven (some a) d v = v ≡ a

cumulative_used-IsUsed :
    (given : Option Bytes) (prior : Option PolyleverageSession)
    → IsUsed given prior (cumulative_used given prior)
unfolding cumulative_used
cumulative_used-IsUsed (some used) prior = refl
cumulative_used-IsUsed none (some p) = refl
cumulative_used-IsUsed none none = refl

created_at-IsCreated :
    (prior : Option PolyleverageSession) (now : ℕ) → IsCreated prior now (created_at prior now)
unfolding created_at
created_at-IsCreated none now = refl
created_at-IsCreated (some p) now = refl

unwrap_or-IsGiven {ℓ} : {A : Type ℓ} (o : Option A) (d : A) → IsGiven o d (unwrap_or o d)
unwrap_or-IsGiven none d = refl
unwrap_or-IsGiven (some a) d = refl

module _ (x : External) (rows : Rows) (json : Codec PolyleverageSession) (app : AppState)
    (laws : RowsLaws rows) (trips : RoundTrips json) where
  pub record Mirrored (req : MirrorBody) (clock : Option ℕ) (session : PolyleverageSession)
      (s s' : rows.State) : Type 0 where
    pub now : ℕ
    pub clock_is : clock ≡ some now
    pub key : Bytes
    pub key_ok : decode_pubkey x req.solana_pubkey ≡ ok key
    pub derived : SolanaDelegate
    pub derived_ok : derive_session_delegate x app.seed key ≡ ok derived
    pub prior : Option PolyleverageSession
    pub was : (store_get rows json (plv_session_key req.solana_pubkey) s).0 ≡ ok prior
    pub user_is : session.solana_pubkey ≡ req.solana_pubkey
    pub delegate_is : session.delegate_pubkey_b58 ≡ x.bs58_encode derived.public_key
    pub expires_is : session.expires_at_slot ≡ req.expires_at_slot
    pub max_is : session.per_intent_max_collateral_atoms ≡ req.per_intent_max_collateral_atoms
    pub used_is : IsUsed req.cumulative_collateral_used prior session.cumulative_collateral_used
    pub cap_is : session.cumulative_collateral_cap ≡ req.cumulative_collateral_cap
    pub instruments_are : session.allowed_instruments ≡ req.allowed_instruments
    pub created_is : IsCreated prior now session.created_at_unix_ts
    pub revoked_is : IsGiven req.revoked false session.revoked
    pub version_is : IsGiven req.on_chain_version_seen [] session.on_chain_version_seen
    pub read_back : session_get x rows json app req.solana_pubkey s' ≡ (ok (some session), s')
    pub others :
        (key : Bytes) → key ≢ plv_session_key req.solana_pubkey → rows.read key s' ≡ rows.read key s

  -- The delegate that a request leads to; nothing is written on the way.
  delegate-ok :
      (solana : Bytes) (s : rows.State) {d : SolanaDelegate} {s' : rows.State}
      → delegate x rows json app solana s ≡ (ok d, s')
      → (key : Bytes) × (decode_pubkey x solana ≡ ok key)
        × (derive_session_delegate x app.seed key ≡ ok d)
        × (s ≡ s')
  unfolding delegate
  delegate-ok solana s h =
      let (key, k, h1) =
        lift-ok (map_err (λ e. bad_request "invalid_solana_pubkey") (decode_pubkey x solana)) _ s
          h in
      (
        key,
        map_err-ok_inv _ (decode_pubkey x solana) k,
        map_err-ok_inv _ (derive_session_delegate x app.seed key) (ap (λ p. p.0) h1),
        ap (λ p. p.1) h1,
      )

  mirror_row-ok :
      (key : Bytes) (req : MirrorBody) (bs58 : Bytes) (now : ℕ) (prior : Option PolyleverageSession)
      (s : rows.State) {session : PolyleverageSession} {s' : rows.State}
      → mirror_row rows json key req bs58 now prior s ≡ (ok session, s')
      → (session ≡ mirrored req bs58 prior now)
        × HoldsRow rows json trips key session s'
        × ((other : Bytes) → other ≢ key → rows.read other s' ≡ rows.read other s)
  unfolding mirror_row
  mirror_row-ok key req bs58 now prior s {session} {s'} h =
      let made = mirrored req bs58 prior now in
      let (u, s1, put, h1) = Exec-ok (store_put rows json key made none) _ s h in
      let (holds, others) = store_put-ok rows json trips laws key made none s put in
      let last = ap (λ p. p.1) h1 in
      let same : made ≡ session = ok_inj (ap (λ p. p.0) h1) in
      (
        sym same,
        subst (λ t. HoldsRow rows json trips key t s') same
            (subst (HoldsRow rows json trips key made) last holds),
        λ other ne. ap (rows.read other) (sym last) ∙ others other ne,
      )

  session_get-HoldsRow :
      (user : Bytes) (session : PolyleverageSession) (s : rows.State)
      → app.has_sessions ≡ true
      → HoldsRow rows json trips (plv_session_key user) session s
      → session_get x rows json app user s ≡ (ok (some session), s)
  unfolding session_get
  session_get-HoldsRow user session s on holds =
      rw on (store_get-HoldsRow rows json trips (plv_session_key user) session s holds)

  -- For a session store that keeps what is written and a codec that round-trips, when an upsert of
  -- a polyleverage session answers with a session, the clock was read, the public key of the
  -- request decodes, the delegate was derived from the enclave's seed and that key, the session
  -- has the user, expiry, bounds and instruments of the request, the text of that delegate's
  -- public key, the counter that the request gives or else that of the row read before or else 0,
  -- the creation time of that row or else the clock's, and the request's revocation flag and
  -- version or else none, it is read back under the user's key, and every other row is as it was.
  pub session_upsert-Mirrored :
      (req : MirrorBody) (clock : Option ℕ) (s : rows.State) (session : PolyleverageSession)
      (s' : rows.State)
      → session_upsert x rows json app req clock s ≡ (ok session, s')
      → Mirrored req clock session s s'
  unfolding session_upsert mirrored public_key_bs58
  session_upsert-Mirrored req clock s session s' h =
      let (u, on, h1) = lift-ok (sessions app) _ s h in
      let (d, s1, e, h2) = Exec-ok (delegate x rows json app req.solana_pubkey) _ s h1 in
      let (key, k, derives, same1) = delegate-ok req.solana_pubkey s e in
      let (now, c, h3) = lift-ok (now_unix clock) _ s1 h2 in
      let user_key = plv_session_key req.solana_pubkey in
      let (prior, s2, g, h4) = Exec-ok (store_get rows json user_key) _ s1 h3 in
      let (same2, read) = store_get-ok rows json trips user_key s1 g in
      let (made, holds, others) =
        mirror_row-ok user_key req (public_key_bs58 x d) now prior s2 h4 in
      let back = same2 ∙ sym same1 in
      record {
        now = now;
        clock_is = now_unix-some clock c;
        key = key;
        key_ok = k;
        derived = d;
        derived_ok = derives;
        prior = prior;
        was = ap (λ t. (store_get rows json user_key t).0) same1 ∙ read;
        user_is = ap (λ t. t.solana_pubkey) made;
        delegate_is = ap (λ t. t.delegate_pubkey_b58) made;
        expires_is = ap (λ t. t.expires_at_slot) made;
        max_is = ap (λ t. t.per_intent_max_collateral_atoms) made;
        used_is =
            subst (IsUsed req.cumulative_collateral_used prior)
              (sym (ap (λ t. t.cumulative_collateral_used) made))
              (cumulative_used-IsUsed req.cumulative_collateral_used prior);
        cap_is = ap (λ t. t.cumulative_collateral_cap) made;
        instruments_are = ap (λ t. t.allowed_instruments) made;
        created_is =
            subst (IsCreated prior now) (sym (ap (λ t. t.created_at_unix_ts) made))
              (created_at-IsCreated prior now);
        revoked_is =
            subst (IsGiven req.revoked false) (sym (ap (λ t. t.revoked) made))
              (unwrap_or-IsGiven req.revoked false);
        version_is =
            subst (IsGiven req.on_chain_version_seen [])
              (sym (ap (λ t. t.on_chain_version_seen) made))
              (unwrap_or-IsGiven req.on_chain_version_seen []);
        read_back =
            session_get-HoldsRow req.solana_pubkey session s' (guard-true app.has_sessions _ on)
              holds;
        others = λ other ne. others other ne ∙ ap (rows.read other) back;
      }
