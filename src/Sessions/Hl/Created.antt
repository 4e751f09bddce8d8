-- ===== src/Sessions/Hl/Created.antt =====
-- What creating and revoking a Hyperliquid session leaves in the store.
use polylayer_tee.Prelude.{
  ok_inj, ℕ, ◌≡◌, ◌≢◌, refl, sym, ap, subst, ◌∙◌, Bool, true, false, Bytes, bytes_eq, bytes_eq_self,
  text, Option, some, ok, take, guard-true, >>=-eq-ok, ok_or-ok,
}
use polylayer_tee.External.{External}
use polylayer_tee.Json.{Value}
use polylayer_tee.Api.{AppState, bad_request, sessions, now_unix, Exec-ok, lift-ok}
use polylayer_tee.Store.{Rows, RowsLaws, Codec, RoundTrips, store_put}
use polylayer_tee.Store.Access.{HoldsRow, store_get-HoldsRow, store_put-ok}
use polylayer_tee.Intents.Verified.{Verified}
use polylayer_tee.Sessions.{
  verified, IntentBody, SessionIndex, intent_args, req_str, req_u64, append_to_index,
}
use polylayer_tee.Sessions.Checked.{verified-Verified, now_unix-some}
use polylayer_tee.Sessions.Index.{Lists, append_to_index-IsAppended}
use polylayer_tee.Sessions.Hl.Config.{
  session_key, index_key, HlSession, if_owned, coins_of, session_of,
}
use polylayer_tee.Sessions.Hl.{store_session, create, get_session}

pub session_key-ne : (id pubkey : Bytes) → session_key id ≢ index_key pubkey
unfolding session_key index_key
session_key-ne id pubkey h =
    let z : ◌≡◌ {A = Bool} true false = ap (λ t. bytes_eq (take 4 t) (text "hl-s")) h in cc (z)

session_of-fresh :
    (intent : Value) {session : HlSession}
    → session_of intent ≡ ok session
    → (session.revoked ≡ false) × (session.total_usd_filled ≡ text "0")
unfolding session_of
session_of-fresh intent h =
    let (pubkey, p, h1) = >>=-eq-ok (req_str intent (text "solana_pubkey")) _ h in
    let (id, i, h2) = >>=-eq-ok (req_str intent (text "session_id")) _ h1 in
    let (coins, c, h3) = ok_or-ok (coins_of intent) (bad_request "intent_missing") _ h2 in
    let (surface, f, h4) = >>=-eq-ok (req_str intent (text "surface")) _ h3 in
    let (total, t, h5) = >>=-eq-ok (req_str intent (text "max_total_usd")) _ h4 in
    let (size, z, h6) = >>=-eq-ok (req_str intent (text "max_order_size_usd")) _ h5 in
    let (leverage, l, h7) = >>=-eq-ok (req_u64 intent (text "max_leverage")) _ h6 in
    let (expiry, e, h8) = >>=-eq-ok (req_u64 intent (text "expiry")) _ h7 in
    let same = ok_inj h8 in
    (ap (λ t. t.revoked) (sym same), ap (λ t. t.total_usd_filled) (sym same))

module _ (x : External) (rows : Rows) (json : Codec HlSession) (indices : Codec SessionIndex)
    (app : AppState) (laws : RowsLaws rows) (trips : RoundTrips json)
    (index_trips : RoundTrips indices) where
  abbrev pub StoredHl : HlSession → rows.State → Type 0
  StoredHl session = HoldsRow rows json trips (session_key session.session_id) session

  if_owned-own : (session : HlSession) → if_owned session.solana_pubkey (some session) ≡ ok session
  unfolding if_owned
  if_owned-own session = rw (if_owned, bytes_eq_self session.solana_pubkey) refl

  served :
      (session : HlSession) (s : rows.State)
      → app.has_sessions ≡ true
      → StoredHl session s
      → get_session x rows json indices app session.solana_pubkey session.session_id s
        ≡ (ok session, s)
  unfolding get_session
  served session s on holds =
      let read =
        store_get-HoldsRow rows json trips (session_key session.session_id) session s holds in
      rw (on, read, if_owned-own session) refl

  -- What `create` has done when it answers with a session.
  pub record Created (req : IntentBody) (clock : Option ℕ) (session : HlSession) (s' : rows.State)
      : Type 0 where
    pub now : ℕ
    pub clock_is : clock ≡ some now
    pub signed : Verified x (intent_args req now)
    pub config : session_of req.intent ≡ ok session
    pub fresh : (session.revoked ≡ false) × (session.total_usd_filled ≡ text "0")
    pub stored : StoredHl session s'
    pub served_back :
        get_session x rows json indices app session.solana_pubkey session.session_id s'
        ≡ (ok session, s')
    pub listed :
        Lists rows indices laws index_trips (index_key session.solana_pubkey) session.session_id s'

  store_session-ok :
      (session : HlSession) (s : rows.State) {answer : HlSession} {s' : rows.State}
      → store_session x rows json indices app session s ≡ (ok answer, s')
      → (answer ≡ session)
        × StoredHl session s'
        × Lists rows indices laws index_trips
            (index_key session.solana_pubkey)
            session.session_id
            s'
  unfolding store_session
  store_session-ok session s h =
      let key = session_key session.session_id in
      let ikey = index_key session.solana_pubkey in
      let (u, s1, put, h1) =
        Exec-ok (store_put rows json key session (some session.expiry)) _ s h in
      let (holds, others) =
        store_put-ok rows json trips laws key session (some session.expiry) s put in
      let (v, s2, appended, h2) =
        Exec-ok (append_to_index rows indices ikey session.session_id) _ s1 h1 in
      let (lists, rest) =
        append_to_index-IsAppended rows indices laws index_trips ikey session.session_id s1
          appended in
      let kept = rest key (session_key-ne session.session_id session.solana_pubkey) ∙ holds in
      let same = ap (λ p. p.1) h2 in
      let answered = ap (λ p. p.0) h2 in
      (
        ok_inj (sym answered),
        subst (StoredHl session) same kept,
        subst (Lists rows indices laws index_trips ikey session.session_id) same lists,
      )

  -- For a session store that keeps what is written and codecs that round-trip, whatever was stored
  -- before, when the route that creates a Hyperliquid session answers with a session, the clock
  -- was read, the intent of the request verifies, the session is the one that the intent asks for,
  -- it is not revoked and its filled total is 0, the route that reads a session serves it back to
  -- its owner under its id, and the owner's index lists the id.
  pub create-Created :
      (req : IntentBody) (clock : Option ℕ) (s : rows.State) (session : HlSession) (s' : rows.State)
      → create x rows json indices app req clock s ≡ (ok session, s')
      → Created req clock session s'
  unfolding create
  create-Created req clock s session s' h =
      let (u, on, h1) = lift-ok (sessions app) _ s h in
      let (now, c, h2) = lift-ok (now_unix clock) _ s h1 in
      let (v, signed, h3) = lift-ok (verified x req now) _ s h2 in
      let (made, config, h4) = lift-ok (session_of req.intent) _ s h3 in
      let (same, holds, lists) = store_session-ok made s h4 in
      let listed = guard-true app.has_sessions _ on in
      subst (λ t. Created req clock t s') (sym same)
        (record {
          now = now;
          clock_is = now_unix-some clock c;
          signed = verified-Verified x req now signed;
          config = config;
          fresh = session_of-fresh req.intent config;
          stored = holds;
          served_back = served made s' listed holds;
          listed = lists;
        })
