-- ===== src/Sessions/Generic/Created.antt =====
-- What creating a session of the order book leaves in the store, and what the list then shows.
use polylayer_tee.Prelude.{
  ℕ, ◌≡◌, ◌≢◌, refl, sym, ap, subst, ◌∙◌, Bool, true, false, List, map, Bytes, bytes_eq, text, take,
  Option, some, ok, ok_inj, >>=-eq-ok,
}
use polylayer_tee.External.{External}
use polylayer_tee.Json.{Value}
use polylayer_tee.Api.{AppState, sessions, now_unix, Exec-ok, lift-ok}
use polylayer_tee.Store.{Rows, RowsLaws, Codec, RoundTrips, store_get, store_put}
use polylayer_tee.Store.Access.{HoldsRow, store_get-HoldsRow, store_put-ok, store_get-ok}
use polylayer_tee.Intents.Verified.{Verified}
use polylayer_tee.Jupiter.Bounds.{contains}
use polylayer_tee.Sessions.{
  IntentBody, SessionIndex, intent_args, verified, req_str, req_u64, append_to_index, ids_of,
  list_rows,
}
use polylayer_tee.Sessions.Checked.{verified-Verified, now_unix-some}
use polylayer_tee.Sessions.Index.{Lists, append_to_index-IsAppended}
use polylayer_tee.Sessions.Listing.{IsIn, Listed, list_rows-Listed}
use polylayer_tee.Sessions.Generic.Config.{
  session_key, index_key, GenericSession, SessionListRow, list_row, owner, session_of, ttl_of,
}
use polylayer_tee.Sessions.Generic.{store_session, create, list}

session_key-ne : (id pubkey : Bytes) → session_key id ≢ index_key pubkey
unfolding session_key index_key
session_key-ne id pubkey h =
    let z : ◌≡◌ {A = Bool} true false = ap (λ t. bytes_eq (take 5 t) (text "gen-v")) h in cc (z)

abbrev IsFresh : ℕ → GenericSession → Type 0
IsFresh now session =
    (session.revoked ≡ false) × (session.total_usdc_filled ≡ text "0") × (session.created_at ≡ now)

session_of-IsFresh :
    (intent : Value) (now : ℕ) {session : GenericSession}
    → session_of intent now ≡ ok session
    → IsFresh now session
unfolding session_of
session_of-IsFresh intent now h =
    let (pubkey, p, h1) = >>=-eq-ok (req_str intent (text "solana_pubkey")) _ h in
    let (id, i, h2) = >>=-eq-ok (req_str intent (text "session_id")) _ h1 in
    let (surface, f, h3) = >>=-eq-ok (req_str intent (text "surface")) _ h2 in
    let (mode, w, h4) = >>=-eq-ok (req_str intent (text "whitelist_mode")) _ h3 in
    let (total, t, h5) = >>=-eq-ok (req_str intent (text "max_total_usdc")) _ h4 in
    let (size, z, h6) = >>=-eq-ok (req_str intent (text "max_order_size_usdc")) _ h5 in
    let (price, r, h7) = >>=-eq-ok (req_str intent (text "max_price")) _ h6 in
    let (expiry, e, h8) = >>=-eq-ok (req_u64 intent (text "expiry")) _ h7 in
    subst (IsFresh now) (ok_inj h8) (refl, refl, refl)

map-IsIn : {A B : Type 0} (f : A → B) (a : A) {l : List A} → IsIn a l → IsIn (f a) (map f l)
map-IsIn f a (IsIn.here ts) = IsIn.here (map f ts)
map-IsIn f a (IsIn.there u ts i) = IsIn.there (f u) (map f ts) (map-IsIn f a i)

module _ (x : External) (rows : Rows) (json : Codec GenericSession) (indices : Codec SessionIndex)
    (app : AppState) (laws : RowsLaws rows) (trips : RoundTrips json)
    (index_trips : RoundTrips indices) where
  abbrev pub StoredGeneric : GenericSession → rows.State → Type 0
  StoredGeneric session = HoldsRow rows json trips (session_key session.session_id) session

  -- What `create` has done when it answers with an id.
  pub record Created (req : IntentBody) (clock : Option ℕ) (id : Bytes) (s' : rows.State)
      : Type 0 where
    pub now : ℕ
    pub clock_is : clock ≡ some now
    pub signed : Verified x (intent_args req now)
    pub session : GenericSession
    pub config : session_of req.intent now ≡ ok session
    pub fresh :
        (session.revoked ≡ false)
        × (session.total_usdc_filled ≡ text "0")
        × (session.created_at ≡ now)
    pub id_is : id ≡ session.session_id
    pub stored : StoredGeneric session s'
    pub listed :
        Lists rows indices laws index_trips (index_key session.solana_pubkey) session.session_id s'

  store_session-ok :
      (session : GenericSession) (s : rows.State) {id : Bytes} {s' : rows.State}
      → store_session x rows json indices app session s ≡ (ok id, s')
      → (id ≡ session.session_id)
        × StoredGeneric session s'
        × Lists rows indices laws index_trips
            (index_key session.solana_pubkey)
            session.session_id
            s'
  unfolding store_session
  store_session-ok session s h =
      let key = session_key session.session_id in
      let ikey = index_key session.solana_pubkey in
      let ttl = ttl_of session in
      let (u, s1, put, h1) = Exec-ok (store_put rows json key session ttl) _ s h in
      let (holds, others) = store_put-ok rows json trips laws key session ttl s put in
      let (v, s2, appended, h2) =
        Exec-ok (append_to_index rows indices ikey session.session_id) _ s1 h1 in
      let (lists, rest) =
        append_to_index-IsAppended rows indices laws index_trips ikey session.session_id s1
          appended in
      let kept = rest key (session_key-ne session.session_id session.solana_pubkey) ∙ holds in
      let same = ap (λ p. p.1) h2 in
      (
        ok_inj (sym (ap (λ p. p.0) h2)),
        subst (StoredGeneric session) same kept,
        subst (Lists rows indices laws index_trips ikey session.session_id) same lists,
      )

  create-Created :
      (req : IntentBody) (clock : Option ℕ) (s : rows.State) (id : Bytes) (s' : rows.State)
      → create x rows json indices app req clock s ≡ (ok id, s')
      → Created req clock id s'
  unfolding create
  create-Created req clock s id s' h =
      let (u, on, h1) = lift-ok (sessions app) _ s h in
      let (now, c, h2) = lift-ok (now_unix clock) _ s h1 in
      let (v, signed, h3) = lift-ok (verified x req now) _ s h2 in
      let (made, config, h4) = lift-ok (session_of req.intent now) _ s h3 in
      let (same, holds, lists) = store_session-ok made s h4 in
      record {
        now = now;
        clock_is = now_unix-some clock c;
        signed = verified-Verified x req now signed;
        session = made;
        config = config;
        fresh = session_of-IsFresh req.intent now config;
        id_is = same;
        stored = holds;
        listed = lists;
      }

  -- The rows of the index under the user's key.
  list-Listed :
      (pubkey : Bytes) (s : rows.State) {shown : List SessionListRow} {s' : rows.State}
      → list x rows json indices app pubkey s ≡ (ok shown, s')
      → (index : Option SessionIndex) × (found : List GenericSession) × ((store_get rows indices
            (index_key pubkey)
            s).0
          ≡ ok index)
        × Listed rows json trips session_key owner pubkey (ids_of index) found s s'
        × (shown ≡ map list_row found)
  unfolding list
  list-Listed pubkey s {shown} {s'} h =
      let (u, on, h1) = lift-ok (sessions app) _ s h in
      let (index, s1, e, h2) = Exec-ok (store_get rows indices (index_key pubkey)) _ s h1 in
      let (same, read) = store_get-ok rows indices index_trips (index_key pubkey) s e in
      let (found, s2, loop, h3) =
        Exec-ok (list_rows rows json session_key owner pubkey (ids_of index)) _ s1 h2 in
      let from_s =
        subst (λ t. list_rows rows json session_key owner pubkey (ids_of index) t ≡ (ok found, s2))
          same loop in
      let l = list_rows-Listed rows json trips session_key owner pubkey (ids_of index) s from_s in
      (
        index,
        found,
        read,
        subst (Listed rows json trips session_key owner pubkey (ids_of index) found s)
            (ap (λ p. p.1) h3) l,
        ok_inj (sym (ap (λ p. p.0) h3)),
      )

  -- For a session store that keeps what is written and codecs that round-trip, if an order book
  -- session was created at a time that the clock gave, then the intent verifies at that time, the
  -- answer is the id of the session that the intent asks for, which is not revoked, and the list
  -- of its owner's sessions, whenever it answers, has the row of that session in it and leaves the
  -- state as it was.
  pub create-IsIn :
      (req : IntentBody) (now : ℕ) (s : rows.State) (session : GenericSession) (id : Bytes)
      (s' : rows.State) (shown : List SessionListRow) (s'' : rows.State)
      → session_of req.intent now ≡ ok session
      → create x rows json indices app req (some now) s ≡ (ok id, s')
      → list x rows json indices app session.solana_pubkey s' ≡ (ok shown, s'')
      → Verified x (intent_args req now)
        × (id ≡ session.session_id)
        × (session.revoked ≡ false)
        × IsIn (list_row session) shown
        × (s' ≡ s'')
  unfolding ids_of
  create-IsIn req now s session id s' shown s'' config made h =
      let c = create-Created req (some now) s id s' made in
      let at : now ≡ c.now = some_inj c.clock_is in
      let agrees : c.session ≡ session =
        ok_inj (sym c.config ∙ ap (session_of req.intent) (sym at) ∙ config) in
      let lists = subst (IsListed s') agrees (c.listed, c.stored) in
      let (index, found, read, l, rows_are) = list-Listed session.solana_pubkey s' h in
      let same : index ≡ some lists.0.index = ok_inj (sym read ∙ lists.0.readable) in
      let ids : contains (ids_of index) session.session_id ≡ true = rw same lists.0.listed in
      let stored =
        ap (λ p. p.0)
          (store_get-HoldsRow rows json trips (session_key session.session_id) session s'
            lists.1) in
      let there = l.complete session.session_id session ids stored refl in
      (
        subst (λ t. Verified x (intent_args req t)) (sym at) c.signed,
        c.id_is ∙ ap (λ t. t.session_id) agrees,
        sym (ap (λ t. t.revoked) agrees) ∙ c.fresh.0,
        subst (IsIn (list_row session)) (sym rows_are) (map-IsIn list_row session there),
        l.unchanged,
      )
    where
      some_inj : {a b : ℕ} → ◌≡◌ {A = Option ℕ} (some a) (some b) → a ≡ b
      some_inj h = cc (h)

      IsListed : rows.State → GenericSession → Type 0
      IsListed st t =
          Lists rows indices laws index_trips (index_key t.solana_pubkey) t.session_id st
          × StoredGeneric t st
