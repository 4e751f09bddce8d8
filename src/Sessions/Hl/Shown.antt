-- ===== src/Sessions/Hl/Shown.antt =====
-- The list of a user's sessions, and the list after a creation.
use polylayer_tee.Prelude.{
  ℕ, ◌≡◌, refl, sym, ap, ◌∙◌, true, List, Bytes, Option, some, ok, All, ok_inj,
}
use polylayer_tee.External.{External}
use polylayer_tee.Api.{AppState, sessions, Exec-ok, lift-ok}
use polylayer_tee.Store.{Rows, RowsLaws, Codec, RoundTrips, store_get}
use polylayer_tee.Store.Access.{store_get-ok, store_get-HoldsRow}
use polylayer_tee.Jupiter.Bounds.{contains}
use polylayer_tee.Sessions.{IntentBody, SessionIndex, ids_of}
use polylayer_tee.Sessions.Listing.{IsIn, Listed, list_rows-Listed}
use polylayer_tee.Sessions.Hl.Config.{session_key, index_key, HlSession, owner}
use polylayer_tee.Sessions.Hl.{create, list}
use polylayer_tee.Sessions.Hl.Created.{create-Created}

module _ (x : External) (rows : Rows) (json : Codec HlSession) (indices : Codec SessionIndex)
    (app : AppState) (laws : RowsLaws rows) (trips : RoundTrips json)
    (index_trips : RoundTrips indices) where
  -- The rows of the index under the user's key.
  list-Listed :
      (pubkey : Bytes) (s : rows.State) {found : List HlSession} {s' : rows.State}
      → list x rows json indices app pubkey s ≡ (ok found, s')
      → (index : Option SessionIndex) × ((store_get rows indices (index_key pubkey) s).0 ≡ ok index)
        × Listed rows json trips session_key owner pubkey (ids_of index) found s s'
  unfolding list
  list-Listed pubkey s h =
      let (u, on, h1) = lift-ok (sessions app) _ s h in
      let (index, s1, e, h2) = Exec-ok (store_get rows indices (index_key pubkey)) _ s h1 in
      let (same, read) = store_get-ok rows indices index_trips (index_key pubkey) s e in
      (
        index,
        read,
        list_rows-Listed rows json trips session_key owner pubkey (ids_of index) s (rw same at h2),
      )

  -- For a session store that keeps what is written and codecs that round-trip, after a Hyperliquid
  -- session was created, the list of its owner's sessions, whenever it answers, has that session
  -- in it, has sessions of that owner alone, and leaves the state as it was.
  pub list-create :
      (req : IntentBody) (clock : Option ℕ) (s : rows.State) (session : HlSession) (s' : rows.State)
      (found : List HlSession) (s'' : rows.State)
      → create x rows json indices app req clock s ≡ (ok session, s')
      → list x rows json indices app session.solana_pubkey s' ≡ (ok found, s'')
      → IsIn session found × All (λ t. t.solana_pubkey ≡ session.solana_pubkey) found × (s' ≡ s'')
  unfolding ids_of
  list-create req clock s session s' found s'' made shown =
      let c =
        create-Created x rows json indices app laws trips index_trips req clock s session s' made in
      let (index, read, l) = list-Listed session.solana_pubkey s' shown in
      let same : index ≡ some c.listed.index = ok_inj (sym read ∙ c.listed.readable) in
      let ids : contains (ids_of index) session.session_id ≡ true = rw same c.listed.listed in
      let stored =
        ap (λ p. p.0)
          (store_get-HoldsRow rows json trips (session_key session.session_id) session s'
            c.stored) in
      (l.complete session.session_id session ids stored refl, l.owned, l.unchanged)
