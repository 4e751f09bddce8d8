-- ===== src/Sessions/Hl/Distinct.antt =====
-- No index of the store ever lists an id twice.
use polylayer_tee.Prelude.{
  ℕ, ◌≡◌, ◌≢◌, sym, ◌∙◌, inl, inr, Bool, List, [], ◌∷◌, Bytes, bytes_eq, bytes_eq_iff, Option, some,
  true, false, Outcome, ok, err, panic, Bool-cases,
}
use polylayer_tee.External.{External}
use polylayer_tee.Api.{
  ApiError, AppState, sessions, now_unix, continue, Exec, ◌>>◌, pure, lift-keeps, then_pure,
}
use polylayer_tee.Store.{Rows, RowsLaws, Codec, RoundTrips, store_get, store_put}
use polylayer_tee.Store.Access.{store_get-read, store_put-cases}
use polylayer_tee.Sessions.{IntentBody, SessionIndex, verified, append_to_index}
use polylayer_tee.Sessions.Index.{
  NoDup, IsDistinct, append_to_index-IsDistinct, append_to_index_others,
}
use polylayer_tee.Sessions.Hl.Config.{session_key, index_key, HlSession, session_of}
use polylayer_tee.Sessions.Hl.{create, revoke, store_session}
use polylayer_tee.Sessions.Hl.Created.{session_key-ne}
use polylayer_tee.Sessions.Hl.Revoked.{revoke-Settled}

-- A call of the two routes that write, by any caller.
pub data Call : Type 0 where
  creates : IntentBody → Option ℕ → Call
  revokes : IntentBody → Option ℕ → Call

module _ (x : External) (rows : Rows) (json : Codec HlSession) (indices : Codec SessionIndex)
    (app : AppState) where
  unfoldable pub step : Call → rows.State → rows.State
  step (creates req clock) s = (create x rows json indices app req clock s).1
  step (revokes req clock) s = (revoke x rows json indices app req clock s).1

  unfoldable pub run : List Call → rows.State → rows.State
  run [] s = s
  run (c ∷ calls) s = run calls (step c s)

  module _ (laws : RowsLaws rows) (trips : RoundTrips json) (index_trips : RoundTrips indices) where
    -- Every index that can be read has no id twice.
    pub AllDistinct : rows.State → Type 0
    AllDistinct s = (pubkey : Bytes) → IsDistinct rows indices laws index_trips (index_key pubkey) s

    same-AllDistinct :
        (s s' : rows.State)
        → ((pubkey : Bytes) → rows.read (index_key pubkey) s' ≡ rows.read (index_key pubkey) s)
        → AllDistinct s
        → AllDistinct s'
    unfolding AllDistinct
    same-AllDistinct s s' same d pubkey index read =
        d pubkey index (
          sym (store_get-read rows indices index_trips (index_key pubkey) s s' (same pubkey))
          ∙ read)

    put-AllDistinct :
        (session : HlSession) (id : Bytes) (ttl : Option ℕ) (s : rows.State)
        → AllDistinct s
        → AllDistinct (store_put rows json (session_key id) session ttl s).1
    put-AllDistinct session id ttl s d =
        elim (store_put-cases rows json trips laws (session_key id) session ttl s) [
          | inl (s', e, holds, others) ↦ rw e (
              same-AllDistinct s s'
                (λ pubkey. others (index_key pubkey) (λ h. session_key-ne id pubkey (sym h))) d)
          | inr (m, e, ne) ↦ rw e d
        ]

    append-AllDistinct :
        (owner id : Bytes) (s : rows.State)
        → AllDistinct s
        → AllDistinct (append_to_index rows indices (index_key owner) id s).1
    unfolding AllDistinct
    append-AllDistinct owner id s d pubkey =
        elim (Bool-cases (bytes_eq (index_key pubkey) (index_key owner))) [
          | inl e ↦
              let same = (bytes_eq_iff (index_key pubkey) (index_key owner)).0 e in
              rw same (
                append_to_index-IsDistinct rows indices laws index_trips (index_key owner) id s
                  (d owner))
          | inr e ↦ λ index read.
              let ne : index_key pubkey ≢ index_key owner =
                λ h. apart e ((bytes_eq_iff (index_key pubkey) (index_key owner)).1 h) in
              let frame =
                append_to_index_others rows indices laws index_trips (index_key owner) id
                  (index_key pubkey) s ne in
              d pubkey index
                (sym (store_get-read rows indices index_trips (index_key pubkey) s _ frame) ∙ read)
        ]
      where
        apart : {b : Bool} → b ≡ false → b ≡ true → ⊥
        apart p q = let z : false ≡ true = sym p ∙ q in cc (z)

    store_session-AllDistinct :
        (session : HlSession) (s : rows.State)
        → AllDistinct s
        → AllDistinct (store_session x rows json indices app session s).1
    unfolding store_session
    store_session-AllDistinct session s d =
        by_put
          (store_put rows json (session_key session.session_id) session (some session.expiry) s).0
          (put-AllDistinct session session.session_id (some session.expiry) s d)
      where
        key : Bytes
        key = session_key session.session_id

        s1 : rows.State
        s1 =
            (store_put rows json (session_key session.session_id) session (some session.expiry) s).1

        append : Exec rows.State HlSession
        append =
            append_to_index rows indices (index_key session.solana_pubkey) session.session_id
            >> pure session

        by_put :
            (m : Outcome ApiError (Unit {0}))
            → AllDistinct s1
            → AllDistinct (continue m (λ u. append) s1).1
        by_put (ok u) d1 =
            rw
              (then_pure
                (append_to_index rows indices (index_key session.solana_pubkey) session.session_id)
                session s1)
              (append-AllDistinct session.solana_pubkey session.session_id s1 d1)
        by_put (err e) d1 = d1
        by_put panic d1 = d1

    step-AllDistinct : (c : Call) (s : rows.State) → AllDistinct s → AllDistinct (step c s)
    unfolding step create
    step-AllDistinct (creates req clock) s d = lift-keeps AllDistinct (sessions app) _ s d λ u on.
        lift-keeps AllDistinct (now_unix clock) _ s d λ now c.
          lift-keeps AllDistinct (verified x req now) _ s d λ v signed.
            lift-keeps AllDistinct (session_of req.intent) _ s d
              λ session config. store_session-AllDistinct session s d
    step-AllDistinct (revokes req clock) s d =
        elim (revoke-Settled x rows json indices app laws trips req clock s) [
          | inl (answered, r) ↦
              same-AllDistinct s _
                (λ pubkey.
                  r.others (index_key pubkey) (λ h. session_key-ne r.session_id pubkey (sym h)))
                d
          | inr (answered, same) ↦ rw same d
        ]

    run-AllDistinct :
        (calls : List Call) (s : rows.State) → AllDistinct s → AllDistinct (run calls s)
    unfolding run
    run-AllDistinct [] s d = d
    run-AllDistinct (c ∷ calls) s d = run-AllDistinct calls (step c s) (step-AllDistinct c s d)

    -- For a session store that keeps what is written and codecs that round-trip, if every index
    -- that can be read lists no id twice, then so it is after any sequence of calls of the two
    -- Hyperliquid routes that write, by any callers, with failures among them.
    pub run-NoDup :
        (calls : List Call) (s : rows.State) (pubkey : Bytes) (index : SessionIndex)
        → ((pubkey : Bytes) → IsDistinct rows indices laws index_trips (index_key pubkey) s)
        → (store_get rows indices (index_key pubkey) (run calls s)).0 ≡ ok (some index)
        → NoDup index.session_ids
    unfolding AllDistinct
    run-NoDup calls s pubkey index d read = run-AllDistinct calls s d pubkey index read
