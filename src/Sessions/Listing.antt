-- ===== src/Sessions/Listing.antt =====
-- The loop over the ids of an index: which rows it returns.
use polylayer_tee.Prelude.{
  ◌≡◌, sym, ap, subst, ◌∙◌, inl, inr, true, List, [], ◌∷◌, Bytes, bytes_eq, bytes_eq_iff, Option,
  none, some, ok, All, arith, Bool-cases, ok_inj,
}
use polylayer_tee.Api.{Exec-ok}
use polylayer_tee.Store.{Rows, Codec, RoundTrips, store_get}
use polylayer_tee.Store.Access.{store_get-ok}
use polylayer_tee.Jupiter.Bounds.{contains}
use polylayer_tee.Sessions.{keep, list_rows}

pub data IsIn {T : Type 0} (t : T) : List T → Type 0 where
  here : (ts : List T) → IsIn t (t ∷ ts)
  there : (u : T) (ts : List T) → IsIn t ts → IsIn t (u ∷ ts)

module _ (rows : Rows) {T : Type 0} (json : Codec T) (trips : RoundTrips json)
    (key_of : Bytes → Bytes) (owner : T → Bytes) (pubkey : Bytes) where
  abbrev pub Owned : T → Type 0
  Owned t = owner t ≡ pubkey

  keep-Owned :
      (row : Option T) (ts : List T)
      → All Owned ts
      → All Owned (keep rows json key_of owner pubkey row ts)
  unfolding keep
  keep-Owned none ts h = h
  keep-Owned (some s) ts h = elim (Bool-cases (bytes_eq (owner s) pubkey)) [
    | inl e ↦ rw e ((bytes_eq_iff (owner s) pubkey).0 e, h)
    | inr e ↦ rw e h
  ]

  keep-IsIn :
      (t : T) (row : Option T) (ts : List T)
      → IsIn t ts
      → IsIn t (keep rows json key_of owner pubkey row ts)
  unfolding keep
  keep-IsIn t none ts h = h
  keep-IsIn t (some s) ts h = elim (Bool-cases (bytes_eq (owner s) pubkey)) [
    | inl e ↦ rw e (there s ts h)
    | inr e ↦ rw e h
  ]

  keep-own :
      (t : T) (ts : List T) → Owned t → IsIn t (keep rows json key_of owner pubkey (some t) ts)
  unfolding keep
  keep-own t ts o = rw ((bytes_eq_iff (owner t) pubkey).1 o) (here ts)

  -- Every row of the asker under one of the ids is among the rows that were found.
  abbrev IsComplete : List Bytes → List T → rows.State → Type 0
  IsComplete ids found s =
      (id : Bytes) (t : T)
      → contains ids id ≡ true
      → (store_get rows json (key_of id) s).0 ≡ ok (some t)
      → Owned t
      → IsIn t found

  keep-IsComplete :
      (i : Bytes) (ids : List Bytes) (row : Option T) (rest : List T) (s : rows.State)
      → (store_get rows json (key_of i) s).0 ≡ ok row
      → IsComplete ids rest s
      → IsComplete (i ∷ ids) (keep rows json key_of owner pubkey row rest) s
  unfolding contains
  keep-IsComplete i ids row rest s read ih id t c row_is o = elim (Bool-cases (bytes_eq i id)) [
    | inl e ↦
        let here_is : (store_get rows json (key_of i) s).0 ≡ ok (some t) =
          rw ((bytes_eq_iff i id).0 e) row_is in
        let same : row ≡ some t = ok_inj (sym read ∙ here_is) in rw same (keep-own t rest o)
    | inr e ↦ keep-IsIn t row rest (ih id t (ground (arith, c, e)) row_is o)
  ]

  -- The loop changes nothing, returns rows of the asker alone, and returns every one of them whose
  -- id is given.
  pub record Listed (ids : List Bytes) (found : List T) (s s' : rows.State) : Type 0 where
    pub unchanged : s ≡ s'
    pub owned : All Owned found
    pub complete :
        (id : Bytes) (t : T)
        → contains ids id ≡ true
        → (store_get rows json (key_of id) s).0 ≡ ok (some t)
        → Owned t
        → IsIn t found

  pub list_rows-Listed :
      (ids : List Bytes) (s : rows.State) {found : List T} {s' : rows.State}
      → list_rows rows json key_of owner pubkey ids s ≡ (ok found, s')
      → Listed ids found s s'
  unfolding list_rows contains
  list_rows-Listed [] s {found} h = record {
    unchanged = ap (λ p. p.1) h;
    owned = subst (All Owned) (ok_inj (ap (λ p. p.0) h)) tt;
    complete = λ id t c e o. cc (c);
  }
  list_rows-Listed (i ∷ ids) s {found} {s'} h =
      let (row, s1, e, h1) = Exec-ok (store_get rows json (key_of i)) _ s h in
      let (same, read) = store_get-ok rows json trips (key_of i) s e in
      let (rest, s2, loop, h2) = Exec-ok (list_rows rows json key_of owner pubkey ids) _ s1 h1 in
      let from_s =
        subst (λ t. list_rows rows json key_of owner pubkey ids t ≡ (ok rest, s2)) same loop in
      let ih = list_rows-Listed ids s from_s in
      let kept : keep rows json key_of owner pubkey row rest ≡ found = ok_inj (ap (λ p. p.0) h2) in
      record {
        unchanged = ih.unchanged ∙ ap (λ p. p.1) h2;
        owned = subst (All Owned) kept (keep-Owned row rest ih.owned);
        complete =
            subst (λ l. IsComplete (i ∷ ids) l s) kept
              (keep-IsComplete i ids row rest s read ih.complete);
      }
