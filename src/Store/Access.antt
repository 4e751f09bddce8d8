-- ===== src/Store/Access.antt =====
-- Typed reads and writes of session rows, given that the store keeps what is written.
use polylayer_tee.Prelude.{
  ℕ, ◌≡◌, ◌≢◌, refl, sym, ap, ◌∙◌, ◌⊎◌, inl, inr, Bytes, Option, some, Outcome, ok, err, panic,
  arith,
}
use polylayer_tee.Api.{ApiError, internal}
use polylayer_tee.Store.{StorageError, Rows, RowsLaws, Codec, RoundTrips, store_get, store_put}

module _ (r : Rows) {T : Type 0} (c : Codec T) (trips : RoundTrips c) where
  -- The store holds `v` under `key`.
  abbrev pub HoldsRow : Bytes → T → r.State → Type 0
  HoldsRow key v s = r.read key s ≡ ok (some (c.to_vec v))

  pub store_get-HoldsRow :
      (key : Bytes) (v : T) (s : r.State)
      → HoldsRow key v s
      → store_get r c key s ≡ (ok (some v), s)
  unfolding store_get
  store_get-HoldsRow key v s h = ground (arith, h, trips v)

  -- A write is done, and then the store holds the value, or it fails and changes nothing.
  pub store_put-cases :
      (laws : RowsLaws r) (key : Bytes) (v : T) (ttl : Option ℕ) (s : r.State)
      → ((s' : r.State) × (store_put r c key v ttl s ≡ (ok tt, s'))
          × HoldsRow key v s'
          × ((other : Bytes) → other ≢ key → r.read other s' ≡ r.read other s))
        ⊎ ((m : Outcome ApiError (Unit {0})) × (store_put r c key v ttl s ≡ (m, s)) × (m ≢ ok tt))
  unfolding store_put
  store_put-cases laws key v ttl s = put_cases (r.write key (c.to_vec v) ttl s) refl
    where
      put_cases :
          (m : Outcome StorageError r.State)
          → r.write key (c.to_vec v) ttl s ≡ m
          → ((s' : r.State) × (store_put r c key v ttl s ≡ (ok tt, s'))
              × HoldsRow key v s'
              × ((other : Bytes) → other ≢ key → r.read other s' ≡ r.read other s))
            ⊎ ((m : Outcome ApiError (Unit {0})) × (store_put r c key v ttl s ≡ (m, s))
                × (m ≢ ok tt))
      put_cases (ok s') e = inl (
        s',
        rw (e, store_put),
        laws.read-write_self key (c.to_vec v) ttl s s' e,
        λ other ne. laws.read-write_ne key other (c.to_vec v) ttl s s' e ne,
      )
      put_cases (err y) e = inr (err internal, rw (e, store_put), λ h. cc)
      put_cases panic e = inr (panic, rw (e, store_put), λ h. cc)

  -- A write that was done sets the TTL of its row.
  pub store_put-expires_at :
      (laws : RowsLaws r) (key : Bytes) (v : T) (ttl : Option ℕ) (s : r.State) {s' : r.State}
      → store_put r c key v ttl s ≡ (ok tt, s')
      → r.expires_at key s' ≡ ttl
  unfolding store_put
  store_put-expires_at laws key v ttl s {s'} = by_write (r.write key (c.to_vec v) ttl s) refl
    where
      by_write :
          (m : Outcome StorageError r.State)
          → r.write key (c.to_vec v) ttl s ≡ m
          → store_put r c key v ttl s ≡ (ok tt, s')
          → r.expires_at key s' ≡ ttl
      by_write (ok t) e h =
          let h1 = rw (e, store_put) at h in
          let same : t ≡ s' = ap (λ p. p.1) h1 in
          laws.write-expires_at key (c.to_vec v) ttl s s' (e ∙ ap ok same)
      by_write (err y) e h = let h1 = rw (e, store_put) at h in cc (h1)
      by_write panic e h = let h1 = rw (e, store_put) at h in cc (h1)

  -- A write that was done.
  pub store_put-ok :
      (laws : RowsLaws r) (key : Bytes) (v : T) (ttl : Option ℕ) (s : r.State) {s' : r.State}
      → store_put r c key v ttl s ≡ (ok tt, s')
      → HoldsRow key v s' × ((other : Bytes) → other ≢ key → r.read other s' ≡ r.read other s)
  store_put-ok laws key v ttl s {s'} h = elim (store_put-cases laws key v ttl s) [
    | inl (t, e, holds, others) ↦
        let same : t ≡ s' = ap (λ p. p.1) (sym e ∙ h) in
        (rw same at holds, λ other ne. rw same at (others other ne))
    | inr (m, e, ne) ↦ absurd (ne (ap (λ p. p.0) (sym e ∙ h)))
  ]

  -- A read leaves the state.
  pub store_get-ok :
      (key : Bytes) (s : r.State) {o : Option T} {s' : r.State}
      → store_get r c key s ≡ (ok o, s')
      → (s' ≡ s) × ((store_get r c key s).0 ≡ ok o)
  unfolding store_get
  store_get-ok key s h = (sym (ap (λ p. p.1) h), ap (λ p. p.0) h)

  -- What is read under a key depends on its row alone.
  pub store_get-read :
      (key : Bytes) (s s' : r.State)
      → r.read key s' ≡ r.read key s
      → (store_get r c key s').0 ≡ (store_get r c key s).0
  unfolding store_get
  store_get-read key s s' e = rw e refl
