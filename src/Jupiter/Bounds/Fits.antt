-- ===== src/Jupiter/Bounds/Fits.antt =====
-- Which trades a Jupiter session lets through, and when the check panics.
use polylayer_tee.Prelude.{
  ℕ, ◌+◌, ◌≤◌, ◌≡◌, ◌↔◌, ◌⊎◌, inl, inr, true, false, not, List, [], ◌∷◌, Bytes, bytes_eq,
  bytes_eq_iff, Bool-cases, ltb, leb, leb→le, some, ok, arith, guard-ok, ok_or-ok,
}
use polylayer_tee.Numeric.{parse_uint}
use polylayer_tee.Numeric.RoundTrip.{parse_uint-lt}
use polylayer_tee.Jupiter.Bounds.{JupiterSession, contains, check_session_bounds}

-- A text is one of a list.
abbrev pub Among : Bytes → List Bytes → Type 0
Among a [] = ⊥
Among a (b ∷ bs) = (b ≡ a) ⊎ Among a bs

contains-Among : (bs : List Bytes) (a : Bytes) → contains bs a ≡ true → Among a bs
unfolding contains
contains-Among [] a h = cc
contains-Among (b ∷ bs) a h = elim (Bool-cases (bytes_eq b a)) [
  | inl same ↦ inl ((bytes_eq_iff b a).0 same)
  | inr other ↦ inr (contains-Among bs a (rw other at h))
]

Among-contains : (bs : List Bytes) (a : Bytes) → Among a bs → contains bs a ≡ true
unfolding contains
Among-contains [] a h = absurd h
Among-contains (b ∷ bs) a (inl e) = rw ((bytes_eq_iff b a).1 e)
Among-contains (b ∷ bs) a (inr m) = ground (arith, Among-contains bs a m)

-- The session lets the trade through, with `new_used` for its counter.
pub record Fits (s : JupiterSession) (asset : Bytes) (size now new_used : ℕ) : Type 0 where
  pub active : s.revoked ≡ false
  pub fresh : now ≤ s.expires_at_unix_ts
  pub allowed : Among asset s.allowed_assets
  pub per_intent_max : ℕ
  pub max_is : parse_uint 128 s.per_intent_max_size_usdc_atoms ≡ some per_intent_max
  pub small : size ≤ per_intent_max
  pub cap : ℕ
  pub cap_is : parse_uint 128 s.cumulative_size_usdc_cap ≡ some cap
  pub used : ℕ
  pub used_is : parse_uint 128 s.cumulative_size_usdc_used ≡ some used
  pub counted : new_used ≡ used + size
  pub within : new_used ≤ cap

module _ (s : JupiterSession) (asset : Bytes) (size now : ℕ) where
  Fits-check_session_bounds :
      {n : ℕ} → Fits s asset size now n → check_session_bounds s asset size now ≡ ok n
  unfolding check_session_bounds
  Fits-check_session_bounds {n} f =
      let bound = parse_uint-lt 128 s.cumulative_size_usdc_cap f.cap_is in
      ground (
        arith,
        f.active,
        f.fresh,
        Among-contains s.allowed_assets asset f.allowed,
        f.max_is,
        f.small,
        f.cap_is,
        f.used_is,
        f.counted,
        f.within,
        bound,
      )

  check_session_bounds-Fits :
      {n : ℕ} → check_session_bounds s asset size now ≡ ok n → Fits s asset size now n
  unfolding check_session_bounds
  check_session_bounds-Fits {n} h =
      let (active, h1) = guard-ok (not s.revoked) _ _ h in
      let (fresh, h2) = guard-ok (not (ltb s.expires_at_unix_ts now)) _ _ h1 in
      let (allowed, h3) = guard-ok (contains s.allowed_assets asset) _ _ h2 in
      let (per_intent_max, m, h4) = ok_or-ok _ _ _ h3 in
      let (small, h5) = guard-ok (leb size per_intent_max) _ _ h4 in
      let (cap, c, h6) = ok_or-ok _ _ _ h5 in
      let (used, u, h7) = ok_or-ok _ _ _ h6 in
      record {
        active = ground (arith, active);
        fresh = ground (arith, fresh);
        allowed = contains-Among s.allowed_assets asset allowed;
        per_intent_max = per_intent_max;
        max_is = m;
        small = leb→le size per_intent_max small;
        cap = cap;
        cap_is = c;
        used = used;
        used_is = u;
        counted = ground (arith, h7);
        within = ground (arith, h7);
      }

  -- A trade passes, with `n` for the new counter, exactly when the session is not revoked and not
  -- past its expiry, names the asset, both limits and the counter parse as `u128`, the size is at
  -- most the maximum of one intent, and `n` is the counter plus the size and at most the cap.
  pub check_session_bounds_iff :
      (n : ℕ) → (check_session_bounds s asset size now ≡ ok n) ↔ Fits s asset size now n
  check_session_bounds_iff n = (check_session_bounds-Fits, Fits-check_session_bounds)
