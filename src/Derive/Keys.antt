-- ===== src/Derive/Keys.antt =====
-- Which key a user gets: the first of 256 candidates that is a secp256k1 scalar.
use polylayer_tee.Prelude.{
  ℕ, zero, suc, ◌+◌, ◌≤◌, ◌<◌, ◌≡◌, refl, ap, ◌∙◌, ◌↔◌, ◌⊎◌, inl, inr, true, false, Bytes,
  Bool-cases, some, ok, arith, expect-ok,
}
use polylayer_tee.External.{External}
use polylayer_tee.Derive.{derivation_salt, info_of, try_attempts, derive_user_private_key}

module _ (x : External) (seed pk : Bytes) where
  abbrev pub Candidate : ℕ → Bytes → Type 0
  Candidate attempt key = x.hkdf_sha256 derivation_salt seed (info_of pk attempt) 32 ≡ some key

  -- The candidate of an attempt is there and is refused.
  abbrev pub Refused : ℕ → Type 0
  Refused attempt = (key : Bytes) × Candidate attempt key × (x.secret_key_ok key ≡ false)

  -- `key` is the first candidate that is accepted, from `start` on.
  pub record FirstValid (start end : ℕ) (key : Bytes) : Type 0 where
    pub attempt : ℕ
    pub from : start ≤ attempt
    pub before : attempt < end
    pub is_candidate : Candidate attempt key
    pub valid : x.secret_key_ok key ≡ true
    pub earlier : (i : ℕ) → start ≤ i → i < attempt → Refused i

  try_attempts-FirstValid :
      (start n : ℕ) (key : Bytes)
      → try_attempts x seed pk start n ≡ ok key
      → FirstValid start (start + n) key
  unfolding try_attempts
  try_attempts-FirstValid start zero key h = cc
  try_attempts-FirstValid start (suc n) key h =
      let (output, c, h1) =
        expect-ok (x.hkdf_sha256 derivation_salt seed (info_of pk start) 32) _ h in
      elim (Bool-cases (x.secret_key_ok output)) [
        | inl good ↦
            let same : output ≡ key = ground (arith, h1, good) in
            record {
              attempt = start;
              from = omega arith;
              before = omega arith;
              is_candidate = c ∙ ap some same;
              valid = rw same at good;
              earlier = λ i low high. absurd (omega arith);
            }
        | inr bad ↦
            let later : FirstValid (start + 1) (start + 1 + n) key =
              try_attempts-FirstValid (start + 1) n key (ground (arith, h1, bad)) in
            record {
              attempt = later.attempt;
              from = omega (arith, later.from);
              before = omega (arith, later.before);
              is_candidate = later.is_candidate;
              valid = later.valid;
              earlier = λ i low high. elim (first_or_later start i low) [
                | inl e ↦ rw e (output, c, bad)
                | inr lt ↦ later.earlier i lt high
              ];
            }
      ]
    where
      first_or_later : (a i : ℕ) → a ≤ i → (i ≡ a) ⊎ (a + 1 ≤ i)
      first_or_later a i le = omega arith

  FirstValid-try_attempts :
      (start n : ℕ) (key : Bytes)
      → FirstValid start (start + n) key
      → try_attempts x seed pk start n ≡ ok key
  unfolding try_attempts
  FirstValid-try_attempts start zero key f = absurd (omega (arith, f.from, f.before))
  FirstValid-try_attempts start (suc n) key f = elim (here_or_later f.attempt f.from) [
    | inl e ↦ let c : Candidate start key = rw e at f.is_candidate in rw (c, f.valid) refl
    | inr later ↦
        let (output, c, bad) = f.earlier start (omega arith) (omega (arith, later)) in
        rw (c, bad)
          (FirstValid-try_attempts (start + 1) n key (record {
            attempt = f.attempt;
            from = later;
            before = omega (arith, f.before);
            is_candidate = f.is_candidate;
            valid = f.valid;
            earlier = λ i low high. f.earlier i (omega arith) high;
          }))
  ]
    where
      here_or_later : (a : ℕ) → start ≤ a → (a ≡ start) ⊎ (start + 1 ≤ a)
      here_or_later a le = omega arith

  -- The derivation returns a key exactly when it is the first of 256 candidates that is a valid
  -- scalar, each candidate before it being there and refused.
  pub derive_user_private_key_iff :
      (key : Bytes) → (derive_user_private_key x seed pk ≡ ok key) ↔ FirstValid 0 256 key
  unfolding derive_user_private_key
  derive_user_private_key_iff key =
      (try_attempts-FirstValid 0 256 key, FirstValid-try_attempts 0 256 key)
