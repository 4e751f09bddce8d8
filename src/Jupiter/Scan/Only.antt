-- ===== src/Jupiter/Scan/Only.antt =====
-- What the search finds, and what it passes over.
use polylayer_tee.Prelude.{
  ℕ, ◌+◌, ◌≤◌, ◌≡◌, refl, sym, ap, List, [], ◌∷◌, ◌++◌, Option, none, some, Outcome, ok, err, panic,
  arith, ◌⊎◌, inl, inr, All, Bytes,
}
use polylayer_tee.External.{External}
use polylayer_tee.Api.{ApiError}
use polylayer_tee.Jupiter.Decode.{DecodedJupiterIx}
use polylayer_tee.Jupiter.Sign.{Instruction}
use polylayer_tee.Jupiter.Scan.{perps_ix, scan}

module _ (x : External) (keys : List Bytes) where
  -- Of another program, or of an instruction that the decoder does not know.
  abbrev pub Skipped : Instruction → Type 0
  Skipped ix = perps_ix x keys ix ≡ ok none

  -- One instruction decodes, and every other one is passed over.
  pub record OnlyOne (ixs : List Instruction) (d : DecodedJupiterIx) : Type 0 where
    pub before : List Instruction
    pub ix : Instruction
    pub after : List Instruction
    pub split : ixs ≡ before ++ ix ∷ after
    pub decodes : perps_ix x keys ix ≡ ok (some d)
    pub before_skipped : All Skipped before
    pub after_skipped : All Skipped after

  -- The first round is passed over, or it counts.
  scan-cons :
      (ix : Instruction) (ixs : List Instruction) (n k : ℕ) (m o : Option DecodedJupiterIx)
      → scan x keys (ix ∷ ixs) n m ≡ ok (k, o)
      → (Skipped ix × (scan x keys ixs n m ≡ ok (k, o)))
        ⊎ ((d : DecodedJupiterIx) × (perps_ix x keys ix ≡ ok (some d))
            × (scan x keys ixs (n + 1) (some d) ≡ ok (k, o)))
  unfolding scan
  scan-cons ix ixs n k m o h = by_round (perps_ix x keys ix) refl
    where
      by_round :
          (v : Outcome ApiError (Option DecodedJupiterIx))
          → perps_ix x keys ix ≡ v
          → (Skipped ix × (scan x keys ixs n m ≡ ok (k, o)))
            ⊎ ((d : DecodedJupiterIx) × (perps_ix x keys ix ≡ ok (some d))
                × (scan x keys ixs (n + 1) (some d) ≡ ok (k, o)))
      by_round panic e = let h1 = rw e at h in cc (h1)
      by_round (err y) e = let h1 = rw e at h in cc (h1)
      by_round (ok none) e = inl (e, rw e at h)
      by_round (ok (some d)) e = inr (d, e, rw e at h)

  scan-le :
      (ixs : List Instruction) (n k : ℕ) (m o : Option DecodedJupiterIx)
      → scan x keys ixs n m ≡ ok (k, o)
      → n ≤ k
  unfolding scan
  scan-le [] n k m o h = let e : n ≡ k = cc (h) in omega (arith, e)
  scan-le (ix ∷ ixs) n k m o h = elim (scan-cons ix ixs n k m o h) [
    | inl (v, h1) ↦ scan-le ixs n k m o h1
    | inr (d, v, h1) ↦ omega (arith, scan-le ixs (n + 1) k (some d) o h1)
  ]

  scan-none :
      (ixs : List Instruction) (n : ℕ) (m o : Option DecodedJupiterIx)
      → scan x keys ixs n m ≡ ok (n, o)
      → All Skipped ixs × (m ≡ o)
  unfolding scan
  scan-none [] n m o h = (tt, cc (h))
  scan-none (ix ∷ ixs) n m o h = elim (scan-cons ix ixs n n m o h) [
    | inl (v, h1) ↦ let (all, same) = scan-none ixs n m o h1 in ((v, all), same)
    | inr (d, v, h1) ↦ absurd (omega (arith, scan-le ixs (n + 1) n (some d) o h1))
  ]

  -- Where the search for perpetuals instructions counts one more than it started with, what it
  -- returns is the decoding of one instruction of the list, and every instruction before and after
  -- that one is passed over.
  pub scan-OnlyOne :
      (ixs : List Instruction) (n : ℕ) (m : Option DecodedJupiterIx) (o : Option DecodedJupiterIx)
      → scan x keys ixs n m ≡ ok (n + 1, o)
      → (d : DecodedJupiterIx) × (o ≡ some d) × OnlyOne ixs d
  unfolding scan
  scan-OnlyOne [] n m o h = let e : n ≡ n + 1 = cc (h) in absurd (omega (arith, e))
  scan-OnlyOne (ix ∷ ixs) n m o h = elim (scan-cons ix ixs n (n + 1) m o h) [
    | inl (v, h1) ↦
        let (d, e, only) = scan-OnlyOne ixs n m o h1 in
        (
          d,
          e,
          record {
            before = ix ∷ only.before;
            ix = only.ix;
            after = only.after;
            split = ap (λ t. ix ∷ t) only.split;
            decodes = only.decodes;
            before_skipped = (v, only.before_skipped);
            after_skipped = only.after_skipped;
          },
        )
    | inr (d, v, h1) ↦
        let (all, same) = scan-none ixs (n + 1) (some d) o h1 in
        (
          d,
          sym same,
          record {
            before = [];
            ix = ix;
            after = ixs;
            split = refl;
            decodes = v;
            before_skipped = tt;
            after_skipped = all;
          },
        )
  ]

  -- An instruction that is passed over, of another program among them, changes nothing of what the
  -- search returns, wherever it stands.
  pub scan-skips :
      (before after : List Instruction) (ix : Instruction) (n : ℕ) (m : Option DecodedJupiterIx)
      → Skipped ix
      → scan x keys (before ++ ix ∷ after) n m ≡ scan x keys (before ++ after) n m
  unfolding scan
  scan-skips [] after ix n m s = rw s refl
  scan-skips (b ∷ before) after ix n m s =
      by_round (λ k o. scan-skips before after ix k o s) (perps_ix x keys b) refl
    where
      by_round :
          ((k : ℕ) (o : Option DecodedJupiterIx)
            → scan x keys (before ++ ix ∷ after) k o ≡ scan x keys (before ++ after) k o)
          → (v : Outcome ApiError (Option DecodedJupiterIx)) → perps_ix x keys b ≡ v
          → scan x keys ((b ∷ before) ++ ix ∷ after) n m ≡ scan x keys ((b ∷ before) ++ after) n m
      by_round rest panic e = rw e refl
      by_round rest (err y) e = rw e refl
      by_round rest (ok none) e = rw e (rest n m)
      by_round rest (ok (some d)) e = rw e (rest (n + 1) (some d))
