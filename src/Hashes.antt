-- ===== src/Hashes.antt =====
-- Texts that are hashed, and what equal hashes say of them.
use polylayer_tee.Prelude.{
  ℕ, ◌^◌, ◌<◌, ◌≡◌, ◌≢◌, sym, ap, ◌∙◌, ◌⊎◌, inl, inr, Bool, true, false, ◌∷◌, ◌++◌, Bytes, bytes_eq,
  bytes_eq_iff, be_bytes, be_value, be_value-be_bytes, length-be_bytes, length, take, drop,
  take-append_left, drop-append_left, Bool-cases,
}
use polylayer_tee.External.{External}
use polylayer_tee.Polymarket.{eip712_digest}

-- Two texts that differ and have one hash.
pub record Clash (x : External) (one other : Bytes) : Type 0 where
  pub differ : one ≢ other
  pub same_hash : x.keccak256 one ≡ x.keccak256 other

pub or_else : {A B C D : Type 0} → A ⊎ C → (C → D) → (A → B ⊎ D) → B ⊎ D
or_else (inl a) place f = f a
or_else (inr c) place f = inr (place c)

pub map_left : {A B C : Type 0} → A ⊎ C → (A → B) → B ⊎ C
map_left (inl a) f = inl (f a)
map_left (inr c) f = inr c

-- Equal lists with front parts of equal length.
pub append_inj :
    (n : ℕ) (xs ys rest_a rest_b : Bytes)
    → length xs ≡ n
    → length ys ≡ n
    → xs ++ rest_a ≡ ys ++ rest_b
    → (xs ≡ ys) × (rest_a ≡ rest_b)
append_inj n xs ys rest_a rest_b h k e = (
  sym (take-append_left xs rest_a n h) ∙ ap (take n) e ∙ take-append_left ys rest_b n k,
  sym (drop-append_left xs rest_a n h) ∙ ap (drop n) e ∙ drop-append_left ys rest_b n k,
)

pub word_inj :
    (v w : ℕ) (rest_a rest_b : Bytes)
    → v < 2 ^ 256
    → w < 2 ^ 256
    → be_bytes 32 v ++ rest_a ≡ be_bytes 32 w ++ rest_b
    → (v ≡ w) × (rest_a ≡ rest_b)
word_inj v w rest_a rest_b h k e =
    let (front, back) =
      append_inj 32 (be_bytes 32 v) (be_bytes 32 w) rest_a rest_b (length-be_bytes 32 v)
        (length-be_bytes 32 w) e in
    (sym (be_value-be_bytes 32 v h) ∙ ap be_value front ∙ be_value-be_bytes 32 w k, back)

-- The words of a hashed structure, behind four that are the same.
pub after_word : (w : Bytes) (b d : Bytes) → length w ≡ 32 → w ++ b ≡ w ++ d → b ≡ d
after_word w b d h e = (append_inj 32 w w b d h h e).1

module _ (x : External) where
  abbrev pub digest_text : Bytes → Bytes → Bytes
  digest_text a b = 0x19 ∷ 0x01 ∷ (a ++ b)

  pub hash_inj : (a b : Bytes) → x.keccak256 a ≡ x.keccak256 b → (a ≡ b) ⊎ Clash x a b
  hash_inj a b e = elim (Bool-cases (bytes_eq a b)) [
    | inl same ↦ inl ((bytes_eq_iff a b).0 same)
    | inr apart ↦
        inr (record { differ = λ h. unequal apart ((bytes_eq_iff a b).1 h); same_hash = e })
  ]
    where
      unequal : {b : Bool} → b ≡ false → b ≡ true → ⊥
      unequal p q = let z : false ≡ true = sym p ∙ q in cc (z)

  pub digest_inj :
      (a b c d : Bytes)
      → length a ≡ 32
      → length c ≡ 32
      → eip712_digest x a b ≡ eip712_digest x c d
      → ((a ≡ c) × (b ≡ d)) ⊎ Clash x (digest_text a b) (digest_text c d)
  unfolding eip712_digest
  digest_inj a b c d h k e =
      map_left (hash_inj (digest_text a b) (digest_text c d) e)
        λ p. append_inj 32 a c b d h k (ap (drop 2) p)
