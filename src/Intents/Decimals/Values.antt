-- ===== src/Intents/Decimals/Values.antt =====
-- The value of a decimal text, and when it is an overflow.
use polylayer_tee.Prelude.{
  ℕ, zero, suc, ◌+◌, ◌-◌, ◌*◌, ◌/◌, ◌^◌, ◌≤◌, ◌≡◌, refl, sym, ap, ◌∙◌, inl, inr, Bool, true, false,
  ◌&&◌, [], ◌∷◌, ◌++◌, Bytes, ltb, ◌==◌, if◌then◌else◌, length, replicate, append_assoc, append-nil,
  none, some, Outcome, ok, err, arith, Bool-cases, ok_or, ◌>>=◌, subst,
}
use native.Mathlib.Nat.{mul-one, mul-le-mul_left}
use polylayer_tee.External.{External}
use polylayer_tee.Numeric.{is_digit, digits_value}
use polylayer_tee.Numeric.Digits.{digits_value-padded, pow_ten_pos}
use polylayer_tee.Solana.{all, is_empty}
use polylayer_tee.Intents.{IntentError, overflow}
use polylayer_tee.Intents.Decimals.{
  split, split_with, not_digits, frac_of, push_zeros, checked, frac_value, scaled_value,
  parse_decimal_to_scaled,
}

-- Documented behaviour of `U256::from_str_radix(_, 10)`: digits give their value, or an error if it
-- does not fit.
abbrev pub ParsesU256 : External → Type 0
ParsesU256 x =
    (ds : Bytes) (v : ℕ)
    → is_empty ds ≡ false
    → digits_value 0 ds ≡ some v
    → x.parse_u256 ds ≡ (if ltb v (2 ^ 256) then some v else none)

all-digits : (acc : ℕ) (ds : Bytes) {v : ℕ} → digits_value acc ds ≡ some v → all is_digit ds ≡ true
unfolding digits_value all
all-digits acc [] h = refl
all-digits acc (b ∷ ds) {v} h = elim (Bool-cases (is_digit b)) [
  | inl d ↦
      let h1 : digits_value (acc * 10 + (b - b'0')) ds ≡ some v = rw d at h in
      rw (d, all-digits (acc * 10 + (b - b'0')) ds h1) refl
  | inr n ↦ absurd (ground (arith, h, n))
]

split_with-digits :
    (part : Bytes) (ds rest : Bytes)
    → all is_digit ds ≡ true
    → split_with b'.' part (ds ++ rest) ≡ split_with b'.' (part ++ ds) rest
unfolding split_with all is_digit
split_with-digits part [] rest h = rw append-nil refl
split_with-digits part (b ∷ ds) rest h =
    let point : (b == b'.') ≡ false = ground (arith, h) in
    let digits : all is_digit ds ≡ true = ground (arith, h) in
    rw point (
      split_with-digits (part ++ b ∷ []) ds rest digits
      ∙ ap (λ t. split_with b'.' t rest) (append_assoc part (b ∷ []) ds))

push_zeros-replicate : (n : ℕ) (s : Bytes) → push_zeros n s ≡ s ++ replicate n b'0'
unfolding push_zeros
push_zeros-replicate zero s = sym (append-nil s)
push_zeros-replicate (suc n) s =
    push_zeros-replicate n (s ++ b'0' ∷ []) ∙ append_assoc s (b'0' ∷ []) (replicate n b'0')

digits-split :
    (i f : Bytes) {a c : ℕ}
    → digits_value 0 i ≡ some a
    → digits_value 0 f ≡ some c
    → split b'.' (i ++ b'.' ∷ f) ≡ i ∷ f ∷ []
unfolding split split_with
digits-split i f hi hf =
    split_with-digits [] i (b'.' ∷ f) (all-digits 0 i hi)
    ∙ ap (λ t. i ∷ split_with b'.' [] t) (sym (append-nil f))
    ∙ ap (λ t. i ∷ t) (split_with-digits [] f [] (all-digits 0 f hf))

-- The value in units of 10^-d, less what lies behind d digits, or an overflow.
abbrev pub scaled_or_overflow : ℕ → ℕ → ℕ → ℕ → Outcome IntentError ℕ
scaled_or_overflow a c k d =
    let v = a * 10 ^ d + c * 10 ^ d / 10 ^ k in
    if ltb (10 ^ d) (2 ^ 256) && ltb v (2 ^ 256) then ok v else err overflow

-- Whichever step overflows, the whole does.
checks_join :
    (bound a s w : ℕ)
    → a ≤ a * s
    → (ok_or (if ltb a bound then some a else none) overflow >>= λ int_u.
        (if ltb w bound then ok w else err overflow) >>= λ frac_u.
        ok_or (if ltb s bound then some s else none) overflow >>= λ scale.
        ok_or (if ltb (int_u * scale) bound then some (int_u * scale) else none) overflow
        >>= λ scaled.
            ok_or (if ltb (scaled + frac_u) bound then some (scaled + frac_u) else none) overflow)
      ≡ (if ltb s bound && ltb (a * s + w) bound then ok (a * s + w) else err overflow)
checks_join bound a s w h = ground arith

module _ (x : External) (digits : ParsesU256 x) where
  frac_value-digits :
      (ds : Bytes) {v : ℕ}
      → digits_value 0 ds ≡ some v
      → frac_value x ds ≡ (if ltb v (2 ^ 256) then ok v else err overflow)
  unfolding frac_value digits_value
  frac_value-digits [] {v} h = let e : v ≡ 0 = cc (h) in rw e refl
  frac_value-digits (b ∷ ds) {v} h = rw (digits (b ∷ ds) v refl h) (if_ok (ltb v (2 ^ 256)))
    where
      if_ok :
          (t : Bool)
          → ok_or (if t then some v else none) overflow ≡ (if t then ok v else err overflow)
      if_ok true = refl
      if_ok false = refl

  scaled_value-digits :
      (i f : Bytes) (d : ℕ) {a c : ℕ}
      → is_empty i ≡ false
      → digits_value 0 i ≡ some a
      → digits_value 0 f ≡ some c
      → scaled_value x i f d ≡ scaled_or_overflow a c (length f) d
  unfolding scaled_value checked
  scaled_value-digits i f d {a} {c} ne hi hf =
      let padded = digits_value-padded d f hf in
      let pushed = push_zeros-replicate (d - length f) f in
      let grows : a ≤ a * 10 ^ d =
        subst (λ t. t ≤ a * 10 ^ d) (mul-one a) (mul-le-mul_left a (pow_ten_pos d)) in
      rw (pushed, digits i a ne hi, frac_value-digits _ padded)
        (checks_join (2 ^ 256) a (10 ^ d) (c * 10 ^ d / 10 ^ length f) grows)

  not_digits-digits :
      (ds : Bytes) {v : ℕ}
      → is_empty ds ≡ false
      → digits_value 0 ds ≡ some v
      → not_digits ds ≡ false
  unfolding not_digits
  not_digits-digits ds e h = rw (e, all-digits 0 ds h) refl

  -- Given that the parser of `U256` reads digits as their value, or fails if that is not below
  -- 2^256, a decimal text with digits of value `a`, a point and digits of value `c` is read at the
  -- scale `d` as `a` times 10^d plus `c` times 10^d divided, rounding down, by ten to the number
  -- of its digits, when that value and 10^d are below 2^256, and is an overflow error otherwise.
  pub parse_decimal_to_scaled-value :
      (i f : Bytes) (d a c : ℕ)
      → is_empty i ≡ false
      → is_empty f ≡ false
      → digits_value 0 i ≡ some a
      → digits_value 0 f ≡ some c
      → parse_decimal_to_scaled x (i ++ b'.' ∷ f) d ≡ (
          if ltb (10 ^ d) (2 ^ 256) && ltb (a * 10 ^ d + c * 10 ^ d / 10 ^ length f) (2 ^ 256)
          then ok (a * 10 ^ d + c * 10 ^ d / 10 ^ length f)
          else err overflow)
  unfolding parse_decimal_to_scaled frac_of
  parse_decimal_to_scaled-value i f d a c ni nf hi hf =
      rw (digits-split i f hi hf, not_digits-digits i ni hi, not_digits-digits f nf hf)
        (scaled_value-digits i f d ni hi hf)
