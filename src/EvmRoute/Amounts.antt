-- ===== src/EvmRoute/Amounts.antt =====
-- The value of a decimal text of USDC, given what the parser of `U256` makes of digits.
use polylayer_tee.Prelude.{
  ℕ, zero, suc, ◌+◌, ◌-◌, ◌*◌, ◌^◌, ◌≤◌, ◌<◌, ◌≡◌, refl, ap, ◌∙◌, false, [], ◌∷◌, ◌++◌, Bytes,
  length, replicate, le→leb, Bool-cases, inl, inr, some, ok, arith, ◌==◌,
}
use polylayer_tee.External.{External}
use polylayer_tee.Numeric.{is_digit, digits_value}
use polylayer_tee.Numeric.Digits.{digits_value-append, digits_value-zeros, digits_value-shift}
use polylayer_tee.EvmRoute.{split_dot, decimal_usdc_to_base_units}

-- Documented behaviour of `U256::from_str_radix(_, 10)`: digits of a value that fits give the value.
abbrev pub ParsesDigits : External → Type 0
ParsesDigits x =
    (ds : Bytes) (v : ℕ) → digits_value 0 ds ≡ some v → v < 2 ^ 256 → x.parse_u256 ds ≡ some v

-- Digits are not the point.
split_dot-digits :
    (acc : ℕ) (i f : Bytes) {v : ℕ}
    → digits_value acc i ≡ some v
    → split_dot (i ++ b'.' ∷ f) ≡ (i, f)
unfolding split_dot digits_value is_digit
split_dot-digits acc [] f h = refl
split_dot-digits acc (b ∷ i) f {v} h = elim (Bool-cases (is_digit b)) [
  | inl d ↦
      let point : (b == b'.') ≡ false = ground (arith, d) in
      let h1 : digits_value (acc * 10 + (b - b'0')) i ≡ some v = rw d at h in
      rw (point, split_dot-digits (acc * 10 + (b - b'0')) i f h1) refl
  | inr n ↦ absurd (ground (arith, h, n))
]

tens : (k : ℕ) → k ≤ 6 → 10 ^ k * 10 ^ (6 - k) ≡ 10 ^ 6
tens zero h = refl
tens (suc zero) h = refl
tens (suc (suc zero)) h = refl
tens (suc (suc (suc zero))) h = refl
tens (suc (suc (suc (suc zero)))) h = refl
tens (suc (suc (suc (suc (suc zero))))) h = refl
tens (suc (suc (suc (suc (suc (suc zero)))))) h = refl
tens (suc (suc (suc (suc (suc (suc (suc k))))))) h = absurd (omega arith)

module _ (x : External) (digits : ParsesDigits x) where
  -- Given that the parser of `U256` reads digits of a value below 2^256 as that value, a decimal
  -- text with digits of value `a`, a point and at most six digits of value `c` is read as `a`
  -- times 10^6 plus `c` scaled by the missing digits, when that is below 2^256.
  pub decimal_usdc_to_base_units-value :
      (i f : Bytes) (a c : ℕ)
      → digits_value 0 i ≡ some a
      → digits_value 0 f ≡ some c
      → length f ≤ 6
      → a * 10 ^ 6 + c * 10 ^ (6 - length f) < 2 ^ 256
      → decimal_usdc_to_base_units x (i ++ b'.' ∷ f) ≡ ok (a * 10 ^ 6 + c * 10 ^ (6 - length f))
  unfolding decimal_usdc_to_base_units
  decimal_usdc_to_base_units-value i f a c hi hf short small =
      let n = 6 - length f in
      let zeros = replicate {A = ℕ} n b'0' in
      let back : digits_value (a + 0) f ≡ some (a * 10 ^ length f + c) =
        digits_value-shift a 0 f hf in
      let z : a + 0 ≡ a = omega arith in
      let value : digits_value 0 (i ++ (f ++ zeros)) ≡ some ((a * 10 ^ length f + c) * 10 ^ n) =
        digits_value-append 0 i (f ++ zeros) hi
        ∙ digits_value-append a f zeros (rw z at back)
        ∙ digits_value-zeros n (a * 10 ^ length f + c) in
      let scale : (a * 10 ^ length f + c) * 10 ^ n ≡ a * 10 ^ 6 + c * 10 ^ n =
        omega (arith, ap (λ t. a * t) (tens (length f) short)) in
      rw
        (
          split_dot-digits 0 i f hi,
          le→leb (length f) 6 short,
          digits (i ++ (f ++ zeros)) _ (value ∙ ap some scale) small,
        )
        refl
