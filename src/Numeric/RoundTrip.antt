-- ===== src/Numeric/RoundTrip.antt =====
-- Parsing a printed number gives the number back.
use polylayer_tee.Prelude.{
  ℕ, zero, suc, ◌+◌, ◌-◌, ◌*◌, ◌/◌, ◌%◌, ◌^◌, ◌<◌, ◌≡◌, ◌≢◌, ap, ◌∙◌, inl, inr, false, [], ◌∷◌,
  ◌++◌, Bytes, ltb, lt→ltb, ◌==◌, some, arith, Bool-cases,
}
use native.Mathlib.Nat.{pow-suc}
use polylayer_tee.Numeric.{digits_value, parse_uint, print_digits, to_string}

digits_value-snoc :
    (acc : ℕ) (bs : Bytes) (d n : ℕ)
    → d < 10
    → digits_value acc bs ≡ some n
    → digits_value acc (bs ++ (b'0' + d) ∷ []) ≡ some (n * 10 + d)
unfolding digits_value
digits_value-snoc acc [] d n h e = ground arith
digits_value-snoc acc (b ∷ bs) d n h e =
    ground (arith, digits_value-snoc (acc * 10 + (b - b'0')) bs d n)

digits_value-print_digits :
    (fuel n : ℕ) → n < 10 ^ suc fuel → digits_value 0 (print_digits (suc fuel) n) ≡ some n
unfolding print_digits
digits_value-print_digits zero n h = unfold digits_value in ground arith
digits_value-print_digits (suc fuel) n h = elim (Bool-cases (ltb n 10)) [
  | inl small ↦ rw small (unfold digits_value in ground arith)
  | inr big ↦
      let ih = digits_value-print_digits fuel (n / 10) (omega (arith, pow-suc 10 (suc fuel))) in
      let e : n / 10 * 10 + n % 10 ≡ n = omega arith in
      rw big (
        digits_value-snoc 0 (print_digits (suc fuel) (n / 10)) (n % 10) (n / 10) (omega arith) ih
        ∙ ap some e)
]

-- A printed number begins with a digit.
print_digits-head :
    (fuel n : ℕ) → (b : ℕ) × (bs : Bytes) × (print_digits (suc fuel) n ≡ b ∷ bs) × (b ≢ b'+')
unfolding print_digits
print_digits-head zero n = elim (Bool-cases (ltb n 10)) [
  | inl small ↦ (b'0' + n, [], rw small, omega arith)
  | inr big ↦ (b'0' + n % 10, [], rw big, omega arith)
]
print_digits-head (suc fuel) n = elim (Bool-cases (ltb n 10)) [
  | inl small ↦ (b'0' + n, [], rw small, omega arith)
  | inr big ↦
      let (b, bs, e, ne) = print_digits-head fuel (n / 10) in
      (b, bs ++ (b'0' + n % 10) ∷ [], rw big (ap (λ t. t ++ (b'0' + n % 10) ∷ []) e), ne)
]

parse_uint-digits :
    (bits b : ℕ) (bs : Bytes) (n : ℕ)
    → b ≢ b'+'
    → digits_value 0 (b ∷ bs) ≡ some n
    → n < 2 ^ bits
    → parse_uint bits (b ∷ bs) ≡ some n
unfolding parse_uint
parse_uint-digits bits b bs n ne value h =
    let sign : (b == b'+') ≡ false = ground arith in rw (sign, value, lt→ltb n (2 ^ bits) h)

-- A number below 2^128 is read back from its printed decimal text.
pub parse_uint-to_string : (n : ℕ) → n < 2 ^ 128 → parse_uint 128 (to_string n) ≡ some n
unfolding to_string
parse_uint-to_string n h =
    let (b, bs, e, ne) = print_digits-head 38 n in
    rw e
      (parse_uint-digits 128 b bs n ne (rw e at (digits_value-print_digits 38 n (omega arith))) h)

-- What is parsed lies within the bits.
pub parse_uint-lt : (bits : ℕ) (t : Bytes) {n : ℕ} → parse_uint bits t ≡ some n → n < 2 ^ bits
unfolding parse_uint
parse_uint-lt bits [] h = cc
parse_uint-lt bits (b ∷ bs) h = ground arith
