-- ===== src/Numeric/Digits.antt =====
-- The value of digits behind, before and within other digits.
use polylayer_tee.Prelude.{
  ℕ, zero, suc, ◌+◌, ◌-◌, ◌*◌, ◌/◌, ◌^◌, ◌≤◌, ◌<◌, ◌≡◌, refl, sym, ap, ◌∙◌, [], ◌∷◌, ◌++◌, Bytes,
  length, take, drop, replicate, take-append-drop, length-drop, length-append, length-replicate,
  take-append_left, append-nil, leb, leb→le, Bool-cases, inl, inr, Option, some, arith,
}
use native.Mathlib.Nat.{
  pow-suc, mul-add-div_right, div-eq_of_lt, mul-le-mul_right, mul-div_cancel, mul-div-mul_right,
}
use polylayer_tee.Numeric.{is_digit, digits_value}

pub digits_value-append :
    (acc : ℕ) (xs ys : Bytes) {v : ℕ}
    → digits_value acc xs ≡ some v
    → digits_value acc (xs ++ ys) ≡ digits_value v ys
unfolding digits_value
digits_value-append acc [] ys h = cc (h)
digits_value-append acc (b ∷ xs) ys {v} h = elim (Bool-cases (is_digit b)) [
  | inl d ↦
      let h1 : digits_value (acc * 10 + (b - b'0')) xs ≡ some v = rw d at h in
      rw d (digits_value-append (acc * 10 + (b - b'0')) xs ys h1)
  | inr n ↦ absurd (ground (arith, h, n))
]

pub digits_value-zeros : (n v : ℕ) → digits_value v (replicate n b'0') ≡ some (v * 10 ^ n)
unfolding digits_value is_digit
digits_value-zeros zero v = ap some (omega arith)
digits_value-zeros (suc n) v =
    let e : (v * 10 + 0) * 10 ^ n ≡ v * 10 ^ suc n =
      omega (arith, ap (λ p. v * p) (pow-suc 10 n)) in
    digits_value-zeros n (v * 10 + 0) ∙ ap some e

-- Digits behind a larger front.
pub digits_value-shift :
    (p q : ℕ) (ds : Bytes) {c : ℕ}
    → digits_value q ds ≡ some c
    → digits_value (p + q) ds ≡ some (p * 10 ^ length ds + c)
unfolding digits_value
digits_value-shift p q [] {c} h = let e : q ≡ c = cc (h) in rw e (ap some (omega arith))
digits_value-shift p q (b ∷ ds) {c} h = elim (Bool-cases (is_digit b)) [
  | inl d ↦
      let h1 : digits_value (q * 10 + (b - b'0')) ds ≡ some c = rw d at h in
      let front : (p + q) * 10 + (b - b'0') ≡ p * 10 + (q * 10 + (b - b'0')) = omega arith in
      let size : p * 10 * 10 ^ length ds + c ≡ p * 10 ^ suc (length ds) + c =
        omega (arith, ap (λ t. p * t) (pow-suc 10 (length ds))) in
      rw (d, front) (digits_value-shift (p * 10) (q * 10 + (b - b'0')) ds h1 ∙ ap some size)
  | inr n ↦ absurd (ground (arith, h, n))
]

pub pow_ten_pos : (n : ℕ) → 0 < 10 ^ n
pow_ten_pos zero = omega arith
pow_ten_pos (suc n) = omega (arith, pow-suc 10 n, pow_ten_pos n)

pub pow_ten_add : (m n : ℕ) → 10 ^ (m + n) ≡ 10 ^ m * 10 ^ n
pow_ten_add zero n = let e : 0 + n ≡ n = omega arith in rw e (omega arith)
pow_ten_add (suc m) n =
    let e : suc m + n ≡ suc (m + n) = omega arith in
    rw e (omega (arith, pow-suc 10 (m + n), pow_ten_add m n, ap (λ t. t * 10 ^ n) (pow-suc 10 m)))

-- n digits behind `acc`.
digits_value_lt :
    (acc : ℕ) (ds : Bytes) {v : ℕ} → digits_value acc ds ≡ some v → v < (acc + 1) * 10 ^ length ds
unfolding digits_value is_digit
digits_value_lt acc [] {v} h = let e : acc ≡ v = cc (h) in omega (arith, e)
digits_value_lt acc (b ∷ ds) {v} h = elim (Bool-cases (is_digit b)) [
  | inl d ↦
      let h1 : digits_value (acc * 10 + (b - b'0')) ds ≡ some v = rw d at h in
      let ih = digits_value_lt (acc * 10 + (b - b'0')) ds h1 in
      let small : b - b'0' + 1 ≤ 10 = ground (arith, d) in
      let scaled = mul-le-mul_right (10 ^ length ds) small in
      omega (arith, ih, scaled, ap (λ t. (acc + 1) * t) (pow-suc 10 (length ds)))
  | inr n ↦ absurd (ground (arith, h, n))
]

pub digits_value-lt : (ds : Bytes) {v : ℕ} → digits_value 0 ds ≡ some v → v < 10 ^ length ds
digits_value-lt ds h = omega (arith, digits_value_lt 0 ds h)

-- Digits have a value behind any front.
digits_value_from :
    (p q : ℕ) (ds : Bytes) {v : ℕ}
    → digits_value p ds ≡ some v
    → (w : ℕ) × (digits_value q ds ≡ some w)
unfolding digits_value
digits_value_from p q [] h = (q, refl)
digits_value_from p q (b ∷ ds) {v} h = elim (Bool-cases (is_digit b)) [
  | inl d ↦
      let h1 : digits_value (p * 10 + (b - b'0')) ds ≡ some v = rw d at h in
      let (w, e) = digits_value_from (p * 10 + (b - b'0')) (q * 10 + (b - b'0')) ds h1 in
      (w, rw d e)
  | inr n ↦ absurd (ground (arith, h, n))
]

digits_value_front :
    (acc : ℕ) (xs ys : Bytes) {v : ℕ}
    → digits_value acc (xs ++ ys) ≡ some v
    → (w : ℕ) × (digits_value acc xs ≡ some w)
unfolding digits_value
digits_value_front acc [] ys h = (acc, refl)
digits_value_front acc (b ∷ xs) ys {v} h = elim (Bool-cases (is_digit b)) [
  | inl d ↦
      let h1 : digits_value (acc * 10 + (b - b'0')) (xs ++ ys) ≡ some v = rw d at h in
      let (w, e) = digits_value_front (acc * 10 + (b - b'0')) xs ys h1 in (w, rw d e)
  | inr n ↦ absurd (ground (arith, h, n))
]

-- The first digits of a text are its value without the others.
pub digits_value-take :
    (n : ℕ) (ds : Bytes) {v : ℕ}
    → n ≤ length ds
    → digits_value 0 ds ≡ some v
    → digits_value 0 (take n ds) ≡ some (v / 10 ^ (length ds - n))
digits_value-take n ds {v} short h =
    let whole : digits_value 0 (take n ds ++ drop n ds) ≡ some v = rw (take-append-drop n ds) h in
    let (w, front) = digits_value_front 0 (take n ds) (drop n ds) whole in
    let behind : digits_value w (drop n ds) ≡ some v =
      sym (digits_value-append 0 (take n ds) (drop n ds) front) ∙ whole in
    let (r, rest) = digits_value_from w 0 (drop n ds) behind in
    let z : w + 0 ≡ w = omega arith in
    let split : v ≡ w * 10 ^ length (drop n ds) + r =
      some_inj (sym behind ∙ (rw z at (digits_value-shift w 0 (drop n ds) rest))) in
    let len : length (drop n ds) ≡ length ds - n = length-drop n ds in
    let small : r < 10 ^ (length ds - n) = rw len at (digits_value-lt (drop n ds) rest) in
    let pos = pow_ten_pos (length ds - n) in
    let quotient : v / 10 ^ (length ds - n) ≡ w =
      ap (λ t. t / 10 ^ (length ds - n)) (rw len at split)
      ∙ mul-add-div_right pos w r
      ∙ omega (arith, div-eq_of_lt small) in
    rw quotient front
  where
    some_inj : {a b : ℕ} → ◌≡◌ {A = Option ℕ} (some a) (some b) → a ≡ b
    some_inj h = cc (h)

-- Digits cut or filled up to n of them, with zeros, have the value scaled to n digits.
pub digits_value-padded :
    (n : ℕ) (ds : Bytes) {v : ℕ}
    → digits_value 0 ds ≡ some v
    → digits_value 0 (take n (ds ++ replicate (n - length ds) b'0'))
      ≡ some (v * 10 ^ n / 10 ^ length ds)
digits_value-padded n ds {v} h = elim (Bool-cases (leb n (length ds))) [
  | inl long ↦
      let le = leb→le n (length ds) long in
      let none_left : n - length ds ≡ 0 = omega arith in
      let exponent : length ds ≡ length ds - n + n = omega arith in
      let power : 10 ^ length ds ≡ 10 ^ (length ds - n) * 10 ^ n =
        ap (λ t. 10 ^ t) exponent ∙ pow_ten_add (length ds - n) n in
      let scaled : v * 10 ^ n / 10 ^ length ds ≡ v / 10 ^ (length ds - n) =
        ap (λ t. v * 10 ^ n / t) power
        ∙ mul-div-mul_right v (10 ^ (length ds - n)) (pow_ten_pos n) in
      rw (none_left, append-nil) (digits_value-take n ds le h ∙ ap some (sym scaled))
  | inr short ↦
      let lt : length ds ≤ n = ground (arith, short) in
      let zeros = replicate {A = ℕ} (n - length ds) b'0' in
      let full : length (ds ++ zeros) ≡ n =
        omega (arith, length-append ds zeros, length-replicate {A = ℕ} (n - length ds) b'0') in
      let whole : take n (ds ++ zeros) ≡ ds ++ zeros =
        ap (take n) (sym (append-nil (ds ++ zeros))) ∙ take-append_left (ds ++ zeros) [] n full in
      let exponent : n ≡ n - length ds + length ds = omega arith in
      let power : v * 10 ^ n ≡ v * 10 ^ (n - length ds) * 10 ^ length ds = omega (
        arith,
        ap (λ t. v * t) (ap (λ t. 10 ^ t) exponent ∙ pow_ten_add (n - length ds) (length ds)),
      ) in
      let scaled : v * 10 ^ n / 10 ^ length ds ≡ v * 10 ^ (n - length ds) =
        ap (λ t. t / 10 ^ length ds) power
        ∙ mul-div_cancel (v * 10 ^ (n - length ds)) (pow_ten_pos (length ds)) in
      ap (digits_value 0) whole
      ∙ digits_value-append 0 ds zeros h
      ∙ digits_value-zeros (n - length ds) v
      ∙ ap some (sym scaled)
]
