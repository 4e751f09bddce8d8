-- ===== src/Numeric.antt =====
-- The standard library's decimal texts of unsigned integers, which the session routes store:
-- `str::parse::<uN>` and `to_string`.
pub mod RoundTrip
pub mod Digits
use polylayer_tee.Prelude.{
  ℕ, zero, suc, ◌+◌, ◌-◌, ◌*◌, ◌/◌, ◌%◌, ◌^◌, Bool, true, false, ◌&&◌, List, [], ◌∷◌, ◌++◌, Bytes,
  ltb, leb, ◌==◌, if◌then◌else◌, Option, none, some,
}

unfoldable pub is_digit : ℕ → Bool
is_digit b = leb b'0' b && leb b b'9'

-- The digits of a text, read behind `acc`.
unfoldable pub digits_value : ℕ → Bytes → Option ℕ
unfolding is_digit
digits_value acc [] = some acc
digits_value acc (b ∷ bs) =
    let rest = digits_value (acc * 10 + (b - b'0')) bs in if is_digit b then rest else none

unfoldable pub within : ℕ → Option ℕ → Option ℕ
within bits none = none
within bits (some n) = if ltb n (2 ^ bits) then some n else none

unfoldable pub non_empty_value : Bytes → Option ℕ
non_empty_value [] = none
non_empty_value (b ∷ bs) = digits_value 0 (b ∷ bs)

-- One leading `+` is skipped. An empty text, another character and an overflow are errors.
unfoldable pub parse_uint : ℕ → Bytes → Option ℕ
unfolding within non_empty_value
parse_uint bits [] = none
parse_uint bits (b ∷ bs) =
    within bits (if b == b'+' then non_empty_value bs else non_empty_value (b ∷ bs))

unfoldable pub print_digits : ℕ → ℕ → Bytes
print_digits zero n = []
print_digits (suc fuel) n =
    let front = print_digits fuel (n / 10) in
    if ltb n 10 then (b'0' + n) ∷ [] else front ++ (b'0' + n % 10) ∷ []

-- 39 digits hold every `u128`.
unfoldable pub to_string : ℕ → Bytes
unfolding print_digits
to_string n = print_digits 39 n
