-- ===== src/Intents/Decimals.antt =====
-- crates/core/src/intents.rs: `parse_integer_string` and `parse_decimal_to_scaled`.
pub mod Values
use polylayer_tee.Prelude.{
  ℕ, zero, suc, ◌+◌, ◌-◌, ◌*◌, ◌^◌, Bool, true, false, ◌&&◌, ◌||◌, not, List, [], ◌∷◌, ◌++◌, Bytes,
  ltb, leb, ◌==◌, if◌then◌else◌, length, take, get_elem?, Option, none, some, Outcome, ok, ◌>>=◌,
  ◌>>◌, guard, ok_or, expect,
}
use polylayer_tee.External.{External}
use polylayer_tee.Numeric.{is_digit}
use polylayer_tee.Solana.{all, is_empty}
use polylayer_tee.Intents.{IntentError, invalid_integer_string, invalid_decimal_string, overflow}

-- `s.split(c)`: the parts between the separators, one at least.
unfoldable pub split_with : ℕ → Bytes → Bytes → List Bytes
split_with c part [] = part ∷ []
split_with c part (b ∷ bs) =
    let rest = split_with c (if b == c then [] else part ++ b ∷ []) bs in
    if b == c then part ∷ rest else rest

unfoldable pub split : ℕ → Bytes → List Bytes
unfolding split_with
split c s = split_with c [] s

-- `is_empty() || !bytes().all(|b| b.is_ascii_digit())`
unfoldable pub not_digits : Bytes → Bool
not_digits s = is_empty s || not (all is_digit s)

-- `parts.get(1).copied().unwrap_or("")`
unfoldable pub frac_of : Option Bytes → Bytes
frac_of none = []
frac_of (some part) = part

-- The loop that pushes zeros, `n` of them.
unfoldable pub push_zeros : ℕ → Bytes → Bytes
push_zeros zero s = s
push_zeros (suc n) s = push_zeros n (s ++ b'0' ∷ [])

-- Checked arithmetic on U256.
unfoldable pub checked : ℕ → Option ℕ
checked n = if ltb n (2 ^ 256) then some n else none

module _ (x : External) where
  open x use {parse_u256}

  unfoldable pub parse_integer_string : Bytes → Outcome IntentError ℕ
  parse_integer_string value = do
    guard (not (not_digits value)) (invalid_integer_string value)
    ok_or (parse_u256 value) overflow

  unfoldable pub frac_value : Bytes → Outcome IntentError ℕ
  frac_value [] = ok 0
  frac_value (b ∷ bs) = ok_or (parse_u256 (b ∷ bs)) overflow

  -- The arithmetic behind the checks of the parts.
  unfoldable pub scaled_value : Bytes → Bytes → ℕ → Outcome IntentError ℕ
  unfolding frac_value
  scaled_value int_part frac_part decimals = do
    let frac_padded = take decimals (push_zeros (decimals - length frac_part) frac_part)
    int_u ← ok_or (parse_u256 int_part) overflow
    frac_u ← frac_value frac_padded
    scale ← ok_or (checked (10 ^ decimals)) overflow
    scaled ← ok_or (checked (int_u * scale)) overflow
    ok_or (checked (scaled + frac_u)) overflow

  unfoldable pub parse_decimal_to_scaled : Bytes → ℕ → Outcome IntentError ℕ
  unfolding scaled_value
  parse_decimal_to_scaled value decimals = do
    let parts = split b'.' value
    guard (leb (length parts) 2) (invalid_decimal_string value)
    int_part ← expect (get_elem? parts 0)
    let frac_part = frac_of (get_elem? parts 1)
    guard (not (not_digits int_part)) (invalid_decimal_string value)
    guard (not ((length parts == 2) && not_digits frac_part)) (invalid_decimal_string value)
    scaled_value int_part frac_part decimals
