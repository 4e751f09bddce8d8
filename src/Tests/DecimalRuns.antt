-- ===== src/Tests/DecimalRuns.antt =====
-- A decimal text with more digits than its scale.
use polylayer_tee.Prelude.{ℕ, ◌^◌, ◌≡◌, refl, text, ltb, if◌then◌else◌, Option, none, some, ok}
use polylayer_tee.Numeric.{digits_value, is_digit}
use polylayer_tee.External.{External}
use polylayer_tee.Intents.Decimals.{parse_decimal_to_scaled}
use polylayer_tee.Intents.Decimals.Values.{ParsesU256, parse_decimal_to_scaled-value}
use polylayer_tee.Tests.Samples.{sample}

abbrev fits : Option ℕ → Option ℕ
fits none = none
fits (some n) = if ltb n (2 ^ 256) then some n else none

abbrev bounded : External
bounded = record sample { parse_u256 = λ s. fits (digits_value 0 s) }

bounded-ParsesU256 : ParsesU256 bounded
bounded-ParsesU256 ds v ne h = rw h refl

int_reads : digits_value 0 (text "1") ≡ some 1
unfolding digits_value is_digit
int_reads = refl

frac_reads : digits_value 0 (text "23456789") ≡ some 23456789
unfolding digits_value is_digit
frac_reads = refl

parse_decimal_to_scaled-value_example :
    parse_decimal_to_scaled bounded (text "1.23456789") 6 ≡ ok 1234567
parse_decimal_to_scaled-value_example =
    parse_decimal_to_scaled-value bounded bounded-ParsesU256 (text "1") (text "23456789") 6 1
      23456789 refl refl int_reads frac_reads
