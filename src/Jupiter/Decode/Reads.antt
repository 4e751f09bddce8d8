-- ===== src/Jupiter/Decode/Reads.antt =====
-- What the borsh reader returns where the buffer holds an encoded value.
use polylayer_tee.Prelude.{
  ℕ, ◌+◌, ◌-◌, ◌^◌, ◌<◌, ◌≡◌, refl, sym, ap, ◌∙◌, Bool, true, false, [], ◌∷◌, ◌++◌, Bytes, le_value,
  le_bytes, length, drop, length-append, take-append_left, drop-append_left, drop-drop,
  length-le_bytes, le_value-le_bytes, Option, none, some, ok, arith, slice, slice-within,
}
use polylayer_tee.Jupiter.Decode.{
  DecodeError, read_bytes, read_u8, read_u64, read_opt_u64, read_opt_bool, bool_of,
}

-- The buffer has `tail` from the offset on, and its length is a `usize`.
pub record At (buf : Bytes) (offset : ℕ) (tail : Bytes) : Type 0 where
  pub behind : drop offset buf ≡ tail
  pub size : offset + length tail ≡ length buf
  pub fits : length buf < 2 ^ 64

abbrev pub encode_bool : Bool → ℕ
encode_bool false = 0
encode_bool true = 1

abbrev pub encode_opt_u64 : Option ℕ → Bytes → Bytes
encode_opt_u64 none tail = 0 ∷ tail
encode_opt_u64 (some v) tail = 1 ∷ (le_bytes 8 v ++ tail)

abbrev pub encode_opt_bool : Option Bool → Bytes → Bytes
encode_opt_bool none tail = 0 ∷ tail
encode_opt_bool (some b) tail = 1 ∷ encode_bool b ∷ tail

-- A number that is there is a `u64`.
abbrev pub OptU64 : Option ℕ → Type 0
OptU64 none = Unit {0}
OptU64 (some v) = v < 2 ^ 64

module _ (buf : Bytes) where
  At-next :
      (n o : ℕ) (bs tail : Bytes) → length bs ≡ n → At buf o (bs ++ tail) → At buf (o + n) tail
  At-next n o bs tail e h = record {
    behind = sym (drop-drop o n buf) ∙ ap (drop n) h.behind ∙ drop-append_left bs tail n e;
    size = omega (arith, h.size, length-append bs tail);
    fits = h.fits;
  }

  read_bytes-At :
      (n o : ℕ) (bs tail : Bytes)
      → length bs ≡ n
      → At buf o (bs ++ tail)
      → read_bytes buf n o ≡ ok (bs, o + n)
  unfolding read_bytes
  read_bytes-At n o bs tail e h =
      let total = length-append bs tail in
      let width : o + n - o ≡ n = omega arith in
      let part : slice {E = DecodeError} buf o (o + n) ≡ ok bs =
        slice-within buf o (o + n) (omega arith) (omega (arith, h.size))
        ∙ ap ok (rw (width, h.behind) (take-append_left bs tail n e)) in
      ground (arith, h.size, h.fits, part)

  pub read_u64-At :
      (o v : ℕ) (tail : Bytes)
      → v < 2 ^ 64
      → At buf o (le_bytes 8 v ++ tail)
      → (read_u64 buf o ≡ ok (v, o + 8)) × At buf (o + 8) tail
  unfolding read_u64
  read_u64-At o v tail small h =
      let wide = length-le_bytes 8 v in
      (
        rw (read_bytes-At 8 o (le_bytes 8 v) tail wide h, le_value-le_bytes 8 v (omega arith)) refl,
        At-next 8 o (le_bytes 8 v) tail wide h,
      )

  pub read_u8-At :
      (o b : ℕ) (tail : Bytes)
      → At buf o (b ∷ tail)
      → (read_u8 buf o ≡ ok (b, o + 1)) × At buf (o + 1) tail
  unfolding read_u8 le_value
  read_u8-At o b tail h = (
    rw (read_bytes-At 1 o (b ∷ []) tail refl h) (ap (λ v. ok (v, o + 1)) (omega arith)),
    At-next 1 o (b ∷ []) tail refl h,
  )

  pub read_opt_u64-At :
      (o : ℕ) (v : Option ℕ) (tail : Bytes)
      → OptU64 v
      → At buf o (encode_opt_u64 v tail)
      → (next : ℕ) × (read_opt_u64 buf o ≡ ok (v, next)) × At buf next tail
  unfolding read_opt_u64
  read_opt_u64-At o none tail small h =
      let (tag, rest) = read_u8-At o 0 tail h in (o + 1, rw tag refl, rest)
  read_opt_u64-At o (some v) tail small h =
      let (tag, rest) = read_u8-At o 1 (le_bytes 8 v ++ tail) h in
      let (value, later) = read_u64-At (o + 1) v tail small rest in
      (o + 1 + 8, rw (tag, value) refl, later)

  pub read_opt_bool-At :
      (o : ℕ) (b : Option Bool) (tail : Bytes)
      → At buf o (encode_opt_bool b tail)
      → (next : ℕ) × (read_opt_bool buf o ≡ ok (b, next)) × At buf next tail
  unfolding read_opt_bool bool_of
  read_opt_bool-At o none tail h =
      let (tag, rest) = read_u8-At o 0 tail h in (o + 1, rw tag refl, rest)
  read_opt_bool-At o (some false) tail h =
      let (tag, rest) = read_u8-At o 1 (0 ∷ tail) h in
      let (value, later) = read_u8-At (o + 1) 0 tail rest in
      (o + 1 + 1, rw (tag, value) refl, later)
  read_opt_bool-At o (some true) tail h =
      let (tag, rest) = read_u8-At o 1 (1 ∷ tail) h in
      let (value, later) = read_u8-At (o + 1) 1 tail rest in
      (o + 1 + 1, rw (tag, value) refl, later)
