-- ===== src/Evm/Abi/Arrays.antt =====
-- `dynamic_u256_array` of crates/core/src/evm/abi.rs: it reads back what an ABI encoder writes, and
-- where it panics.
use polylayer_tee.Prelude.{
  ℕ, zero, suc, ◌+◌, ◌-◌, ◌*◌, ◌^◌, ◌≤◌, ◌<◌, ◌≡◌, refl, ap, ◌∙◌, ◌↔◌, ◌≢◌, List, [], ◌∷◌, ◌++◌,
  Bytes, be_value, be_bytes, length, take, drop, All, length-append, length-be_bytes,
  be_value-be_bytes, take-append_left, drop-append_left, arith, ok, panic, append_assoc, slice,
  slice-within, Outcome-cases, inl, inr,
}
use polylayer_tee.Evm.Abi.{AbiError, word_from, word_u256, read_words, dynamic_u256_array}

abbrev IsU256 : ℕ → Type 0
IsU256 v = v < 256 ^ 32

-- The contents of an ABI-encoded `uint256[]`, and the array with its length in front.
abbrev encode_words : List ℕ → Bytes
encode_words [] = []
encode_words (v ∷ vs) = be_bytes 32 v ++ encode_words vs

abbrev pub encode_array : List ℕ → Bytes
encode_array vs = be_bytes 32 (length vs) ++ encode_words vs

length-encode_words : (vs : List ℕ) → length (encode_words vs) ≡ length vs * 32
length-encode_words [] = refl
length-encode_words (v ∷ vs) = omega (
  arith,
  length-append (be_bytes 32 v) (encode_words vs),
  length-be_bytes 32 v,
  length-encode_words vs,
)

-- A slice behind a front part, of a part of known length.
slice-middle :
    (front w back : Bytes) (a b : ℕ)
    → length front ≡ a
    → length front + length w ≡ b
    → slice {E = AbiError} (front ++ (w ++ back)) a b ≡ ok w
slice-middle front w back a b ha hb =
    let n : b - a ≡ length w = omega arith in
    slice-within (front ++ (w ++ back)) a b (omega arith)
      (omega (arith, length-append front (w ++ back), length-append w back))
    ∙ ap ok
        (rw (drop-append_left front (w ++ back) a ha, n) (take-append_left w back (length w) refl))

read_words-encode_words :
    (vs : List ℕ) (front back : Bytes) (start k : ℕ)
    → All IsU256 vs
    → length front ≡ start + k * 32
    → read_words (front ++ (encode_words vs ++ back)) start k (length vs) ≡ ok vs
unfolding read_words
read_words-encode_words [] front back start k h e = refl
read_words-encode_words (v ∷ vs) front back start k (h, hs) e =
    let word = be_bytes 32 v in
    let tail = encode_words vs ++ back in
    let regroup : (word ++ encode_words vs) ++ back ≡ word ++ tail =
      append_assoc word (encode_words vs) back in
    let wide : length word ≡ 32 = length-be_bytes 32 v in
    let here : slice {E = AbiError} (front ++ ((word ++ encode_words vs) ++ back)) (start + k * 32)
          (start + k * 32 + 32)
        ≡ ok word =
      rw regroup (slice-middle front word tail _ _ e (omega arith)) in
    let next : read_words (front ++ ((word ++ encode_words vs) ++ back)) start (k + 1) (length vs)
        ≡ ok vs =
      rw (regroup, ← append_assoc front word tail)
        (read_words-encode_words vs (front ++ word) back start (k + 1) hs
          (omega (arith, length-append front word))) in
    rw (here, next, be_value-be_bytes 32 v h)

-- The decoder reads back an array of at most 256 numbers below 2^256 from arguments of less than
-- 2^63 bytes that hold its ABI encoding behind the static words, at the place that word `i` names.
pub dynamic_u256_array-encode_array :
    (args front rest : Bytes) (vs : List ℕ) (static_word_count i : ℕ)
    → All IsU256 vs
    → length vs ≤ 256
    → length args < 2 ^ 63
    → args ≡ front ++ (encode_array vs ++ rest)
    → static_word_count * 32 ≤ length front
    → word_u256 args i ≡ ok (length front)
    → dynamic_u256_array args static_word_count i ≡ ok vs
unfolding dynamic_u256_array
dynamic_u256_array-encode_array args front rest vs n i h few short e static at =
    let word = be_bytes 32 (length vs) in
    let tail = encode_words vs ++ rest in
    let regroup : args ≡ front ++ (word ++ tail) =
      e ∙ ap (λ t. front ++ t) (append_assoc word (encode_words vs) rest) in
    let wide : length word ≡ 32 = length-be_bytes 32 (length vs) in
    let size : length args ≡ length front + (32 + (length vs * 32 + length rest)) = omega (
      arith,
      ap length regroup,
      length-append front (word ++ tail),
      length-append word tail,
      length-append (encode_words vs) rest,
      length-encode_words vs,
    ) in
    let header : take (length front + 32 - length front) (drop (length front) args) ≡ word =
      let n : length front + 32 - length front ≡ 32 = omega arith in
      rw (regroup, n, drop-append_left front (word ++ tail) (length front) refl)
        (take-append_left word tail 32 wide) in
    let count : be_value word ≡ length vs = be_value-be_bytes 32 (length vs) (omega arith) in
    let read : read_words args (length front + 32) 0 (length vs) ≡ ok vs =
      rw (regroup, ← append_assoc front word tail)
        (read_words-encode_words vs (front ++ word) rest (length front + 32) 0 h
          (omega (arith, length-append front word))) in
    ground (arith, at, size, header, count, read)

read_words-ne-panic :
    (args : Bytes) (start n k : ℕ)
    → start + (k + n) * 32 ≤ length args
    → read_words args start k n ≢ panic
unfolding read_words
read_words-ne-panic args start zero k h = λ e. cc
read_words-ne-panic args start (suc n) k h =
    ground (arith, read_words-ne-panic args start n (k + 1))

word_u256-ne-panic : (args : Bytes) (i : ℕ) → i * 32 + 32 < 2 ^ 64 → word_u256 args i ≢ panic
unfolding word_u256 word_from
word_u256-ne-panic args i h = ground arith

-- On arguments of less than 2^63 bytes with fewer than 2^63 bytes of static words and an index
-- whose word ends below 2^64, the decoder panics exactly when word `i` is there and lies from 2^64
-- - 32 to 2^64 - 1: the addition of 32 to it overflows before it is compared with the length.
pub dynamic_u256_array-panics :
    (args : Bytes) (static_word_count i : ℕ)
    → length args < 2 ^ 63
    → static_word_count * 32 < 2 ^ 63
    → i * 32 + 32 < 2 ^ 64
    → (dynamic_u256_array args static_word_count i ≡ panic)
      ↔ ((off : ℕ) × (word_u256 args i ≡ ok off) × (2 ^ 64 - 32 ≤ off) × (off < 2 ^ 64))
unfolding dynamic_u256_array
dynamic_u256_array-panics args n i short few fits = (forward, λ h. ground (arith, h.1, h.2, h.3))
  where
    panics_late :
        (off : ℕ)
        → word_u256 args i ≡ ok off
        → dynamic_u256_array args n i ≡ panic
        → (off : ℕ) × (word_u256 args i ≡ ok off) × (2 ^ 64 - 32 ≤ off) × (off < 2 ^ 64)
    panics_late off e h =
        let w = take (off + 32 - off) (drop off args) in
        let read = read_words-ne-panic args (off + 32) (be_value w) 0 in
        (off, e, ground (arith, e, h, read), ground (arith, e, h, read))

    forward :
        dynamic_u256_array args n i ≡ panic
        → (off : ℕ) × (word_u256 args i ≡ ok off) × (2 ^ 64 - 32 ≤ off) × (off < 2 ^ 64)
    forward h = elim (Outcome-cases (word_u256 args i)) [
      | inl (off, e) ↦ panics_late off e h
      | inr (inl (x, e)) ↦ absurd (cc (e, h))
      | inr (inr e) ↦ absurd (word_u256-ne-panic args i fits e)
    ]
