-- ===== src/Evm/Abi/Words.antt =====
-- The word readers of crates/core/src/evm/abi.rs against the layout of ABI arguments.
use polylayer_tee.Prelude.{
  ℕ, zero, suc, ◌+◌, ◌-◌, ◌*◌, ◌^◌, ◌≤◌, ◌<◌, ◌≡◌, refl, sym, ap, ◌∙◌, [], ◌∷◌, ◌++◌, Bytes,
  be_value, text, length, take, drop, length-append, length-take, length-drop, take-append-drop,
  take-append_left, drop-append_left, drop-drop, arith, ok, err, >>=-eq-ok, bytes_eq_iff,
  bytes_eq_self,
}
use polylayer_tee.Evm.Abi.{AbiError, word_from, word_u256, word_address, word_bytes32}
use Prim.Native.String.{String}
use polylayer_tee.Evm.Abi.{require_selector, selector_of}

-- `w` is word `i` of `args`: 32 bytes, behind `i` words.
pub record WordAt (args : Bytes) (i : ℕ) (w : Bytes) : Type 0 where
  pub front : Bytes
  pub back : Bytes
  pub split : args ≡ front ++ (w ++ back)
  pub starts : length front ≡ i * 32
  pub wide : length w ≡ 32

drop-append : (n : ℕ) (xs ys : Bytes) → n ≤ length xs → drop n (xs ++ ys) ≡ drop n xs ++ ys
drop-append zero xs ys h = refl
drop-append (suc n) [] ys h = absurd (omega arith)
drop-append (suc n) (x ∷ xs) ys h = drop-append n xs ys (omega arith)

pub WordAt-length : {args : Bytes} {i : ℕ} {w : Bytes} → WordAt args i w → i * 32 + 32 ≤ length args
WordAt-length {args} {i} {w} at = omega (
  arith,
  ap length at.split,
  length-append at.front (w ++ at.back),
  length-append w at.back,
  at.starts,
  at.wide,
)

-- The bytes from `from` on of a word, cut out of the arguments.
cut_word :
    (from : ℕ) {args : Bytes} {i : ℕ} {w : Bytes}
    → from ≤ 32
    → WordAt args i w
    → take (i * 32 + 32 - (i * 32 + from)) (drop (i * 32 + from) args) ≡ drop from w
cut_word from {args} {i} {w} low at =
    let room : i * 32 + 32 - (i * 32 + from) ≡ 32 - from = omega arith in
    let tail : drop (i * 32) args ≡ w ++ at.back =
      ap (drop (i * 32)) at.split ∙ drop-append_left at.front (w ++ at.back) (i * 32) at.starts in
    let tail' : drop (i * 32 + from) args ≡ drop from w ++ at.back =
      sym (drop-drop (i * 32) from args)
      ∙ ap (drop from) tail
      ∙ drop-append from w at.back (omega (arith, at.wide)) in
    rw (room, tail')
      (take-append_left (drop from w) at.back (32 - from)
        (omega (arith, length-drop from w, at.wide)))

-- Word `i` of arguments that are long enough.
word_of :
    (args : Bytes) (i : ℕ)
    → i * 32 + 32 ≤ length args
    → WordAt args i (take 32 (drop (i * 32) args))
word_of args i h = record {
  front = take (i * 32) args;
  back = drop 32 (drop (i * 32) args);
  split =
      sym (take-append-drop (i * 32) args)
      ∙ ap (λ t. take (i * 32) args ++ t) (sym (take-append-drop 32 (drop (i * 32) args)));
  starts = omega (arith, length-take (i * 32) args);
  wide = omega (arith, length-take 32 (drop (i * 32) args), length-drop (i * 32) args);
}

module _ (from : ℕ) (args : Bytes) (i : ℕ) (fits : i * 32 + 32 < 2 ^ 64) (low : from ≤ 32) where
  word_from-at : {w : Bytes} → WordAt args i w → word_from from args i ≡ ok (drop from w)
  unfolding word_from
  word_from-at {w} at = ground (arith, cut_word from low at, WordAt-length at)

  word_from-long : {b : Bytes} → word_from from args i ≡ ok b → i * 32 + 32 ≤ length args
  unfolding word_from
  word_from-long h = ground arith

  word_from-ok :
      {b : Bytes} → word_from from args i ≡ ok b → (w : Bytes) × WordAt args i w × (drop from w ≡ b)
  word_from-ok h = let at = word_of args i (word_from-long h) in (_, at, cc (word_from-at at))

  word_from-short :
      length args < i * 32 + 32
      → word_from from args i ≡ err (AbiError.too_short (length args) (i * 32 + 32))
  unfolding word_from
  word_from-short h = ground arith

module _ (args : Bytes) (i : ℕ) (fits : i * 32 + 32 < 2 ^ 64) where
  pub word_u256-at : {w : Bytes} → WordAt args i w → word_u256 args i ≡ ok (be_value w)
  unfolding word_u256
  word_u256-at at = rw (word_from-at 0 args i fits (omega arith) at)

  pub word_u256-ok :
      {v : ℕ} → word_u256 args i ≡ ok v → (w : Bytes) × WordAt args i w × (be_value w ≡ v)
  unfolding word_u256
  word_u256-ok h =
      let (b, e, k) = >>=-eq-ok (word_from 0 args i) _ h in
      let (w, at, p) = word_from-ok 0 args i fits (omega arith) e in (w, at, cc)

  pub word_address-at : {w : Bytes} → WordAt args i w → word_address args i ≡ ok (drop 12 w)
  unfolding word_address
  word_address-at = word_from-at 12 args i fits (omega arith)

  pub word_address-ok :
      {a : Bytes} → word_address args i ≡ ok a → (w : Bytes) × WordAt args i w × (drop 12 w ≡ a)
  unfolding word_address
  word_address-ok = word_from-ok 12 args i fits (omega arith)

  pub word_bytes32-at : {w : Bytes} → WordAt args i w → word_bytes32 args i ≡ ok w
  unfolding word_bytes32
  word_bytes32-at = word_from-at 0 args i fits (omega arith)

  pub word_bytes32-ok :
      {a : Bytes} → word_bytes32 args i ≡ ok a → (w : Bytes) × WordAt args i w × (w ≡ a)
  unfolding word_bytes32
  word_bytes32-ok = word_from-ok 0 args i fits (omega arith)

  pub word_u256-short :
      length args < i * 32 + 32
      → word_u256 args i ≡ err (AbiError.too_short (length args) (i * 32 + 32))
  unfolding word_u256
  word_u256-short h = rw (word_from-short 0 args i fits (omega arith) h)

-- A selector check succeeds exactly on calldata that begins with the selector.
pub require_selector-at :
    (sel args : Bytes) → length sel ≡ 4 → require_selector (sel ++ args) sel ≡ ok args
unfolding require_selector
require_selector-at sel args h = ground (
  arith,
  length-append sel args,
  take-append_left sel args 4 h,
  drop-append_left sel args 4 h,
  bytes_eq_self sel,
)

pub require_selector-ok :
    (calldata sel : Bytes) {args : Bytes}
    → require_selector calldata sel ≡ ok args
    → calldata ≡ sel ++ args
unfolding require_selector
require_selector-ok calldata sel {args} h =
    ground (arith, take-append-drop 4 calldata, bytes_eq_iff (take 4 calldata) sel)

pub length-selector_of :
    (keccak256 : Bytes → Bytes) (s : String)
    → length (keccak256 (text s)) ≡ 32
    → length (selector_of keccak256 s) ≡ 4
unfolding selector_of
length-selector_of keccak256 s h = omega (arith, length-take 4 (keccak256 (text s)))
