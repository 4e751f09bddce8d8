-- ===== src/Evm/Abi.antt =====
-- crates/core/src/evm/abi.rs: readers of ABI words out of calldata. An address and a bytes32 are
-- lists of 20 and 32 bytes, a uint256 is a number. Keccak-256 is the sha3 crate's: a parameter.
pub mod Words
pub mod Arrays
use polylayer_tee.Prelude.{
  ℕ, zero, suc, ◌+◌, ◌-◌, ◌*◌, ◌^◌, Bool, List, [], ◌∷◌, Bytes, bytes_eq, be_value, text, ltb, leb,
  ◌==◌, not, length, take, drop, Outcome, ok, ◌>>=◌, ◌>>◌, guard, slice, add_usize, mul_usize,
}
use Prim.Native.String.{String}

pub data AbiError : Type 0 where
  too_short : ℕ → ℕ → AbiError
  bad_dynamic_offset : ℕ → AbiError
  array_too_long : ℕ → ℕ → AbiError
  wrong_selector : Bytes → Bytes → AbiError

abbrev pub u64_max : ℕ
u64_max = 2 ^ 64 - 1

abbrev pub array_cap : ℕ
array_cap = 256

unfoldable pub split_selector : Bytes → Outcome AbiError (Bytes × Bytes)
split_selector calldata = do
  guard (leb 4 (length calldata)) (too_short (length calldata) 4)
  ok (take 4 calldata, drop 4 calldata)

unfoldable pub require_selector : Bytes → Bytes → Outcome AbiError Bytes
unfolding split_selector
require_selector calldata expected = do
  (sel, rest) ← split_selector calldata
  guard (bytes_eq sel expected) (wrong_selector expected sel)
  ok rest

-- The bytes `from .. 32` of word `i`, which the four readers below share.
unfoldable pub word_from : ℕ → Bytes → ℕ → Outcome AbiError Bytes
word_from from args i = do
  off ← mul_usize i 32
  end ← add_usize off 32
  guard (not (ltb (length args) end)) (too_short (length args) end)
  slice args (off + from) end

unfoldable pub word_u256 : Bytes → ℕ → Outcome AbiError ℕ
word_u256 args i = do w ← word_from 0 args i; ok (be_value w)

unfoldable pub word_address : Bytes → ℕ → Outcome AbiError Bytes
word_address args i = word_from 12 args i

unfoldable pub word_bytes32 : Bytes → ℕ → Outcome AbiError Bytes
word_bytes32 args i = word_from 0 args i

-- `args[off + 31] != 0`
unfoldable pub word_bool : Bytes → ℕ → Outcome AbiError Bool
word_bool args i = do b ← word_from 31 args i; ok (not (be_value b == 0))

-- `for k in 0..count`: `n` rounds are left. `k` is below `count`, so the sums stay below the bound
-- that the caller has checked against `args.len()`.
unfoldable pub read_words : Bytes → ℕ → ℕ → ℕ → Outcome AbiError (List ℕ)
read_words args data_start k zero = ok []
read_words args data_start k (suc n) =
    let rest = read_words args data_start (k + 1) n in
    do
      w ← slice args (data_start + k * 32) (data_start + k * 32 + 32)
      vs ← rest
      ok (be_value w ∷ vs)

unfoldable pub dynamic_u256_array : Bytes → ℕ → ℕ → Outcome AbiError (List ℕ)
dynamic_u256_array args static_word_count i = do
  off ← word_u256 args i
  guard (leb off u64_max) (bad_dynamic_offset u64_max)
  floor ← mul_usize static_word_count 32
  guard (not (ltb off floor)) (bad_dynamic_offset off)
  data_start ← add_usize off 32
  guard (not (ltb (length args) data_start)) (too_short (length args) data_start)
  w ← slice args off data_start
  let len = be_value w
  guard (leb len u64_max) (array_too_long u64_max array_cap)
  guard (not (ltb array_cap len)) (array_too_long len array_cap)
  size ← mul_usize len 32
  end ← add_usize data_start size
  guard (not (ltb (length args) end)) (too_short (length args) end)
  read_words args data_start 0 len

-- The first four bytes of the Keccak-256 hash of a canonical signature.
unfoldable pub selector_of : (Bytes → Bytes) → String → Bytes
selector_of keccak256 canonical_sig = take 4 (keccak256 (text canonical_sig))
