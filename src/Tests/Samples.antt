-- ===== src/Tests/Samples.antt =====
-- One instance of the third-party functions, simple enough to evaluate.
use polylayer_tee.Prelude.{
  ℕ, ◌≡◌, List, true, ◌∷◌, [], ◌++◌, Bytes, bytes_eq, text, some, length, take, drop, replicate,
  length-take, length-append, length-replicate, arith,
}
use polylayer_tee.Numeric.{digits_value, to_string}
use polylayer_tee.External.{External, RlpCall, begin_list, append, DigestsAre32}

abbrev pub pad : ℕ → Bytes → Bytes
pad n bs = take n (bs ++ replicate n 0)

abbrev flat : List RlpCall → Bytes
flat [] = []
flat (begin_list n ∷ calls) = n ∷ flat calls
flat (append bs ∷ calls) = length bs ∷ (bs ++ flat calls)

abbrev pub sample : External
sample = record {
  keccak256 = pad 32;
  sha256 = λ bs. pad 32 (drop 7 bs);
  parse_pubkey = λ s. some (pad 32 s);
  find_program_address = λ seeds program. pad 32 program;
  parse_address = λ s. some (pad 20 s);
  parse_b256 = λ s. some (pad 32 s);
  parse_u256 = digits_value 0;
  u256_to_string = to_string;
  bs58_decode = λ s. some s;
  bs58_encode = λ s. s;
  hex_decode = λ s. some s;
  hex_encode = λ s. s;
  valid_verifying_key = λ k. true;
  ed25519_verify = λ key message signature. bytes_eq signature (key ++ pad 32 message);
  ed25519_public = λ k. k;
  ed25519_sign = λ key message. key ++ pad 32 message;
  secret_key_ok = λ k. true;
  signing_key_ok = λ k. true;
  verifying_key = λ k. k;
  encoded_point = λ k. 4 ∷ pad 64 k;
  sign_prehash_ok = λ key hash. true;
  sign_prehash_recoverable = λ key hash. some (key ++ hash, 0);
  recover_from_prehash = λ hash signature id. some (take 32 signature);
  rlp_raw = flat;
  hkdf_sha256 = λ salt material info n. some (pad n (info ++ material ++ salt));
  hmac_sha512 = λ key message. pad 64 (message ++ key);
  hmac_sha256 = λ key message. pad 32 (message ++ key);
  json_string = λ s. b'"' ∷ s ++ b'"' ∷ [];
  json_number = λ n. text "0";
  is_finite = λ t. true;
  trim = λ s. s;
}

pub length-pad : (n : ℕ) (bs : Bytes) → length (pad n bs) ≡ n
length-pad n bs = omega (
  arith,
  length-take n (bs ++ replicate n 0),
  length-append bs (replicate n 0),
  length-replicate {A = ℕ} n 0,
)

pub sample-DigestsAre32 : DigestsAre32 sample
sample-DigestsAre32 = length-pad 32
