-- ===== src/Solana.antt =====
-- crates/core/src/solana.rs: decoding public keys and signatures, and checking a signature.
use polylayer_tee.Prelude.{
  ℕ, ◌*◌, Bool, true, false, [], ◌∷◌, Bytes, bytes_eq, text, leb, ◌==◌, ◌||◌, ◌&&◌, not,
  if◌then◌else◌, length, take, drop, Outcome, ok, ◌>>=◌, ◌>>◌, guard, ok_or,
}
use polylayer_tee.External.{External}

abbrev pub pubkey_len : ℕ
pubkey_len = 32

abbrev pub sig_len : ℕ
sig_len = 64

-- The texts of the bs58 and hex crates' errors are left out.
pub data SolanaError : Type 0 where
  bs58_pubkey : SolanaError
  pubkey_length : ℕ → ℕ → SolanaError
  empty_signature : SolanaError
  hex_signature_length : ℕ → ℕ → SolanaError
  signature_decode : SolanaError
  bs58_signature_length : ℕ → ℕ → SolanaError
  invalid_verifying_key : SolanaError

unfoldable pub is_ascii_hexdigit : ℕ → Bool
is_ascii_hexdigit b =
    (leb b'0' b && leb b b'9') || (leb b'A' b && leb b b'F') || (leb b'a' b && leb b b'f')

unfoldable pub all : (ℕ → Bool) → Bytes → Bool
all p [] = true
all p (b ∷ bs) = p b && all p bs

-- `s.strip_prefix("0x").unwrap_or(s)`
unfoldable pub strip_0x : Bytes → Bytes
strip_0x s = if bytes_eq (take 2 s) (text "0x") then drop 2 s else s

abbrev pub is_empty : Bytes → Bool
is_empty [] = true
is_empty (b ∷ bs) = false

module _ (x : External) where
  open x use {bs58_decode, hex_decode, trim, valid_verifying_key, ed25519_verify}

  unfoldable pub decode_pubkey : Bytes → Outcome SolanaError Bytes
  decode_pubkey bs58_text = do
    raw ← ok_or (bs58_decode bs58_text) bs58_pubkey
    guard (length raw == pubkey_len) (pubkey_length pubkey_len (length raw))
    ok raw

  unfoldable pub looks_hex : Bytes → Bool
  looks_hex trimmed =
      let bytes = strip_0x trimmed in not (is_empty bytes) && all is_ascii_hexdigit bytes

  unfoldable pub decode_hex_signature : Bytes → Outcome SolanaError Bytes
  decode_hex_signature trimmed = do
    let hex_str = strip_0x trimmed
    guard (length hex_str == sig_len * 2) (hex_signature_length (sig_len * 2) (length hex_str))
    decoded ← ok_or (hex_decode hex_str) signature_decode
    ok decoded

  unfoldable pub decode_bs58_signature : Bytes → Outcome SolanaError Bytes
  decode_bs58_signature trimmed = do
    raw ← ok_or (bs58_decode trimmed) signature_decode
    guard (length raw == sig_len) (bs58_signature_length sig_len (length raw))
    ok raw

  unfoldable pub decode_signature : Bytes → Outcome SolanaError Bytes
  decode_signature input = do
    let trimmed = trim input
    guard (not (is_empty trimmed)) empty_signature
    if looks_hex trimmed then decode_hex_signature trimmed else decode_bs58_signature trimmed

  -- `verify_signature(message, signature_bytes, pubkey_bytes)`
  unfoldable pub verify_signature : Bytes → Bytes → Bytes → Outcome SolanaError Bool
  verify_signature message signature_bytes pubkey_bytes = do
    guard (valid_verifying_key pubkey_bytes) invalid_verifying_key
    ok (ed25519_verify pubkey_bytes message signature_bytes)
