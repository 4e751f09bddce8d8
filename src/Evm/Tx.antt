-- ===== src/Evm/Tx.antt =====
-- crates/core/src/evm/tx.rs: the RLP form of an EIP-1559 transaction and its signature. The bytes of
-- a stream are the rlp crate's; the calls on it are written out.
pub mod Injective
use polylayer_tee.Prelude.{
  ℕ, zero, suc, ◌+◌, List, [], ◌∷◌, ◌++◌, Bytes, bytes_eq, be_bytes, text, ◌==◌, if◌then◌else◌,
  length, take, drop, Outcome, ok, ◌>>=◌, ◌>>◌, guard, ok_or,
}
use polylayer_tee.External.{External, RlpCall, begin_list, append}
use polylayer_tee.Derive.{evm_address_from_verifying_key}

pub data EvmTxError : Type 0 where
  bad_key : EvmTxError
  sign : EvmTxError
  owner_mismatch : Bytes → Bytes → EvmTxError

pub record AccessListItem : Type 0 where
  pub address : Bytes
  pub storage_keys : List Bytes

pub record Eip1559Tx : Type 0 where
  pub chain_id : ℕ
  pub nonce : ℕ
  pub max_priority_fee_per_gas : ℕ
  pub max_fee_per_gas : ℕ
  pub gas_limit : ℕ
  pub to : Bytes
  pub value : ℕ
  pub data_bytes : Bytes
  pub access_list : List AccessListItem

pub record SignedEip1559Tx : Type 0 where
  pub raw_hex : Bytes
  pub tx_hash : Bytes
  pub from : Bytes

-- `while start < bytes.len() && bytes[start] == 0`
unfoldable pub strip_zeros : Bytes → Bytes
strip_zeros [] = []
strip_zeros (b ∷ bs) = let rest = strip_zeros bs in if b == 0 then rest else b ∷ bs

unfoldable pub append_uint_from_bytes : Bytes → RlpCall
append_uint_from_bytes bytes = append (strip_zeros bytes)

unfoldable pub append_uint : ℕ → RlpCall
unfolding append_uint_from_bytes
append_uint n = append_uint_from_bytes (be_bytes 32 n)

unfoldable pub append_keys : List Bytes → List RlpCall
append_keys [] = []
append_keys (key ∷ keys) = append key ∷ append_keys keys

unfoldable pub append_items : List AccessListItem → List RlpCall
append_items [] = []
append_items (item ∷ items) =
    begin_list 2
    ∷ append item.address
    ∷ begin_list (length item.storage_keys)
    ∷ (append_keys item.storage_keys ++ append_items items)

unfoldable pub append_access_list : List AccessListItem → List RlpCall
append_access_list list = begin_list (length list) ∷ append_items list

-- The nine fields, which both payloads start with.
unfoldable pub append_fields : Eip1559Tx → List RlpCall → List RlpCall
append_fields tx rest =
    append_uint tx.chain_id
    ∷ append_uint tx.nonce
    ∷ append_uint tx.max_priority_fee_per_gas
    ∷ append_uint tx.max_fee_per_gas
    ∷ append_uint tx.gas_limit
    ∷ append tx.to
    ∷ append_uint tx.value
    ∷ append tx.data_bytes
    ∷ (append_access_list tx.access_list ++ rest)

unfoldable pub unsigned_calls : Eip1559Tx → List RlpCall
unfolding append_fields
unsigned_calls tx = begin_list 9 ∷ append_fields tx []

unfoldable pub signed_calls : Eip1559Tx → ℕ → Bytes → Bytes → List RlpCall
signed_calls tx y_parity r s =
    begin_list 12
    ∷ append_fields tx (
        append_uint_from_bytes (y_parity ∷ [])
        ∷ append_uint_from_bytes r
        ∷ append_uint_from_bytes s
        ∷ [])

module _ (x : External) where
  open x use {
    keccak256, rlp_raw, hex_encode, signing_key_ok, verifying_key, sign_prehash_recoverable,
  }

  unfoldable pub encode_unsigned : Eip1559Tx → Bytes
  encode_unsigned tx = 2 ∷ rlp_raw (unsigned_calls tx)

  unfoldable pub encode_signed : Eip1559Tx → ℕ → Bytes → Bytes → Bytes
  encode_signed tx y_parity r s = 2 ∷ rlp_raw (signed_calls tx y_parity r s)

  unfoldable pub sign_eip1559 : Bytes → Eip1559Tx → Outcome EvmTxError SignedEip1559Tx
  sign_eip1559 priv_key tx = do
    guard (signing_key_ok priv_key) bad_key
    let from_address = evm_address_from_verifying_key x (verifying_key priv_key)
    let digest = keccak256 (encode_unsigned tx)
    (r_s, y_parity) ← ok_or (sign_prehash_recoverable priv_key digest) sign
    let signed = encode_signed tx y_parity (take 32 r_s) (drop 32 r_s)
    ok (record {
      raw_hex = text "0x" ++ hex_encode signed;
      tx_hash = keccak256 signed;
      from = from_address;
    })

  unfoldable pub assert_owner : Bytes → Bytes → Outcome EvmTxError (Unit {0})
  assert_owner priv_key expected_owner = do
    guard (signing_key_ok priv_key) bad_key
    let derived = evm_address_from_verifying_key x (verifying_key priv_key)
    guard (bytes_eq derived expected_owner) (owner_mismatch expected_owner derived)
    ok tt
