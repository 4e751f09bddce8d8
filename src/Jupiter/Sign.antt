-- ===== src/Jupiter/Sign.antt =====
-- crates/core/src/jupiter/sign.rs: a delegate's signature in a Solana transaction. What bincode
-- reads and writes is a parameter; of a message the program reads the static keys and the
-- instructions, and `others` is the rest.
pub mod Slots
use polylayer_tee.Prelude.{
  ℕ, zero, suc, ◌+◌, List, [], ◌∷◌, Bytes, bytes_eq, ltb, if◌then◌else◌, length, Option, none, some,
  Outcome, ok, err, ◌>>=◌, ◌>>◌, guard, ok_or,
}
use polylayer_tee.External.{External}

pub record Instruction : Type 0 where
  pub program_id_index : ℕ
  pub accounts : List ℕ
  pub ix_data : Bytes

pub record Message : Type 0 where
  pub static_account_keys : List Bytes
  pub instructions : List Instruction
  pub others : Bytes

pub record VersionedTransaction : Type 0 where
  pub signatures : List Bytes
  pub message : Message

-- base64 and bincode
pub record Wire : Type 0 where
  pub b64_decode : Bytes → Option Bytes
  pub b64_encode : Bytes → Bytes
  pub deserialize : Bytes → Option VersionedTransaction
  pub serialize : VersionedTransaction → Option Bytes
  pub serialize_message : Message → Option Bytes

pub data JupiterSignError : Type 0 where
  base64 deserialize_failed serialize_failed : JupiterSignError
  delegate_not_signer : Bytes → JupiterSignError
  signature_slot_out_of_range : ℕ → ℕ → JupiterSignError

pub record SignedJupiterTx : Type 0 where
  pub signed_tx_b64 : Bytes
  pub signature : Bytes
  pub signature_index : ℕ

-- `.iter().position(|k| k == …)`, counted from `i`
unfoldable pub position : ℕ → List Bytes → Bytes → Option ℕ
position i [] key = none
position i (k ∷ keys) key =
    let rest = position (i + 1) keys key in if bytes_eq k key then some i else rest

-- `signatures[idx] = …`
unfoldable pub set_at : List Bytes → ℕ → Bytes → List Bytes
set_at [] i b = []
set_at (a ∷ slots) zero b = b ∷ slots
set_at (a ∷ slots) (suc i) b = a ∷ set_at slots i b

module _ (x : External) (wire : Wire) where
  open x use {ed25519_public, ed25519_sign}

  unfoldable pub sign_versioned_transaction :
      Bytes → Bytes → Outcome JupiterSignError SignedJupiterTx
  sign_versioned_transaction unsigned_tx_b64 delegate_priv_key = do
    raw ← ok_or (wire.b64_decode unsigned_tx_b64) base64
    tx ← ok_or (wire.deserialize raw) deserialize_failed
    let delegate_pubkey = ed25519_public delegate_priv_key
    idx ←
        ok_or (position 0 tx.message.static_account_keys delegate_pubkey)
          (delegate_not_signer delegate_pubkey)
    guard (ltb idx (length tx.signatures)) (signature_slot_out_of_range idx (length tx.signatures))
    message_bytes ← ok_or (wire.serialize_message tx.message) serialize_failed
    let sig_bytes = ed25519_sign delegate_priv_key message_bytes
    let signed = record tx { signatures = set_at tx.signatures idx sig_bytes }
    signed_bytes ← ok_or (wire.serialize signed) serialize_failed
    ok (record {
      signed_tx_b64 = wire.b64_encode signed_bytes;
      signature = sig_bytes;
      signature_index = idx;
    })
