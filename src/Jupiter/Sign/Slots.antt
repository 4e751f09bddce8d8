-- ===== src/Jupiter/Sign/Slots.antt =====
-- Which slot of a transaction the delegate's signature fills.
use polylayer_tee.Prelude.{
  ℕ, zero, suc, ◌+◌, ◌<◌, ◌≡◌, ◌≢◌, refl, ap, subst, List, [], ◌∷◌, Bytes, bytes_eq, bytes_eq_iff,
  ltb, Bool-cases, inl, inr, length, get_elem?, some, Outcome, ok, arith, guard-ok, ok_or-ok,
  ltb→lt,
}
use polylayer_tee.External.{External}
use polylayer_tee.Jupiter.Sign.{
  VersionedTransaction, Wire, JupiterSignError, SignedJupiterTx, position, set_at,
  sign_versioned_transaction,
}

get_elem?-set_at_same :
    (slots : List Bytes) (i : ℕ) (b : Bytes)
    → i < length slots
    → get_elem? (set_at slots i b) i ≡ some b
unfolding set_at
get_elem?-set_at_same [] i b h = absurd (omega arith)
get_elem?-set_at_same (a ∷ slots) zero b h = refl
get_elem?-set_at_same (a ∷ slots) (suc i) b h = get_elem?-set_at_same slots i b (omega arith)

get_elem?-set_at_other :
    (slots : List Bytes) (i j : ℕ) (b : Bytes)
    → j ≢ i
    → get_elem? (set_at slots i b) j ≡ get_elem? slots j
unfolding set_at
get_elem?-set_at_other [] i j b ne = refl
get_elem?-set_at_other (a ∷ slots) zero zero b ne = absurd (ne refl)
get_elem?-set_at_other (a ∷ slots) zero (suc j) b ne = refl
get_elem?-set_at_other (a ∷ slots) (suc i) zero b ne = refl
get_elem?-set_at_other (a ∷ slots) (suc i) (suc j) b ne =
    get_elem?-set_at_other slots i j b (λ e. ne (ap suc e))

-- The key at `idx`, counted from `start`, is the first one equal to `key`.
pub record FirstAt (start : ℕ) (keys : List Bytes) (key : Bytes) (idx : ℕ) : Type 0 where
  pub offset : ℕ
  pub counted : idx ≡ start + offset
  pub here : get_elem? keys offset ≡ some key
  pub earlier : (j : ℕ) → j < offset → get_elem? keys j ≢ some key

position-FirstAt :
    (start : ℕ) (keys : List Bytes) (key : Bytes) (idx : ℕ)
    → position start keys key ≡ some idx
    → FirstAt start keys key idx
unfolding position
position-FirstAt start [] key idx h = cc
position-FirstAt start (k ∷ keys) key idx h = elim (Bool-cases (bytes_eq k key)) [
  | inl same ↦
      let e : k ≡ key = (bytes_eq_iff k key).0 same in
      record {
        offset = 0;
        counted = ground (arith, h, same);
        here = ap some e;
        earlier = λ j lt. absurd (omega arith);
      }
  | inr other ↦
      let ne : k ≢ key = λ e. cc (other, (bytes_eq_iff k key).1 e) in
      let later = position-FirstAt (start + 1) keys key idx (ground (arith, h, other)) in
      record {
        offset = suc later.offset;
        counted = omega (arith, later.counted);
        here = later.here;
        earlier = λ j lt e. before keys k key later.offset ne later.earlier j lt e;
      }
]
  where
    before :
        (keys : List Bytes) (k key : Bytes) (n : ℕ)
        → k ≢ key
        → ((j : ℕ) → j < n → get_elem? keys j ≢ some key)
        → (j : ℕ) → j < suc n
        → get_elem? (k ∷ keys) j ≢ some key
    before keys k key n ne rest zero lt e = ne (cc (e))
    before keys k key n ne rest (suc j) lt e = rest j (omega arith) e

module _ (x : External) (wire : Wire) (unsigned priv : Bytes) where
  -- The answer is the given transaction with one signature replaced: that of the first static key
  -- equal to the delegate's, over the unchanged message.
  pub record Slotted (s : SignedJupiterTx) : Type 0 where
    pub raw : Bytes
    pub raw_is : wire.b64_decode unsigned ≡ some raw
    pub tx : VersionedTransaction
    pub tx_is : wire.deserialize raw ≡ some tx
    pub first : FirstAt 0 tx.message.static_account_keys (x.ed25519_public priv) s.signature_index
    pub message_bytes : Bytes
    pub message_is : wire.serialize_message tx.message ≡ some message_bytes
    pub signature : s.signature ≡ x.ed25519_sign priv message_bytes
    pub signatures : List Bytes
    pub bytes : Bytes
    pub bytes_is : wire.serialize (record tx { signatures = signatures }) ≡ some bytes
    pub answer : s.signed_tx_b64 ≡ wire.b64_encode bytes
    pub slot : get_elem? signatures s.signature_index ≡ some s.signature
    pub others :
        (j : ℕ) → j ≢ s.signature_index → get_elem? signatures j ≡ get_elem? tx.signatures j

  signed_inj :
      {a b : SignedJupiterTx}
      → ◌≡◌ {A = Outcome JupiterSignError SignedJupiterTx} (ok a) (ok b)
      → a ≡ b
  signed_inj h = cc (h)

  -- A signed transaction is the given one with the message unchanged and one signature replaced:
  -- the slot is that of the first static key equal to the delegate's public key, the signature
  -- there is the delegate's over the message, and every other signature is kept.
  pub sign_versioned_transaction-Slotted :
      (s : SignedJupiterTx) → sign_versioned_transaction x wire unsigned priv ≡ ok s → Slotted s
  unfolding sign_versioned_transaction
  sign_versioned_transaction-Slotted s h =
      let (raw, r, h1) = ok_or-ok (wire.b64_decode unsigned) _ _ h in
      let (tx, t, h2) = ok_or-ok (wire.deserialize raw) _ _ h1 in
      let keys = tx.message.static_account_keys in
      let (idx, p, h3) = ok_or-ok (position 0 keys (x.ed25519_public priv)) _ _ h2 in
      let (inside, h4) = guard-ok (ltb idx (length tx.signatures)) _ _ h3 in
      let (message, m, h5) = ok_or-ok (wire.serialize_message tx.message) _ _ h4 in
      let sig = x.ed25519_sign priv message in
      let sigs = set_at tx.signatures idx sig in
      let (bytes, b, h6) = ok_or-ok (wire.serialize (record tx { signatures = sigs })) _ _ h5 in
      subst Slotted (signed_inj h6) (record {
        raw = raw;
        raw_is = r;
        tx = tx;
        tx_is = t;
        first = position-FirstAt 0 keys (x.ed25519_public priv) idx p;
        message_bytes = message;
        message_is = m;
        signature = refl;
        signatures = sigs;
        bytes = bytes;
        bytes_is = b;
        answer = refl;
        slot =
            get_elem?-set_at_same tx.signatures idx sig (ltb→lt idx (length tx.signatures) inside);
        others = λ j ne. get_elem?-set_at_other tx.signatures idx j sig ne;
      })
