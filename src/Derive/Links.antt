-- ===== src/Derive/Links.antt =====
-- What a link message that is handed out satisfies.
use polylayer_tee.Prelude.{
  ◌<◌, ◌≡◌, refl, ◌++◌, Bytes, bytes_eq, bytes_eq_iff, ◌==◌, ◌||◌, some, Outcome, ok, arith,
  guard-ok, >>=-eq-ok, ok_or-ok, subst,
}
use polylayer_tee.External.{External}
use polylayer_tee.Derive.{
  DeriveError, LinkMessageSignature, link_message_prefix, derive_user_private_key,
  sign_link_message, evm_address_from_verifying_key,
}

module _ (x : External) (seed pk : Bytes) where
  -- The signature recovers to the address of the user's own key.
  pub record Linked (l : LinkMessageSignature) : Type 0 where
    pub secret : Bytes
    pub derived : derive_user_private_key x seed pk ≡ ok secret
    pub address : l.evm_address ≡ evm_address_from_verifying_key x (x.verifying_key secret)
    pub message : l.message ≡ link_message_prefix ++ pk
    pub hash : l.message_hash ≡ x.keccak256 l.message
    pub low : l.recovery_id < 2
    pub recovered : Bytes
    pub recovers : x.recover_from_prehash l.message_hash l.signature l.recovery_id ≡ some recovered
    pub checks : evm_address_from_verifying_key x recovered ≡ l.evm_address

  -- A link message that is handed out is the prefix and the public key, with the hash of that, a
  -- recovery byte of 0 or 1, the address of the user's derived key, and a signature that recovers
  -- to a key of the same address.
  pub sign_link_message-Linked :
      (l : LinkMessageSignature) → sign_link_message x seed pk ≡ ok l → Linked l
  unfolding sign_link_message
  sign_link_message-Linked l h =
      let (secret, d, h1) = >>=-eq-ok (derive_user_private_key x seed pk) _ h in
      let (good, h2) = guard-ok (x.signing_key_ok secret) _ _ h1 in
      let hash = x.keccak256 (link_message_prefix ++ pk) in
      let (signs, h3) = guard-ok (x.sign_prehash_ok secret hash) _ _ h2 in
      let ((sig, byte), s, h4) = ok_or-ok (x.sign_prehash_recoverable secret hash) _ _ h3 in
      let (low, h5) = guard-ok ((byte == 0) || (byte == 1)) _ _ h4 in
      let (vk, r, h6) = ok_or-ok (x.recover_from_prehash hash sig byte) _ _ h5 in
      let addr = evm_address_from_verifying_key x (x.verifying_key secret) in
      let (same, h7) = guard-ok (bytes_eq (evm_address_from_verifying_key x vk) addr) _ _ h6 in
      let is = ok_inj h7 in
      subst Linked is (record {
        secret = secret;
        derived = d;
        address = refl;
        message = refl;
        hash = refl;
        low = ground (arith, low);
        recovered = vk;
        recovers = r;
        checks = (bytes_eq_iff (evm_address_from_verifying_key x vk) addr).0 same;
      })
    where
      ok_inj :
          {a b : LinkMessageSignature}
          → ◌≡◌ {A = Outcome DeriveError LinkMessageSignature} (ok a) (ok b)
          → a ≡ b
      ok_inj h = cc (h)
