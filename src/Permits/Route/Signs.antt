-- ===== src/Permits/Route/Signs.antt =====
-- When the route signs a permit, and over what.
use polylayer_tee.Prelude.{
  text, ℕ, ◌+◌, ◌≡◌, ◌↔◌, refl, sym, ap, subst, ◌∙◌, true, [], ◌∷◌, ◌++◌, Bytes, bytes_eq,
  bytes_eq_iff, some, take, drop, ok, ok_inj, guard-ok, map_err-ok, ok_or-ok, >>=-eq-ok,
}
use polylayer_tee.External.{External}
use polylayer_tee.Api.{bad_request, internal}
use polylayer_tee.Solana.{decode_pubkey}
use polylayer_tee.Derive.{
  DerivedAccount, derive_user_evm_account, derive_user_private_key, evm_address_from_verifying_key,
}
use polylayer_tee.Permits.{
  Erc2612PermitSplitSig, bad_key, owner_mismatch, sign, hl_bridge2_arbitrum_address, permit_digest,
  sign_usdc_permit_arbitrum,
}
use polylayer_tee.Permits.Route.{PermitReq, PermitResponse, permit_answer, sign_bridge_permit}

module _ (x : External) where
  abbrev pub address_of : Bytes → Bytes
  address_of key = evm_address_from_verifying_key x (x.verifying_key key)

  -- A derived account has the address of its key, which is a signing key.
  derive_user_evm_account-ok :
      (seed pubkey : Bytes) (account : DerivedAccount)
      → derive_user_evm_account x seed pubkey ≡ ok account
      → (derive_user_private_key x seed pubkey ≡ ok account.private_key)
        × (x.signing_key_ok account.private_key ≡ true)
        × (account.address ≡ address_of account.private_key)
  unfolding derive_user_evm_account
  derive_user_evm_account-ok seed pubkey account h =
      let (key, k, h1) = >>=-eq-ok (derive_user_private_key x seed pubkey) _ h in
      let (key_ok, h2) = guard-ok (x.signing_key_ok key) _ _ h1 in
      subst
        (λ a.
          (derive_user_private_key x seed pubkey ≡ ok a.private_key)
          × (x.signing_key_ok a.private_key ≡ true)
          × (a.address ≡ address_of a.private_key))
        (ok_inj h2) (k, key_ok, refl)

  -- The owner of a permit that a key signs is its address.
  pub record SignedPermit (key owner spender : Bytes) (value nonce deadline : ℕ)
      (result : Erc2612PermitSplitSig) : Type 0 where
    pub key_ok : x.signing_key_ok key ≡ true
    pub own : address_of key ≡ owner
    pub r_s : Bytes
    pub recovery_id : ℕ
    pub signs :
        x.sign_prehash_recoverable key (permit_digest x owner spender value nonce deadline)
        ≡ some (r_s, recovery_id)
    pub result_is : result ≡ record {
      r = take 32 r_s;
      s = drop 32 r_s;
      v = 27 + recovery_id;
      signature = r_s ++ (27 + recovery_id) ∷ [];
    }

  to_SignedPermit :
      (key owner spender : Bytes) (value nonce deadline : ℕ) (result : Erc2612PermitSplitSig)
      → sign_usdc_permit_arbitrum x key owner spender value nonce deadline ≡ ok result
      → SignedPermit key owner spender value nonce deadline result
  unfolding sign_usdc_permit_arbitrum
  to_SignedPermit key owner spender value nonce deadline result h =
      let (key_ok, h1) = guard-ok (x.signing_key_ok key) bad_key _ h in
      let (own, h2) =
        guard-ok (bytes_eq (address_of key) owner) (owner_mismatch owner (address_of key)) _ h1 in
      let ((r_s, recovery_id), signs, h3) =
        ok_or-ok
          (x.sign_prehash_recoverable key (permit_digest x owner spender value nonce deadline)) sign
          _ h2 in
      record {
        key_ok = key_ok;
        own = (bytes_eq_iff (address_of key) owner).0 own;
        r_s = r_s;
        recovery_id = recovery_id;
        signs = signs;
        result_is = ok_inj (sym h3);
      }

  from_SignedPermit :
      (key owner spender : Bytes) (value nonce deadline : ℕ) (result : Erc2612PermitSplitSig)
      → SignedPermit key owner spender value nonce deadline result
      → sign_usdc_permit_arbitrum x key owner spender value nonce deadline ≡ ok result
  unfolding sign_usdc_permit_arbitrum
  from_SignedPermit key owner spender value nonce deadline result b =
      rw (b.key_ok, (bytes_eq_iff (address_of key) owner).1 b.own, b.signs, b.result_is)

  pub record Permitted (seed : Bytes) (req : PermitReq) (res : PermitResponse) : Type 0 where
    pub pubkey : Bytes
    pub pubkey_ok : decode_pubkey x req.solana_pubkey ≡ ok pubkey
    pub key : Bytes
    pub key_is : derive_user_private_key x seed pubkey ≡ ok key
    pub value : ℕ
    pub value_is : x.parse_u256 req.value ≡ some value
    pub nonce : ℕ
    pub nonce_is : x.parse_u256 req.nonce ≡ some nonce
    pub deadline : ℕ
    pub deadline_is : x.parse_u256 req.deadline ≡ some deadline
    pub result : Erc2612PermitSplitSig
    pub signed :
        SignedPermit key (address_of key) hl_bridge2_arbitrum_address value nonce deadline result
    pub answer : res ≡ record {
      r = text "0x" ++ x.hex_encode result.r;
      s = text "0x" ++ x.hex_encode result.s;
      v = result.v;
      signature = text "0x" ++ x.hex_encode result.signature;
      evm_address = text "0x" ++ x.hex_encode (address_of key);
      spender = text "0x" ++ x.hex_encode hl_bridge2_arbitrum_address;
    }

  from_Permitted :
      (seed : Bytes) (req : PermitReq) (res : PermitResponse)
      → Permitted seed req res
      → sign_bridge_permit x seed req ≡ ok res
  unfolding sign_bridge_permit permit_answer derive_user_evm_account
  from_Permitted seed req res b = rw (
    b.pubkey_ok,
    b.key_is,
    b.signed.key_ok,
    b.value_is,
    b.nonce_is,
    b.deadline_is,
    from_SignedPermit b.key (address_of b.key) hl_bridge2_arbitrum_address b.value b.nonce
        b.deadline b.result b.signed,
    b.answer,
  )

  to_Permitted :
      (seed : Bytes) (req : PermitReq) (res : PermitResponse)
      → sign_bridge_permit x seed req ≡ ok res
      → Permitted seed req res
  unfolding sign_bridge_permit permit_answer
  to_Permitted seed req res h =
      let (pubkey, p, h1) =
        map_err-ok (λ e. bad_request "invalid_solana_pubkey") (decode_pubkey x req.solana_pubkey) _
          h in
      let (account, d, h2) =
        map_err-ok (λ e. internal) (derive_user_evm_account x seed pubkey) _ h1 in
      let (value, v, h3) = ok_or-ok (x.parse_u256 req.value) (bad_request "invalid_value") _ h2 in
      let (nonce, n, h4) = ok_or-ok (x.parse_u256 req.nonce) (bad_request "invalid_nonce") _ h3 in
      let (deadline, t, h5) =
        ok_or-ok (x.parse_u256 req.deadline) (bad_request "invalid_deadline") _ h4 in
      let (result, s, h6) =
        map_err-ok (λ e. bad_request "permit_sign")
          (sign_usdc_permit_arbitrum x account.private_key account.address
            hl_bridge2_arbitrum_address value nonce deadline)
          _ h5 in
      let (k, key_ok, own) = derive_user_evm_account-ok seed pubkey account d in
      let signed =
        to_SignedPermit account.private_key account.address hl_bridge2_arbitrum_address value nonce
          deadline result s in
      record {
        pubkey = pubkey;
        pubkey_ok = p;
        key = account.private_key;
        key_is = k;
        value = value;
        value_is = v;
        nonce = nonce;
        nonce_is = n;
        deadline = deadline;
        deadline_is = t;
        result = result;
        signed =
            subst
              (λ owner.
                SignedPermit account.private_key owner hl_bridge2_arbitrum_address value nonce
                  deadline result)
              own signed;
        answer = ok_inj (sym h6) ∙ ap (permit_answer x result) own;
      }

  -- The route answers a request with a response exactly when the request's key decodes, a private
  -- key is derived for it that is a signing key and signs the hash of the permit, whose owner is
  -- that key's address and whose spender is the bridge, for the value, nonce and deadline that the
  -- request's texts read as, and the response shows in hex, behind 0x, that signature with 27 plus
  -- the recovery id behind it, its first half as `r`, what follows as `s`, and the two addresses,
  -- and has 27 plus the recovery id as `v`.
  pub sign_bridge_permit_iff :
      (seed : Bytes) (req : PermitReq) (res : PermitResponse)
      → (sign_bridge_permit x seed req ≡ ok res) ↔ Permitted seed req res
  sign_bridge_permit_iff seed req res = (to_Permitted seed req res, from_Permitted seed req res)
