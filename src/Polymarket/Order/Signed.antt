-- ===== src/Polymarket/Order/Signed.antt =====
-- When an order is signed, and over what.
use polylayer_tee.Prelude.{
  ◌++◌, ◌∷◌, [], ◌+◌, be_bytes, ℕ, ◌≡◌, sym, true, Bytes, length, ◌==◌, ==_iff, bytes_eq,
  bytes_eq_iff, some, ok, ok_inj, guard-ok, guard-true, ok_or-ok, >>=-eq-ok,
}
use polylayer_tee.External.{External}
use polylayer_tee.Derive.{evm_address_from_verifying_key}
use polylayer_tee.Polymarket.{
  sig_type_poly_1271, polymarket_v2_order_type_string, derive_deposit_wallet_address,
  pack_eth_signature,
}
use polylayer_tee.Polymarket.Order.{
  V2Order, SignV2OrderArgs, V2OrderSignature, wrong_sig_type, maker_mismatch, signer_mismatch,
  bad_key, sign, to_u16, hash_struct_order, exchange_domain_separator, message_hash, check_order,
  blob, sign_v2_order,
}

module _ (x : External) where
  -- The wallet of the key that signs.
  abbrev pub wallet_of : Bytes → Bytes
  wallet_of key =
      derive_deposit_wallet_address x (evm_address_from_verifying_key x (x.verifying_key key))

  pub record SignedOrder (args : SignV2OrderArgs) (result : V2OrderSignature) : Type 0 where
    pub key_ok : x.signing_key_ok args.priv_key ≡ true
    pub kind : args.order.signature_type ≡ 3
    pub maker : args.order.maker ≡ wallet_of args.priv_key
    pub signer : args.order.signer ≡ wallet_of args.priv_key
    pub sig : Bytes
    pub recovery_id : ℕ
    pub signs :
        x.sign_prehash_recoverable args.priv_key
          (message_hash x args.order (wallet_of args.priv_key) args.neg_risk)
        ≡ some (sig, recovery_id)
    pub result_is : result ≡ record {
      signature =
          (sig ++ (27 + recovery_id) ∷ [])
          ++ (exchange_domain_separator x args.neg_risk
              ++ (hash_struct_order x args.order
                  ++ (polymarket_v2_order_type_string
                      ++ be_bytes 2 (length polymarket_v2_order_type_string))));
      evm_address = evm_address_from_verifying_key x (x.verifying_key args.priv_key);
      deposit_wallet_address = wallet_of args.priv_key;
      neg_risk = args.neg_risk;
    }

  check_order-ok :
      (order : V2Order) (wallet : Bytes)
      → check_order x order wallet ≡ ok tt
      → (order.signature_type ≡ 3) × (order.maker ≡ wallet) × (order.signer ≡ wallet)
  unfolding check_order
  check_order-ok order wallet h =
      let (kind, h1) =
        guard-ok (order.signature_type == sig_type_poly_1271) (wrong_sig_type order.signature_type)
          _ h in
      let (maker, h2) =
        guard-ok (bytes_eq order.maker wallet) (maker_mismatch order.maker wallet) _ h1 in
      let signer =
        guard-true (bytes_eq order.signer wallet) (signer_mismatch order.signer wallet) h2 in
      (
        (==_iff order.signature_type 3).0 kind,
        (bytes_eq_iff order.maker wallet).0 maker,
        (bytes_eq_iff order.signer wallet).0 signer,
      )

  pub sign_v2_order-SignedOrder :
      (args : SignV2OrderArgs) (result : V2OrderSignature)
      → sign_v2_order x args ≡ ok result
      → SignedOrder args result
  unfolding sign_v2_order to_u16 blob pack_eth_signature
  sign_v2_order-SignedOrder args result h =
      let wallet = wallet_of args.priv_key in
      let (key_ok, h1) = guard-ok (x.signing_key_ok args.priv_key) bad_key _ h in
      let (u, checked, h2) = >>=-eq-ok (check_order x args.order wallet) _ h1 in
      let (kind, maker, signer) = check_order-ok args.order wallet checked in
      let ((sig, id), signs, h3) =
        ok_or-ok
          (x.sign_prehash_recoverable args.priv_key
            (message_hash x args.order wallet args.neg_risk))
          sign _ h2 in
      record {
        key_ok = key_ok;
        kind = kind;
        maker = maker;
        signer = signer;
        sig = sig;
        recovery_id = id;
        signs = signs;
        result_is = ok_inj (sym h3);
      }
