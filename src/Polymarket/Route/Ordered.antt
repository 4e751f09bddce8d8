-- ===== src/Polymarket/Route/Ordered.antt =====
-- What the route signs.
use polylayer_tee.Prelude.{
  refl, some, subst, ok_or-ok, ◌++◌, text, ◌≡◌, sym, Bytes, ok, ok_inj, map_err-ok, >>=-eq-ok,
}
use polylayer_tee.External.{External}
use polylayer_tee.Api.{bad_request, internal}
use polylayer_tee.Solana.{decode_pubkey}
use polylayer_tee.Derive.{DerivedAccount, derive_user_evm_account}
use polylayer_tee.Polymarket.Order.{V2Order, V2OrderSignature, sign_v2_order}
use polylayer_tee.Polymarket.Order.Signed.{SignedOrder, sign_v2_order-SignedOrder}
use polylayer_tee.Polymarket.Route.{
  OrderInput, OrderReq, OrderResponse, parse_addr_field, parse_u256_field, parse_b256_field,
  parse_order, order_answer, sign_order,
}

module _ (x : External) (seed : Bytes) where
  -- Every field of an order is what the text of that field reads as.
  pub record ReadsAs (input : OrderInput) (order : V2Order) : Type 0 where
    pub salt_is : x.parse_u256 input.salt ≡ some order.salt
    pub maker_is : x.parse_address input.maker ≡ some order.maker
    pub signer_is : x.parse_address input.signer ≡ some order.signer
    pub token_is : x.parse_u256 input.token_id ≡ some order.token_id
    pub maker_amount_is : x.parse_u256 input.maker_amount ≡ some order.maker_amount
    pub taker_amount_is : x.parse_u256 input.taker_amount ≡ some order.taker_amount
    pub side_is : order.side ≡ input.side
    pub kind_is : order.signature_type ≡ input.signature_type
    pub timestamp_is : x.parse_u256 input.timestamp ≡ some order.timestamp
    pub metadata_is : x.parse_b256 input.metadata ≡ some order.metadata
    pub builder_is : x.parse_b256 input.builder ≡ some order.builder

  parse_order-ReadsAs :
      (input : OrderInput) (order : V2Order) → parse_order x input ≡ ok order → ReadsAs input order
  unfolding parse_order parse_addr_field parse_u256_field parse_b256_field
  parse_order-ReadsAs input order h =
      let (salt, e1, h1) = ok_or-ok (x.parse_u256 input.salt) (bad_request "invalid_u256") _ h in
      let (maker, e2, h2) =
        ok_or-ok (x.parse_address input.maker) (bad_request "invalid_address") _ h1 in
      let (signer, e3, h3) =
        ok_or-ok (x.parse_address input.signer) (bad_request "invalid_address") _ h2 in
      let (token, e4, h4) =
        ok_or-ok (x.parse_u256 input.token_id) (bad_request "invalid_u256") _ h3 in
      let (made, e5, h5) =
        ok_or-ok (x.parse_u256 input.maker_amount) (bad_request "invalid_u256") _ h4 in
      let (taken, e6, h6) =
        ok_or-ok (x.parse_u256 input.taker_amount) (bad_request "invalid_u256") _ h5 in
      let (time, e7, h7) =
        ok_or-ok (x.parse_u256 input.timestamp) (bad_request "invalid_u256") _ h6 in
      let (metadata, e8, h8) =
        ok_or-ok (x.parse_b256 input.metadata) (bad_request "invalid_b256") _ h7 in
      let (builder, e9, h9) =
        ok_or-ok (x.parse_b256 input.builder) (bad_request "invalid_b256") _ h8 in
      subst (ReadsAs input) (ok_inj h9) (record {
        salt_is = e1;
        maker_is = e2;
        signer_is = e3;
        token_is = e4;
        maker_amount_is = e5;
        taker_amount_is = e6;
        side_is = refl;
        kind_is = refl;
        timestamp_is = e7;
        metadata_is = e8;
        builder_is = e9;
      })

  pub record Ordered (req : OrderReq) (res : OrderResponse) : Type 0 where
    pub pubkey : Bytes
    pub pubkey_ok : decode_pubkey x req.solana_pubkey ≡ ok pubkey
    pub account : DerivedAccount
    pub derived : derive_user_evm_account x seed pubkey ≡ ok account
    pub order : V2Order
    pub reads : ReadsAs req.order order
    pub result : V2OrderSignature
    pub signed :
        SignedOrder x
          (record { priv_key = account.private_key; order = order; neg_risk = req.neg_risk })
          result
    pub answer : res ≡ record {
      signature = text "0x" ++ x.hex_encode result.signature;
      evm_address = text "0x" ++ x.hex_encode result.evm_address;
      deposit_wallet_address = text "0x" ++ x.hex_encode result.deposit_wallet_address;
      neg_risk = result.neg_risk;
    }

  -- An order that the route signs is for a user whose key decodes, is the order the request's
  -- fields read as, has signature type 3, and has as maker and signer the deposit wallet of the
  -- key derived for that user; what is signed is the hash of that order, wallet and exchange, and
  -- the answer shows in hex, behind 0x, the signature with the exchange's domain, the hash of the
  -- order and the type string behind it, the address of that key and the wallet, and it has the
  -- exchange's flag.
  pub sign_order-Ordered :
      (req : OrderReq) (res : OrderResponse) → sign_order x seed req ≡ ok res → Ordered req res
  unfolding sign_order order_answer
  sign_order-Ordered req res h =
      let (pubkey, p, h1) =
        map_err-ok (λ e. bad_request "invalid_solana_pubkey") (decode_pubkey x req.solana_pubkey) _
          h in
      let (account, d, h2) =
        map_err-ok (λ e. internal) (derive_user_evm_account x seed pubkey) _ h1 in
      let (order, o, h3) = >>=-eq-ok (parse_order x req.order) _ h2 in
      let (result, s, h4) =
        map_err-ok (λ e. bad_request "polymarket_sign") (sign_v2_order x _) _ h3 in
      record {
        pubkey = pubkey;
        pubkey_ok = p;
        account = account;
        derived = d;
        order = order;
        reads = parse_order-ReadsAs req.order order o;
        result = result;
        signed = sign_v2_order-SignedOrder x _ result s;
        answer = ok_inj (sym h4);
      }
