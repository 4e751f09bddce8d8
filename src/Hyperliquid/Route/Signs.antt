-- ===== src/Hyperliquid/Route/Signs.antt =====
-- When the route signs an order of the exchange, and over what.
use polylayer_tee.Prelude.{
  arith, bytes_eq_iff, text, ℕ, ◌+◌, ◌≡◌, ◌↔◌, sym, true, [], ◌∷◌, ◌++◌, Bytes, some, take, drop,
  ok, ok_inj, guard-ok, map_err-ok, ok_or-ok,
}
use polylayer_tee.External.{External}
use polylayer_tee.Api.{bad_request, internal}
use polylayer_tee.Solana.{decode_pubkey}
use polylayer_tee.Derive.{DerivedAccount, derive_user_evm_account, evm_address_from_verifying_key}
use polylayer_tee.Hyperliquid.{
  HyperliquidNetwork, mainnet, testnet, HyperliquidSignature, bad_key, sign, l1_digest, sign_digest,
  sign_l1_action,
}
use polylayer_tee.Hyperliquid.Route.{
  HlOrderReq, HlOrderResponse, network_of, hl_order_answer, sign_hl_order,
}

-- The name of a network.
abbrev pub Names : Bytes → HyperliquidNetwork → Type 0
Names name mainnet = name ≡ text "mainnet"
Names name testnet = name ≡ text "testnet"

network_of_iff :
    (name : Bytes) (network : HyperliquidNetwork)
    → (network_of name ≡ some network) ↔ Names name network
unfolding network_of
network_of_iff name mainnet =
    ground (arith, bytes_eq_iff name (text "mainnet"), bytes_eq_iff name (text "testnet"))
network_of_iff name testnet =
    ground (arith, bytes_eq_iff name (text "mainnet"), bytes_eq_iff name (text "testnet"))

module _ (x : External) where
  -- The key signs an L1 action.
  pub record SignedAction (key : Bytes) (network : HyperliquidNetwork) (connection_id : Bytes)
      (result : HyperliquidSignature) : Type 0 where
    pub key_ok : x.signing_key_ok key ≡ true
    pub r_s : Bytes
    pub recovery_id : ℕ
    pub signs :
        x.sign_prehash_recoverable key (l1_digest x network connection_id) ≡ some (r_s, recovery_id)
    pub result_is : result ≡ record {
      signature = r_s ++ (27 + recovery_id) ∷ [];
      evm_address = evm_address_from_verifying_key x (x.verifying_key key);
      r = take 32 r_s;
      s = take 32 (drop 32 r_s);
      v = 27 + recovery_id;
    }

  to_SignedAction :
      (key : Bytes) (network : HyperliquidNetwork) (id : Bytes) (result : HyperliquidSignature)
      → sign_l1_action x key network id ≡ ok result
      → SignedAction key network id result
  unfolding sign_l1_action sign_digest
  to_SignedAction key network id result h =
      let (key_ok, h1) = guard-ok (x.signing_key_ok key) bad_key _ h in
      let ((r_s, recovery_id), signs, h2) =
        ok_or-ok (x.sign_prehash_recoverable key (l1_digest x network id)) sign _ h1 in
      record {
        key_ok = key_ok;
        r_s = r_s;
        recovery_id = recovery_id;
        signs = signs;
        result_is = ok_inj (sym h2);
      }

  from_SignedAction :
      (key : Bytes) (network : HyperliquidNetwork) (id : Bytes) (result : HyperliquidSignature)
      → SignedAction key network id result
      → sign_l1_action x key network id ≡ ok result
  unfolding sign_l1_action sign_digest
  from_SignedAction key network id result b = rw (b.key_ok, b.signs, b.result_is)

  pub record HlSigned (seed : Bytes) (req : HlOrderReq) (res : HlOrderResponse) : Type 0 where
    pub pubkey : Bytes
    pub pubkey_ok : decode_pubkey x req.solana_pubkey ≡ ok pubkey
    pub account : DerivedAccount
    pub derived : derive_user_evm_account x seed pubkey ≡ ok account
    pub network : HyperliquidNetwork
    pub network_is : Names req.network network
    pub connection_id : Bytes
    pub connection_is : x.parse_b256 req.connection_id ≡ some connection_id
    pub result : HyperliquidSignature
    pub signed : SignedAction account.private_key network connection_id result
    pub answer : res ≡ record {
      r = text "0x" ++ x.hex_encode result.r;
      s = text "0x" ++ x.hex_encode result.s;
      v = result.v;
      signature = text "0x" ++ x.hex_encode result.signature;
      evm_address = text "0x" ++ x.hex_encode result.evm_address;
    }

  to_HlSigned :
      (seed : Bytes) (req : HlOrderReq) (res : HlOrderResponse)
      → sign_hl_order x seed req ≡ ok res
      → HlSigned seed req res
  unfolding sign_hl_order hl_order_answer
  to_HlSigned seed req res h =
      let (pubkey, p, h1) =
        map_err-ok (λ e. bad_request "invalid_solana_pubkey") (decode_pubkey x req.solana_pubkey) _
          h in
      let (account, d, h2) =
        map_err-ok (λ e. internal) (derive_user_evm_account x seed pubkey) _ h1 in
      let (network, n, h3) =
        ok_or-ok (network_of req.network) (bad_request "invalid_network") _ h2 in
      let (id, c, h4) =
        ok_or-ok (x.parse_b256 req.connection_id) (bad_request "invalid_connection_id") _ h3 in
      let (result, s, h5) =
        map_err-ok (λ e. bad_request "hl_sign") (sign_l1_action x account.private_key network id) _
          h4 in
      record {
        pubkey = pubkey;
        pubkey_ok = p;
        account = account;
        derived = d;
        network = network;
        network_is = (network_of_iff req.network network).0 n;
        connection_id = id;
        connection_is = c;
        result = result;
        signed = to_SignedAction account.private_key network id result s;
        answer = ok_inj (sym h5);
      }

  from_HlSigned :
      (seed : Bytes) (req : HlOrderReq) (res : HlOrderResponse)
      → HlSigned seed req res
      → sign_hl_order x seed req ≡ ok res
  unfolding sign_hl_order hl_order_answer
  from_HlSigned seed req res b = rw (
    b.pubkey_ok,
    b.derived,
    (network_of_iff req.network b.network).1 b.network_is,
    b.connection_is,
    from_SignedAction b.account.private_key b.network b.connection_id b.result b.signed,
    b.answer,
  )

  -- The route answers a request with a response exactly when the request's key decodes and derives
  -- an account, its network reads `mainnet` or `testnet`, its connection id reads as 32 bytes, the
  -- account's key is one and signs the L1 digest of that network and id, and the response shows in
  -- hex, behind 0x, that signature with 27 plus the recovery id behind it, its first half as `r`,
  -- its second half as `s` and the key's address, and has 27 plus the recovery id as `v`.
  pub sign_hl_order_iff :
      (seed : Bytes) (req : HlOrderReq) (res : HlOrderResponse)
      → (sign_hl_order x seed req ≡ ok res) ↔ HlSigned seed req res
  sign_hl_order_iff seed req res = (to_HlSigned seed req res, from_HlSigned seed req res)
