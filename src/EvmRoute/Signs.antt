-- ===== src/EvmRoute/Signs.antt =====
-- What stands behind a signed EVM transaction.
use polylayer_tee.Prelude.{
  ◌++◌, ℕ, ◌≡◌, refl, sym, ap, subst, Bytes, text, Option, none, true, some, Outcome, ok, >>=-eq-ok,
  map_err-ok, ok_or-ok,
}
use polylayer_tee.External.{External}
use polylayer_tee.Json.{get_str}
use polylayer_tee.Api.{ApiError, AppState, internal}
use polylayer_tee.Solana.{decode_pubkey}
use polylayer_tee.Intents.Verified.{Verified, verify_intent_signature_iff, expected_pubkey-own}
use polylayer_tee.Derive.{DerivedAccount, derive_user_evm_account}
use polylayer_tee.Evm.Tx.{Eip1559Tx, SignedEip1559Tx, sign_eip1559}
use polylayer_tee.EvmRoute.{Req, Response, verify_args, parse_tx, check_action, handler}

module _ (x : External) (app : AppState) where
  -- The intent is signed by the key `pubkey` at the time of the call, the account is derived from
  -- that key, and what is signed with it is the transaction of the request, which the action of the
  -- intent allows.
  pub record Authorized (clock : Option ℕ) (req : Req) (r : Response) : Type 0 where
    pub now : ℕ
    pub clock_is : clock ≡ some now
    pub verified : Verified x (record {
      intent = req.intent;
      signature_bs58 = req.intent_sig;
      expected_pubkey_bs58 = none;
      enforce_expiry = true;
      now_unix_secs = now;
    })
    pub account : DerivedAccount
    pub account_is : derive_user_evm_account x app.seed verified.key ≡ ok account
    pub action : Bytes
    pub action_is : get_str req.intent (text "action") ≡ some action
    pub tx : Eip1559Tx
    pub tx_is : parse_tx x req.unsigned_tx ≡ ok tx
    pub allowed : check_action x action req.intent tx ≡ ok tt
    pub signed : SignedEip1559Tx
    pub signed_is : sign_eip1559 x account.private_key tx ≡ ok signed
    pub raw : r.signed_tx_hex ≡ signed.raw_hex
    pub hash : r.tx_hash ≡ text "0x" ++ x.hex_encode signed.tx_hash
    pub sender : r.evm_address ≡ text "0x" ++ x.hex_encode signed.from

  response_inj : {q r : Response} → ◌≡◌ {A = Outcome ApiError Response} (ok q) (ok r) → q ≡ r
  response_inj h = cc (h)

  -- Whenever the route answers with a signed transaction, the clock was read, the intent of the
  -- request verifies at that time, with its expiry enforced and without an override, the account
  -- is derived from the very key that signed the intent, the transaction of the request parses,
  -- the check of the intent's action passes on it, and what is returned is that transaction signed
  -- with that account's key, with the hash and the sender of what was signed in hex, behind 0x.
  pub handler-Authorized :
      (clock : Option ℕ) (req : Req) (r : Response)
      → handler x app clock req ≡ ok r
      → Authorized clock req r
  unfolding handler verify_args
  handler-Authorized clock req r h =
      let (now, n, h1) = ok_or-ok clock internal _ h in
      let (u, v, h2) = map_err-ok _ _ _ h1 in
      let verified = (verify_intent_signature_iff x (verify_args x req now)).0 v in
      let (action, a, h3) = ok_or-ok (get_str req.intent (text "action")) _ _ h2 in
      let (own, o, h4) = ok_or-ok (get_str req.intent (text "solana_pubkey")) _ _ h3 in
      let (pk, p, h5) = map_err-ok _ (decode_pubkey x own) _ h4 in
      let (account, acc, h6) = map_err-ok _ (derive_user_evm_account x app.seed pk) _ h5 in
      let (tx, t, h7) = >>=-eq-ok (parse_tx x req.unsigned_tx) _ h6 in
      let (u2, c, h8) = >>=-eq-ok (check_action x action req.intent tx) _ h7 in
      let (signed, s, h9) = map_err-ok _ (sign_eip1559 x account.private_key tx) _ h8 in
      let same : own ≡ verified.pubkey =
        expected_pubkey-own (verify_args x req now) own verified.pubkey refl o verified.expected in
      let key : pk ≡ verified.key = cc (p, ap (decode_pubkey x) same, verified.key_ok) in
      record {
        now = now;
        clock_is = n;
        verified = verified;
        account = account;
        account_is = subst (λ k. derive_user_evm_account x app.seed k ≡ ok account) key acc;
        action = action;
        action_is = a;
        tx = tx;
        tx_is = t;
        allowed = c;
        signed = signed;
        signed_is = s;
        raw = sym (ap (λ q. q.signed_tx_hex) (response_inj h9));
        hash = sym (ap (λ q. q.tx_hash) (response_inj h9));
        sender = sym (ap (λ q. q.evm_address) (response_inj h9));
      }
