-- ===== src/Polymarket/Batch/Signs.antt =====
-- When the route signs a batch, and over what.
use polylayer_tee.Prelude.{
  ◌+◌, map, List, [], ◌∷◌, ◌++◌, refl, ap, ◌∙◌, not, ltb, length, ℕ, ◌≡◌, ◌↔◌, refl, sym, true,
  ◌==◌, ◌⊎◌, [], Bytes, bytes_eq, bytes_eq_iff, text, some, ok, ok_inj, guard-ok, map_err-ok,
  ok_or-ok, >>=-eq-ok,
}
use polylayer_tee.External.{External}
use polylayer_tee.Api.{bad_request, internal, not_implemented}
use polylayer_tee.Solana.{decode_pubkey}
use polylayer_tee.Derive.{DerivedAccount, derive_user_evm_account, evm_address_from_verifying_key}
use polylayer_tee.Polymarket.{derive_deposit_wallet_address, pack_eth_signature}
use polylayer_tee.Polymarket.Route.{parse_u256_field}
use polylayer_tee.Polymarket.Batch.{
  DepositWalletCall, DepositWalletBatchSignature, bootstrap_approval_calls, approvals, batch_digest,
  sign, bad_key, empty_batch, batch_too_long, SignBatchArgs, sign_deposit_wallet_batch,
}
use polylayer_tee.Polymarket.Batch.Route.{
  BatchReq, BatchResponse, is_bootstrap, parse_supplied_calls, check_supplied, batch_answer,
  calls_json, hex_0x, CallInput, sign_batch,
}
use polylayer_tee.Polymarket.Batch.Supplied.{is_bootstrap_iff, check_supplied_iff}

abbrev bootstrap_args : Bytes → Bytes → ℕ → ℕ → SignBatchArgs
bootstrap_args key wallet nonce deadline = record {
  priv_key = key;
  wallet_address = wallet;
  nonce = nonce;
  deadline = deadline;
  calls = bootstrap_approval_calls;
}

module _ (x : External) where
  -- The key signs the batch of approvals of a wallet.
  pub record SignedBatch (key wallet : Bytes) (nonce deadline : ℕ)
      (result : DepositWalletBatchSignature) : Type 0 where
    pub key_ok : x.signing_key_ok key ≡ true
    pub sig : Bytes
    pub recovery_id : ℕ
    pub signs :
        x.sign_prehash_recoverable key
          (batch_digest x wallet nonce deadline bootstrap_approval_calls)
        ≡ some (sig, recovery_id)
    pub result_is : result ≡ record {
      signature = sig ++ (27 + recovery_id) ∷ [];
      evm_address = evm_address_from_verifying_key x (x.verifying_key key);
      wallet_address = wallet;
    }

  length-bootstrap : length bootstrap_approval_calls ≡ 6
  unfolding bootstrap_approval_calls approvals
  length-bootstrap = refl

  to_SignedBatch :
      (key wallet : Bytes) (nonce deadline : ℕ) (result : DepositWalletBatchSignature)
      → sign_deposit_wallet_batch x (bootstrap_args key wallet nonce deadline) ≡ ok result
      → SignedBatch key wallet nonce deadline result
  unfolding sign_deposit_wallet_batch pack_eth_signature
  to_SignedBatch key wallet nonce deadline result h =
      let (few, h0) = guard-ok (not (length bootstrap_approval_calls == 0)) empty_batch _ h in
      let (many, h1) =
        guard-ok (not (ltb 24 (length bootstrap_approval_calls)))
          (batch_too_long (length bootstrap_approval_calls)) _ h0 in
      let (key_ok, h2) = guard-ok (x.signing_key_ok key) bad_key _ h1 in
      let ((sig, id), signs, h3) =
        ok_or-ok
          (x.sign_prehash_recoverable key
            (batch_digest x wallet nonce deadline bootstrap_approval_calls))
          sign _ h2 in
      record {
        key_ok = key_ok;
        sig = sig;
        recovery_id = id;
        signs = signs;
        result_is = ok_inj (sym h3);
      }

  from_SignedBatch :
      (key wallet : Bytes) (nonce deadline : ℕ) (result : DepositWalletBatchSignature)
      → SignedBatch key wallet nonce deadline result
      → sign_deposit_wallet_batch x (bootstrap_args key wallet nonce deadline) ≡ ok result
  unfolding sign_deposit_wallet_batch pack_eth_signature
  from_SignedBatch key wallet nonce deadline result b =
      rw (length-bootstrap, b.key_ok, b.signs, b.result_is)

module _ (x : External) (seed : Bytes) where
  -- How the answer shows a call.
  abbrev pub shown : DepositWalletCall → CallInput
  shown c = record {
    target = text "0x" ++ x.hex_encode c.target;
    value = x.u256_to_string c.value;
    data_text = text "0x" ++ x.hex_encode c.data_bytes;
  }

  -- How the answer shows a signature.
  abbrev pub shown_answer :
      BatchReq → Bytes → List CallInput → DepositWalletBatchSignature → BatchResponse
  shown_answer req wallet calls result = record {
    signature = text "0x" ++ x.hex_encode result.signature;
    evm_address = text "0x" ++ x.hex_encode result.evm_address;
    deposit_wallet_address = text "0x" ++ x.hex_encode result.wallet_address;
    nonce = req.nonce;
    deadline = req.deadline;
    calls = calls;
    domain = record {
      name = text "DepositWallet";
      version = text "1";
      chain_id = 137;
      verifying_contract = text "0x" ++ x.hex_encode wallet;
    };
  }

  calls_json-map : (cs : List DepositWalletCall) → calls_json x cs ≡ map shown cs
  unfolding calls_json hex_0x
  calls_json-map [] = refl
  calls_json-map (c ∷ cs) = ap (λ l. shown c ∷ l) (calls_json-map cs)

  pub record Bootstrapped (req : BatchReq) (res : BatchResponse) : Type 0 where
    pub purpose : req.purpose ≡ some (text "bootstrap_approvals")
    pub user : Bytes
    pub named : req.solana_pubkey ≡ some user
    pub pubkey : Bytes
    pub pubkey_ok : decode_pubkey x user ≡ ok pubkey
    pub account : DerivedAccount
    pub derived : derive_user_evm_account x seed pubkey ≡ ok account
    pub wallet : Bytes
    pub wallet_is : x.parse_address req.deposit_wallet ≡ some wallet
    pub own_wallet : wallet ≡ derive_deposit_wallet_address x account.address
    pub nonce : ℕ
    pub nonce_is : x.parse_u256 req.nonce ≡ some nonce
    pub deadline : ℕ
    pub deadline_is : x.parse_u256 req.deadline ≡ some deadline
    pub supplied :
        (req.calls ≡ []) ⊎ (parse_supplied_calls x req.calls ≡ ok bootstrap_approval_calls)
    pub result : DepositWalletBatchSignature
    pub signed : SignedBatch x account.private_key wallet nonce deadline result
    pub answer : res ≡ shown_answer req wallet (map shown bootstrap_approval_calls) result

  answer_shown :
      (req : BatchReq) (wallet : Bytes) (result : DepositWalletBatchSignature)
      → batch_answer x req wallet bootstrap_approval_calls result
        ≡ shown_answer req wallet (map shown bootstrap_approval_calls) result
  unfolding batch_answer hex_0x
  answer_shown req wallet result =
      ap (λ cs. shown_answer req wallet cs result) (calls_json-map bootstrap_approval_calls)

  to_Bootstrapped :
      (req : BatchReq) (res : BatchResponse) → sign_batch x seed req ≡ ok res → Bootstrapped req res
  unfolding sign_batch parse_u256_field
  to_Bootstrapped req res h =
      let (purpose, h1) =
        guard-ok (is_bootstrap req.purpose) (not_implemented "wallet_batch_purpose") _ h in
      let (user, named, h2) =
        ok_or-ok req.solana_pubkey (bad_request "missing_solana_pubkey") _ h1 in
      let (pubkey, p, h3) =
        map_err-ok (λ e. bad_request "invalid_solana_pubkey") (decode_pubkey x user) _ h2 in
      let (account, d, h4) =
        map_err-ok (λ e. internal) (derive_user_evm_account x seed pubkey) _ h3 in
      let (wallet, w, h5) =
        ok_or-ok (x.parse_address req.deposit_wallet) (bad_request "invalid_deposit_wallet") _ h4 in
      let expected = derive_deposit_wallet_address x account.address in
      let (own, h6) =
        guard-ok (bytes_eq wallet expected) (bad_request "deposit_wallet_mismatch") _ h5 in
      let (nonce, n, h7) = ok_or-ok (x.parse_u256 req.nonce) (bad_request "invalid_u256") _ h6 in
      let (deadline, t, h8) =
        ok_or-ok (x.parse_u256 req.deadline) (bad_request "invalid_u256") _ h7 in
      let (u, c, h9) = >>=-eq-ok (check_supplied x req.calls bootstrap_approval_calls) _ h8 in
      let (result, g, h10) =
        map_err-ok (λ e. bad_request "batch_sign")
          (sign_deposit_wallet_batch x (bootstrap_args account.private_key wallet nonce deadline)) _
          h9 in
      record {
        purpose = (is_bootstrap_iff req.purpose).0 purpose;
        user = user;
        named = named;
        pubkey = pubkey;
        pubkey_ok = p;
        account = account;
        derived = d;
        wallet = wallet;
        wallet_is = w;
        own_wallet = (bytes_eq_iff wallet expected).0 own;
        nonce = nonce;
        nonce_is = n;
        deadline = deadline;
        deadline_is = t;
        supplied = (check_supplied_iff x req.calls bootstrap_approval_calls).0 c;
        result = result;
        signed = to_SignedBatch x account.private_key wallet nonce deadline result g;
        answer = ok_inj (sym h10) ∙ answer_shown req wallet result;
      }

  from_Bootstrapped :
      (req : BatchReq) (res : BatchResponse) → Bootstrapped req res → sign_batch x seed req ≡ ok res
  unfolding sign_batch parse_u256_field batch_answer hex_0x
  from_Bootstrapped req res b = rw (
    (is_bootstrap_iff req.purpose).1 b.purpose,
    b.named,
    b.pubkey_ok,
    b.derived,
    b.wallet_is,
    (bytes_eq_iff b.wallet (derive_deposit_wallet_address x b.account.address)).1 b.own_wallet,
    b.nonce_is,
    b.deadline_is,
    (check_supplied_iff x req.calls bootstrap_approval_calls).1 b.supplied,
    from_SignedBatch x b.account.private_key b.wallet b.nonce b.deadline b.result b.signed,
    calls_json-map bootstrap_approval_calls,
    b.answer,
  )

  -- The route answers a request with a response exactly when the request's purpose is
  -- bootstrap_approvals, it names a user whose key decodes and derives an account, its wallet
  -- reads as the deposit wallet of that account, its nonce and deadline read as numbers, it
  -- repeats no calls or exactly the calls of the canonical batch, the account's key is one and
  -- signs the hash of the canonical batch for that wallet, nonce and deadline, and the response
  -- shows in hex, behind 0x, that signature, the two addresses and the calls of that batch, with
  -- the request's nonce and deadline and the wallet's domain on chain 137.
  pub sign_batch_iff :
      (req : BatchReq) (res : BatchResponse)
      → (sign_batch x seed req ≡ ok res) ↔ Bootstrapped req res
  sign_batch_iff req res = (to_Bootstrapped req res, from_Bootstrapped req res)
