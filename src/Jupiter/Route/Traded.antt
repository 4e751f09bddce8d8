-- ===== src/Jupiter/Route/Traded.antt =====
-- What stands behind a signed Jupiter trade.
use polylayer_tee.Prelude.{
  ℕ, ◌+◌, ◌≡◌, refl, sym, ap, subst, ◌∙◌, true, Bytes, bytes_eq, bytes_eq_iff, text, ◌==◌, ==_iff,
  Option, some, none, Outcome, ok, err, panic, ok_or-ok, map_err-ok, guard-ok, >>=-eq-ok, expect-ok,
}
use polylayer_tee.External.{External}
use polylayer_tee.Json.{get_str}
use polylayer_tee.Api.{ApiError, AppState, internal, bad_request, continue}
use polylayer_tee.Store.{Rows, Codec}
use polylayer_tee.Solana.{decode_pubkey}
use polylayer_tee.Intents.Verified.{Verified, verify_intent_signature_iff, expected_pubkey-own}
use polylayer_tee.Jupiter.Bounds.{JupiterSession}
use polylayer_tee.Jupiter.Session.{debit}
use polylayer_tee.Delegate.{
  SolanaDelegate, hkdf, derive_delegate_with_salt, derive_jupiter_delegate, public_key_bs58,
}
use polylayer_tee.Jupiter.Decode.{DecodedJupiterIx, increase, decrease, custody_to_asset}
use polylayer_tee.Jupiter.Sign.{
  VersionedTransaction, Wire, SignedJupiterTx, sign_versioned_transaction,
}
use polylayer_tee.Jupiter.Scan.{scan}
use polylayer_tee.Jupiter.Scan.Only.{OnlyOne, scan-OnlyOne}
use polylayer_tee.Jupiter.Route.{
  TradeReq, TradeResponse, Trade, trade_args, custody_of, trade_size_usd, find_trade, match_asset,
  check_trade, sign_trade, handler,
}

-- The size and the custody of a trade, for either kind of instruction.
abbrev pub HasSize : DecodedJupiterIx → ℕ → Type 0
HasSize (increase args accounts) size = size ≡ args.size_usd_delta
HasSize (decrease args accounts) size = size ≡ args.size_usd_delta

abbrev pub HasCustody : DecodedJupiterIx → Bytes → Type 0
HasCustody (increase args accounts) custody = custody ≡ accounts.custody
HasCustody (decrease args accounts) custody = custody ≡ accounts.custody

trade_size_usd-HasSize : (d : DecodedJupiterIx) → HasSize d (trade_size_usd d)
unfolding trade_size_usd
trade_size_usd-HasSize (increase args accounts) = refl
trade_size_usd-HasSize (decrease args accounts) = refl

custody_of-HasCustody : (d : DecodedJupiterIx) → HasCustody d (custody_of d)
unfolding custody_of
custody_of-HasCustody (increase args accounts) = refl
custody_of-HasCustody (decrease args accounts) = refl

module _ (x : External) (wire : Wire) (req : TradeReq) where
  -- The transaction has exactly one perpetuals instruction.
  pub record Found (d : DecodedJupiterIx) : Type 0 where
    pub raw : Bytes
    pub raw_is : wire.b64_decode req.unsigned_tx_b64 ≡ some raw
    pub tx : VersionedTransaction
    pub tx_is : wire.deserialize raw ≡ some tx
    pub only : OnlyOne x tx.message.static_account_keys tx.message.instructions d

  -- The intent is signed by the key that the trade is for, and names the asset of the custody of
  -- the one perpetuals instruction.
  pub record Checked (clock : Option ℕ) (t : Trade) : Type 0 where
    pub clock_is : clock ≡ some t.now
    pub verified : Verified x (record {
      intent = req.intent;
      signature_bs58 = req.intent_sig;
      expected_pubkey_bs58 = none;
      enforce_expiry = true;
      now_unix_secs = t.now;
    })
    pub found : Found t.decoded
    pub asset_is : get_str req.intent (text "asset") ≡ some t.asset_label
    pub custody : Bytes
    pub custody_is : HasCustody t.decoded custody
    pub of_asset : custody_to_asset x {E = ApiError} custody ≡ ok (some t.asset_label)
    pub named : t.solana_pubkey_bs58 ≡ verified.pubkey
    pub key : t.solana_pubkey ≡ verified.key

  ok_inj : {E A : Type 0} {t u : A} → ◌≡◌ {A = Outcome E A} (ok t) (ok u) → t ≡ u
  ok_inj h = cc (h)

  some_inj : {A : Type 0} {t u : A} → ◌≡◌ {A = Option A} (some t) (some u) → t ≡ u
  some_inj h = cc (h)

  find_trade-Found : (d : DecodedJupiterIx) → find_trade x wire req.unsigned_tx_b64 ≡ ok d → Found d
  unfolding find_trade
  find_trade-Found d h =
      let (raw, b, h1) = ok_or-ok (wire.b64_decode req.unsigned_tx_b64) _ _ h in
      let (tx, e, h2) = ok_or-ok (wire.deserialize raw) _ _ h1 in
      let keys = tx.message.static_account_keys in
      let ixs = tx.message.instructions in
      let ((count, match), sc, h3) = >>=-eq-ok (scan x keys ixs 0 none) _ h2 in
      let (one, h4) = guard-ok (count == 1) _ _ h3 in
      let (decoded, de, h5) = expect-ok match _ h4 in
      let one_eq : count ≡ 0 + 1 = (==_iff count 1).0 one in
      let (d', found, only) =
        scan-OnlyOne x keys ixs 0 none match (sc ∙ ap (λ k. ok (k, match)) one_eq) in
      let same : d' ≡ d = some_inj (sym found ∙ de) ∙ ok_inj h5 in
      record {
        raw = raw;
        raw_is = b;
        tx = tx;
        tx_is = e;
        only = subst (OnlyOne x keys ixs) same only;
      }

  match_asset-ok :
      (d : DecodedJupiterIx) (intended label : Bytes)
      → match_asset x wire d intended ≡ ok label
      → (intended ≡ label) × (custody_to_asset x {E = ApiError} (custody_of d) ≡ ok (some label))
  unfolding match_asset
  match_asset-ok d intended label h =
      let (asset, c, h1) = >>=-eq-ok (custody_to_asset x {E = ApiError} (custody_of d)) _ h in
      let (own, l, h2) = ok_or-ok asset _ _ h1 in
      let (same, h3) = guard-ok (bytes_eq own intended) _ _ h2 in
      (sym ((bytes_eq_iff own intended).0 same) ∙ ok_inj h3, c ∙ ap ok (l ∙ ap some (ok_inj h3)))

  check_trade-Checked :
      (clock : Option ℕ) (t : Trade) → check_trade x wire clock req ≡ ok t → Checked clock t
  unfolding check_trade trade_args
  check_trade-Checked clock t h =
      let (now, n, h1) = ok_or-ok clock internal _ h in
      let (u, v, h2) = map_err-ok _ _ _ h1 in
      let verified = (verify_intent_signature_iff x (trade_args req now)).0 v in
      let (intended, a, h3) = ok_or-ok (get_str req.intent (text "asset")) _ _ h2 in
      let (decoded, f, h4) = >>=-eq-ok (find_trade x wire req.unsigned_tx_b64) _ h3 in
      let (label, l, h5) = >>=-eq-ok (match_asset x wire decoded intended) _ h4 in
      let (own, o, h6) = ok_or-ok (get_str req.intent (text "solana_pubkey")) _ _ h5 in
      let (pk, p, h7) = map_err-ok _ (decode_pubkey x own) _ h6 in
      let (asset, custody) = match_asset-ok decoded intended label l in
      let named : own ≡ verified.pubkey =
        expected_pubkey-own (trade_args req now) own verified.pubkey refl o verified.expected in
      subst (Checked clock) (ok_inj h7) (record {
        clock_is = n;
        verified = verified;
        found = find_trade-Found decoded f;
        asset_is = a ∙ ap some asset;
        custody = custody_of decoded;
        custody_is = custody_of-HasCustody decoded;
        of_asset = custody;
        named = named;
        key = ok_inj (sym p ∙ ap (decode_pubkey x) named ∙ verified.key_ok);
      })

  -- The transaction of the request signed with the user's delegate key.
  pub record SignedBy (seed : Bytes) (t : Trade) (r : TradeResponse) : Type 0 where
    pub private_key : Bytes
    pub derived :
        x.hkdf_sha256 (text "polylayer-jupiter-delegate-v1") seed t.solana_pubkey 32
        ≡ some private_key
    pub signed : SignedJupiterTx
    pub signs : sign_versioned_transaction x wire req.unsigned_tx_b64 private_key ≡ ok signed
    pub answer : r ≡ record {
      signed_tx_b64 = signed.signed_tx_b64;
      signature_index = signed.signature_index;
      delegate_pubkey_bs58 = x.bs58_encode (x.ed25519_public private_key);
      decoded_asset = t.asset_label;
    }

  sign_trade-SignedBy :
      (app : AppState) (t : Trade) (r : TradeResponse)
      → sign_trade x wire app req t ≡ ok r
      → SignedBy app.seed t r
  unfolding sign_trade derive_jupiter_delegate derive_delegate_with_salt public_key_bs58
  sign_trade-SignedBy app t r h =
      let (d, derives, h1) =
        map_err-ok (λ e. internal) (derive_jupiter_delegate x app.seed t.solana_pubkey) _ h in
      let (key, k, made) =
        ok_or-ok (x.hkdf_sha256 (text "polylayer-jupiter-delegate-v1") app.seed t.solana_pubkey 32)
          hkdf _ derives in
      let (signed, s, h2) =
        map_err-ok (λ e. bad_request "sign")
          (sign_versioned_transaction x wire req.unsigned_tx_b64 d.private_key) _ h1 in
      let same : record { private_key = key; public_key = x.ed25519_public key } ≡ d =
        ok_inj made in
      record {
        private_key = key;
        derived = k;
        signed = signed;
        signs =
            ap
              (λ (e : SolanaDelegate).
                sign_versioned_transaction x wire req.unsigned_tx_b64 e.private_key)
              same
            ∙ s;
        answer =
            sym (ok_inj h2)
            ∙ ap
                (λ (e : SolanaDelegate). record {
                  signed_tx_b64 = signed.signed_tx_b64;
                  signature_index = signed.signature_index;
                  delegate_pubkey_bs58 = x.bs58_encode e.public_key;
                  decoded_asset = t.asset_label;
                })
                (sym same);
      }

  module _ (rows : Rows) (json : Codec JupiterSession) (app : AppState) where
    -- The trade was debited from the user's session before it was signed.
    pub record Traded (clock : Option ℕ) (s s' : rows.State) (r : TradeResponse) : Type 0 where
      pub trade : Trade
      pub size : ℕ
      pub size_is : HasSize trade.decoded size
      pub checked : Checked clock trade
      pub debits :
          debit x rows json app trade.solana_pubkey_bs58 trade.asset_label size trade.now s
          ≡ (ok tt, s')
      pub signs : SignedBy app.seed trade r

    -- Whenever the Jupiter route answers with a signed trade, the intent verifies at the time read
    -- from the clock, with its expiry enforced and without an override, the transaction of the
    -- request has exactly one perpetuals instruction that decodes, the custody among its accounts
    -- is that of the asset that the intent names, the trade is for the public key that signed the
    -- intent, the debit of the size delta of that instruction, an increase or a decrease, from
    -- that key's session, which a user without a session passes, succeeded and left the state that
    -- the route leaves, and the answer has that transaction signed with the key that HKDF derives
    -- from the seed and that public key under the salt of the Jupiter delegates, and the public
    -- key of it.
    pub handler-Traded :
        (clock : Option ℕ) (s s' : rows.State) (r : TradeResponse)
        → handler x wire rows json app clock req s ≡ (ok r, s')
        → Traded clock s s' r
    unfolding handler
    handler-Traded clock s s' r = by_check (check_trade x wire clock req) refl
      where
        by_debit :
            (t : Trade)
            → check_trade x wire clock req ≡ ok t
            → (m : Outcome ApiError (Unit {0})) (s'' : rows.State)
            → debit x rows json app t.solana_pubkey_bs58 t.asset_label
                (trade_size_usd t.decoded)
                t.now
                s
              ≡ (m, s'')
            → continue m (λ _ s. (sign_trade x wire app req t, s)) s'' ≡ (ok r, s')
            → Traded clock s s' r
        by_debit t e panic s'' d h = cc (h)
        by_debit t e (err y) s'' d h = cc (h)
        by_debit t e (ok u) s'' d h = record {
          trade = t;
          size = trade_size_usd t.decoded;
          size_is = trade_size_usd-HasSize t.decoded;
          checked = check_trade-Checked clock t e;
          debits = d ∙ ap (λ z. (ok tt, z)) (ap (λ q. q.1) h);
          signs = sign_trade-SignedBy app t r (ap (λ q. q.0) h);
        }

        by_check :
            (c : Outcome ApiError Trade)
            → check_trade x wire clock req ≡ c
            → handler x wire rows json app clock req s ≡ (ok r, s')
            → Traded clock s s' r
        by_check panic e h = let h1 = rw e at h in cc (h1)
        by_check (err y) e h = let h1 = rw e at h in cc (h1)
        by_check (ok t) e h =
            let d =
              debit x rows json app t.solana_pubkey_bs58 t.asset_label (trade_size_usd t.decoded)
                t.now s in
            by_debit t e d.0 d.1 refl (rw e at h)
