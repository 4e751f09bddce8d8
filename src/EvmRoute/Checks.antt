-- ===== src/EvmRoute/Checks.antt =====
-- What the check of an action fixes of a transaction, and what it leaves free.
use polylayer_tee.Prelude.{
  ℕ, ◌≡◌, refl, ◌↔◌, ◌⊎◌, inl, inr, Bool-cases, text, arith, true, Bytes, bytes_eq, bytes_eq_iff,
  bytes_eq_self, Outcome, ok, err, panic, map_err, guard-ok, >>=-eq-ok, map_err-ok,
}
use polylayer_tee.External.{External}
use polylayer_tee.Json.{Value}
use polylayer_tee.Api.{ApiError}
use polylayer_tee.Evm.Tx.{Eip1559Tx}
use polylayer_tee.Evm.Cctp.{DepositForBurnArgs, decode_deposit_for_burn, token_messenger_v2_address}
use polylayer_tee.Evm.Cctp.Accepts.{Allowed, validate_against_intent_iff}
use polylayer_tee.EvmRoute.{
  cctp_destination, cctp_amount_max, validate_cctp_withdraw, validate_pusd_wrap_action,
  validate_ctf_redeem_action, validate_neg_risk_redeem_action, validate_erc20_transfer_action,
  is_withdraw, check_action,
}

module _ (x : External) where
  -- A burn within the bounds that the intent names.
  pub record Withdraws (intent : Value) (tx : Eip1559Tx) : Type 0 where
    pub to_messenger : tx.to ≡ token_messenger_v2_address
    pub args : DepositForBurnArgs
    pub decodes : decode_deposit_for_burn x tx.data_bytes ≡ ok args
    pub destination : Bytes
    pub destination_is : cctp_destination intent ≡ ok destination
    pub amount_max : ℕ
    pub amount_max_is : cctp_amount_max x intent ≡ ok amount_max
    pub allowed : Allowed x args (record {
      source_chain_id = tx.chain_id;
      destination_owner_bs58 = destination;
      intent_amount_max = amount_max;
    })

  map_err-unit :
      {E : Type 0} (f : E → ApiError) (m : Outcome E (Unit {0})) → map_err f m ≡ ok tt → m ≡ ok tt
  map_err-unit f (ok u) h = refl
  map_err-unit f (err e) h = cc
  map_err-unit f panic h = cc

  validate_cctp_withdraw-Withdraws :
      (intent : Value) (tx : Eip1559Tx)
      → validate_cctp_withdraw x intent tx ≡ ok tt
      → Withdraws intent tx
  unfolding validate_cctp_withdraw
  validate_cctp_withdraw-Withdraws intent tx h =
      let (target, h1) = guard-ok (bytes_eq tx.to token_messenger_v2_address) _ _ h in
      let (args, d, h2) = map_err-ok _ (decode_deposit_for_burn x tx.data_bytes) _ h1 in
      let (destination, de, h3) = >>=-eq-ok (cctp_destination intent) _ h2 in
      let (amount_max, am, h4) = >>=-eq-ok (cctp_amount_max x intent) _ h3 in
      record {
        to_messenger = (bytes_eq_iff tx.to token_messenger_v2_address).0 target;
        args = args;
        decodes = d;
        destination = destination;
        destination_is = de;
        amount_max = amount_max;
        amount_max_is = am;
        allowed = (validate_against_intent_iff x args _).0 (map_err-unit _ _ h4);
      }

  Withdraws-validate_cctp_withdraw :
      (intent : Value) (tx : Eip1559Tx)
      → Withdraws intent tx
      → validate_cctp_withdraw x intent tx ≡ ok tt
  unfolding validate_cctp_withdraw
  Withdraws-validate_cctp_withdraw intent tx w = rw (
    w.to_messenger,
    bytes_eq_self token_messenger_v2_address,
    w.decodes,
    w.destination_is,
    w.amount_max_is,
    (validate_against_intent_iff x w.args _).1 w.allowed,
  )

  -- What an intent of an action allows: the three names of a burn, and one name for each other
  -- check.
  pub data Allows (action : Bytes) (intent : Value) (tx : Eip1559Tx) : Type 0 where
    by_withdraw :
        ((action ≡ text "withdraw")
          ⊎ ((action ≡ text "polymarket_to_solana_withdraw")
              ⊎ (action ≡ text "hyperliquid_to_solana_withdraw")))
        → Withdraws intent tx
        → Allows action intent tx
    by_wrap :
        action ≡ text "pusd_wrap"
        → validate_pusd_wrap_action x intent tx ≡ ok tt
        → Allows action intent tx
    by_ctf :
        action ≡ text "ctf_redeem"
        → validate_ctf_redeem_action x intent tx ≡ ok tt
        → Allows action intent tx
    by_neg_risk :
        action ≡ text "neg_risk_redeem"
        → validate_neg_risk_redeem_action x intent tx ≡ ok tt
        → Allows action intent tx
    by_transfer :
        action ≡ text "erc20_transfer"
        → validate_erc20_transfer_action x intent tx ≡ ok tt
        → Allows action intent tx

  is_withdraw-names :
      (action : Bytes)
      → is_withdraw x action ≡ true
      → (action ≡ text "withdraw")
        ⊎ ((action ≡ text "polymarket_to_solana_withdraw")
            ⊎ (action ≡ text "hyperliquid_to_solana_withdraw"))
  unfolding is_withdraw
  is_withdraw-names action h = ground (
    arith,
    bytes_eq_iff action (text "withdraw"),
    bytes_eq_iff action (text "polymarket_to_solana_withdraw"),
    bytes_eq_iff action (text "hyperliquid_to_solana_withdraw"),
  )

  to_Allows :
      (action : Bytes) (intent : Value) (tx : Eip1559Tx)
      → check_action x action intent tx ≡ ok tt
      → Allows action intent tx
  unfolding check_action
  to_Allows action intent tx h = elim (Bool-cases (is_withdraw x action)) [
    | inl w ↦
        by_withdraw (is_withdraw-names action w)
          (validate_cctp_withdraw-Withdraws intent tx (rw w at h))
    | inr w ↦
        let h1 = rw w at h in
        elim (Bool-cases (bytes_eq action (text "pusd_wrap"))) [
          | inl n ↦ by_wrap ((bytes_eq_iff action (text "pusd_wrap")).0 n) (rw n at h1)
          | inr n ↦
              let h2 = rw n at h1 in
              elim (Bool-cases (bytes_eq action (text "ctf_redeem"))) [
                | inl n2 ↦ by_ctf ((bytes_eq_iff action (text "ctf_redeem")).0 n2) (rw n2 at h2)
                | inr n2 ↦
                    let h3 = rw n2 at h2 in
                    elim (Bool-cases (bytes_eq action (text "neg_risk_redeem"))) [
                      | inl n3 ↦
                          by_neg_risk ((bytes_eq_iff action (text "neg_risk_redeem")).0 n3)
                            (rw n3 at h3)
                      | inr n3 ↦
                          let h4 = rw n3 at h3 in
                          elim (Bool-cases (bytes_eq action (text "erc20_transfer"))) [
                            | inl n4 ↦
                                by_transfer ((bytes_eq_iff action (text "erc20_transfer")).0 n4)
                                  (rw n4 at h4)
                            | inr n4 ↦ let h5 = rw n4 at h4 in cc (h5)
                          ]
                    ]
              ]
        ]
  ]

  from_Allows :
      (action : Bytes) (intent : Value) (tx : Eip1559Tx)
      → Allows action intent tx
      → check_action x action intent tx ≡ ok tt
  unfolding check_action is_withdraw
  from_Allows action intent tx (by_withdraw (inl n) w) =
      rw (n, Withdraws-validate_cctp_withdraw intent tx w)
  from_Allows action intent tx (by_withdraw (inr (inl n)) w) =
      rw (n, Withdraws-validate_cctp_withdraw intent tx w)
  from_Allows action intent tx (by_withdraw (inr (inr n)) w) =
      rw (n, Withdraws-validate_cctp_withdraw intent tx w)
  from_Allows action intent tx (by_wrap n h) = rw (n, h)
  from_Allows action intent tx (by_ctf n h) = rw (n, h)
  from_Allows action intent tx (by_neg_risk n h) = rw (n, h)
  from_Allows action intent tx (by_transfer n h) = rw (n, h)

  -- The check of an action passes exactly when the action is one of `withdraw`,
  -- `polymarket_to_solana_withdraw` and `hyperliquid_to_solana_withdraw`, the target is the CCTP
  -- messenger, the calldata decodes, the intent names a destination and an amount, and the decoded
  -- burn is within these bounds on the chain of the transaction, or the action is `pusd_wrap`,
  -- `ctf_redeem`, `neg_risk_redeem` or `erc20_transfer` and the check of that name passes.
  pub check_action_iff :
      (action : Bytes) (intent : Value) (tx : Eip1559Tx)
      → (check_action x action intent tx ≡ ok tt) ↔ Allows action intent tx
  check_action_iff action intent tx = (to_Allows action intent tx, from_Allows action intent tx)
