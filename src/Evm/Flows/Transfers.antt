-- ===== src/Evm/Flows/Transfers.antt =====
-- When the validators of ERC-20 transfers and approvals and of pUSD wraps accept: on exactly the
-- calldata that lays the intent out as ABI words.
use polylayer_tee.Prelude.{
  ℕ, ◌+◌, ◌*◌, ◌^◌, ◌≤◌, ◌<◌, ◌≡◌, refl, ap, ◌↔◌, ◌∙◌, ◌++◌, Bytes, bytes_eq_iff, be_value, ok,
  arith, length, drop, text, bytes_eq_self, guard-ok, map_err-ok, ==_iff, leb→le, le→leb,
}
use polylayer_tee.External.{External, DigestsAre32}
use polylayer_tee.Evm.Abi.{word_u256, word_address, selector_of}
use Prim.Native.String.{String}
use polylayer_tee.Evm.Abi.Words.{
  WordAt, word_u256-at, word_u256-ok, word_address-at, word_address-ok, require_selector-at,
  require_selector-ok, length-selector_of,
}
use polylayer_tee.Evm.Flows.{
  abi, Erc20TransferIntent, validate_erc20_transfer, erc20_transfer, Erc20ApproveIntent,
  validate_erc20_approve, erc20_approve, PusdWrapIntent, validate_pusd_wrap, onramp_wrap,
  collateral_onramp,
}

-- The arguments hold an address in the low 20 bytes of word `i`, and a number in word `i`.
abbrev pub AddressAt : Bytes → ℕ → Bytes → Type 0
AddressAt args i a = (w : Bytes) × WordAt args i w × (drop 12 w ≡ a)

abbrev pub NumberAt : Bytes → ℕ → ℕ → Type 0
NumberAt args i v = (w : Bytes) × WordAt args i w × (be_value w ≡ v)

pub AddressAt-reads :
    {args a : Bytes} (i : ℕ)
    → i * 32 + 32 < 2 ^ 64
    → AddressAt args i a
    → word_address args i ≡ ok a
AddressAt-reads {args} i fits (w, at, e) = word_address-at args i fits at ∙ ap ok e

pub NumberAt-reads :
    {args : Bytes} {v : ℕ} (i : ℕ)
    → i * 32 + 32 < 2 ^ 64
    → NumberAt args i v
    → word_u256 args i ≡ ok v
NumberAt-reads {args} i fits (w, at, e) = word_u256-at args i fits at ∙ ap ok e

module _ (x : External) (digests : DigestsAre32 x) where
  pub selector_length : (s : String) → length (selector_of x.keccak256 s) ≡ 4
  selector_length s = length-selector_of x.keccak256 s (digests (text s))

  length-transfer : length (erc20_transfer x) ≡ 4
  unfolding erc20_transfer
  length-transfer = selector_length "transfer(address,uint256)"

  length-approve : length (erc20_approve x) ≡ 4
  unfolding erc20_approve
  length-approve = selector_length "approve(address,uint256)"

  length-wrap : length (onramp_wrap x) ≡ 4
  unfolding onramp_wrap
  length-wrap = selector_length "wrap(address,address,uint256)"

  -- A call of `transfer(recipient, amount)` on the token of the intent.
  abbrev pub TransferCall : Bytes → Bytes → Erc20TransferIntent → Type 0
  TransferCall target calldata intent =
      (target ≡ intent.token)
      × ((args : Bytes) × (calldata ≡ erc20_transfer x ++ args)
          × AddressAt args 0 intent.recipient
          × NumberAt args 1 intent.amount)

  module _ (target calldata : Bytes) (intent : Erc20TransferIntent) where
    accepted_transfer :
        validate_erc20_transfer x target calldata intent ≡ ok tt
        → TransferCall target calldata intent
    unfolding validate_erc20_transfer
    accepted_transfer h =
        let (t, h1) = guard-ok _ _ _ h in
        let (args, s, h2) = map_err-ok abi _ _ h1 in
        let (recipient, r, h3) = map_err-ok abi _ _ h2 in
        let (amount, a, h4) = map_err-ok abi _ _ h3 in
        let (r', h5) = guard-ok _ _ _ h4 in
        let (a', h6) = guard-ok _ _ _ h5 in
        let recipient_eq : recipient ≡ intent.recipient = (bytes_eq_iff _ _).0 r' in
        let amount_eq : amount ≡ intent.amount = (==_iff _ _).0 a' in
        (
          (bytes_eq_iff _ _).0 t,
          (
            args,
            require_selector-ok calldata (erc20_transfer x) s,
            word_address-ok args 0 (omega arith) (r ∙ ap ok recipient_eq),
            word_u256-ok args 1 (omega arith) (a ∙ ap ok amount_eq),
          ),
        )

    transfer_accepted :
        TransferCall target calldata intent
        → validate_erc20_transfer x target calldata intent ≡ ok tt
    unfolding validate_erc20_transfer
    transfer_accepted (t, (args, s, r, a)) = rw (
      (bytes_eq_iff _ _).1 t,
      s,
      require_selector-at (erc20_transfer x) args length-transfer,
      AddressAt-reads 0 (omega arith) r,
      NumberAt-reads 1 (omega arith) a,
      bytes_eq_self intent.recipient,
      (==_iff intent.amount intent.amount).1 refl,
    )

    -- Given that Keccak-256 digests have 32 bytes, a transfer is accepted exactly when the target
    -- is the token of the intent and the calldata is the `transfer` selector, the recipient of the
    -- intent in word 0 and the amount of the intent in word 1.
    pub validate_erc20_transfer_iff :
        (validate_erc20_transfer x target calldata intent ≡ ok tt)
        ↔ TransferCall target calldata intent
    validate_erc20_transfer_iff = (accepted_transfer, transfer_accepted)

  -- A call of `approve(spender, amount)` on the token of the intent, within its maximum.
  abbrev pub ApproveCall : Bytes → Bytes → Erc20ApproveIntent → ℕ → Type 0
  ApproveCall target calldata intent amount =
      (target ≡ intent.token)
      × (amount ≤ intent.max_amount)
      × ((args : Bytes) × (calldata ≡ erc20_approve x ++ args)
          × AddressAt args 0 intent.spender
          × NumberAt args 1 amount)

  module _ (target calldata : Bytes) (intent : Erc20ApproveIntent) (amount : ℕ) where
    accepted_approve :
        validate_erc20_approve x target calldata intent ≡ ok amount
        → ApproveCall target calldata intent amount
    unfolding validate_erc20_approve
    accepted_approve h =
        let (t, h1) = guard-ok _ _ _ h in
        let (args, s, h2) = map_err-ok abi _ _ h1 in
        let (spender, r, h3) = map_err-ok abi _ _ h2 in
        let (decoded, a, h4) = map_err-ok abi _ _ h3 in
        let (r', h5) = guard-ok _ _ _ h4 in
        let (a', h6) = guard-ok _ _ _ h5 in
        let spender_eq : spender ≡ intent.spender = (bytes_eq_iff _ _).0 r' in
        let amount_eq : decoded ≡ amount = cc h6 in
        (
          (bytes_eq_iff _ _).0 t,
          omega (arith, leb→le decoded intent.max_amount a', amount_eq),
          (
            args,
            require_selector-ok calldata (erc20_approve x) s,
            word_address-ok args 0 (omega arith) (r ∙ ap ok spender_eq),
            word_u256-ok args 1 (omega arith) (a ∙ ap ok amount_eq),
          ),
        )

    approve_accepted :
        ApproveCall target calldata intent amount
        → validate_erc20_approve x target calldata intent ≡ ok amount
    unfolding validate_erc20_approve
    approve_accepted (t, le, (args, s, r, a)) = rw (
      (bytes_eq_iff _ _).1 t,
      s,
      require_selector-at (erc20_approve x) args length-approve,
      AddressAt-reads 0 (omega arith) r,
      NumberAt-reads 1 (omega arith) a,
      bytes_eq_self intent.spender,
      le→leb amount intent.max_amount le,
    )

    -- Given that Keccak-256 digests have 32 bytes, an approval is accepted, with its amount,
    -- exactly when the target is the token of the intent, the calldata is the `approve` selector,
    -- the spender of the intent in word 0 and the amount in word 1, and the amount is at most the
    -- maximum.
    pub validate_erc20_approve_iff :
        (validate_erc20_approve x target calldata intent ≡ ok amount)
        ↔ ApproveCall target calldata intent amount
    validate_erc20_approve_iff = (accepted_approve, approve_accepted)

  -- A call of `wrap(asset, to, amount)` on the collateral onramp, as the intent allows it.
  abbrev pub WrapCall : Bytes → Bytes → PusdWrapIntent → ℕ → Type 0
  WrapCall target calldata intent amount =
      (target ≡ collateral_onramp)
      × (amount ≤ intent.max_amount)
      × ((args : Bytes) × (calldata ≡ onramp_wrap x ++ args)
          × AddressAt args 0 intent.source_token
          × AddressAt args 1 intent.deposit_wallet
          × NumberAt args 2 amount)

  module _ (target calldata : Bytes) (intent : PusdWrapIntent) (amount : ℕ) where
    accepted_wrap :
        validate_pusd_wrap x target calldata intent ≡ ok amount
        → WrapCall target calldata intent amount
    unfolding validate_pusd_wrap
    accepted_wrap h =
        let (t, h1) = guard-ok _ _ _ h in
        let (args, s, h2) = map_err-ok abi _ _ h1 in
        let (asset, r, h3) = map_err-ok abi _ _ h2 in
        let (to, d, h4) = map_err-ok abi _ _ h3 in
        let (decoded, a, h5) = map_err-ok abi _ _ h4 in
        let (r', h6) = guard-ok _ _ _ h5 in
        let (d', h7) = guard-ok _ _ _ h6 in
        let (a', h8) = guard-ok _ _ _ h7 in
        let asset_eq : asset ≡ intent.source_token = (bytes_eq_iff _ _).0 r' in
        let to_eq : to ≡ intent.deposit_wallet = (bytes_eq_iff _ _).0 d' in
        let amount_eq : decoded ≡ amount = cc h8 in
        (
          (bytes_eq_iff _ _).0 t,
          omega (arith, leb→le decoded intent.max_amount a', amount_eq),
          (
            args,
            require_selector-ok calldata (onramp_wrap x) s,
            word_address-ok args 0 (omega arith) (r ∙ ap ok asset_eq),
            word_address-ok args 1 (omega arith) (d ∙ ap ok to_eq),
            word_u256-ok args 2 (omega arith) (a ∙ ap ok amount_eq),
          ),
        )

    wrap_accepted :
        WrapCall target calldata intent amount
        → validate_pusd_wrap x target calldata intent ≡ ok amount
    unfolding validate_pusd_wrap
    wrap_accepted (t, le, (args, s, r, d, a)) = rw (
      (bytes_eq_iff _ _).1 t,
      s,
      require_selector-at (onramp_wrap x) args length-wrap,
      AddressAt-reads 0 (omega arith) r,
      AddressAt-reads 1 (omega arith) d,
      NumberAt-reads 2 (omega arith) a,
      bytes_eq_self intent.source_token,
      bytes_eq_self intent.deposit_wallet,
      le→leb amount intent.max_amount le,
    )

    -- Given that Keccak-256 digests have 32 bytes, a wrap is accepted, with its amount, exactly
    -- when the target is the onramp, the calldata is the `wrap` selector, the source token and the
    -- deposit wallet of the intent in words 0 and 1 and the amount in word 2, and the amount is at
    -- most the maximum.
    pub validate_pusd_wrap_iff :
        (validate_pusd_wrap x target calldata intent ≡ ok amount)
        ↔ WrapCall target calldata intent amount
    validate_pusd_wrap_iff = (accepted_wrap, wrap_accepted)
