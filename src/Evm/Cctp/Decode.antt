-- ===== src/Evm/Cctp/Decode.antt =====
-- `decode_deposit_for_burn` of crates/core/src/evm/cctp.rs against the word readers of evm/abi.rs.
use polylayer_tee.Prelude.{
  ℕ, ◌+◌, ◌-◌, ◌*◌, ◌≤◌, ◌<◌, ◌≡◌, sym, ap, ◌↔◌, ◌∙◌, ◌++◌, Bytes, bytes_eq, bytes_eq_iff, be_value,
  ok, arith, length, take, drop, length-drop, take-append-drop, length-append, drop-take, drop-drop,
  take-append_left, drop-append_left, take, inl, inr, bytes_eq_self, text, false, Bool-cases, ltb,
  le→leb,
}
use polylayer_tee.External.{External, DigestsAre32}
use polylayer_tee.Evm.Abi.{word_from, word_u256, word_bytes32, word_address}
use polylayer_tee.Evm.Cctp.{
  DepositForBurnArgs, decode_deposit_for_burn, deposit_for_burn_v2_selector,
  deposit_for_burn_v2_sig,
}
use polylayer_tee.Evm.Abi.Words.{length-selector_of}

-- The seven words of the arguments, as `Evm.Abi` reads them. A `uint32` is the low four bytes of
-- its word.
pub record DecodedWords (args : Bytes) (a : DepositForBurnArgs) : Type 0 where
  pub amount : word_u256 args 0 ≡ ok a.amount
  pub domain_word : Bytes
  pub domain_at : word_bytes32 args 1 ≡ ok domain_word
  pub domain : be_value (drop 28 domain_word) ≡ a.destination_domain
  pub recipient : word_bytes32 args 2 ≡ ok a.mint_recipient
  pub token : word_address args 3 ≡ ok a.burn_token
  pub caller : word_bytes32 args 4 ≡ ok a.destination_caller
  pub fee : word_u256 args 5 ≡ ok a.max_fee
  pub finality_word : Bytes
  pub finality_at : word_bytes32 args 6 ≡ ok finality_word
  pub finality : be_value (drop 28 finality_word) ≡ a.min_finality_threshold

-- A word of arguments that are long enough is there, from any of its bytes on.
word_from-long :
    (from i : ℕ) (args : Bytes)
    → from ≤ 32
    → i < 7
    → 224 ≤ length args
    → word_from from args i ≡ ok (take (i * 32 + 32 - (i * 32 + from)) (drop (i * 32 + from) args))
unfolding word_from
word_from-long from i args low few long = ground arith

-- The value that the decoder returns for arguments that are long enough.
abbrev decoded_args : Bytes → DepositForBurnArgs
decoded_args args = record {
  amount = be_value (take 32 (drop 0 args));
  destination_domain = be_value (take 4 (drop 60 args));
  mint_recipient = take 32 (drop 64 args);
  burn_token = take 20 (drop 108 args);
  destination_caller = take 32 (drop 128 args);
  max_fee = be_value (take 32 (drop 160 args));
  min_finality_threshold = be_value (take 4 (drop 220 args));
}

decoded_args-DecodedWords :
    (args : Bytes) → 224 ≤ length args → DecodedWords args (decoded_args args)
unfolding word_u256 word_bytes32 word_address
decoded_args-DecodedWords args long = record {
  amount = rw (word_from-long 0 0 args (omega arith) (omega arith) long);
  domain_word = take 32 (drop 32 args);
  domain_at = word_from-long 0 1 args (omega arith) (omega arith) long;
  domain = ap be_value (drop-take 28 4 (drop 32 args) ∙ ap (take 4) (drop-drop 32 28 args));
  recipient = word_from-long 0 2 args (omega arith) (omega arith) long;
  token = word_from-long 12 3 args (omega arith) (omega arith) long;
  caller = word_from-long 0 4 args (omega arith) (omega arith) long;
  fee = rw (word_from-long 0 5 args (omega arith) (omega arith) long);
  finality_word = take 32 (drop 192 args);
  finality_at = word_from-long 0 6 args (omega arith) (omega arith) long;
  finality = ap be_value (drop-take 28 4 (drop 192 args) ∙ ap (take 4) (drop-drop 192 28 args));
}

module _ (x : External) (digests : DigestsAre32 x) where
  length-selector : length (deposit_for_burn_v2_selector x) ≡ 4
  unfolding deposit_for_burn_v2_selector
  length-selector =
      length-selector_of x.keccak256 deposit_for_burn_v2_sig
        (digests (text deposit_for_burn_v2_sig))

  decode_deposit_for_burn-long :
      (args : Bytes)
      → 224 ≤ length args
      → decode_deposit_for_burn x (deposit_for_burn_v2_selector x ++ args) ≡ ok (decoded_args args)
  unfolding decode_deposit_for_burn
  decode_deposit_for_burn-long args long =
      let sel = deposit_for_burn_v2_selector x in
      let front : take 4 (sel ++ args) ≡ sel = take-append_left sel args 4 length-selector in
      let back : drop 4 (sel ++ args) ≡ args = drop-append_left sel args 4 length-selector in
      let enough : ltb (length (sel ++ args)) 228 ≡ false =
        ground (arith, length-append sel args, length-selector) in
      let within = λ (n : ℕ) (h : n ≤ 224). le→leb n (length args) (omega arith) in
      rw (
        enough,
        front,
        bytes_eq_self sel,
        back,
        within 32 (omega arith),
        within 64 (omega arith),
        within 96 (omega arith),
        within 128 (omega arith),
        within 160 (omega arith),
        within 192 (omega arith),
        within 224 (omega arith),
      )

  decode_deposit_for_burn-prefix :
      (calldata : Bytes) (a : DepositForBurnArgs)
      → decode_deposit_for_burn x calldata ≡ ok a
      → (228 ≤ length calldata) × (take 4 calldata ≡ deposit_for_burn_v2_selector x)
  unfolding decode_deposit_for_burn
  decode_deposit_for_burn-prefix calldata a h =
      let sel = deposit_for_burn_v2_selector x in
      elim (Bool-cases (ltb (length calldata) 228)) [
        | inl short ↦ absurd (cc (rw short at h))
        | inr long ↦ elim (Bool-cases (bytes_eq (take 4 calldata) sel)) [
          | inl same ↦ (ground (arith, long), (bytes_eq_iff _ _).0 same)
          | inr other ↦ absurd (cc (rw (long, other) at h))
        ]
      ]

  DecodedWords-unique :
      (args : Bytes) (a : DepositForBurnArgs)
      → 224 ≤ length args
      → DecodedWords args a
      → a ≡ decoded_args args
  DecodedWords-unique args a long w =
      let d = decoded_args-DecodedWords args long in
      let domain : d.domain_word ≡ w.domain_word = cc (d.domain_at, w.domain_at) in
      let finality : d.finality_word ≡ w.finality_word = cc (d.finality_at, w.finality_at) in
      ground (
        arith, domain, finality, d.amount, d.domain, d.recipient, d.token, d.caller, d.fee,
        d.finality, w.amount, w.domain, w.recipient, w.token, w.caller, w.fee, w.finality,
      )

  -- Given that Keccak-256 digests have 32 bytes, the decoder returns a record exactly when the
  -- calldata is the selector followed by at least 224 bytes, and the record is what the word
  -- readers of evm/abi.rs find in words 0 to 6.
  pub decode_deposit_for_burn_iff :
      (calldata : Bytes) (a : DepositForBurnArgs)
      → (decode_deposit_for_burn x calldata ≡ ok a) ↔ (
          (args : Bytes) × (calldata ≡ deposit_for_burn_v2_selector x ++ args)
          × (224 ≤ length args)
          × DecodedWords args a)
  decode_deposit_for_burn_iff calldata a =
      let sel = deposit_for_burn_v2_selector x in
      (
        λ h.
            let (enough, starts) = decode_deposit_for_burn-prefix calldata a h in
            let args = drop 4 calldata in
            let split : calldata ≡ sel ++ args =
              sym (take-append-drop 4 calldata) ∙ ap (λ t. t ++ args) starts in
            let long : 224 ≤ length args = omega (arith, length-drop 4 calldata) in
            let e : a ≡ decoded_args args =
              cc
                (h, decode_deposit_for_burn-long args long, ap (decode_deposit_for_burn x) split) in
            (args, split, long, rw e (decoded_args-DecodedWords args long)),
        λ (args, split, long, w).
            ap (decode_deposit_for_burn x) split
            ∙ decode_deposit_for_burn-long args long
            ∙ ap ok (sym (DecodedWords-unique args a long w)),
      )
