-- ===== src/Intents/Verified.antt =====
-- What a verified intent is: signed, over its canonical text, by the expected key.
use polylayer_tee.Prelude.{
  ℕ, ◌≤◌, ◌≢◌, ◌⊎◌, refl, sym, subst, [], ◌∷◌, Option, length, ◌==◌, ==_iff, ok_inj, ok_or-ok,
  guard-ok, ◌≡◌, ◌↔◌, inl, inr, true, Bytes, text, none, some, ok, arith, map_err-ok, >>=-eq-ok,
  guard-true, Option-cases, Bool-cases, ap, ◌∙◌,
}
use polylayer_tee.External.{External}
use polylayer_tee.Json.{get_str, get_u64}
use polylayer_tee.Canonical.{canonical_bytes}
use polylayer_tee.Solana.{
  bs58_pubkey, pubkey_length, decode_pubkey, decode_signature, verify_signature, is_empty,
}
use polylayer_tee.Intents.{
  IntentVerifyArgs, verify_intent_signature, expected_pubkey, non_empty, check_expiry,
  invalid_signature, pubkey_error, signature_error, canonical_encode, solana,
}

-- The key is the override, unless that is missing or empty, or else the one that the intent names.
abbrev pub Names : IntentVerifyArgs → Bytes → Type 0
Names args pubkey =
    ((args.expected_pubkey_bs58 ≡ some pubkey) × (pubkey ≢ []))
    ⊎ (((args.expected_pubkey_bs58 ≡ none) ⊎ (args.expected_pubkey_bs58 ≡ some []))
        × (get_str args.intent (text "solana_pubkey") ≡ some pubkey)
        × (pubkey ≢ []))

non_empty-cases :
    (o : Option Bytes)
    → ((s : Bytes) × (non_empty o ≡ some s) × (o ≡ some s) × (s ≢ []))
      ⊎ ((non_empty o ≡ none) × ((o ≡ none) ⊎ (o ≡ some [])))
unfolding non_empty
non_empty-cases none = inr (refl, inl refl)
non_empty-cases (some []) = inr (refl, inr refl)
non_empty-cases (some (b ∷ bs)) = inl (b ∷ bs, refl, refl, λ h. cc)

expected_pubkey-Names :
    (args : IntentVerifyArgs) (pubkey : Bytes)
    → expected_pubkey args ≡ ok pubkey
    → Names args pubkey
unfolding expected_pubkey
expected_pubkey-Names args pubkey h = elim (non_empty-cases args.expected_pubkey_bs58) [
  | inl (s, e, o, ne) ↦
      let same : s ≡ pubkey = ok_inj (rw (e, expected_pubkey) at h) in
      inl (o ∙ ap some same, subst (λ t. t ≢ []) same ne)
  | inr (e, o) ↦
      let h1 = rw (e, expected_pubkey) at h in
      elim (non_empty-cases (get_str args.intent (text "solana_pubkey"))) [
        | inl (s, e2, g, ne) ↦
            let same : s ≡ pubkey = ok_inj (rw e2 at h1) in
            inr (o, g ∙ ap some same, subst (λ t. t ≢ []) same ne)
        | inr (e2, g) ↦ let h2 = rw e2 at h1 in cc (h2)
      ]
]

-- A key is decoded from base58 and has 32 bytes.
decoded_key :
    (x : External) (pubkey key : Bytes)
    → decode_pubkey x pubkey ≡ ok key
    → (x.bs58_decode pubkey ≡ some key) × (length key ≡ 32)
unfolding decode_pubkey
decoded_key x pubkey key h =
    let (raw, d, h1) = ok_or-ok (x.bs58_decode pubkey) bs58_pubkey _ h in
    let (len, h2) = guard-ok (length raw == 32) (pubkey_length 32 (length raw)) _ h1 in
    let same : raw ≡ key = ok_inj h2 in
    (d ∙ ap some same, ap length (sym same) ∙ (==_iff (length raw) 32).0 len)

-- The facts behind an accepted signature.
pub record Verified (x : External) (args : IntentVerifyArgs) : Type 0 where
  pub pubkey : Bytes
  pub expected : expected_pubkey args ≡ ok pubkey
  pub named : Names args pubkey
  pub key : Bytes
  pub key_ok : decode_pubkey x pubkey ≡ ok key
  pub key_text : x.bs58_decode pubkey ≡ some key
  pub key_len : length key ≡ 32
  pub signature : Bytes
  pub signature_ok : decode_signature x args.signature_bs58 ≡ ok signature
  pub message : Bytes
  pub message_ok : canonical_bytes x args.intent ≡ ok message
  pub key_valid : x.valid_verifying_key key ≡ true
  pub signed : x.ed25519_verify key message signature ≡ true
  pub fresh :
      (exp : ℕ)
      → args.enforce_expiry ≡ true
      → get_u64 args.intent (text "expiry") ≡ some exp
      → args.now_unix_secs ≤ exp

module _ (x : External) (args : IntentVerifyArgs) where
  check_expiry-ok :
      check_expiry args ≡ ok tt
      → (exp : ℕ) → args.enforce_expiry ≡ true
      → get_u64 args.intent (text "expiry") ≡ some exp
      → args.now_unix_secs ≤ exp
  unfolding check_expiry
  check_expiry-ok h exp e g = ground arith

  ok-check_expiry :
      ((exp : ℕ)
        → args.enforce_expiry ≡ true
        → get_u64 args.intent (text "expiry") ≡ some exp
        → args.now_unix_secs ≤ exp)
      → check_expiry args ≡ ok tt
  unfolding check_expiry
  ok-check_expiry fresh = elim (Option-cases (get_u64 args.intent (text "expiry"))) [
    | inl none_eq ↦ ground (arith, none_eq)
    | inr (exp, some_eq) ↦ ground (arith, some_eq, fresh exp)
  ]

  checked_signature :
      (message signature key : Bytes)
      → verify_signature x message signature key ≡ ok true
      → (x.valid_verifying_key key ≡ true) × (x.ed25519_verify key message signature ≡ true)
  unfolding verify_signature
  checked_signature message signature key h = ground arith

  accepted : verify_intent_signature x args ≡ ok tt → Verified x args
  unfolding verify_intent_signature
  accepted h =
      let (pubkey, p, h1) = >>=-eq-ok (expected_pubkey args) _ h in
      let (u, c, h2) = >>=-eq-ok (check_expiry args) _ h1 in
      let (key, k, h3) = map_err-ok pubkey_error (decode_pubkey x pubkey) _ h2 in
      let (sig, s, h4) = map_err-ok signature_error (decode_signature x args.signature_bs58) _ h3 in
      let (message, m, h5) = map_err-ok canonical_encode (canonical_bytes x args.intent) _ h4 in
      let (valid, v, h6) = map_err-ok solana (verify_signature x message sig key) _ h5 in
      let (valid_key, signed) =
        checked_signature message sig key (v ∙ ap ok (guard-true valid invalid_signature h6)) in
      record {
        pubkey = pubkey;
        expected = p;
        named = expected_pubkey-Names args pubkey p;
        key = key;
        key_ok = k;
        key_text = (decoded_key x pubkey key k).0;
        key_len = (decoded_key x pubkey key k).1;
        signature = sig;
        signature_ok = s;
        message = message;
        message_ok = m;
        key_valid = valid_key;
        signed = signed;
        fresh = check_expiry-ok c;
      }

  Verified-accepted : Verified x args → verify_intent_signature x args ≡ ok tt
  unfolding verify_intent_signature verify_signature
  Verified-accepted v = rw (
    v.expected,
    ok-check_expiry v.fresh,
    v.key_ok,
    v.signature_ok,
    v.message_ok,
    v.key_valid,
    v.signed,
  )

  -- An intent is accepted exactly when the override, or else the intent's own `solana_pubkey`,
  -- decodes to a valid key of 32 bytes under which the decoded signature verifies over the
  -- canonical text of the whole intent, and, where expiry is enforced, a `u64` field `expiry` is
  -- not in the past.
  pub verify_intent_signature_iff : (verify_intent_signature x args ≡ ok tt) ↔ Verified x args
  verify_intent_signature_iff = (accepted, Verified-accepted)

-- Without an override, the expected key is the one that the intent names.
pub expected_pubkey-own :
    (args : IntentVerifyArgs) (own expected : Bytes)
    → args.expected_pubkey_bs58 ≡ none
    → get_str args.intent (text "solana_pubkey") ≡ some own
    → expected_pubkey args ≡ ok expected
    → own ≡ expected
unfolding expected_pubkey non_empty
expected_pubkey-own args own expected n g h = elim (Bool-cases (is_empty own)) [
  | inl e ↦ absurd (ground (arith, n, g, h, e))
  | inr e ↦ ground (arith, n, g, h, e)
]
