-- ===== src/Polymarket/Order/Binding.antt =====
-- The message that is signed determines the order, unless the hash function has a collision.
use polylayer_tee.Prelude.{
  ◌≡◌, ◌≢◌, refl, ap, ◌⊎◌, inl, inr, Bool, true, false, ◌++◌, Bytes, text, bytes_eq, be_bytes,
  length-be_bytes, length, replicate,
}
use polylayer_tee.External.{External, DigestsAre32}
use polylayer_tee.Polymarket.{
  polygon_chain_id, ctf_exchange_v2_address, neg_risk_ctf_exchange_v2_address, addr_word,
  eip712_domain_type_hash, deposit_wallet_domain_name_hash, deposit_wallet_domain_version_hash,
}
use polylayer_tee.Polymarket.Order.{
  V2Order, order_words, order_type_hash, typed_data_sign_type_hash, hash_struct_order,
  verifying_contract, exchange_domain_separator, hash_struct_typed_data_sign, message_hash,
}
use polylayer_tee.Hashes.{
  Clash, or_else, map_left, append_inj, after_word, digest_text, hash_inj, digest_inj,
}
use polylayer_tee.Polymarket.Order.Words.{FitsOrder, addr_word_inj, address_inj, order_words_inj}

module _ (x : External) where
  -- The texts that are hashed on the way to the hash of a message.
  abbrev pub order_text : V2Order → Bytes
  order_text o = order_type_hash x ++ order_words o

  abbrev pub wrapped_text : Bytes → Bytes → Bytes
  wrapped_text contents wallet =
      typed_data_sign_type_hash x
      ++ (contents
          ++ (deposit_wallet_domain_name_hash x
              ++ (deposit_wallet_domain_version_hash x
                  ++ (be_bytes 32 polygon_chain_id ++ (addr_word wallet ++ replicate 32 0)))))

  abbrev pub domain_text : Bool → Bytes
  domain_text neg_risk =
      eip712_domain_type_hash x
      ++ (x.keccak256 (text "Polymarket CTF Exchange")
          ++ (x.keccak256 (text "2")
              ++ (be_bytes 32 polygon_chain_id ++ addr_word (verifying_contract x neg_risk))))

  abbrev pub message_text : V2Order → Bytes → Bool → Bytes
  message_text o wallet neg_risk =
      digest_text x (exchange_domain_separator x neg_risk)
        (hash_struct_typed_data_sign x (hash_struct_order x o) wallet)

  -- Two different texts with one hash at the same place on the way.
  abbrev pub SomeClash : V2Order → V2Order → Bytes → Bytes → Bool → Bool → Type 0
  SomeClash o p v w m n =
      Clash x (message_text o v m) (message_text p w n)
      ⊎ (Clash x (domain_text m) (domain_text n)
          ⊎ (Clash x (wrapped_text (hash_struct_order x o) v)
                (wrapped_text (hash_struct_order x p) w)
              ⊎ Clash x (order_text o) (order_text p)))

  module _ (wide : DigestsAre32 x) where
    verifying_contract_inj : (m n : Bool) → verifying_contract x m ≡ verifying_contract x n → m ≡ n
    unfolding verifying_contract be_bytes
    verifying_contract_inj true true e = refl
    verifying_contract_inj false false e = refl
    verifying_contract_inj true false e = absurd (unlike e)
      where
        unlike : neg_risk_ctf_exchange_v2_address ≢ ctf_exchange_v2_address
        unlike h =
            let z : ◌≡◌ {A = Bool} true false =
              ap (λ t. bytes_eq t neg_risk_ctf_exchange_v2_address) h in
            cc (z)
    verifying_contract_inj false true e = absurd (unlike e)
      where
        unlike : ctf_exchange_v2_address ≢ neg_risk_ctf_exchange_v2_address
        unlike h =
            let z : ◌≡◌ {A = Bool} true false = ap (λ t. bytes_eq t ctf_exchange_v2_address) h in
            cc (z)

    domain_inj :
        (m n : Bool)
        → exchange_domain_separator x m ≡ exchange_domain_separator x n
        → (m ≡ n) ⊎ Clash x (domain_text m) (domain_text n)
    unfolding exchange_domain_separator eip712_domain_type_hash
    domain_inj m n e = map_left (hash_inj x (domain_text m) (domain_text n) e) λ p.
        let p1 = after_word _ _ _ (wide _) p in
        let p2 = after_word _ _ _ (wide _) p1 in
        let p3 = after_word _ _ _ (wide _) p2 in
        let p4 =
          after_word (be_bytes 32 polygon_chain_id) _ _ (length-be_bytes 32 polygon_chain_id) p3 in
        verifying_contract_inj m n (addr_word_inj _ _ p4)

    wrapped_inj :
        (a b v w : Bytes)
        → length a ≡ 32
        → length b ≡ 32
        → length v ≡ 20
        → length w ≡ 20
        → hash_struct_typed_data_sign x a v ≡ hash_struct_typed_data_sign x b w
        → ((a ≡ b) × (v ≡ w)) ⊎ Clash x (wrapped_text a v) (wrapped_text b w)
    unfolding hash_struct_typed_data_sign typed_data_sign_type_hash deposit_wallet_domain_name_hash
        deposit_wallet_domain_version_hash
    wrapped_inj a b v w ha hb hv hw e =
        map_left (hash_inj x (wrapped_text a v) (wrapped_text b w) e) λ p.
          let p1 = after_word _ _ _ (wide _) p in
          let (contents, p2) = append_inj 32 a b _ _ ha hb p1 in
          let p3 = after_word _ _ _ (wide _) p2 in
          let p4 = after_word _ _ _ (wide _) p3 in
          let p5 =
            after_word (be_bytes 32 polygon_chain_id) _ _ (length-be_bytes 32 polygon_chain_id)
              p4 in
          (contents, (address_inj v w _ _ hv hw p5).0)

    contents_inj :
        (o p : V2Order)
        → FitsOrder o
        → FitsOrder p
        → hash_struct_order x o ≡ hash_struct_order x p
        → (o ≡ p) ⊎ Clash x (order_text o) (order_text p)
    unfolding hash_struct_order order_type_hash
    contents_inj o p f g e =
        map_left (hash_inj x (order_text o) (order_text p) e)
          λ q. order_words_inj o p f g (after_word _ _ _ (wide _) q)

    length-hash_struct_order : (o : V2Order) → length (hash_struct_order x o) ≡ 32
    unfolding hash_struct_order
    length-hash_struct_order o = wide _

    length-exchange_domain_separator : (n : Bool) → length (exchange_domain_separator x n) ≡ 32
    unfolding exchange_domain_separator
    length-exchange_domain_separator n = wide _

    -- For two orders, wallets and exchanges with fields of their widths, and digests of 32 bytes:
    -- when the hashes that are signed are equal, then the orders, the wallets and the exchanges
    -- are equal, or the texts hashed for one and for the other, for the message, the exchange's
    -- domain, the wallet's structure or the order, differ at one of these places and have the same
    -- hash there.
    pub message_hash_binds :
        (o p : V2Order) (v w : Bytes) (m n : Bool)
        → FitsOrder o
        → FitsOrder p
        → length v ≡ 20
        → length w ≡ 20
        → message_hash x o v m ≡ message_hash x p w n
        → ((o ≡ p) × (v ≡ w) × (m ≡ n)) ⊎ SomeClash o p v w m n
    unfolding message_hash
    message_hash_binds o p v w m n f g hv hw e =
        or_else
          (digest_inj x _ _ _ _ (length-exchange_domain_separator m)
            (length-exchange_domain_separator n) e)
          inl
          λ parts.
            or_else (domain_inj m n parts.0) (λ c. inr (inl c))
              λ risk.
                or_else
                  (wrapped_inj _ _ v w (length-hash_struct_order o) (length-hash_struct_order p) hv
                    hw parts.1)
                  (λ c. inr (inr (inl c)))
                  λ inner.
                    or_else (contents_inj o p f g inner.0) (λ c. inr (inr (inr c)))
                      λ order. inl (order, inner.1, risk)
