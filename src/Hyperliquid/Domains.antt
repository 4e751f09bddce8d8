-- ===== src/Hyperliquid/Domains.antt =====
-- The two kinds of action have domains of their own.
use polylayer_tee.Prelude.{
  ℕ, ◌^◌, ◌<◌, ◌≡◌, ◌≢◌, refl, sym, ap, ◌⊎◌, inl, inr, Bool, true, false, ◌++◌, Bytes, bytes_eq,
  text, be_bytes, length, arith,
}
use polylayer_tee.External.{External, DigestsAre32}
use polylayer_tee.Hashes.{
  Clash, or_else, map_left, append_inj, word_inj, after_word, digest_text, hash_inj, digest_inj,
}
use polylayer_tee.Polymarket.{addr_word, eip712_domain_type_hash}
use polylayer_tee.Hyperliquid.{
  HyperliquidNetwork, mainnet, testnet, source_tag, hl_verifying_contract, hl_l1_chain_id,
  hl_l1_domain_name, hl_l1_domain_version, hl_user_domain_name, hl_user_domain_version,
  agent_type_hash, l1_domain_separator, user_domain_separator, hash_agent_struct, l1_digest,
  user_digest,
}

-- What is signed: an L1 action of a network, or a user action for a chain.
pub data Action : Type 0 where
  l1 : HyperliquidNetwork → Bytes → Action
  user : ℕ → Bytes → Action

abbrev pub FitsAction : Action → Type 0
FitsAction (l1 network connection_id) = length connection_id ≡ 32
FitsAction (user chain_id struct_hash) = (chain_id < 2 ^ 64) × (length struct_hash ≡ 32)

source_tag_inj : (n m : HyperliquidNetwork) → source_tag n ≡ source_tag m → n ≡ m
unfolding source_tag
source_tag_inj mainnet mainnet e = refl
source_tag_inj testnet testnet e = refl
source_tag_inj mainnet testnet e =
    let z : ◌≡◌ {A = Bool} false true = ap (λ t. bytes_eq t (text "b")) e in cc (z)
source_tag_inj testnet mainnet e =
    let z : ◌≡◌ {A = Bool} false true = ap (λ t. bytes_eq t (text "a")) e in cc (z)

names_differ : hl_l1_domain_name ≢ hl_user_domain_name
names_differ h =
    let z : ◌≡◌ {A = Bool} true false = ap (λ t. bytes_eq t (text "Exchange")) h in cc (z)

module _ (x : External) where
  flip : {a b : Bytes} → Clash x a b → Clash x b a
  flip c = record { differ = λ e. c.differ (sym e); same_hash = sym c.same_hash }

  abbrev pub domain_text : Action → Bytes
  domain_text (l1 network connection_id) =
      eip712_domain_type_hash x
      ++ (x.keccak256 hl_l1_domain_name
          ++ (x.keccak256 hl_l1_domain_version
              ++ (be_bytes 32 hl_l1_chain_id ++ addr_word hl_verifying_contract)))
  domain_text (user chain_id struct_hash) =
      eip712_domain_type_hash x
      ++ (x.keccak256 hl_user_domain_name
          ++ (x.keccak256 hl_user_domain_version
              ++ (be_bytes 32 chain_id ++ addr_word hl_verifying_contract)))

  abbrev pub agent_text : HyperliquidNetwork → Bytes → Bytes
  agent_text network connection_id =
      agent_type_hash x ++ (x.keccak256 (source_tag network) ++ connection_id)

  unfoldable pub action_digest : Action → Bytes
  action_digest (l1 network connection_id) = l1_digest x network connection_id
  action_digest (user chain_id struct_hash) = user_digest x chain_id struct_hash

  abbrev pub message_text : Action → Bytes
  message_text (l1 network connection_id) =
      digest_text x (l1_domain_separator x) (hash_agent_struct x (source_tag network) connection_id)
  message_text (user chain_id struct_hash) =
      digest_text x (user_domain_separator x chain_id) struct_hash

  -- Two different texts with one hash, at the same place on the way to the digests.
  abbrev pub ClashBelow : Action → Action → Type 0
  ClashBelow (l1 n i) (l1 m j) =
      Clash x (agent_text n i) (agent_text m j) ⊎ Clash x (source_tag n) (source_tag m)
  ClashBelow (l1 n i) (user d k) =
      Clash x (domain_text (l1 n i)) (domain_text (user d k))
      ⊎ Clash x hl_l1_domain_name hl_user_domain_name
  ClashBelow (user c h) (l1 m j) =
      Clash x (domain_text (user c h)) (domain_text (l1 m j))
      ⊎ Clash x hl_user_domain_name hl_l1_domain_name
  ClashBelow (user c h) (user d k) = Clash x (domain_text (user c h)) (domain_text (user d k))

  abbrev pub ActionClash : Action → Action → Type 0
  ActionClash a b = Clash x (message_text a) (message_text b) ⊎ ClashBelow a b

  module _ (wide : DigestsAre32 x) where
    length-l1_domain_separator : length (l1_domain_separator x) ≡ 32
    unfolding l1_domain_separator
    length-l1_domain_separator = wide _

    length-user_domain_separator : (c : ℕ) → length (user_domain_separator x c) ≡ 32
    unfolding user_domain_separator
    length-user_domain_separator c = wide _

    agents_inj :
        (n m : HyperliquidNetwork) (i j : Bytes)
        → hash_agent_struct x (source_tag n) i ≡ hash_agent_struct x (source_tag m) j
        → (l1 n i ≡ l1 m j) ⊎ ClashBelow (l1 n i) (l1 m j)
    unfolding hash_agent_struct agent_type_hash
    agents_inj n m i j e = or_else (hash_inj x (agent_text n i) (agent_text m j) e) inl λ p.
        let rest = after_word _ _ _ (wide _) p in
        let (tags, ids) =
          append_inj 32 (x.keccak256 (source_tag n)) (x.keccak256 (source_tag m)) i j (wide _)
            (wide _) rest in
        or_else (hash_inj x (source_tag n) (source_tag m) tags) inr
          λ same. inl (λ t. l1 (source_tag_inj n m same t) (ids t))

    chains_inj :
        (c d : ℕ) (h k : Bytes)
        → c < 2 ^ 64
        → d < 2 ^ 64
        → user_domain_separator x c ≡ user_domain_separator x d
        → (c ≡ d) ⊎ ClashBelow (user c h) (user d k)
    unfolding user_domain_separator eip712_domain_type_hash
    chains_inj c d h k f g e =
        map_left (hash_inj x (domain_text (user c h)) (domain_text (user d k)) e) λ p.
          let p1 = after_word _ _ _ (wide _) p in
          let p2 = after_word _ _ _ (wide _) p1 in
          let p3 = after_word _ _ _ (wide _) p2 in
          (word_inj c d _ _ (omega (arith, f)) (omega (arith, g)) p3).0

    kinds_apart :
        (n : HyperliquidNetwork) (d : ℕ) (i k : Bytes)
        → l1_domain_separator x ≡ user_domain_separator x d
        → ClashBelow (l1 n i) (user d k)
    unfolding l1_domain_separator user_domain_separator eip712_domain_type_hash
    kinds_apart n d i k e = elim (hash_inj x (domain_text (l1 n i)) (domain_text (user d k)) e) [
      | inr c ↦ inl c
      | inl p ↦
          let names =
            (append_inj 32 (x.keccak256 hl_l1_domain_name) (x.keccak256 hl_user_domain_name) _ _
              (wide _) (wide _) (after_word _ _ _ (wide _) p)).0 in
          inr (record { differ = names_differ; same_hash = names })
    ]

    kinds_apart_sym :
        (m : HyperliquidNetwork) (c : ℕ) (j h : Bytes)
        → ClashBelow (l1 m j) (user c h)
        → ClashBelow (user c h) (l1 m j)
    kinds_apart_sym m c j h (inl clash) = inl (flip clash)
    kinds_apart_sym m c j h (inr clash) = inr (flip clash)

    -- For two actions with fields of their widths, each an L1 action of a network or a user action
    -- for a chain, and digests of 32 bytes: when the digests that are signed are equal, then the
    -- actions are equal, kind, network or chain and content, or the texts hashed for one and for
    -- the other (the messages, the domains, their names, the agents or the network tags) differ at
    -- one of these places and have the same hash there.
    pub action_digest_binds :
        (a b : Action)
        → FitsAction a
        → FitsAction b
        → action_digest a ≡ action_digest b
        → (a ≡ b) ⊎ ActionClash a b
    unfolding action_digest l1_digest user_digest
    action_digest_binds (l1 n i) (l1 m j) f g e =
        or_else (digest_inj x _ _ _ _ length-l1_domain_separator length-l1_domain_separator e) inl
          λ parts. or_else (agents_inj n m i j parts.1) inr inl
    action_digest_binds (l1 n i) (user d k) f g e =
        or_else (digest_inj x _ _ _ _ length-l1_domain_separator (length-user_domain_separator d) e)
          inl λ parts. inr (inr (kinds_apart n d i k parts.0))
    action_digest_binds (user c h) (l1 m j) f g e =
        or_else (digest_inj x _ _ _ _ (length-user_domain_separator c) length-l1_domain_separator e)
          inl λ parts. inr (inr (kinds_apart_sym m c j h (kinds_apart m c j h (sym parts.0))))
    action_digest_binds (user c h) (user d k) f g e =
        or_else
          (digest_inj x _ _ _ _ (length-user_domain_separator c) (length-user_domain_separator d) e)
          inl
          λ parts.
            or_else (chains_inj c d h k f.0 g.0 parts.0) inr
              λ chain. inl (λ t. user (chain t) (parts.1 t))
