-- ===== src/Evm/Flows/Redeems.antt =====
-- When the validators of CTF and NegRisk redemptions accept.
use polylayer_tee.Prelude.{
  ℕ, zero, suc, ◌+◌, ◌^◌, ◌≤◌, ◌≡◌, ◌≢◌, refl, sym, ap, ◌↔◌, ◌∙◌, List, [], ◌∷◌, ◌++◌, Bytes,
  bytes_eq_iff, ok, arith, length, some, get_elem?, get_elem?-some, subst, replicate, bytes_eq_self,
  >>=-eq-ok, guard-ok, map_err-ok, ==_iff, leb→le, le→leb, lt→ltb,
}
use Prim.Native.Nat.{bit_or}
use mathlib.Core.List.{foldl}
use polylayer_tee.External.{External, DigestsAre32}
use polylayer_tee.Evm.Abi.{dynamic_u256_array}
use polylayer_tee.Evm.Abi.Words.{
  WordAt, word_bytes32-at, word_bytes32-ok, word_address-ok, require_selector-at,
  require_selector-ok,
}
use polylayer_tee.Evm.Flows.{
  abi, union_of, only_outcome, index, CtfRedeemIntent, NegRiskRedeemIntent, validate_ctf_redeem,
  validate_neg_risk_redeem, ctf_redeem, neg_risk_redeem, pusd, ctf, neg_risk_adapter,
}
use polylayer_tee.Evm.Flows.Transfers.{AddressAt, AddressAt-reads, selector_length}

-- Every amount but that of outcome `oi` is zero.
pub record OnlyOutcome (oi : ℕ) (amounts : List ℕ) : Type 0 where
  pub others : (j a : ℕ) → get_elem? amounts j ≡ some a → j ≢ oi → a ≡ 0

only_outcome-ok :
    (oi i : ℕ) (amounts : List ℕ)
    → only_outcome oi i amounts ≡ ok tt
    → (j a : ℕ) → get_elem? amounts j ≡ some a
    → i + j ≢ oi
    → a ≡ 0
unfolding only_outcome
only_outcome-ok oi i [] h j a e ne = cc
only_outcome-ok oi i (b ∷ amounts) h zero a e ne = ground arith
only_outcome-ok oi i (b ∷ amounts) h (suc j) a e ne = ground (
  arith,
  only_outcome-ok oi (i + 1) amounts,
  only_outcome-ok oi (i + 1) amounts (ground arith) j a e (omega arith),
)

ok-only_outcome :
    (oi i : ℕ) (amounts : List ℕ)
    → ((j a : ℕ) → get_elem? amounts j ≡ some a → i + j ≢ oi → a ≡ 0)
    → only_outcome oi i amounts ≡ ok tt
unfolding only_outcome
ok-only_outcome oi i [] h = refl
ok-only_outcome oi i (b ∷ amounts) h = ground (
  arith,
  h zero b refl,
  ok-only_outcome oi (i + 1) amounts (λ j a e ne. h (suc j) a e (omega arith)),
)

-- `only_outcome` passes exactly on the lists in which every other amount is zero.
only_outcome_iff :
    (oi : ℕ) (amounts : List ℕ) → (only_outcome oi 0 amounts ≡ ok tt) ↔ OnlyOutcome oi amounts
only_outcome_iff oi amounts = (
  λ h. record { others = λ j a e ne. only_outcome-ok oi 0 amounts h j a e (omega arith) },
  λ o. ok-only_outcome oi 0 amounts (λ j a e ne. o.others j a e (omega arith)),
)

index-ok :
    (amounts : List ℕ) (oi : ℕ) {a : ℕ} → index amounts oi ≡ ok a → get_elem? amounts oi ≡ some a
unfolding index
index-ok amounts oi h = ground arith

ok-index :
    (amounts : List ℕ) (oi : ℕ) {a : ℕ} → get_elem? amounts oi ≡ some a → index amounts oi ≡ ok a
unfolding index
ok-index amounts oi h = ground arith

-- The loop over the index sets is the fold of the binary `or`.
union_of-foldl :
    (union : ℕ) (index_sets : List ℕ) → union_of union index_sets ≡ foldl bit_or union index_sets
unfolding union_of
union_of-foldl union [] = refl
union_of-foldl union (s ∷ index_sets) = union_of-foldl (bit_or union s) index_sets

module _ (x : External) (digests : DigestsAre32 x) where
  length-neg_risk : length (neg_risk_redeem x) ≡ 4
  unfolding neg_risk_redeem
  length-neg_risk = selector_length x digests "redeemPositions(bytes32,uint256[])"

  length-ctf : length (ctf_redeem x) ≡ 4
  unfolding ctf_redeem
  length-ctf = selector_length x digests "redeemPositions(address,bytes32,bytes32,uint256[])"

  -- A call of `redeemPositions(conditionId, amounts)` on the NegRisk adapter that redeems the
  -- outcome of the intent alone, and at most the amount of the intent.
  pub record NegRiskCall (target calldata : Bytes) (intent : NegRiskRedeemIntent) : Type 0 where
    pub target_ok : target ≡ neg_risk_adapter
    pub args : Bytes
    pub split : calldata ≡ neg_risk_redeem x ++ args
    pub condition : WordAt args 0 intent.condition_id
    pub amounts : List ℕ
    pub decoded : dynamic_u256_array args 2 1 ≡ ok amounts
    pub amount : ℕ
    pub chosen : get_elem? amounts intent.outcome_index ≡ some amount
    pub within : amount ≤ intent.max_amount
    pub only : OnlyOutcome intent.outcome_index amounts

  module _ (target calldata : Bytes) (intent : NegRiskRedeemIntent) where
    accepted_neg_risk :
        validate_neg_risk_redeem x target calldata intent ≡ ok tt
        → NegRiskCall target calldata intent
    unfolding validate_neg_risk_redeem
    accepted_neg_risk h =
        let (t, h1) = guard-ok _ _ _ h in
        let (args, s, h2) = map_err-ok abi _ _ h1 in
        let (condition_id, c, h3) = map_err-ok abi _ _ h2 in
        let (amounts, d, h4) = map_err-ok abi _ _ h3 in
        let (c', h5) = guard-ok _ _ _ h4 in
        let (i, h6) = guard-ok _ _ _ h5 in
        let (u, only, h7) = >>=-eq-ok (only_outcome intent.outcome_index 0 amounts) _ h6 in
        let (amount, a, h8) = >>=-eq-ok (index amounts intent.outcome_index) _ h7 in
        let (a', h9) = guard-ok _ _ _ h8 in
        let condition_eq : condition_id ≡ intent.condition_id = (bytes_eq_iff _ _).0 c' in
        let (w, at, e) = word_bytes32-ok args 0 (omega arith) c in
        record {
          target_ok = (bytes_eq_iff _ _).0 t;
          args = args;
          split = require_selector-ok calldata (neg_risk_redeem x) s;
          condition = subst (λ v. WordAt args 0 v) (e ∙ condition_eq) at;
          amounts = amounts;
          decoded = d;
          amount = amount;
          chosen = index-ok amounts intent.outcome_index a;
          within = leb→le amount intent.max_amount a';
          only = (only_outcome_iff intent.outcome_index amounts).0 only;
        }

    neg_risk_accepted :
        NegRiskCall target calldata intent
        → validate_neg_risk_redeem x target calldata intent ≡ ok tt
    unfolding validate_neg_risk_redeem
    neg_risk_accepted c = rw (
      (bytes_eq_iff _ _).1 c.target_ok,
      c.split,
      require_selector-at (neg_risk_redeem x) c.args length-neg_risk,
      word_bytes32-at c.args 0 (omega arith) c.condition,
      c.decoded,
      bytes_eq_self intent.condition_id,
      lt→ltb _ _ (get_elem?-some c.amounts intent.outcome_index c.chosen),
      (only_outcome_iff intent.outcome_index c.amounts).1 c.only,
      ok-index c.amounts intent.outcome_index c.chosen,
      le→leb c.amount intent.max_amount c.within,
    )

    -- Given that Keccak-256 digests have 32 bytes, a NegRisk redemption is accepted exactly when
    -- the target is the adapter, the calldata is the selector, the condition of the intent in word
    -- 0 and an array behind word 1, every amount but that of the outcome of the intent is zero,
    -- and that amount is there and at most the maximum.
    pub validate_neg_risk_redeem_iff :
        (validate_neg_risk_redeem x target calldata intent ≡ ok tt)
        ↔ NegRiskCall target calldata intent
    validate_neg_risk_redeem_iff = (accepted_neg_risk, neg_risk_accepted)

  -- A call of `redeemPositions(collateral, parent, conditionId, indexSets)` on the CTF that redeems
  -- pUSD positions of the intent's condition, the union of the index sets being the outcome of the
  -- intent alone.
  pub record CtfCall (target calldata : Bytes) (intent : CtfRedeemIntent) : Type 0 where
    pub target_ok : target ≡ ctf
    pub args : Bytes
    pub split : calldata ≡ ctf_redeem x ++ args
    pub collateral : AddressAt args 0 pusd
    pub parent : WordAt args 1 (replicate 32 0)
    pub condition : WordAt args 2 intent.condition_id
    pub index_sets : List ℕ
    pub decoded : dynamic_u256_array args 4 3 ≡ ok index_sets
    pub union : foldl bit_or 0 index_sets ≡ 2 ^ intent.outcome_index

  module _ (target calldata : Bytes) (intent : CtfRedeemIntent) where
    accepted_ctf :
        validate_ctf_redeem x target calldata intent ≡ ok tt → CtfCall target calldata intent
    unfolding validate_ctf_redeem
    accepted_ctf h =
        let (t, h1) = guard-ok _ _ _ h in
        let (args, s, h2) = map_err-ok abi _ _ h1 in
        let (collateral, k, h3) = map_err-ok abi _ _ h2 in
        let (parent, p, h4) = map_err-ok abi _ _ h3 in
        let (condition_id, c, h5) = map_err-ok abi _ _ h4 in
        let (index_sets, d, h6) = map_err-ok abi _ _ h5 in
        let (k', h7) = guard-ok _ _ _ h6 in
        let (p', h8) = guard-ok _ _ _ h7 in
        let (c', h9) = guard-ok _ _ _ h8 in
        let (u, h10) = guard-ok _ _ _ h9 in
        let (wp, p_at, p_eq) = word_bytes32-ok args 1 (omega arith) p in
        let (wc, c_at, c_eq) = word_bytes32-ok args 2 (omega arith) c in
        record {
          target_ok = (bytes_eq_iff _ _).0 t;
          args = args;
          split = require_selector-ok calldata (ctf_redeem x) s;
          collateral = word_address-ok args 0 (omega arith) (k ∙ ap ok ((bytes_eq_iff _ _).0 k'));
          parent = subst (λ v. WordAt args 1 v) (p_eq ∙ (bytes_eq_iff _ _).0 p') p_at;
          condition = subst (λ v. WordAt args 2 v) (c_eq ∙ (bytes_eq_iff _ _).0 c') c_at;
          index_sets = index_sets;
          decoded = d;
          union = sym (union_of-foldl 0 index_sets) ∙ (==_iff _ _).0 u;
        }

    ctf_accepted :
        CtfCall target calldata intent → validate_ctf_redeem x target calldata intent ≡ ok tt
    unfolding validate_ctf_redeem
    ctf_accepted c = rw (
      (bytes_eq_iff _ _).1 c.target_ok,
      c.split,
      require_selector-at (ctf_redeem x) c.args length-ctf,
      AddressAt-reads 0 (omega arith) c.collateral,
      word_bytes32-at c.args 1 (omega arith) c.parent,
      word_bytes32-at c.args 2 (omega arith) c.condition,
      c.decoded,
      bytes_eq_self pusd,
      bytes_eq_self intent.condition_id,
      (==_iff _ _).1 (union_of-foldl 0 c.index_sets ∙ c.union),
    )

    -- Given that Keccak-256 digests have 32 bytes, a CTF redemption is accepted exactly when the
    -- target is the CTF, the calldata is the selector with pUSD, a zero parent collection and the
    -- condition of the intent in words 0 to 2 and an array behind word 3, and the fold of that
    -- array by binary `or`, from 0, is 2 to the power of the outcome of the intent.
    pub validate_ctf_redeem_iff :
        (validate_ctf_redeem x target calldata intent ≡ ok tt) ↔ CtfCall target calldata intent
    validate_ctf_redeem_iff = (accepted_ctf, ctf_accepted)
