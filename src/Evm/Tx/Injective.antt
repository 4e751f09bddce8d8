-- ===== src/Evm/Tx/Injective.antt =====
-- The payload that is signed determines the transaction.
use polylayer_tee.Prelude.{
  ℕ, ◌^◌, ◌<◌, ◌≡◌, refl, sym, ap, ◌∙◌, List, [], ◌∷◌, ◌++◌, Bytes, be_value, be_bytes, length,
  arith, be_value-be_bytes, be_value-zero, append_assoc, Bool-cases, inl, inr, ◌==◌, ==_iff,
}
use polylayer_tee.External.{RlpCall, append}
use polylayer_tee.Evm.Tx.{
  AccessListItem, Eip1559Tx, strip_zeros, append_uint, append_keys, append_items,
  append_access_list, unsigned_calls,
}

-- The numbers of a transaction have the widths of their types.
pub record InRange (tx : Eip1559Tx) : Type 0 where
  pub chain_id : tx.chain_id < 256 ^ 32
  pub nonce : tx.nonce < 256 ^ 32
  pub max_priority_fee_per_gas : tx.max_priority_fee_per_gas < 256 ^ 32
  pub max_fee_per_gas : tx.max_fee_per_gas < 256 ^ 32
  pub gas_limit : tx.gas_limit < 256 ^ 32
  pub value : tx.value < 256 ^ 32

be_value-strip_zeros : (bs : Bytes) → be_value (strip_zeros bs) ≡ be_value bs
unfolding strip_zeros
be_value-strip_zeros [] = refl
be_value-strip_zeros (b ∷ bs) = elim (Bool-cases (b == 0)) [
  | inl z ↦
      let e : b ≡ 0 = (==_iff b 0).0 z in rw e (be_value-strip_zeros bs ∙ sym (be_value-zero bs))
  | inr nz ↦ rw nz refl
]

append_inj : {a b : Bytes} → append a ≡ append b → a ≡ b
append_inj h = cc (h)

append_uint_inj : (m n : ℕ) → m < 256 ^ 32 → n < 256 ^ 32 → append_uint m ≡ append_uint n → m ≡ n
unfolding append_uint
append_uint_inj m n hm hn h =
    sym (be_value-strip_zeros (be_bytes 32 m) ∙ be_value-be_bytes 32 m hm)
    ∙ ap be_value (append_inj h)
    ∙ (be_value-strip_zeros (be_bytes 32 n) ∙ be_value-be_bytes 32 n hn)

append_keys_inj :
    (ks ls : List Bytes) (r s : List RlpCall)
    → length ks ≡ length ls
    → append_keys ks ++ r ≡ append_keys ls ++ s
    → (ks ≡ ls) × (r ≡ s)
unfolding append_keys
append_keys_inj [] [] r s e h = (refl, h)
append_keys_inj [] (l ∷ ls) r s e h = absurd (omega arith)
append_keys_inj (k ∷ ks) [] r s e h = absurd (omega arith)
append_keys_inj (k ∷ ks) (l ∷ ls) r s e h =
    let head : k ≡ l = cc (h) in
    let tail : append_keys ks ++ r ≡ append_keys ls ++ s = cc (h) in
    let (same, rest) = append_keys_inj ks ls r s (omega arith) tail in (cc (head, same), rest)

append_items_inj :
    (xs ys : List AccessListItem) (r s : List RlpCall)
    → length xs ≡ length ys
    → append_items xs ++ r ≡ append_items ys ++ s
    → (xs ≡ ys) × (r ≡ s)
unfolding append_items
append_items_inj [] [] r s e h = (refl, h)
append_items_inj [] (y ∷ ys) r s e h = absurd (omega arith)
append_items_inj (x ∷ xs) [] r s e h = absurd (omega arith)
append_items_inj (x ∷ xs) (y ∷ ys) r s e h =
    let address : x.address ≡ y.address = cc (h) in
    let count : length x.storage_keys ≡ length y.storage_keys = cc (h) in
    let back : (append_keys x.storage_keys ++ append_items xs) ++ r
        ≡ (append_keys y.storage_keys ++ append_items ys) ++ s =
      cc (h) in
    let (keys, later) =
      append_keys_inj x.storage_keys y.storage_keys (append_items xs ++ r) (append_items ys ++ s)
        count
        (sym (append_assoc (append_keys x.storage_keys) (append_items xs) r)
          ∙ back
          ∙ append_assoc (append_keys y.storage_keys) (append_items ys) s) in
    let (same, rest) = append_items_inj xs ys r s (omega arith) later in
    let item : x ≡ y = λ i. record { address = address i; storage_keys = keys i } in
    (cc (item, same), rest)

-- Two transactions whose numbers are below 2^256 and whose unsigned payloads make the same calls
-- on the RLP stream are equal.
pub unsigned_calls_inj :
    (t u : Eip1559Tx) → InRange t → InRange u → unsigned_calls t ≡ unsigned_calls u → t ≡ u
unfolding unsigned_calls append_access_list
unsigned_calls_inj t u f g h =
    let chain = append_uint_inj t.chain_id u.chain_id f.chain_id g.chain_id (cc (h)) in
    let nonce = append_uint_inj t.nonce u.nonce f.nonce g.nonce (cc (h)) in
    let priority =
      append_uint_inj t.max_priority_fee_per_gas u.max_priority_fee_per_gas
        f.max_priority_fee_per_gas g.max_priority_fee_per_gas (cc (h)) in
    let fee =
      append_uint_inj t.max_fee_per_gas u.max_fee_per_gas f.max_fee_per_gas g.max_fee_per_gas
        (cc (h)) in
    let gas = append_uint_inj t.gas_limit u.gas_limit f.gas_limit g.gas_limit (cc (h)) in
    let to : t.to ≡ u.to = cc (h) in
    let value = append_uint_inj t.value u.value f.value g.value (cc (h)) in
    let data_bytes : t.data_bytes ≡ u.data_bytes = cc (h) in
    let (list, _) = append_items_inj t.access_list u.access_list [] [] (cc (h)) (cc (h)) in
    λ i. record {
      chain_id = chain i;
      nonce = nonce i;
      max_priority_fee_per_gas = priority i;
      max_fee_per_gas = fee i;
      gas_limit = gas i;
      to = to i;
      value = value i;
      data_bytes = data_bytes i;
      access_list = list i;
    }
