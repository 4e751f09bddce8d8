-- ===== src/Polymarket/Batch/Supplied.antt =====
-- The calls that a request repeats, and its purpose.
use polylayer_tee.Prelude.{
  ◌≡◌, ◌↔◌, refl, ap, ◌∙◌, true, ==_iff, ◌⊎◌, inl, inr, List, [], ◌∷◌, Bytes, bytes_eq_iff, text,
  Option, none, some, ok, arith, guard-true, >>=-eq-ok,
}
use polylayer_tee.External.{External}
use polylayer_tee.Api.{bad_request}
use polylayer_tee.Polymarket.Batch.{DepositWalletCall}
use polylayer_tee.Polymarket.Batch.Route.{
  CallInput, is_bootstrap, call_eq, calls_eq, parse_supplied_calls, check_supplied,
}

call_eq_iff : (a b : DepositWalletCall) → (call_eq a b ≡ true) ↔ (a ≡ b)
unfolding call_eq
call_eq_iff a b = ground (
  arith,
  bytes_eq_iff a.target b.target,
  ==_iff a.value b.value,
  bytes_eq_iff a.data_bytes b.data_bytes,
)

calls_eq_iff : (xs ys : List DepositWalletCall) → (calls_eq xs ys ≡ true) ↔ (xs ≡ ys)
unfolding calls_eq
calls_eq_iff [] [] = (λ h. refl, λ h. refl)
calls_eq_iff [] (y ∷ ys) = (λ h. cc, λ h. cc)
calls_eq_iff (x ∷ xs) [] = (λ h. cc, λ h. cc)
calls_eq_iff (x ∷ xs) (y ∷ ys) = ground (arith, call_eq_iff x y, calls_eq_iff xs ys)

pub is_bootstrap_iff :
    (p : Option Bytes) → (is_bootstrap p ≡ true) ↔ (p ≡ some (text "bootstrap_approvals"))
unfolding is_bootstrap
is_bootstrap_iff none = (λ h. cc, λ h. cc)
is_bootstrap_iff (some p) = ground (arith, bytes_eq_iff p (text "bootstrap_approvals"))

module _ (x : External) where
  pub check_supplied_iff :
      (cs : List CallInput) (calls : List DepositWalletCall)
      → (check_supplied x cs calls ≡ ok tt) ↔ ((cs ≡ []) ⊎ (parse_supplied_calls x cs ≡ ok calls))
  unfolding check_supplied
  check_supplied_iff [] calls = (λ h. inl refl, λ h. refl)
  check_supplied_iff (c ∷ cs) calls = (there, back)
    where
      there :
          check_supplied x (c ∷ cs) calls ≡ ok tt
          → (◌≡◌ {A = List CallInput} (c ∷ cs) []) ⊎ (parse_supplied_calls x (c ∷ cs) ≡ ok calls)
      there h =
          let (supplied, p, h1) = >>=-eq-ok (parse_supplied_calls x (c ∷ cs)) _ h in
          let same =
            guard-true (calls_eq supplied calls) (bad_request "non_canonical_bootstrap_batch") h1 in
          inr (p ∙ ap ok ((calls_eq_iff supplied calls).0 same))

      back :
          (◌≡◌ {A = List CallInput} (c ∷ cs) []) ⊎ (parse_supplied_calls x (c ∷ cs) ≡ ok calls)
          → check_supplied x (c ∷ cs) calls ≡ ok tt
      back (inl e) = cc
      back (inr p) = rw (p, (calls_eq_iff calls calls).1 refl)
