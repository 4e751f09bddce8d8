-- ===== src/Prelude/Errors.antt =====
-- What a call of the program does: it returns `Ok` or `Err`, or it panics. The release profile of
-- the root Cargo.toml sets overflow-checks and panic = "abort", so that an overflow, a slice out of
-- range and an `unwrap` of an error all end the process.
use Prim.Native.Nat.{ℕ, ◌+◌, ◌-◌, ◌*◌, ◌^◌, ◌≤◌}
use mathlib.Core.Path.{◌≡◌, refl}
use mathlib.Core.Logic.{◌⊎◌, inl, inr}
use mathlib.Core.Bool.{Bool, true, false, ◌&&◌}
use mathlib.Core.List.{List}
use mathlib.Core.Option.{Option, none, some}
use polylayer_tee.Prelude.Tests.{ltb, leb, le→leb, if◌then◌else◌}
use polylayer_tee.Prelude.Lists.{length, take, drop}

pub data Outcome {ℓ κ} (E : Type ℓ) (A : Type κ) : Type (ℓ ⊔ κ) where
  ok : A → Outcome E A
  err : E → Outcome E A
  panic : Outcome E A

infixl 5 ◌>>=◌ ◌>>◌
abbrev pub ◌>>=◌ {ℓ κ μ} :
    {E : Type ℓ} {A : Type κ} {B : Type μ} → Outcome E A → (A → Outcome E B) → Outcome E B
ok a >>= f = f a
err e >>= f = err e
panic >>= f = panic

abbrev pub ◌>>◌ {ℓ μ} : {E : Type ℓ} {B : Type μ} → Outcome E (Unit {0}) → Outcome E B → Outcome E B
m >> k = m >>= λ _. k

-- An early `return Err(e)` unless the test holds.
abbrev pub guard {ℓ} : {E : Type ℓ} → Bool → E → Outcome E (Unit {0})
guard true e = ok tt
guard false e = err e

-- `.map_err(f)`
abbrev pub map_err {ℓ κ μ} :
    {E : Type ℓ} {F : Type κ} {A : Type μ} → (E → F) → Outcome E A → Outcome F A
map_err f (ok a) = ok a
map_err f (err e) = err (f e)
map_err f panic = panic

-- `.ok_or(e)`
abbrev pub ok_or {ℓ κ} : {E : Type ℓ} {A : Type κ} → Option A → E → Outcome E A
ok_or none e = err e
ok_or (some a) e = ok a

-- `.expect(…)`
abbrev pub expect {ℓ κ} : {E : Type ℓ} {A : Type κ} → Option A → Outcome E A
expect none = panic
expect (some a) = ok a

-- `&xs[a..b]`
abbrev pub slice {ℓ κ} : {E : Type ℓ} {A : Type κ} → List A → ℕ → ℕ → Outcome E (List A)
slice xs a b = if leb a b && leb b (length xs) then ok (take (b - a) (drop a xs)) else panic

-- A sum and a product of `usize`, 64 bits wide: overflow-checks make an overflow a panic.
abbrev pub add_usize {ℓ} : {E : Type ℓ} → ℕ → ℕ → Outcome E ℕ
add_usize a b = if ltb (a + b) (2 ^ 64) then ok (a + b) else panic

abbrev pub mul_usize {ℓ} : {E : Type ℓ} → ℕ → ℕ → Outcome E ℕ
mul_usize a b = if ltb (a * b) (2 ^ 64) then ok (a * b) else panic

abbrev pub add_u128 {ℓ} : {E : Type ℓ} → ℕ → ℕ → Outcome E ℕ
add_u128 a b = if ltb (a + b) (2 ^ 128) then ok (a + b) else panic

-- Inversion of a bind that returned.
pub >>=-eq-ok {ℓ κ μ} :
    {E : Type ℓ} {A : Type κ} {B : Type μ} (call : Outcome E A) (next : A → Outcome E B)
    {result : B}
    → (call >>= next) ≡ ok result
    → (value : A) × (call ≡ ok value) × (next value ≡ ok result)
>>=-eq-ok panic next h = cc
>>=-eq-ok (err e) next h = cc
>>=-eq-ok (ok value) next h = (value, refl, h)

-- The same for a test and for a call whose error is mapped.
pub guard-ok {ℓ κ} :
    {E : Type ℓ} {B : Type κ} (b : Bool) (e : E) (k : Outcome E B) {r : B}
    → (guard b e >> k) ≡ ok r
    → (b ≡ true) × (k ≡ ok r)
guard-ok true e k h = (refl, h)
guard-ok false e k h = cc

pub guard-true {ℓ} : {E : Type ℓ} (b : Bool) (e : E) → guard b e ≡ ok tt → b ≡ true
guard-true true e h = refl
guard-true false e h = cc

pub map_err-ok {ℓ κ μ ν} :
    {E : Type ℓ} {F : Type κ} {A : Type μ} {B : Type ν} (f : E → F) (m : Outcome E A)
    (k : A → Outcome F B) {r : B}
    → (map_err f m >>= k) ≡ ok r
    → (a : A) × (m ≡ ok a) × (k a ≡ ok r)
map_err-ok f (ok a) k h = (a, refl, h)
map_err-ok f (err e) k h = cc
map_err-ok f panic k h = cc

pub ok_or-ok {ℓ κ μ} :
    {E : Type ℓ} {A : Type κ} {B : Type μ} (o : Option A) (e : E) (k : A → Outcome E B) {r : B}
    → (ok_or o e >>= k) ≡ ok r
    → (a : A) × (o ≡ some a) × (k a ≡ ok r)
ok_or-ok (some a) e k h = (a, refl, h)
ok_or-ok none e k h = cc

-- To split on an outcome and keep the equation.
pub Outcome-cases {ℓ κ} :
    {E : Type ℓ} {A : Type κ} (m : Outcome E A)
    → ((a : A) × (m ≡ ok a)) ⊎ ((e : E) × (m ≡ err e)) ⊎ (m ≡ panic)
Outcome-cases (ok a) = inl (a, refl)
Outcome-cases (err e) = inr (inl (e, refl))
Outcome-cases panic = inr (inr refl)

pub slice-within {ℓ κ} :
    {E : Type ℓ} {A : Type κ} (xs : List A) (a b : ℕ)
    → a ≤ b
    → b ≤ length xs
    → slice {E = E} xs a b ≡ ok (take (b - a) (drop a xs))
slice-within xs a b h k = rw (le→leb a b h, le→leb b (length xs) k)

-- A call whose missing result is a panic.
pub expect-ok {ℓ κ μ} :
    {E : Type ℓ} {A : Type κ} {B : Type μ} (o : Option A) (k : A → Outcome E B) {r : B}
    → (expect o >>= k) ≡ ok r
    → (a : A) × (o ≡ some a) × (k a ≡ ok r)
expect-ok none k h = cc
expect-ok (some a) k h = (a, refl, h)

pub ok_inj {ℓ κ} : {E : Type ℓ} {A : Type κ} {a b : A} → ◌≡◌ {A = Outcome E A} (ok a) (ok b) → a ≡ b
ok_inj h = cc (h)
