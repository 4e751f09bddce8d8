-- ===== src/Prelude/Words.antt =====
-- The readings of byte strings as numbers and their inverses: bounds and round trips.
use Prim.Native.Nat.{ℕ, zero, suc, ◌+◌, ◌*◌, ◌/◌, ◌%◌, ◌^◌, ◌<◌}
use mathlib.Core.Path.{◌≡◌, refl, ap, ◌∙◌}
use mathlib.Core.List.{[], ◌∷◌, ◌++◌, reverse, reverse-append, reverse-reverse}
use native.Mathlib.Omega.{arith}
use native.Mathlib.Nat.{pow-suc}
use polylayer_tee.Prelude.Lists.{length, All, length-append}
use polylayer_tee.Prelude.ByteStrings.{Bytes, IsByte, be_value, be_bytes, le_value, le_bytes}

pub All-append : (xs ys : Bytes) → All IsByte xs → All IsByte ys → All IsByte (xs ++ ys)
All-append [] ys h k = k
All-append (x ∷ xs) ys (h, hs) k = (h, All-append xs ys hs k)

pub length-le_bytes : (n v : ℕ) → length (le_bytes n v) ≡ n
unfolding le_bytes
length-le_bytes zero v = refl
length-le_bytes (suc n) v = ap suc (length-le_bytes n (v / 256))

pub le_bytes-IsByte : (n v : ℕ) → All IsByte (le_bytes n v)
unfolding le_bytes
le_bytes-IsByte zero v = tt
le_bytes-IsByte (suc n) v = (omega arith, le_bytes-IsByte n (v / 256))

pub le_value-le_bytes : (n v : ℕ) → v < 256 ^ n → le_value (le_bytes n v) ≡ v
unfolding le_value le_bytes
le_value-le_bytes zero v h = omega arith
le_value-le_bytes (suc n) v h =
    omega (arith, le_value-le_bytes n (v / 256) (omega (arith, pow-suc 256 n)))

pub le_value-lt : (bs : Bytes) → All IsByte bs → le_value bs < 256 ^ length bs
unfolding le_value
le_value-lt [] h = omega arith
le_value-lt (b ∷ bs) (h, hs) = omega (arith, le_value-lt bs hs, pow-suc 256 (length bs))

pub le_bytes-le_value : (bs : Bytes) → All IsByte bs → le_bytes (length bs) (le_value bs) ≡ bs
unfolding le_value le_bytes
le_bytes-le_value [] h = refl
le_bytes-le_value (b ∷ bs) (h, hs) =
    let low : (b + 256 * le_value bs) % 256 ≡ b = omega arith in
    let high : (b + 256 * le_value bs) / 256 ≡ le_value bs = omega arith in
    rw (low, high) (ap (λ t. b ∷ t) (le_bytes-le_value bs hs))

length-reverse : (xs : Bytes) → length (reverse xs) ≡ length xs
length-reverse [] = refl
length-reverse (x ∷ xs) =
    ap length (reverse-append (x ∷ []) xs)
    ∙ omega (arith, length-append (reverse xs) (x ∷ []), length-reverse xs)

reverse-IsByte : (xs : Bytes) → All IsByte xs → All IsByte (reverse xs)
reverse-IsByte [] h = tt
reverse-IsByte (x ∷ xs) (h, hs) =
    rw (reverse-append (x ∷ []) xs)
      (All-append (reverse xs) (x ∷ []) (reverse-IsByte xs hs) (h, tt))

pub length-be_bytes : (n v : ℕ) → length (be_bytes n v) ≡ n
unfolding be_bytes
length-be_bytes n v = length-reverse (le_bytes n v) ∙ length-le_bytes n v

pub be_bytes-IsByte : (n v : ℕ) → All IsByte (be_bytes n v)
unfolding be_bytes
be_bytes-IsByte n v = reverse-IsByte (le_bytes n v) (le_bytes-IsByte n v)

pub be_value-be_bytes : (n v : ℕ) → v < 256 ^ n → be_value (be_bytes n v) ≡ v
unfolding be_value be_bytes
be_value-be_bytes n v h = rw reverse-reverse (le_value-le_bytes n v h)

pub be_value-lt : (bs : Bytes) → All IsByte bs → be_value bs < 256 ^ length bs
unfolding be_value
be_value-lt bs h = rw (length-reverse bs) at (le_value-lt (reverse bs) (reverse-IsByte bs h))

-- A byte string is the one spelling of its number in its width.
pub be_bytes-be_value : (bs : Bytes) → All IsByte bs → be_bytes (length bs) (be_value bs) ≡ bs
unfolding be_value be_bytes
be_bytes-be_value bs h =
    let e : le_bytes (length bs) (le_value (reverse bs)) ≡ reverse bs =
      rw (length-reverse bs) at (le_bytes-le_value (reverse bs) (reverse-IsByte bs h)) in
    ap reverse e ∙ reverse-reverse bs

le_value-append :
    (bs cs : Bytes) → le_value (bs ++ cs) ≡ le_value bs + 256 ^ length bs * le_value cs
unfolding le_value
le_value-append [] cs = omega arith
le_value-append (b ∷ bs) cs =
    omega (arith, le_value-append bs cs, ap (λ p. p * le_value cs) (pow-suc 256 (length bs)))

-- A leading zero byte does not count.
pub be_value-zero : (bs : Bytes) → be_value (0 ∷ bs) ≡ be_value bs
unfolding be_value le_value
be_value-zero bs =
    ap le_value (reverse-append (0 ∷ []) bs) ∙ le_value-append (reverse bs) (0 ∷ []) ∙ omega arith
