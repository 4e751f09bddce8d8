-- ===== src/Api.antt =====
-- crates/server/src/error.rs: the error of a route, without its text for humans; and the actions of
-- the routes, which read and write the session table and may fail on the way.
use polylayer_tee.Prelude.{ℕ, ◌≡◌, refl, Bool, Bytes, Option, Outcome, ok, err, panic, guard, ok_or}
use Prim.Native.String.{String}

pub record ApiError : Type 0 where
  pub status : ℕ
  pub code : String

abbrev pub bad_request : String → ApiError
bad_request code = record { status = 400; code = code }

abbrev pub internal : ApiError
internal = record { status = 500; code = "internal" }

abbrev pub not_found : String → ApiError
not_found code = record { status = 404; code = code }

abbrev pub unavailable : String → ApiError
unavailable code = record { status = 503; code = code }

abbrev pub conflict : String → ApiError
conflict code = record { status = 409; code = code }

abbrev pub not_implemented : String → ApiError
not_implemented code = record { status = 501; code = code }

-- `state.sessions()` of crates/server/src/main.rs and the routes' clock: `none` is a clock before
-- the epoch.
pub record AppState : Type 0 where
  pub seed : Bytes
  pub has_sessions : Bool

abbrev pub sessions : AppState → Outcome ApiError (Unit {0})
sessions app = guard app.has_sessions (unavailable "sessions_unavailable")

abbrev pub now_unix : Option ℕ → Outcome ApiError ℕ
now_unix clock = ok_or clock internal

-- What was written before a failure stays written, so the state comes back beside an error too.
abbrev pub Exec {ℓ κ} : Type ℓ → Type κ → Type (ℓ ⊔ κ)
Exec S A = S → Outcome ApiError A × S

module _ {ℓ κ} {S : Type ℓ} {A : Type κ} where
  abbrev pub pure : A → Exec S A
  pure a s = (ok a, s)

  abbrev pub lift : Outcome ApiError A → Exec S A
  lift m s = (m, s)

module _ {ℓ κ μ} {S : Type ℓ} {A : Type κ} {B : Type μ} where
  abbrev pub continue : Outcome ApiError A → (A → Exec S B) → Exec S B
  continue panic f s = (panic, s)
  continue (err e) f s = (err e, s)
  continue (ok a) f s = f a s

  infixl 5 ◌>>=◌ ◌>>◌
  abbrev pub ◌>>=◌ : Exec S A → (A → Exec S B) → Exec S B
  ◌>>=◌ action next s = continue (action s).0 next (action s).1

  abbrev pub ◌>>◌ : Exec S A → Exec S B → Exec S B
  first >> second = first >>= λ _. second

module _ {ℓ κ μ} {S : Type ℓ} {A : Type κ} {B : Type μ} where
  -- A property of the state survives a pure step if it survives what follows a success.
  pub lift-keeps {ν} :
      (P : S → Type ν) (m : Outcome ApiError A) (k : A → Exec S B) (s : S)
      → P s
      → ((a : A) → m ≡ ok a → P (k a s).1)
      → P ((lift m >>= k) s).1
  lift-keeps P (ok a) k s p h = h a refl
  lift-keeps P (err e) k s p h = p
  lift-keeps P panic k s p h = p

  -- Returning a value behind an action leaves the state of the action.
  pub then_pure : (m : Exec S A) (b : B) (s : S) → ((m >>= λ _. pure b) s).1 ≡ (m s).1
  then_pure m b s = by_result (m s).0 (m s).1
    where
      by_result : (r : Outcome ApiError A) (s' : S) → (continue r (λ _. pure b) s').1 ≡ s'
      by_result (ok a) s' = refl
      by_result (err e) s' = refl
      by_result panic s' = refl

  -- Inversion of a step that was done, and of a pure step.
  pub Exec-ok :
      (m : Exec S A) (k : A → Exec S B) (s : S) {b : B} {s' : S}
      → (m >>= k) s ≡ (ok b, s')
      → (a : A) × (s1 : S) × (m s ≡ (ok a, s1)) × (k a s1 ≡ (ok b, s'))
  Exec-ok m k s {b} {s'} h = by_result (m s).0 (m s).1 refl h
    where
      by_result :
          (r : Outcome ApiError A) (s1 : S)
          → m s ≡ (r, s1)
          → continue r k s1 ≡ (ok b, s')
          → (a : A) × (s1 : S) × (m s ≡ (ok a, s1)) × (k a s1 ≡ (ok b, s'))
      by_result (ok a) s1 e h = (a, s1, e, h)
      by_result (err e') s1 e h = cc (h)
      by_result panic s1 e h = cc (h)

  pub lift-ok :
      (m : Outcome ApiError A) (k : A → Exec S B) (s : S) {b : B} {s' : S}
      → (lift m >>= k) s ≡ (ok b, s')
      → (a : A) × (m ≡ ok a) × (k a s ≡ (ok b, s'))
  lift-ok (ok a) k s h = (a, refl, h)
  lift-ok (err e) k s h = cc (h)
  lift-ok panic k s h = cc (h)

  -- What holds of every failure of a pure step and of what follows a success holds of the whole.
  pub lift-cases {ν} :
      (P : Outcome ApiError B × S → Type ν) (m : Outcome ApiError A) (k : A → Exec S B) (s : S)
      → ((e : ApiError) → P (err e, s))
      → P (panic, s)
      → ((a : A) → m ≡ ok a → P (k a s))
      → P ((lift m >>= k) s)
  lift-cases P (ok a) k s failed panicked h = h a refl
  lift-cases P (err e) k s failed panicked h = failed e
  lift-cases P panic k s failed panicked h = panicked
