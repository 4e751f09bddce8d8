-- ===== src/Tests/Parts.antt =====
-- Texts of records, put together from the texts of their fields, with the round trip that `Store`
-- asks of a codec.
use polylayer_tee.Prelude.{
  ℕ, zero, suc, ◌≡◌, refl, ap, Bool, true, false, List, [], ◌∷◌, ◌++◌, Bytes, Option, none, some,
  length, take, drop, take-append_left, drop-append_left, ◌==◌,
}
use polylayer_tee.Store.{Codec, RoundTrips}

-- A value written in front of other bytes, and read off the front.
pub record Part (A : Type 0) : Type 0 where
  pub put : A → Bytes → Bytes
  pub read : Bytes → A × Bytes
  pub trip : (a : A) (rest : Bytes) → read (put a rest) ≡ (a, rest)

abbrev read_nat : Bytes → ℕ × Bytes
read_nat [] = (0, [])
read_nat (n ∷ bs) = (n, bs)

abbrev pub nat_part : Part ℕ
nat_part = record { put = λ n rest. n ∷ rest; read = read_nat; trip = λ n rest. refl }

abbrev put_bool : Bool → Bytes → Bytes
put_bool false rest = 0 ∷ rest
put_bool true rest = 1 ∷ rest

abbrev read_bool : Bytes → Bool × Bytes
read_bool [] = (false, [])
read_bool (b ∷ bs) = (b == 1, bs)

pub read_bool-put_bool : (b : Bool) (rest : Bytes) → read_bool (put_bool b rest) ≡ (b, rest)
read_bool-put_bool true rest = refl
read_bool-put_bool false rest = refl

abbrev pub bool_part : Part Bool
bool_part = record { put = put_bool; read = read_bool; trip = read_bool-put_bool }

abbrev put_text : Bytes → Bytes → Bytes
put_text t rest = length t ∷ (t ++ rest)

abbrev read_text : Bytes → Bytes × Bytes
read_text [] = ([], [])
read_text (n ∷ bs) = (take n bs, drop n bs)

pub read_text-put_text : (t rest : Bytes) → read_text (put_text t rest) ≡ (t, rest)
read_text-put_text t rest =
    rw (take-append_left t rest (length t) refl, drop-append_left t rest (length t) refl) refl

abbrev pub text_part : Part Bytes
text_part = record { put = put_text; read = read_text; trip = read_text-put_text }

abbrev put_option : Option Bytes → Bytes → Bytes
put_option none rest = 0 ∷ rest
put_option (some t) rest = 1 ∷ put_text t rest

abbrev read_some : Bytes × Bytes → Option Bytes × Bytes
read_some (t, rest) = (some t, rest)

abbrev read_option : Bytes → Option Bytes × Bytes
read_option [] = (none, [])
read_option (zero ∷ bs) = (none, bs)
read_option (suc n ∷ bs) = read_some (read_text bs)

pub read_option-put_option :
    (o : Option Bytes) (rest : Bytes) → read_option (put_option o rest) ≡ (o, rest)
read_option-put_option none rest = refl
read_option-put_option (some t) rest = ap read_some (read_text-put_text t rest)

abbrev pub option_part : Part (Option Bytes)
option_part = record { put = put_option; read = read_option; trip = read_option-put_option }

abbrev put_all : List Bytes → Bytes → Bytes
put_all [] rest = rest
put_all (t ∷ ts) rest = put_text t (put_all ts rest)

abbrev put_texts : List Bytes → Bytes → Bytes
put_texts ts rest = length ts ∷ put_all ts rest

abbrev read_all : ℕ → Bytes → List Bytes × Bytes
read_all zero bs = ([], bs)
read_all (suc n) bs =
    let (t, rest) = read_text bs in let (ts, behind) = read_all n rest in (t ∷ ts, behind)

abbrev read_texts : Bytes → List Bytes × Bytes
read_texts [] = ([], [])
read_texts (n ∷ bs) = read_all n bs

pub read_all-put_all :
    (ts : List Bytes) (rest : Bytes) → read_all (length ts) (put_all ts rest) ≡ (ts, rest)
read_all-put_all [] rest = refl
read_all-put_all (t ∷ ts) rest =
    rw
      (
        take-append_left t (put_all ts rest) (length t) refl,
        drop-append_left t (put_all ts rest) (length t) refl,
        read_all-put_all ts rest,
      )
      refl

abbrev pub texts_part : Part (List Bytes)
texts_part = record { put = put_texts; read = read_texts; trip = read_all-put_all }

-- Two parts, one behind the other.
module _ {A B : Type 0} (p : Part A) (q : Part B) where
  abbrev put_pair : A × B → Bytes → Bytes
  put_pair (a, b) rest = p.put a (q.put b rest)

  abbrev read_pair : Bytes → (A × B) × Bytes
  read_pair bs = let (a, rest) = p.read bs in let (b, behind) = q.read rest in ((a, b), behind)

  pub read_pair-put_pair : (v : A × B) (rest : Bytes) → read_pair (put_pair v rest) ≡ (v, rest)
  read_pair-put_pair (a, b) rest = rw (p.trip a (q.put b rest), q.trip b rest) refl

  abbrev pub both : Part (A × B)
  both = record { put = put_pair; read = read_pair; trip = read_pair-put_pair }

-- A record by its fields.
module _ {A T : Type 0} (p : Part A) (fields : T → A) (make : A → T) where
  abbrev pub codec_of : Codec T
  codec_of = record {
    to_vec = λ v. p.put (fields v) [];
    from_slice = λ bs. some (make (p.read bs).0);
  }

  pub codec_of-RoundTrips : ((v : T) → make (fields v) ≡ v) → RoundTrips codec_of
  codec_of-RoundTrips same v = rw (p.trip (fields v) []) (ap some (same v))
