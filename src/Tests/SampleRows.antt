-- ===== src/Tests/SampleRows.antt =====
-- A store that keeps every row, and a codec of Jupiter sessions, that the laws of `Store` hold of.
use polylayer_tee.Prelude.{
  ℕ, zero, suc, ◌≡◌, refl, sym, ap, ◌∙◌, true, false, List, [], ◌∷◌, ◌++◌, Bytes, Bool, bytes_eq,
  bytes_eq_iff, bytes_eq_self, if◌then◌else◌, Option, none, some, Outcome, ok, length, take, drop,
  take-append_left, drop-append_left, length-append, ◌≤◌, Bool-cases, inl, inr, arith, ◌==◌, ltb,
  ltb→lt, ◌<◌, ◌⊎◌,
}
use polylayer_tee.Store.{StorageError, Rows, RowsLaws, Codec, RoundTrips}
use polylayer_tee.Jupiter.Bounds.{JupiterSession}

-- What is stored under a key, with its TTL.
abbrev pub Table : Type 0
Table = Bytes → Option (Bytes × Option ℕ)

abbrev value_of : Option (Bytes × Option ℕ) → Option Bytes
value_of none = none
value_of (some (value, ttl)) = some value

abbrev ttl_of : Option (Bytes × Option ℕ) → Option ℕ
ttl_of none = none
ttl_of (some (value, ttl)) = ttl

-- A row is gone as soon as its TTL is in the past.
abbrev live : ℕ → Option (Bytes × Option ℕ) → Option (Bytes × Option ℕ)
live now none = none
live now (some (value, none)) = some (value, none)
live now (some (value, some e)) = if ltb e now then none else some (value, some e)

abbrev pub empty_table : Table
empty_table key = none

abbrev pub sample_rows : Rows
sample_rows = record {
  State = Table;
  read = λ key s. ok (value_of (s key));
  write = λ key value ttl s. ok (λ k. if bytes_eq k key then some (value, ttl) else s k);
  expires_at = λ key s. ttl_of (s key);
  sweep = λ now s. λ k. live now (s k);
}

ok_inj : {A : Type 0} {a b : A} → ◌≡◌ {A = Outcome StorageError A} (ok a) (ok b) → a ≡ b
ok_inj h = cc (h)

after_write :
    (key value : Bytes) (ttl : Option ℕ) (s s' : Table)
    → sample_rows.write key value ttl s ≡ ok s'
    → s' key ≡ some (value, ttl)
after_write key value ttl s s' e =
    let at : (if bytes_eq key key then some (value, ttl) else s key) ≡ s' key =
      ap (λ t. t key) (ok_inj e) in
    sym at ∙ rw (bytes_eq_self key) refl

live-cases :
    (now : ℕ) (row : Option (Bytes × Option ℕ))
    → (live now row ≡ row)
      ⊎ ((e : ℕ) × (ttl_of row ≡ some e) × (e < now) × (value_of (live now row) ≡ none))
live-cases now none = inl refl
live-cases now (some (value, none)) = inl refl
live-cases now (some (value, some e)) = elim (Bool-cases (ltb e now)) [
  | inl past ↦ inr (e, refl, ltb→lt e now past, rw past refl)
  | inr kept ↦ inl (rw kept refl)
]

pub sample_rows-RowsLaws : RowsLaws sample_rows
sample_rows-RowsLaws = record {
  read-write_self =
      λ key value ttl s s' e. ap (λ r. ok (value_of r)) (after_write key value ttl s s' e);
  read-write_ne = λ key other value ttl s s' e ne.
      let at : (if bytes_eq other key then some (value, ttl) else s other) ≡ s' other =
        ap (λ t. t other) (ok_inj e) in
      elim (Bool-cases (bytes_eq other key)) [
        | inl same ↦ absurd (ne ((bytes_eq_iff other key).0 same))
        | inr differ ↦ ap (λ r. ok (value_of r)) (sym at ∙ rw differ refl)
      ];
  write-expires_at = λ key value ttl s s' e. ap ttl_of (after_write key value ttl s s' e);
  sweep-cases = λ key now s. elim (live-cases now (s key)) [
    | inl same ↦ inl (ap (λ r. ok (value_of r)) same, ap ttl_of same)
    | inr (e, ttl, past, gone) ↦ inr (e, ttl, past, ap ok gone)
  ];
}

-- A text behind its length, in front of the rest.
abbrev put_text : Bytes → Bytes → Bytes
put_text t rest = length t ∷ (t ++ rest)

abbrev take_text : Bytes → Bytes × Bytes
take_text [] = ([], [])
take_text (n ∷ bs) = (take n bs, drop n bs)

abbrev put_texts : List Bytes → Bytes → Bytes
put_texts [] rest = 0 ∷ rest
put_texts (t ∷ ts) rest = 1 ∷ put_text t (put_texts ts rest)

abbrev put_bool : Bool → ℕ
put_bool false = 0
put_bool true = 1

abbrev to_vec : JupiterSession → Bytes
to_vec s =
    s.expires_at_unix_ts
    ∷ s.created_at_unix_ts
    ∷ put_bool s.revoked
    ∷ put_text s.solana_pubkey (
        put_text s.delegate_pubkey_b58 (
          put_text s.per_intent_max_size_usdc_atoms (
            put_text s.cumulative_size_usdc_cap (
              put_text s.cumulative_size_usdc_used
                (put_text s.surface (put_texts s.allowed_assets []))))))

-- On fuel: every text takes a byte at least.
abbrev take_texts : ℕ → Bytes → List Bytes
take_texts zero bs = []
take_texts (suc fuel) [] = []
take_texts (suc fuel) (flag ∷ bs) =
    let (t, rest) = take_text bs in
    let ts = take_texts fuel rest in if flag == 0 then [] else t ∷ ts

take_texts-put_texts :
    (ts : List Bytes) (fuel : ℕ) → length ts ≤ fuel → take_texts (suc fuel) (put_texts ts []) ≡ ts
take_texts-put_texts [] fuel h = refl
take_texts-put_texts (t ∷ ts) zero h = absurd (omega arith)
take_texts-put_texts (t ∷ ts) (suc fuel) h =
    rw
      (
        take-append_left t (put_texts ts []) (length t) refl,
        drop-append_left t (put_texts ts []) (length t) refl,
      )
      (ap (λ l. t ∷ l) (take_texts-put_texts ts fuel (omega arith)))

length-put_texts : (ts : List Bytes) → length ts ≤ length (put_texts ts [])
length-put_texts [] = omega arith
length-put_texts (t ∷ ts) = omega (arith, length-put_texts ts, length-append t (put_texts ts []))

abbrev from_slice : Bytes → Option JupiterSession
from_slice (expires ∷ created ∷ revoked ∷ bs) =
    let (solana_pubkey, bs1) = take_text bs in
    let (delegate, bs2) = take_text bs1 in
    let (per_intent, bs3) = take_text bs2 in
    let (cap, bs4) = take_text bs3 in
    let (used, bs5) = take_text bs4 in
    let (surface, bs6) = take_text bs5 in
    some (record {
      solana_pubkey = solana_pubkey;
      delegate_pubkey_b58 = delegate;
      per_intent_max_size_usdc_atoms = per_intent;
      cumulative_size_usdc_cap = cap;
      cumulative_size_usdc_used = used;
      allowed_assets = take_texts (suc (length bs6)) bs6;
      expires_at_unix_ts = expires;
      created_at_unix_ts = created;
      revoked = revoked == 1;
      surface = surface;
    })
from_slice _ = none

abbrev pub sample_codec : Codec JupiterSession
sample_codec = record { to_vec = to_vec; from_slice = from_slice }

put_bool_eq : (b : Bool) → (put_bool b == 1) ≡ b
put_bool_eq true = refl
put_bool_eq false = refl

pub sample_codec-RoundTrips : RoundTrips sample_codec
sample_codec-RoundTrips s =
    let t6 = put_texts s.allowed_assets [] in
    let t5 = put_text s.surface t6 in
    let t4 = put_text s.cumulative_size_usdc_used t5 in
    let t3 = put_text s.cumulative_size_usdc_cap t4 in
    let t2 = put_text s.per_intent_max_size_usdc_atoms t3 in
    let t1 = put_text s.delegate_pubkey_b58 t2 in
    rw
      (
        drop-append_left s.solana_pubkey t1 (length s.solana_pubkey) refl,
        take-append_left s.solana_pubkey t1 (length s.solana_pubkey) refl,
        drop-append_left s.delegate_pubkey_b58 t2 (length s.delegate_pubkey_b58) refl,
        take-append_left s.delegate_pubkey_b58 t2 (length s.delegate_pubkey_b58) refl,
        drop-append_left s.per_intent_max_size_usdc_atoms t3
            (length s.per_intent_max_size_usdc_atoms) refl,
        take-append_left s.per_intent_max_size_usdc_atoms t3
            (length s.per_intent_max_size_usdc_atoms) refl,
        drop-append_left s.cumulative_size_usdc_cap t4 (length s.cumulative_size_usdc_cap) refl,
        take-append_left s.cumulative_size_usdc_cap t4 (length s.cumulative_size_usdc_cap) refl,
        drop-append_left s.cumulative_size_usdc_used t5 (length s.cumulative_size_usdc_used) refl,
        take-append_left s.cumulative_size_usdc_used t5 (length s.cumulative_size_usdc_used) refl,
        drop-append_left s.surface t6 (length s.surface) refl,
        take-append_left s.surface t6 (length s.surface) refl,
        take_texts-put_texts s.allowed_assets (length t6) (length-put_texts s.allowed_assets),
        put_bool_eq s.revoked,
      )
      refl
