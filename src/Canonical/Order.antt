-- ===== src/Canonical/Order.antt =====
-- The canonical text of an object does not depend on the order of its fields.
use polylayer_tee.Prelude.{
  ◌≡◌, ◌≢◌, refl, sym, ap, ◌∙◌, ◌⊎◌, inl, inr, true, false, List, [], ◌∷◌, Bytes, Bool-cases,
  Outcome, ok, arith, >>=-eq-ok,
}
use polylayer_tee.External.{External}
use polylayer_tee.Json.{Value, Fields, object, field}
use polylayer_tee.Canonical.{
  CanonicalError, Entry, key_le, insert, sort, write_canonical, write_fields, canonicalize,
}

key_le_total : (a b : Bytes) → key_le a b ≡ false → key_le b a ≡ true
unfolding key_le
key_le_total [] b h = cc
key_le_total (x ∷ a) [] h = refl
key_le_total (x ∷ a) (y ∷ b) h = ground (arith, h, key_le_total a b)

key_le_antisym : (a b : Bytes) → key_le a b ≡ true → key_le b a ≡ true → a ≡ b
unfolding key_le
key_le_antisym [] [] h k = refl
key_le_antisym [] (y ∷ b) h k = cc
key_le_antisym (x ∷ a) [] h k = cc
key_le_antisym (x ∷ a) (y ∷ b) h k = ground (arith, h, k, key_le_antisym a b)

key_le_trans : (a b c : Bytes) → key_le a b ≡ true → key_le b c ≡ true → key_le a c ≡ true
unfolding key_le
key_le_trans [] b c h k = refl
key_le_trans (x ∷ a) [] c h k = cc
key_le_trans (x ∷ a) (y ∷ b) [] h k = cc
key_le_trans (x ∷ a) (y ∷ b) (z ∷ c) h k = ground (arith, h, k, key_le_trans a b c)

key_le_asym : (a b : Bytes) → a ≢ b → key_le a b ≡ true → key_le b a ≡ false
key_le_asym a b ne h = elim (Bool-cases (key_le b a)) [
  | inl k ↦ absurd (ne (key_le_antisym a b h k))
  | inr k ↦ k
]

insert-first :
    (e f : Entry) (es : List Entry) → key_le e.0 f.0 ≡ true → insert e (f ∷ es) ≡ e ∷ f ∷ es
unfolding insert
insert-first e f es h = rw h refl

insert-later :
    (e f : Entry) (es : List Entry) → key_le e.0 f.0 ≡ false → insert e (f ∷ es) ≡ f ∷ insert e es
unfolding insert
insert-later e f es h = rw h refl

insert-nil : (e f : Entry) → e.0 ≢ f.0 → insert e (insert f []) ≡ insert f (insert e [])
unfolding insert
insert-nil e f ne = elim (Bool-cases (key_le e.0 f.0)) [
  | inl ef ↦ rw (ef, key_le_asym e.0 f.0 ne ef) refl
  | inr ef ↦ rw (ef, key_le_total e.0 f.0 ef) refl
]

-- Insertions of entries with different keys commute: in front of `g`, around it and behind it.
insert-insert :
    (e f : Entry) (es : List Entry) → e.0 ≢ f.0 → insert e (insert f es) ≡ insert f (insert e es)
insert-insert e f [] ne = insert-nil e f ne
insert-insert e f (g ∷ es) ne =
    by_order (Bool-cases (key_le e.0 g.0)) (Bool-cases (key_le f.0 g.0)) (insert-insert e f es ne)
  where
    both_before :
        (a b : Entry)
        → a.0 ≢ b.0
        → key_le a.0 b.0 ≡ true
        → key_le a.0 g.0 ≡ true
        → key_le b.0 g.0 ≡ true
        → insert a (insert b (g ∷ es)) ≡ insert b (insert a (g ∷ es))
    both_before a b nab ab ag bg =
        ap (insert a) (insert-first b g es bg)
        ∙ insert-first a b (g ∷ es) ab
        ∙ sym (
            ap (insert b) (insert-first a g es ag)
            ∙ insert-later b a (g ∷ es) (key_le_asym a.0 b.0 nab ab)
            ∙ ap (λ t. a ∷ t) (insert-first b g es bg))

    around :
        (a b : Entry)
        → a.0 ≢ b.0
        → key_le a.0 g.0 ≡ true
        → key_le b.0 g.0 ≡ false
        → insert a (insert b (g ∷ es)) ≡ insert b (insert a (g ∷ es))
    around a b nab ag bg = elim (Bool-cases (key_le b.0 a.0)) [
      | inl ba ↦ let bg' = key_le_trans b.0 a.0 g.0 ba ag in absurd (cc (bg, bg'))
      | inr ba ↦
          ap (insert a) (insert-later b g es bg)
          ∙ insert-first a g (insert b es) ag
          ∙ sym (
              ap (insert b) (insert-first a g es ag)
              ∙ insert-later b a (g ∷ es) ba
              ∙ ap (λ t. a ∷ t) (insert-later b g es bg))
    ]

    by_order :
        (key_le e.0 g.0 ≡ true) ⊎ (key_le e.0 g.0 ≡ false)
        → (key_le f.0 g.0 ≡ true) ⊎ (key_le f.0 g.0 ≡ false)
        → insert e (insert f es) ≡ insert f (insert e es)
        → insert e (insert f (g ∷ es)) ≡ insert f (insert e (g ∷ es))
    by_order (inl eg) (inl fg) rest = elim (Bool-cases (key_le e.0 f.0)) [
      | inl ef ↦ both_before e f ne ef eg fg
      | inr ef ↦ sym (both_before f e (λ q. ne (sym q)) (key_le_total e.0 f.0 ef) fg eg)
    ]
    by_order (inl eg) (inr fg) rest = around e f ne eg fg
    by_order (inr eg) (inl fg) rest = sym (around f e (λ q. ne (sym q)) fg eg)
    by_order (inr eg) (inr fg) rest =
        ap (insert e) (insert-later f g es fg)
        ∙ insert-later e g (insert f es) eg
        ∙ ap (λ t. g ∷ t) rest
        ∙ sym (ap (insert f) (insert-later e g es eg) ∙ insert-later f g (insert e es) fg)

-- The same fields in another order: neighbours with different keys may change places.
pub data Reordered : Fields → Fields → Type 0 where
  same : (fields : Fields) → Reordered fields fields
  under :
      (key : Bytes) (v : Value) (fields gields : Fields)
      → Reordered fields gields
      → Reordered (field key v fields) (field key v gields)
  swap :
      (key lower : Bytes) (v w : Value) (fields : Fields)
      → key ≢ lower
      → Reordered (field key v (field lower w fields)) (field lower w (field key v fields))
  chain :
      (fields gields hields : Fields)
      → Reordered fields gields
      → Reordered gields hields
      → Reordered fields hields

module _ (x : External) where
  -- A field list is written if its head and its tail are.
  write_fields-cons :
      (k : Bytes) (v : Value) (fields : Fields) (es : List Entry)
      → write_fields x (field k v fields) ≡ ok es
      → (t : Bytes) × (rest : List Entry) × (write_canonical x v ≡ ok t)
        × (write_fields x fields ≡ ok rest)
        × (es ≡ (k, t) ∷ rest)
  unfolding write_fields
  write_fields-cons k v fields es h =
      let (t, a, h1) = >>=-eq-ok (write_canonical x v) _ h in
      let (rest, b, h2) = >>=-eq-ok (write_fields x fields) _ h1 in
      (t, rest, a, b, sym (entries_inj h2))
    where
      entries_inj :
          {p q : List Entry} → ◌≡◌ {A = Outcome CanonicalError (List Entry)} (ok p) (ok q) → p ≡ q
      entries_inj h = cc (h)

  cons-write_fields :
      (k : Bytes) (v : Value) (fields : Fields) (t : Bytes) (rest : List Entry)
      → write_canonical x v ≡ ok t
      → write_fields x fields ≡ ok rest
      → write_fields x (field k v fields) ≡ ok ((k, t) ∷ rest)
  unfolding write_fields
  cons-write_fields k v fields t rest a b = rw (a, b) refl

  write_fields-Reordered :
      (f g : Fields) (es : List Entry)
      → Reordered f g
      → write_fields x f ≡ ok es
      → (gs : List Entry) × (write_fields x g ≡ ok gs) × (sort es ≡ sort gs)
  unfolding sort
  write_fields-Reordered f g es (same fields) h = (es, h, refl)
  write_fields-Reordered f g es (under key v fields gields r) h =
      let (t, rest, a, b, e) = write_fields-cons key v fields es h in
      let (gs, c, s) = write_fields-Reordered fields gields rest r b in
      ((key, t) ∷ gs, cons-write_fields key v gields t gs a c, ap sort e ∙ ap (insert (key, t)) s)
  write_fields-Reordered f g es (swap key lower v w fields ne) h =
      let (t, rest, a, b, e) = write_fields-cons key v (field lower w fields) es h in
      let (u, later, c, d, e') = write_fields-cons lower w fields rest b in
      (
        (lower, u) ∷ (key, t) ∷ later,
        cons-write_fields lower w (field key v fields) u ((key, t) ∷ later) c
            (cons-write_fields key v fields t later a d),
        ap sort e
            ∙ ap (λ l. insert (key, t) (sort l)) e'
            ∙ insert-insert (key, t) (lower, u) (sort later) ne,
      )
  write_fields-Reordered f g es (chain fields gields hields p q) h =
      let (gs, b, s) = write_fields-Reordered fields gields es p h in
      let (hs, c, t) = write_fields-Reordered gields hields gs q b in (hs, c, s ∙ t)

  -- If an object has a canonical text, then the same object with its fields in another order,
  -- reached by exchanging neighbours with different keys, has the same text.
  pub canonicalize-Reordered :
      (f g : Fields) (t : Bytes)
      → Reordered f g
      → canonicalize x (object f) ≡ ok t
      → canonicalize x (object g) ≡ ok t
  unfolding canonicalize write_canonical
  canonicalize-Reordered f g t r h =
      let (es, w, h1) = >>=-eq-ok (write_fields x f) _ h in
      let (gs, c, s) = write_fields-Reordered f g es r w in rw (c, ← s) h1
