-- ===== src/Sessions/Index.antt =====
-- The row with the ids of a user's sessions: an id is appended once.
use polylayer_tee.Prelude.{
  subst, ◌≡◌, ◌≢◌, refl, sym, ap, ◌∙◌, inl, inr, Bool, true, false, ◌||◌, List, [], ◌∷◌, ◌++◌,
  Bytes, bytes_eq, bytes_eq_iff, bytes_eq_self, Option, none, some, Outcome, ok, err, panic,
  if◌then◌else◌, arith, Bool-cases,
}
use polylayer_tee.Api.{ApiError, Exec-ok, continue}
use polylayer_tee.Store.{Rows, RowsLaws, Codec, RoundTrips, store_get, store_put}
use polylayer_tee.Store.Access.{store_get-HoldsRow, store_put-ok, store_put-cases, store_get-ok}
use polylayer_tee.Jupiter.Bounds.{contains}
use polylayer_tee.Sessions.{SessionIndex, ids_of, add_id, append_to_index}

contains-append :
    (xs : List Bytes) (id a : Bytes) → contains (xs ++ id ∷ []) a ≡ (contains xs a || bytes_eq id a)
unfolding contains
contains-append [] id a = ground arith
contains-append (x ∷ xs) id a = ground (arith, contains-append xs id a)

bytes_eq_sym : (a b : Bytes) → bytes_eq a b ≡ false → bytes_eq b a ≡ false
bytes_eq_sym a b h = elim (Bool-cases (bytes_eq b a)) [
  | inr e ↦ e
  | inl e ↦
      let same = (bytes_eq_iff b a).0 e in
      let z : bytes_eq a a ≡ false = rw same at h in ground (arith, bytes_eq_self a, z)
]

-- No id twice.
abbrev pub NoDup : List Bytes → Type 0
NoDup [] = Unit
NoDup (x ∷ xs) = (contains xs x ≡ false) × NoDup xs

append-NoDup :
    (ids : List Bytes) (id : Bytes) → contains ids id ≡ false → NoDup ids → NoDup (ids ++ id ∷ [])
unfolding contains
append-NoDup [] id h d = (refl, tt)
append-NoDup (x ∷ xs) id h (fresh, d) =
    let ne : bytes_eq x id ≡ false = ground (arith, h) in
    let rest : contains xs id ≡ false = ground (arith, h) in
    (
      contains-append xs id x ∙ ground (arith, fresh, bytes_eq_sym x id ne),
      append-NoDup xs id rest d,
    )

module _ (rows : Rows) (indices : Codec SessionIndex) (laws : RowsLaws rows)
    (trips : RoundTrips indices) where
  -- The store lists the id under the key.
  pub record Lists (key id : Bytes) (s : rows.State) : Type 0 where
    pub index : SessionIndex
    pub readable : (store_get rows indices key s).0 ≡ ok (some index)
    pub listed : contains index.session_ids id ≡ true

  abbrev IsAppended : Bytes → Bytes → rows.State → rows.State → Type 0
  IsAppended key id s s' =
      Lists key id s' × ((other : Bytes) → other ≢ key → rows.read other s' ≡ rows.read other s)

  contains_last : (ids : List Bytes) (id : Bytes) → contains (ids ++ id ∷ []) id ≡ true
  contains_last ids id = contains-append ids id id ∙ ground (arith, bytes_eq_self id)

  -- The id was there, so that the index was, and nothing is written.
  already_listed :
      (key id : Bytes) (index : Option SessionIndex) (s : rows.State)
      → (store_get rows indices key s).0 ≡ ok index
      → contains (ids_of index) id ≡ true
      → IsAppended key id s s
  unfolding ids_of contains
  already_listed key id none s e old = cc (old)
  already_listed key id (some index) s e old =
      (record { index = index; readable = e; listed = old }, λ other ne. refl)

  add_id-IsAppended :
      (key id : Bytes) (index : Option SessionIndex) (s : rows.State) {s' : rows.State}
      → (store_get rows indices key s).0 ≡ ok index
      → add_id rows indices key id (ids_of index) s ≡ (ok tt, s')
      → IsAppended key id s s'
  unfolding add_id
  add_id-IsAppended key id index s {s'} e h = elim (Bool-cases (contains (ids_of index) id)) [
    | inl old ↦
        let stays = rw old at h in
        let same : s ≡ s' = ap (λ p. p.1) stays in
        subst (IsAppended key id s) same (already_listed key id index s e old)
    | inr new ↦
        let next : SessionIndex = record { session_ids = ids_of index ++ id ∷ [] } in
        let (holds, others) = store_put-ok rows indices trips laws key next none s (rw new at h) in
        let read = store_get-HoldsRow rows indices trips key next s' holds in
        (
          record {
            index = next;
            readable = ap (λ p. p.0) read;
            listed = contains_last (ids_of index) id;
          },
          others,
        )
  ]

  pub append_to_index-IsAppended :
      (key id : Bytes) (s : rows.State) {s' : rows.State}
      → append_to_index rows indices key id s ≡ (ok tt, s')
      → IsAppended key id s s'
  unfolding append_to_index
  append_to_index-IsAppended key id s {s'} h =
      let (index, s1, e, h1) = Exec-ok (store_get rows indices key) _ s h in
      let (same, read) = store_get-ok rows indices trips key s e in
      add_id-IsAppended key id index s read (rw same at h1)

  -- The index under a key, if it can be read, has no id twice.
  abbrev pub IsDistinct : Bytes → rows.State → Type 0
  IsDistinct key s =
      (index : SessionIndex)
      → (store_get rows indices key s).0 ≡ ok (some index)
      → NoDup index.session_ids

  ids_of-NoDup :
      (key : Bytes) (index : Option SessionIndex) (s : rows.State)
      → (store_get rows indices key s).0 ≡ ok index
      → IsDistinct key s
      → NoDup (ids_of index)
  unfolding ids_of
  ids_of-NoDup key none s e d = tt
  ids_of-NoDup key (some index) s e d = d index e

  -- A write of an index without repetition.
  put-IsDistinct :
      (key : Bytes) (next : SessionIndex) (s : rows.State)
      → NoDup next.session_ids
      → IsDistinct key s
      → IsDistinct key (store_put rows indices key next none s).1
  put-IsDistinct key next s fine d =
      elim (store_put-cases rows indices trips laws key next none s) [
        | inl (s', e, holds, others) ↦ rw e λ index read.
            let was = store_get-HoldsRow rows indices trips key next s' holds in
            let same : index ≡ next = some_inj (sym read ∙ ap (λ p. p.0) was) in rw same fine
        | inr (m, e, ne) ↦ rw e d
      ]
    where
      some_inj :
          {a b : SessionIndex}
          → ◌≡◌ {A = Outcome ApiError (Option SessionIndex)} (ok (some a)) (ok (some b))
          → a ≡ b
      some_inj h = cc (h)

  add_id-IsDistinct :
      (key id : Bytes) (ids : List Bytes) (s : rows.State)
      → NoDup ids
      → IsDistinct key s
      → IsDistinct key (add_id rows indices key id ids s).1
  unfolding add_id
  add_id-IsDistinct key id ids s fine d = elim (Bool-cases (contains ids id)) [
    | inl old ↦ rw old d
    | inr new ↦ rw new (
        put-IsDistinct key (record { session_ids = ids ++ id ∷ [] }) s
          (append-NoDup ids id new fine) d)
  ]

  pub append_to_index-IsDistinct :
      (key id : Bytes) (s : rows.State)
      → IsDistinct key s
      → IsDistinct key (append_to_index rows indices key id s).1
  unfolding append_to_index store_get
  append_to_index-IsDistinct key id s d = by_read (store_get rows indices key s).0 refl
    where
      by_read :
          (m : Outcome ApiError (Option SessionIndex))
          → (store_get rows indices key s).0 ≡ m
          → IsDistinct key (continue m (λ index. add_id rows indices key id (ids_of index)) s).1
      by_read (ok index) e =
          add_id-IsDistinct key id (ids_of index) s (ids_of-NoDup key index s e d) d
      by_read (err y) e = d
      by_read panic e = d

  -- Whatever it answers, it leaves the other rows.
  put_others :
      (key other : Bytes) (next : SessionIndex) (s : rows.State)
      → other ≢ key
      → rows.read other (store_put rows indices key next none s).1 ≡ rows.read other s
  put_others key other next s ne = elim (store_put-cases rows indices trips laws key next none s) [
    | inl (s', e, holds, others) ↦ rw e (others other ne)
    | inr (m, e, nok) ↦ rw e refl
  ]

  pub append_to_index_others :
      (key id other : Bytes) (s : rows.State)
      → other ≢ key
      → rows.read other (append_to_index rows indices key id s).1 ≡ rows.read other s
  unfolding append_to_index store_get add_id
  append_to_index_others key id other s ne = by_read (store_get rows indices key s).0
    where
      by_test :
          (ids : List Bytes) (b : Bool)
          → rows.read other
              (if b
                then (ok tt, s)
                else store_put rows indices key (record { session_ids = ids ++ id ∷ [] }) none s).1
            ≡ rows.read other s
      by_test ids true = refl
      by_test ids false = put_others key other (record { session_ids = ids ++ id ∷ [] }) s ne

      by_read :
          (m : Outcome ApiError (Option SessionIndex))
          → rows.read other (continue m (λ index. add_id rows indices key id (ids_of index)) s).1
            ≡ rows.read other s
      by_read (ok index) = by_test (ids_of index) (contains (ids_of index) id)
      by_read (err y) = refl
      by_read panic = refl
