-- ===== src/Canonical.antt =====
-- crates/core/src/canonical.rs: the one text of a JSON value over which a wallet signs.
pub mod Order
use polylayer_tee.Prelude.{
  Bool, true, false, List, [], ◌∷◌, ◌++◌, Bytes, text, ltb, ◌==◌, ◌||◌, ◌&&◌, if◌then◌else◌,
  Outcome, ok, ◌>>=◌, ◌>>◌, guard,
}
use polylayer_tee.External.{External}
use polylayer_tee.Json.{
  Number, pos_int, neg_int, float, Value, null, bool, number, string, array, object, Items, nil,
  cons, Fields, end, field,
}

pub data CanonicalError : Type 0 where
  non_finite_number : CanonicalError
  unsupported_variant : CanonicalError

-- The order of `Ord for str`: bytewise, a proper prefix first.
unfoldable pub key_le : Bytes → Bytes → Bool
key_le [] k = true
key_le (x ∷ j) [] = false
key_le (x ∷ j) (y ∷ k) = ltb x y || ((x == y) && key_le j k)

-- A field of an object: its key and the text of its value.
abbrev pub Entry : Type 0
Entry = Bytes × Bytes

-- `keys.sort()`, with the values' texts beside the keys.
unfoldable pub insert : Entry → List Entry → List Entry
insert e [] = e ∷ []
insert e (f ∷ es) = let rest = insert e es in if key_le e.0 f.0 then e ∷ f ∷ es else f ∷ rest

unfoldable pub sort : List Entry → List Entry
sort [] = []
sort (e ∷ es) = insert e (sort es)

-- A comma before every element but the first.
abbrev pub separator : Bool → Bytes
separator first = if first then [] else text ","

module _ (x : External) where
  open x use {json_string, json_number, is_finite}

  unfoldable pub number_text : Number → Outcome CanonicalError Bytes
  number_text (float t) = do guard (is_finite t) non_finite_number; ok (json_number (float t))
  number_text (pos_int n) = ok (json_number (pos_int n))
  number_text (neg_int n) = ok (json_number (neg_int n))

  unfoldable pub entries_text : Bool → List Entry → Bytes
  entries_text first [] = []
  entries_text first ((k, t) ∷ es) =
      separator first ++ (json_string k ++ (text ":" ++ (t ++ entries_text false es)))

  -- The values of an object are written here before the keys are sorted. The source writes them in
  -- the order of the keys; a value fails in one way only, so that the result is the same.
  unfoldable mutual
    pub write_canonical : Value → Outcome CanonicalError Bytes
    write_canonical null = ok (text "null")
    write_canonical (bool true) = ok (text "true")
    write_canonical (bool false) = ok (text "false")
    write_canonical (string s) = ok (json_string s)
    write_canonical (number n) = number_text n
    write_canonical (array items) = do
      body ← write_items items true
      ok (text "[" ++ (body ++ text "]"))
    write_canonical (object fields) = do
      entries ← write_fields fields
      ok (text "{" ++ (entries_text true (sort entries) ++ text "}"))

    pub write_items : Items → Bool → Outcome CanonicalError Bytes
    write_items nil first = ok []
    write_items (cons v items) first = do
      t ← write_canonical v
      rest ← write_items items false
      ok (separator first ++ (t ++ rest))

    pub write_fields : Fields → Outcome CanonicalError (List Entry)
    write_fields end = ok []
    write_fields (field k v fields) = do
      t ← write_canonical v
      rest ← write_fields fields
      ok ((k, t) ∷ rest)

  unfoldable pub canonicalize : Value → Outcome CanonicalError Bytes
  canonicalize input = write_canonical input

  -- A text is its bytes here.
  unfoldable pub canonical_bytes : Value → Outcome CanonicalError Bytes
  unfolding canonicalize
  canonical_bytes input = canonicalize input
