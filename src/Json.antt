-- ===== src/Json.antt =====
-- serde_json values as the program reads them: crates/core/src/canonical.rs and every route match
-- on `Value`. A text is its UTF-8 bytes; an object lists its fields in iteration order. A number is
-- a u64, a negative i64 (`neg_int n` is -(n + 1)) or a float, known by its text.
use polylayer_tee.Prelude.{
  ℕ, Bool, List, [], ◌∷◌, Bytes, bytes_eq, Option, none, some, if◌then◌else◌,
}

pub data Number : Type 0 where
  pos_int : ℕ → Number
  neg_int : ℕ → Number
  float : Bytes → Number

mutual
  pub data Value : Type 0 where
    null : Value
    bool : Bool → Value
    number : Number → Value
    string : Bytes → Value
    object : Fields → Value
    array : Items → Value

  pub data Fields : Type 0 where
    end : Fields
    field : Bytes → Value → Fields → Fields

  pub data Items : Type 0 where
    nil : Items
    cons : Value → Items → Items

unfoldable pub find : Bytes → Fields → Option Value
find key end = none
find key (field k v fields) = if bytes_eq k key then some v else find key fields

-- `Value::get` with a text, and the readers of one kind of value.
unfoldable pub get : Value → Bytes → Option Value
get (object fields) key = find key fields
get _ key = none

unfoldable pub as_str : Value → Option Bytes
as_str (string s) = some s
as_str _ = none

unfoldable pub as_u64 : Value → Option ℕ
as_u64 (number (pos_int n)) = some n
as_u64 _ = none

unfoldable pub as_array : Value → Option Items
as_array (array items) = some items
as_array _ = none

-- `.and_then(Value::as_str)` and `.and_then(Value::as_u64)` behind a `get`
abbrev pub get_str : Value → Bytes → Option Bytes
get_str v key = elim (get v key) [ none ↦ none | some w ↦ as_str w ]

abbrev pub get_u64 : Value → Bytes → Option ℕ
get_u64 v key = elim (get v key) [ none ↦ none | some w ↦ as_u64 w ]

-- `a.iter().filter_map(|v| v.as_str().map(str::to_string)).collect()`
unfoldable pub strings_of : Items → List Bytes
strings_of nil = []
strings_of (cons v items) =
    let rest = strings_of items in elim (as_str v) [ none ↦ rest | some s ↦ s ∷ rest ]
