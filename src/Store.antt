-- ===== src/Store.antt =====
-- crates/storage/src/session_store.rs as the routes use it: typed rows under text keys. `Rows` is
-- what a store of JSON texts offers; `Codec` is serde_json for one type of row.
pub mod Access
use polylayer_tee.Prelude.{
  ℕ, ◌≡◌, ◌≢◌, ◌<◌, ◌⊎◌, Bytes, Option, none, some, Outcome, ok, err, panic,
}
use polylayer_tee.Api.{ApiError, internal, Exec}

pub data StorageError : Type 0 where
  aws decrypt encrypt not_found nsm config io : StorageError

-- Reading answers with the stored JSON text of a key; writing takes a DynamoDB expiry too.
pub record Rows : Type 1 where
  pub State : Type 0
  pub read : Bytes → State → Outcome StorageError (Option Bytes)
  pub write : Bytes → Bytes → Option ℕ → State → Outcome StorageError State
  -- The TTL attribute of a key's row, and the state after the table has deleted what it has by a
  -- time.
  pub expires_at : Bytes → State → Option ℕ
  pub sweep : ℕ → State → State

-- Documented behaviour of DynamoDB. A read answers with the last write under the key: `get_item`
-- asks for no consistent read, so this holds of reads made once that write has spread. A row is
-- deleted by the table when its TTL attribute is in the past, at some time or other, and not
-- before.
pub record RowsLaws (r : Rows) : Type 0 where
  pub read-write_self :
      (key value : Bytes) (ttl : Option ℕ) (s s' : r.State)
      → r.write key value ttl s ≡ ok s'
      → r.read key s' ≡ ok (some value)
  pub read-write_ne :
      (key other value : Bytes) (ttl : Option ℕ) (s s' : r.State)
      → r.write key value ttl s ≡ ok s'
      → other ≢ key
      → r.read other s' ≡ r.read other s
  pub write-expires_at :
      (key value : Bytes) (ttl : Option ℕ) (s s' : r.State)
      → r.write key value ttl s ≡ ok s'
      → r.expires_at key s' ≡ ttl
  pub sweep-cases :
      (key : Bytes) (now : ℕ) (s : r.State)
      → ((r.read key (r.sweep now s) ≡ r.read key s)
          × (r.expires_at key (r.sweep now s) ≡ r.expires_at key s))
        ⊎ ((e : ℕ) × (r.expires_at key s ≡ some e)
            × (e < now)
            × (r.read key (r.sweep now s) ≡ ok none))

pub record Codec (T : Type 0) : Type 0 where
  pub to_vec : T → Bytes
  pub from_slice : Bytes → Option T

-- Documented behaviour of a derived `Serialize` and `Deserialize` pair.
abbrev pub RoundTrips : {T : Type 0} → Codec T → Type 0
RoundTrips {T} c = (v : T) → c.from_slice (c.to_vec v) ≡ some v

module _ (r : Rows) {T : Type 0} (c : Codec T) where
  decoded : Outcome StorageError (Option Bytes) → Outcome ApiError (Option T)
  decoded (ok none) = ok none
  decoded (ok (some t)) = elim (c.from_slice t) [ none ↦ err internal | some v ↦ ok (some v) ]
  decoded (err e) = err internal
  decoded panic = panic

  -- `store.get::<T>(key)`, its error mapped to an internal one
  unfoldable pub store_get : Bytes → Exec r.State (Option T)
  unfolding decoded
  store_get key s = (decoded (r.read key s), s)

  -- `store.put(key, value, ttl)`, its error mapped to an internal one
  unfoldable pub store_put : Bytes → T → Option ℕ → Exec r.State (Unit {0})
  store_put key v ttl s = elim (r.write key (c.to_vec v) ttl s) [
    | ok s' ↦ (ok tt, s')
    | err e ↦ (err internal, s)
    | panic ↦ (panic, s)
  ]
