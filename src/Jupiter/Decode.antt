-- ===== src/Jupiter/Decode.antt =====
-- crates/core/src/jupiter/decode.rs: the borsh reader and the decoder of the two perpetuals
-- instructions. A public key is its 32 bytes.
pub mod Reads
pub mod RoundTrip
use polylayer_tee.Prelude.{
  ℕ, ◌+◌, Bool, true, false, List, [], ◌∷◌, Bytes, bytes_eq, le_value, text, ltb, leb, ◌==◌, not,
  if◌then◌else◌, length, get_elem?, take, drop, Option, none, some, Outcome, ok, err, ◌>>=◌, ◌>>◌,
  guard, ok_or, add_usize, slice, expect,
}
use Prim.Native.String.{String}
use polylayer_tee.External.{External}

pub record AccountIndex : Type 0 where
  pub owner : ℕ
  pub custody : ℕ
  pub collateral_custody : ℕ

abbrev pub increase_account_index : AccountIndex
increase_account_index = record { owner = 0; custody = 7; collateral_custody = 8 }

abbrev pub decrease_account_index : AccountIndex
decrease_account_index = record { owner = 0; custody = 7; collateral_custody = 8 }

pub record IncreaseArgs : Type 0 where
  pub size_usd_delta : ℕ
  pub collateral_token_delta : ℕ
  pub side : ℕ
  pub price_slippage : ℕ
  pub jupiter_minimum_out : Option ℕ
  pub counter : ℕ

pub record DecreaseArgs : Type 0 where
  pub collateral_usd_delta : ℕ
  pub size_usd_delta : ℕ
  pub price_slippage : ℕ
  pub jupiter_minimum_out : Option ℕ
  pub entire_position : Option Bool
  pub counter : ℕ

pub record DecodedAccounts : Type 0 where
  pub owner : Bytes
  pub custody : Bytes
  pub collateral_custody : Bytes

pub data DecodedJupiterIx : Type 0 where
  increase : IncreaseArgs → DecodedAccounts → DecodedJupiterIx
  decrease : DecreaseArgs → DecodedAccounts → DecodedJupiterIx

pub data DecodeError : Type 0 where
  too_short : ℕ → DecodeError
  bad_side : ℕ → DecodeError
  bad_bool : ℕ → DecodeError
  bad_option_tag : ℕ → DecodeError
  out_of_bounds : ℕ → ℕ → ℕ → DecodeError
  missing_account : String → ℕ → ℕ → DecodeError

-- The reader's offset, which every read moves on.
abbrev pub Read {ℓ} : Type ℓ → Type ℓ
Read A = ℕ → Outcome DecodeError (A × ℕ)

-- The bytes at the offset, once `need` has passed.
unfoldable pub read_bytes : Bytes → ℕ → Read Bytes
read_bytes buf n offset = do
  end ← add_usize offset n
  guard (not (ltb (length buf) end)) (out_of_bounds offset n (length buf))
  bs ← slice buf offset end
  ok (bs, end)

unfoldable pub read_u8 : Bytes → Read ℕ
read_u8 buf offset = do (bs, next) ← read_bytes buf 1 offset; ok (le_value bs, next)

unfoldable pub read_u64 : Bytes → Read ℕ
read_u64 buf offset = do (bs, next) ← read_bytes buf 8 offset; ok (le_value bs, next)

unfoldable pub read_opt_u64 : Bytes → Read (Option ℕ)
read_opt_u64 buf offset = do
  (tag, next) ← read_u8 buf offset
  if tag == 0
      then ok (none, next)
      else if tag == 1
      then (read_u64 buf next >>= λ (v, after). ok (some v, after))
      else err (bad_option_tag tag)

unfoldable pub bool_of : ℕ → Outcome DecodeError Bool
bool_of b = if b == 0 then ok false else if b == 1 then ok true else err (bad_bool b)

unfoldable pub read_opt_bool : Bytes → Read (Option Bool)
read_opt_bool buf offset = do
  (tag, next) ← read_u8 buf offset
  if tag == 0
      then ok (none, next)
      else if tag == 1
      then (read_u8 buf next >>= λ (b, after). (bool_of b >>= λ v. ok (some v, after)))
      else err (bad_option_tag tag)

unfoldable pub require : List Bytes → ℕ → String → Outcome DecodeError Bytes
require pubkeys idx name = ok_or (get_elem? pubkeys idx) (missing_account name idx (length pubkeys))

unfoldable pub collect_accounts : List Bytes → AccountIndex → Outcome DecodeError DecodedAccounts
collect_accounts pubkeys idx = do
  owner ← require pubkeys idx.owner "owner"
  custody ← require pubkeys idx.custody "custody"
  collateral_custody ← require pubkeys idx.collateral_custody "collateral_custody"
  ok (record { owner = owner; custody = custody; collateral_custody = collateral_custody })

unfoldable pub read_increase : Bytes → Outcome DecodeError IncreaseArgs
read_increase buf = do
  (size_usd_delta, o1) ← read_u64 buf 0
  (collateral_token_delta, o2) ← read_u64 buf o1
  (side, o3) ← read_u8 buf o2
  guard (leb side 2) (bad_side side)
  (price_slippage, o4) ← read_u64 buf o3
  (jupiter_minimum_out, o5) ← read_opt_u64 buf o4
  (counter, o6) ← read_u64 buf o5
  ok (record {
    size_usd_delta = size_usd_delta;
    collateral_token_delta = collateral_token_delta;
    side = side;
    price_slippage = price_slippage;
    jupiter_minimum_out = jupiter_minimum_out;
    counter = counter;
  })

unfoldable pub read_decrease : Bytes → Outcome DecodeError DecreaseArgs
read_decrease buf = do
  (collateral_usd_delta, o1) ← read_u64 buf 0
  (size_usd_delta, o2) ← read_u64 buf o1
  (price_slippage, o3) ← read_u64 buf o2
  (jupiter_minimum_out, o4) ← read_opt_u64 buf o3
  (entire_position, o5) ← read_opt_bool buf o4
  (counter, o6) ← read_u64 buf o5
  ok (record {
    collateral_usd_delta = collateral_usd_delta;
    size_usd_delta = size_usd_delta;
    price_slippage = price_slippage;
    jupiter_minimum_out = jupiter_minimum_out;
    entire_position = entire_position;
    counter = counter;
  })

module _ (x : External) where
  open x use {sha256, parse_pubkey}

  unfoldable pub increase_discriminator : Bytes
  increase_discriminator = take 8 (sha256 (text "global:create_increase_position_market_request"))

  unfoldable pub decrease_discriminator : Bytes
  decrease_discriminator = take 8 (sha256 (text "global:create_decrease_position_market_request"))

  unfoldable pub decode_jupiter_perps_ix :
      Bytes → List Bytes → Outcome DecodeError (Option DecodedJupiterIx)
  decode_jupiter_perps_ix ix_data account_pubkeys = do
    guard (leb 8 (length ix_data)) (too_short (length ix_data))
    let disc = take 8 ix_data
    let args_buf = drop 8 ix_data
    if bytes_eq disc increase_discriminator
        then (read_increase args_buf >>= λ args.
            (collect_accounts account_pubkeys increase_account_index >>= λ accounts.
            ok (some (increase args accounts))))
        else if bytes_eq disc decrease_discriminator
        then (read_decrease args_buf >>= λ args.
            (collect_accounts account_pubkeys decrease_account_index >>= λ accounts.
            ok (some (decrease args accounts))))
        else ok none

  -- `"…".parse().expect(…)` of the statics
  unfoldable pub hard_coded : {E : Type 0} → String → Outcome E Bytes
  hard_coded s = expect (parse_pubkey (text s))

  unfoldable pub custody_to_asset : {E : Type 0} → Bytes → Outcome E (Option Bytes)
  custody_to_asset key = do
    sol ← hard_coded "7xS2gz2bTp3fwCC7knJvUWTEU9Tycczu6VhJYKgi1wdz"
    btc ← hard_coded "5Pv3gM9JrFFH883SWAhvJC9RPYmo8UNxuFtv5bMMALkm"
    eth ← hard_coded "AQCGyheWPLeo6Qp9WpYS9m3Qj479t7R636N9ey1rEjEn"
    ok (
        if bytes_eq key sol
        then some (text "SOL")
        else if bytes_eq key btc
        then some (text "BTC")
        else if bytes_eq key eth
        then some (text "ETH")
        else none)
