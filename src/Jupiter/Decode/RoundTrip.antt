-- ===== src/Jupiter/Decode/RoundTrip.antt =====
-- The decoder reads back what a client encodes.
use polylayer_tee.Prelude.{
  ◌+◌, ◌^◌, ◌≤◌, ◌<◌, ◌≡◌, refl, sym, true, List, ◌∷◌, ◌++◌, Bytes, bytes_eq, bytes_eq_self,
  bytes_eq_iff, Bool-cases, inl, inr, ◌≢◌, le_bytes, leb, le→leb, length, get_elem?,
  take-append_left, drop-append_left, length-append, length-take, some, ok, arith,
}
use polylayer_tee.External.{External}
use polylayer_tee.Jupiter.Decode.{
  DecodedAccounts, IncreaseArgs, DecreaseArgs, increase, decrease, require, collect_accounts,
  read_increase, read_decrease, increase_discriminator, decrease_discriminator,
  decode_jupiter_perps_ix, increase_account_index,
}
use polylayer_tee.Jupiter.Decode.Reads.{
  At, encode_opt_u64, encode_opt_bool, OptU64, read_u8-At, read_u64-At, read_opt_u64-At,
  read_opt_bool-At,
}

-- The borsh form of the arguments, in front of a tail.
abbrev pub encode_increase : IncreaseArgs → Bytes → Bytes
encode_increase a tail =
    le_bytes 8 a.size_usd_delta
    ++ (le_bytes 8 a.collateral_token_delta
        ++ (a.side
            ∷ (le_bytes 8 a.price_slippage
                ++ encode_opt_u64 a.jupiter_minimum_out (le_bytes 8 a.counter ++ tail))))

abbrev pub encode_decrease : DecreaseArgs → Bytes → Bytes
encode_decrease a tail =
    le_bytes 8 a.collateral_usd_delta
    ++ (le_bytes 8 a.size_usd_delta
        ++ (le_bytes 8 a.price_slippage
            ++ encode_opt_u64 a.jupiter_minimum_out
                (encode_opt_bool a.entire_position (le_bytes 8 a.counter ++ tail))))

pub record IncreaseInRange (a : IncreaseArgs) : Type 0 where
  pub size : a.size_usd_delta < 2 ^ 64
  pub collateral : a.collateral_token_delta < 2 ^ 64
  pub side : a.side ≤ 2
  pub slippage : a.price_slippage < 2 ^ 64
  pub minimum : OptU64 a.jupiter_minimum_out
  pub counter : a.counter < 2 ^ 64

pub record DecreaseInRange (a : DecreaseArgs) : Type 0 where
  pub collateral : a.collateral_usd_delta < 2 ^ 64
  pub size : a.size_usd_delta < 2 ^ 64
  pub slippage : a.price_slippage < 2 ^ 64
  pub minimum : OptU64 a.jupiter_minimum_out
  pub counter : a.counter < 2 ^ 64

-- The accounts stand at their places in both instructions.
pub record AccountsAt (pubkeys : List Bytes) (accounts : DecodedAccounts) : Type 0 where
  pub owner : get_elem? pubkeys 0 ≡ some accounts.owner
  pub custody : get_elem? pubkeys 7 ≡ some accounts.custody
  pub collateral : get_elem? pubkeys 8 ≡ some accounts.collateral_custody

read_increase-encode_increase :
    (a : IncreaseArgs) (tail : Bytes)
    → IncreaseInRange a
    → length (encode_increase a tail) < 2 ^ 64
    → read_increase (encode_increase a tail) ≡ ok a
unfolding read_increase
read_increase-encode_increase a tail r fits =
    let buf = encode_increase a tail in
    let start : At buf 0 buf = record { behind = refl; size = omega arith; fits = fits } in
    let (e1, h1) = read_u64-At buf 0 a.size_usd_delta _ r.size start in
    let (e2, h2) = read_u64-At buf (0 + 8) a.collateral_token_delta _ r.collateral h1 in
    let (e3, h3) = read_u8-At buf (0 + 8 + 8) a.side _ h2 in
    let (e4, h4) = read_u64-At buf (0 + 8 + 8 + 1) a.price_slippage _ r.slippage h3 in
    let (o5, e5, h5) =
      read_opt_u64-At buf (0 + 8 + 8 + 1 + 8) a.jupiter_minimum_out _ r.minimum h4 in
    let (e6, h6) = read_u64-At buf o5 a.counter tail r.counter h5 in
    rw (e1, e2, e3, le→leb a.side 2 r.side, e4, e5, e6) refl

read_decrease-encode_decrease :
    (a : DecreaseArgs) (tail : Bytes)
    → DecreaseInRange a
    → length (encode_decrease a tail) < 2 ^ 64
    → read_decrease (encode_decrease a tail) ≡ ok a
unfolding read_decrease
read_decrease-encode_decrease a tail r fits =
    let buf = encode_decrease a tail in
    let start : At buf 0 buf = record { behind = refl; size = omega arith; fits = fits } in
    let (e1, h1) = read_u64-At buf 0 a.collateral_usd_delta _ r.collateral start in
    let (e2, h2) = read_u64-At buf (0 + 8) a.size_usd_delta _ r.size h1 in
    let (e3, h3) = read_u64-At buf (0 + 8 + 8) a.price_slippage _ r.slippage h2 in
    let (o4, e4, h4) = read_opt_u64-At buf (0 + 8 + 8 + 8) a.jupiter_minimum_out _ r.minimum h3 in
    let (o5, e5, h5) = read_opt_bool-At buf o4 a.entire_position _ h4 in
    let (e6, h6) = read_u64-At buf o5 a.counter tail r.counter h5 in
    rw (e1, e2, e3, e4, e5, e6) refl

collect_accounts-AccountsAt :
    (pubkeys : List Bytes) (accounts : DecodedAccounts)
    → AccountsAt pubkeys accounts
    → collect_accounts pubkeys increase_account_index ≡ ok accounts
unfolding collect_accounts require
collect_accounts-AccountsAt pubkeys accounts h = rw (h.owner, h.custody, h.collateral) refl

module _ (x : External) (digests : (bs : Bytes) → length (x.sha256 bs) ≡ 32) where
  length-increase_discriminator : length (increase_discriminator x) ≡ 8
  unfolding increase_discriminator
  length-increase_discriminator = omega (arith, length-take 8 (x.sha256 _), digests _)

  length-decrease_discriminator : length (decrease_discriminator x) ≡ 8
  unfolding decrease_discriminator
  length-decrease_discriminator = omega (arith, length-take 8 (x.sha256 _), digests _)

  -- Given that SHA-256 digests have 32 bytes, the decoder reads back the arguments of an increase,
  -- with a side of at most 2 and the others within `u64`, from the discriminator, their borsh form
  -- of less than 2^64 bytes and any tail, with the accounts at places 0, 7 and 8.
  pub decode_jupiter_perps_ix-encode_increase :
      (a : IncreaseArgs) (tail : Bytes) (pubkeys : List Bytes) (accounts : DecodedAccounts)
      → IncreaseInRange a
      → AccountsAt pubkeys accounts
      → length (encode_increase a tail) < 2 ^ 64
      → decode_jupiter_perps_ix x (increase_discriminator x ++ encode_increase a tail) pubkeys
        ≡ ok (some (increase a accounts))
  unfolding decode_jupiter_perps_ix
  decode_jupiter_perps_ix-encode_increase a tail pubkeys accounts r h fits =
      let disc = increase_discriminator x in
      let buf = encode_increase a tail in
      let eight = length-increase_discriminator in
      let long : leb 8 (length (disc ++ buf)) ≡ true =
        le→leb 8 (length (disc ++ buf)) (omega (arith, length-append disc buf)) in
      rw
        (
          long,
          take-append_left disc buf 8 eight,
          drop-append_left disc buf 8 eight,
          bytes_eq_self disc,
          read_increase-encode_increase a tail r fits,
          collect_accounts-AccountsAt pubkeys accounts h,
        )
        refl

  -- Given that SHA-256 digests have 32 bytes and that the two discriminators differ, the decoder
  -- reads back the arguments of a decrease within `u64` from the discriminator, their borsh form
  -- of less than 2^64 bytes and any tail, with the accounts at places 0, 7 and 8.
  pub decode_jupiter_perps_ix-encode_decrease :
      (a : DecreaseArgs) (tail : Bytes) (pubkeys : List Bytes) (accounts : DecodedAccounts)
      → DecreaseInRange a
      → AccountsAt pubkeys accounts
      → increase_discriminator x ≢ decrease_discriminator x
      → length (encode_decrease a tail) < 2 ^ 64
      → decode_jupiter_perps_ix x (decrease_discriminator x ++ encode_decrease a tail) pubkeys
        ≡ ok (some (decrease a accounts))
  unfolding decode_jupiter_perps_ix
  decode_jupiter_perps_ix-encode_decrease a tail pubkeys accounts r h ne fits =
      let disc = decrease_discriminator x in
      let buf = encode_decrease a tail in
      let eight = length-decrease_discriminator in
      let long : leb 8 (length (disc ++ buf)) ≡ true =
        le→leb 8 (length (disc ++ buf)) (omega (arith, length-append disc buf)) in
      elim (Bool-cases (bytes_eq disc (increase_discriminator x))) [
        | inl same ↦ absurd (ne (sym ((bytes_eq_iff disc (increase_discriminator x)).0 same)))
        | inr other ↦
            rw
              (
                long,
                take-append_left disc buf 8 eight,
                drop-append_left disc buf 8 eight,
                other,
                bytes_eq_self disc,
                read_decrease-encode_decrease a tail r fits,
                collect_accounts-AccountsAt pubkeys accounts h,
              )
              refl
      ]
