-- ===== src/Jupiter/Scan.antt =====
-- The search of crates/server/src/routes/sign_jupiter_tx.rs for the one perpetuals instruction of a
-- transaction.
pub mod Only
use polylayer_tee.Prelude.{
  ℕ, ◌+◌, List, [], ◌∷◌, map, Bytes, bytes_eq, if◌then◌else◌, get_elem?, replicate, Option, none,
  some, Outcome, ok, ◌>>=◌, map_err,
}
use polylayer_tee.External.{External}
use polylayer_tee.Api.{ApiError, bad_request}
use polylayer_tee.Jupiter.Decode.{DecodedJupiterIx, decode_jupiter_perps_ix, hard_coded}
use polylayer_tee.Jupiter.Sign.{Instruction}

-- `static_keys.get(i).copied().unwrap_or(Pubkey::default())`
unfoldable pub key_at : List Bytes → ℕ → Bytes
key_at static_keys i = elim (get_elem? static_keys i) [ none ↦ replicate 32 0 | some k ↦ k ]

module _ (x : External) (static_keys : List Bytes) where
  -- One round: `none` where the loop goes on without counting.
  unfoldable pub perps_ix : Instruction → Outcome ApiError (Option DecodedJupiterIx)
  perps_ix ix = hard_coded x "PERPHjGBqRHArX4DySjwM6UJHiR3sWAatqfdBS2qQJu" >>= λ perps.
      if bytes_eq (key_at static_keys ix.program_id_index) perps
      then map_err (λ e. bad_request "jupiter_decode")
          (decode_jupiter_perps_ix x ix.ix_data (map (key_at static_keys) ix.accounts))
      else ok none

  -- The rounds, with the count and the last match so far.
  unfoldable pub scan :
      List Instruction
      → ℕ
      → Option DecodedJupiterIx
      → Outcome ApiError (ℕ × Option DecodedJupiterIx)
  scan [] perps_ixes decoded_match = ok (perps_ixes, decoded_match)
  scan (ix ∷ ixs) perps_ixes decoded_match =
      let skip = scan ixs perps_ixes decoded_match in
      let count = λ (d : DecodedJupiterIx). scan ixs (perps_ixes + 1) (some d) in
      perps_ix ix >>= λ found. elim found [ none ↦ skip | some d ↦ count d ]
