-- ===== src/Tests/SessionRows.antt =====
-- Codecs of the rows that the session routes keep.
use polylayer_tee.Prelude.{ℕ, refl, Bool, List, Bytes, Option}
use polylayer_tee.Store.{Codec, RoundTrips}
use polylayer_tee.Sessions.{SessionIndex}
use polylayer_tee.Sessions.Hl.Config.{HlSession}
use polylayer_tee.Sessions.Generic.Config.{GenericSession}
use polylayer_tee.Sessions.Polyleverage.{PolyleverageSession}
use polylayer_tee.Tests.Parts.{
  Part, nat_part, bool_part, text_part, option_part, texts_part, both, codec_of,
  codec_of-RoundTrips,
}

abbrev pub index_codec : Codec SessionIndex
index_codec = codec_of texts_part (λ v. v.session_ids) (λ l. record { session_ids = l })

pub index_codec-RoundTrips : RoundTrips index_codec
index_codec-RoundTrips =
    codec_of-RoundTrips texts_part (λ v. v.session_ids) (λ l. record { session_ids = l }) λ v. refl

abbrev hl_texts : Part (Bytes × (Bytes × (Bytes × (Bytes × (Bytes × Bytes)))))
hl_texts =
    both text_part (both text_part (both text_part (both text_part (both text_part text_part))))

abbrev hl_rest : Part (List Bytes × (ℕ × (Option Bytes × (ℕ × Bool))))
hl_rest = both texts_part (both nat_part (both option_part (both nat_part bool_part)))

abbrev HlFields : Type 0
HlFields =
    (Bytes × (Bytes × (Bytes × (Bytes × (Bytes × Bytes)))))
    × (List Bytes × (ℕ × (Option Bytes × (ℕ × Bool))))

abbrev hl_fields : HlSession → HlFields
hl_fields v = (
  (
    v.session_id,
    (v.solana_pubkey, (v.surface, (v.max_total_usd, (v.max_order_size_usd, v.total_usd_filled)))),
  ),
  (v.allowed_coins, (v.max_leverage, (v.delegate_pubkey, (v.expiry, v.revoked)))),
)

abbrev hl_make : HlFields → HlSession
hl_make
      (
        (id, (pubkey, (surface, (total, (size, filled))))),
        (coins, (leverage, (delegate, (expiry, revoked)))),
      ) =
    record {
      session_id = id;
      solana_pubkey = pubkey;
      surface = surface;
      allowed_coins = coins;
      max_total_usd = total;
      max_order_size_usd = size;
      max_leverage = leverage;
      delegate_pubkey = delegate;
      expiry = expiry;
      total_usd_filled = filled;
      revoked = revoked;
    }

abbrev pub hl_codec : Codec HlSession
hl_codec = codec_of (both hl_texts hl_rest) hl_fields hl_make

pub hl_codec-RoundTrips : RoundTrips hl_codec
hl_codec-RoundTrips = codec_of-RoundTrips (both hl_texts hl_rest) hl_fields hl_make λ v. refl

abbrev GenericFields : Type 0
GenericFields =
    (Bytes
      × (Bytes
          × (Bytes
              × (Bytes
                  × (List Bytes
                      × (Bytes
                          × (Bytes
                              × (Bytes
                                  × (Bytes × (Option Bytes × (ℕ × (Bytes × (ℕ × Bool)))))))))))))

abbrev generic_part : Part GenericFields
generic_part =
    (both text_part (
      both text_part (
        both text_part (
          both text_part (
            both texts_part (
              both text_part (
                both text_part (
                  both text_part (
                    both text_part (
                      both option_part
                        (both nat_part (both text_part (both nat_part bool_part)))))))))))))

abbrev generic_fields : GenericSession → GenericFields
generic_fields v = (
  v.session_id,
  (
    v.solana_pubkey,
    (
      v.surface,
      (
        v.whitelist_mode,
        (
          v.whitelist_ids,
          (
            v.max_total_usdc,
            (
              v.max_order_size_usdc,
              (
                v.max_price,
                (
                  v.min_price,
                  (v.delegate_pubkey, (v.expiry, (v.total_usdc_filled, (v.created_at, v.revoked)))),
                ),
              ),
            ),
          ),
        ),
      ),
    ),
  ),
)

abbrev generic_make : GenericFields → GenericSession
generic_make
      (
        x_session_id,
        (
          x_solana_pubkey,
          (
            x_surface,
            (
              x_whitelist_mode,
              (
                x_whitelist_ids,
                (
                  x_max_total_usdc,
                  (
                    x_max_order_size_usdc,
                    (
                      x_max_price,
                      (
                        x_min_price,
                        (
                          x_delegate_pubkey,
                          (x_expiry, (x_total_usdc_filled, (x_created_at, x_revoked))),
                        ),
                      ),
                    ),
                  ),
                ),
              ),
            ),
          ),
        ),
      ) =
    record {
      session_id = x_session_id;
      solana_pubkey = x_solana_pubkey;
      surface = x_surface;
      whitelist_mode = x_whitelist_mode;
      whitelist_ids = x_whitelist_ids;
      max_total_usdc = x_max_total_usdc;
      max_order_size_usdc = x_max_order_size_usdc;
      max_price = x_max_price;
      min_price = x_min_price;
      delegate_pubkey = x_delegate_pubkey;
      expiry = x_expiry;
      total_usdc_filled = x_total_usdc_filled;
      created_at = x_created_at;
      revoked = x_revoked;
    }

abbrev pub generic_codec : Codec GenericSession
generic_codec = codec_of generic_part generic_fields generic_make

pub generic_codec-RoundTrips : RoundTrips generic_codec
generic_codec-RoundTrips = codec_of-RoundTrips generic_part generic_fields generic_make λ v. refl

abbrev PlvFields : Type 0
PlvFields =
    (Bytes × (Bytes × (Bytes × (Bytes × (Bytes × (Bytes × (List Bytes × (ℕ × (Bool × Bytes)))))))))

abbrev plv_part : Part PlvFields
plv_part =
    (both text_part (
      both text_part (
        both text_part (
          both text_part (
            both text_part
              (both text_part (both texts_part (both nat_part (both bool_part text_part)))))))))

abbrev plv_fields : PolyleverageSession → PlvFields
plv_fields v = (
  v.solana_pubkey,
  (
    v.delegate_pubkey_b58,
    (
      v.expires_at_slot,
      (
        v.per_intent_max_collateral_atoms,
        (
          v.cumulative_collateral_used,
          (
            v.cumulative_collateral_cap,
            (v.allowed_instruments, (v.created_at_unix_ts, (v.revoked, v.on_chain_version_seen))),
          ),
        ),
      ),
    ),
  ),
)

abbrev plv_make : PlvFields → PolyleverageSession
plv_make
      (
        x_solana_pubkey,
        (
          x_delegate_pubkey_b58,
          (
            x_expires_at_slot,
            (
              x_per_intent_max_collateral_atoms,
              (
                x_cumulative_collateral_used,
                (
                  x_cumulative_collateral_cap,
                  (
                    x_allowed_instruments,
                    (x_created_at_unix_ts, (x_revoked, x_on_chain_version_seen)),
                  ),
                ),
              ),
            ),
          ),
        ),
      ) =
    record {
      solana_pubkey = x_solana_pubkey;
      delegate_pubkey_b58 = x_delegate_pubkey_b58;
      expires_at_slot = x_expires_at_slot;
      per_intent_max_collateral_atoms = x_per_intent_max_collateral_atoms;
      cumulative_collateral_used = x_cumulative_collateral_used;
      cumulative_collateral_cap = x_cumulative_collateral_cap;
      allowed_instruments = x_allowed_instruments;
      created_at_unix_ts = x_created_at_unix_ts;
      revoked = x_revoked;
      on_chain_version_seen = x_on_chain_version_seen;
    }

abbrev pub plv_codec : Codec PolyleverageSession
plv_codec = codec_of plv_part plv_fields plv_make

pub plv_codec-RoundTrips : RoundTrips plv_codec
plv_codec-RoundTrips = codec_of-RoundTrips plv_part plv_fields plv_make λ v. refl
