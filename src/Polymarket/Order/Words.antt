-- ===== src/Polymarket/Order/Words.antt =====
-- The words of an order determine its fields.
use polylayer_tee.Prelude.{ℕ, ◌^◌, ◌<◌, ◌≡◌, ap, [], ◌∷◌, ◌++◌, Bytes, length, drop, arith}
use polylayer_tee.Polymarket.{addr_word}
use polylayer_tee.Polymarket.Order.{V2Order, u8_word, order_words}
use polylayer_tee.Hashes.{append_inj, word_inj}

-- The widths of the fields, which their types in the source give.
pub record FitsOrder (o : V2Order) : Type 0 where
  pub salt_fits : o.salt < 2 ^ 256
  pub maker_len : length o.maker ≡ 20
  pub signer_len : length o.signer ≡ 20
  pub token_fits : o.token_id < 2 ^ 256
  pub maker_amount_fits : o.maker_amount < 2 ^ 256
  pub taker_amount_fits : o.taker_amount < 2 ^ 256
  pub timestamp_fits : o.timestamp < 2 ^ 256
  pub metadata_len : length o.metadata ≡ 32

pub length-addr_word : (a : Bytes) → length a ≡ 20 → length (addr_word a) ≡ 32
unfolding addr_word
length-addr_word a h = omega (arith, h)

pub addr_word_inj : (a b : Bytes) → addr_word a ≡ addr_word b → a ≡ b
unfolding addr_word
addr_word_inj a b e = ap (drop 12) e

pub address_inj :
    (a b rest_a rest_b : Bytes)
    → length a ≡ 20
    → length b ≡ 20
    → addr_word a ++ rest_a ≡ addr_word b ++ rest_b
    → (a ≡ b) × (rest_a ≡ rest_b)
address_inj a b rest_a rest_b h k e =
    let (front, back) =
      append_inj 32 (addr_word a) (addr_word b) rest_a rest_b (length-addr_word a h)
        (length-addr_word b k) e in
    (addr_word_inj a b front, back)

pub u8_inj :
    (v w : ℕ) (rest_a rest_b : Bytes)
    → u8_word v ++ rest_a ≡ u8_word w ++ rest_b
    → (v ≡ w) × (rest_a ≡ rest_b)
unfolding u8_word
u8_inj v w rest_a rest_b e = (ap (λ l. head_or_zero (drop 31 l)) e, ap (drop 32) e)
  where
    head_or_zero : Bytes → ℕ
    head_or_zero [] = 0
    head_or_zero (b ∷ bs) = b

pub order_words_inj :
    (o p : V2Order) → FitsOrder o → FitsOrder p → order_words o ≡ order_words p → o ≡ p
unfolding order_words
order_words_inj o p f g e =
    let (salt, e1) = word_inj o.salt p.salt _ _ f.salt_fits g.salt_fits e in
    let (maker, e2) = address_inj o.maker p.maker _ _ f.maker_len g.maker_len e1 in
    let (signer, e3) = address_inj o.signer p.signer _ _ f.signer_len g.signer_len e2 in
    let (token, e4) = word_inj o.token_id p.token_id _ _ f.token_fits g.token_fits e3 in
    let (made, e5) =
      word_inj o.maker_amount p.maker_amount _ _ f.maker_amount_fits g.maker_amount_fits e4 in
    let (taken, e6) =
      word_inj o.taker_amount p.taker_amount _ _ f.taker_amount_fits g.taker_amount_fits e5 in
    let (side, e7) = u8_inj o.side p.side _ _ e6 in
    let (kind, e8) = u8_inj o.signature_type p.signature_type _ _ e7 in
    let (time, e9) = word_inj o.timestamp p.timestamp _ _ f.timestamp_fits g.timestamp_fits e8 in
    let (metadata, builder) =
      append_inj 32 o.metadata p.metadata o.builder p.builder f.metadata_len g.metadata_len e9 in
    λ i. record {
      salt = salt i;
      maker = maker i;
      signer = signer i;
      token_id = token i;
      maker_amount = made i;
      taker_amount = taken i;
      side = side i;
      signature_type = kind i;
      timestamp = time i;
      metadata = metadata i;
      builder = builder i;
    }
