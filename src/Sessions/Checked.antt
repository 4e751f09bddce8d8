-- ===== src/Sessions/Checked.antt =====
-- What the checks at the front of a session route establish.
use polylayer_tee.Prelude.{
  ℕ, ◌≡◌, refl, Outcome, ok, err, panic, map_err, ok_or, ok_inj, ap, Bytes, Option, none, some,
}
use polylayer_tee.External.{External}
use polylayer_tee.Json.{Value, get_str}
use polylayer_tee.Api.{bad_request, now_unix}
use polylayer_tee.Intents.Verified.{Verified, verify_intent_signature_iff}
use polylayer_tee.Sessions.{IntentBody, intent_args, verified, req_str}

map_err-inv :
    {E F : Type 0} (f : E → F) (m : Outcome E (Unit {0})) → map_err f m ≡ ok tt → m ≡ ok tt
map_err-inv f (ok u) h = refl
map_err-inv f (err e) h = cc (h)
map_err-inv f panic h = cc (h)

pub verified-Verified :
    (x : External) (req : IntentBody) (now : ℕ)
    → verified x req now ≡ ok tt
    → Verified x (intent_args req now)
unfolding verified
verified-Verified x req now h =
    (verify_intent_signature_iff x (intent_args req now)).0 (map_err-inv _ _ h)

pub req_str-some :
    (v : Value) (field : Bytes) {t : Bytes} → req_str v field ≡ ok t → get_str v field ≡ some t
unfolding req_str
req_str-some v field h = by_field (get_str v field) h
  where
    by_field :
        (o : Option Bytes) {t : Bytes} → ok_or o (bad_request "intent_missing") ≡ ok t → o ≡ some t
    by_field none h = cc (h)
    by_field (some a) h = ap some (ok_inj h)

pub now_unix-some : (clock : Option ℕ) {now : ℕ} → now_unix clock ≡ ok now → clock ≡ some now
now_unix-some none e = cc (e)
now_unix-some (some t) e = ap some (ok_inj e)
