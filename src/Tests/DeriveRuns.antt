-- ===== src/Tests/DeriveRuns.antt =====
-- A user's key and link message through derive.rs.
use polylayer_tee.Prelude.{◌≡◌, refl, ◌++◌, Bytes, text, ok}
use polylayer_tee.Tests.Samples.{pad, sample}
use polylayer_tee.Derive.{
  LinkMessageSignature, link_message_prefix, derive_user_private_key, sign_link_message, info_of,
  try_attempts, evm_address_from_verifying_key,
}
use polylayer_tee.Derive.Keys.{FirstValid, derive_user_private_key_iff}
use polylayer_tee.Derive.Links.{Linked, sign_link_message-Linked}

abbrev seed : Bytes
seed = pad 64 (text "seed")

abbrev user : Bytes
user = pad 32 (text "user")

key_derives : derive_user_private_key sample seed user ≡ ok user
unfolding derive_user_private_key try_attempts info_of
key_derives = refl

derive_user_private_key_iff_example : FirstValid sample seed user 0 256 user
derive_user_private_key_iff_example =
    (derive_user_private_key_iff sample seed user user).0 key_derives

abbrev message : Bytes
message = link_message_prefix ++ user

abbrev link : LinkMessageSignature
link = record {
  evm_address = evm_address_from_verifying_key sample user;
  message = message;
  message_hash = pad 32 message;
  signature = user ++ pad 32 message;
  recovery_id = 0;
}

link_signs : sign_link_message sample seed user ≡ ok link
unfolding sign_link_message derive_user_private_key try_attempts info_of
    evm_address_from_verifying_key
link_signs = refl

sign_link_message-Linked_example : Linked sample seed user link
sign_link_message-Linked_example = sign_link_message-Linked sample seed user link link_signs
