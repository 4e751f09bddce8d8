-- ===== src/Lib.antt =====
-- Verification of the polylayer TEE signing oracle (crates/).
--
-- The program is a server that runs in an enclave and signs for users. A route takes an intent, a
-- JSON object that a user's Solana wallet has signed, checks the signature, checks that the
-- transaction or order it is asked to sign is one that the intent allows, and signs it with a key
-- derived from the enclave's master. Sessions let an enclave sign for a user within bounds that are
-- stored, encrypted, in a table.
--
-- Json and Canonical model serde_json values and crates/core/src/canonical.rs, the text that is
-- signed. Solana models crates/core/src/solana.rs, and Intents crates/core/src/intents.rs: the
-- check of an intent's signature and the readers of decimal texts. Evm.Abi, Evm.Cctp and Evm.Flows
-- model crates/core/src/evm/abi.rs, cctp.rs and polymarket_flows.rs: readers of calldata and the
-- checks of the calls against the intents. Evm.Tx models crates/core/src/evm/tx.rs, EvmRoute
-- crates/server/src/routes/sign_evm_tx.rs, and Derive the per-user keys of
-- crates/core/src/derive.rs. Delegate and Attestation model crates/core/src/solana_attestor, the
-- latter with the three routes that sign attestations. Store models
-- crates/storage/src/session_store.rs as the routes see it, Jupiter.Bounds and Jupiter.Session
-- model crates/server/src/routes/jupiter_session.rs and the debit of routes/sign_jupiter_tx.rs,
-- whose search and handler are Jupiter.Scan and Jupiter.Route. Sessions models hl_session.rs,
-- generic_session.rs and polyleverage_session.rs of crates/server/src/routes. Polymarket models
-- crates/core/src/polymarket; Polymarket.Route and Polymarket.Batch.Route model
-- sign_polymarket_order.rs and sign_polymarket_wallet_batch.rs of crates/server/src/routes.
-- Hyperliquid models crates/core/src/hyperliquid.rs and Hyperliquid.Route
-- crates/server/src/routes/sign_hyperliquid_order.rs; Permits models
-- crates/core/src/evm/permits.rs, and Permits.Route routes/sign_hl_bridge_permit.rs. Hashes has
-- what equal hashes say of texts. Jupiter.Decode and Jupiter.Sign model crates/core/src/jupiter.
-- Api is crates/server/src/error.rs and what the routes take from main.rs. Numeric models the
-- standard library's decimal texts of unsigned integers. Each other module below one of these holds
-- the proofs about it. Prelude holds the shared types, operators and lemmas, and Tests the runs at
-- concrete inputs.
--
-- A `Result` is an `Outcome`, whose third case is a panic: the release profile keeps overflow
-- checks and aborts on a panic, so that an overflow, an index or a slice out of range is one. A
-- byte string and a text are lists of numbers, an address is 20 of them. A `usize` or `u64` sum is
-- checked against 2 ^ 64 where the source adds untrusted values. A route is a function of the state
-- of the session table that returns the state beside its result, since what is written before an
-- error stays written. The texts of errors are left out, their codes are kept.
--
-- The functions of other crates (hashes, curves, base58, hex, JSON numbers and strings, the parsers
-- of alloy_primitives and solana_pubkey) are the fields of the record `External`, over which every
-- module that calls them is stated. The session table is the record `Rows`, with the TTL of each
-- row and the deletions of expired rows; its laws say that a row that was written is the row that
-- is read, as it is once the write has spread (get_item asks for no consistent read), and that a
-- row is deleted only when its TTL is in the past. A write that fails changes nothing: a put that
-- is carried out although its answer is lost is not modelled, and neither are requests that
-- interleave, so that a history is a list of requests handled one after the other (the comment of
-- sign_jupiter_tx.rs says of its debit that two at once can both pass). The JSON form of a row is
-- the record `Codec`. Base64 and bincode are the record `Wire`. Tests has an instance of each.
--
-- Printing a number takes 39 digits, which hold every `u128`. The retry of a key derivation runs
-- for the 256 attempts of the source. No other function runs on fuel.
--
-- Not modelled: the attested boot, the AWS clients, the encryption of rows and the CMS envelope of
-- crates/storage, and the device of crates/nsm, which are I/O and calls of other crates; the master
-- account of crates/core/src/derive.rs; crates/core/src/clob and its route.
pub mod Prelude
pub mod Json
pub mod External
pub mod Canonical
pub mod Solana
pub mod Numeric
pub mod Attestation
pub mod Delegate
pub mod Derive
pub mod Api
pub mod Store
pub mod Jupiter
pub mod Hashes
pub mod Hyperliquid
pub mod Intents
pub mod Sessions
pub mod Permits
pub mod Polymarket
pub mod Evm
pub mod EvmRoute
pub mod Tests
