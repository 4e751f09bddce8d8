-- ===== src/Evm.antt =====
-- The EVM side of crates/core/src/evm: calldata decoding and the validators that compare calldata
-- with a user's intent.
pub mod Abi
pub mod Cctp
pub mod Flows
pub mod Tx
