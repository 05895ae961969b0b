-- ===== src/Starknet.antt =====
-- internal/starknet: the blocks of the chain, felts as text, and the calls of contracts.
pub mod Block
pub mod FeltText
pub mod Rpc
pub mod Keccak
pub mod Call
pub mod Feeder
