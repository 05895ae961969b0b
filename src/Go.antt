-- ===== src/Go.antt =====
-- What the program takes from Go's runtime and from packages that are not in the repository.
pub mod Outcome
pub mod Uint256
pub mod Format
pub mod Sort
pub mod Gob
pub mod Bytes
