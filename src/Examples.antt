-- ===== src/Examples.antt =====
-- Concrete inputs for the theorems: each is applied to one, and the definitions are run.
pub mod Data
pub mod Containers
pub mod Search
pub mod Coverage
pub mod Tries
pub mod Beams
pub mod Decoding
pub mod Chains
pub mod Ngrams
pub mod Locks
pub mod Words
pub mod Extensions
pub mod Sums
pub mod Options
pub mod Strings
pub mod Lines
pub mod Features
pub mod Sections
pub mod Tables
pub mod Decoders
