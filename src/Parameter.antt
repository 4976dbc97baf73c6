-- ===== src/Parameter.antt =====
-- Parameter.cpp: the options that the decoder takes and the test of a command line's switches.
mod Table
pub mod Allowed
pub mod Switches
mod Overwrite
unfoldable pub use Table.*
