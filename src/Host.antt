-- ===== src/Host.antt =====
-- The operating system and the libraries that the agent calls: a record of their answers, each of
-- which may depend on all that was done before, and the calls, which write down what they did.
pub mod Types
mod Calls
pub mod Ledger
unfoldable pub use Types.*
unfoldable pub use Calls.*
