-- ===== src/Hre/Methods.antt =====
-- hre/methods.py: the reconciliation methods R1 to R6, with the default arguments that the engine
-- leaves them.
mod Direct
mod Temporal
mod Names
mod Scores
unfoldable pub use Direct.*
unfoldable pub use Temporal.*
unfoldable pub use Names.*
unfoldable pub use Scores.*
