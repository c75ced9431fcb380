-- ===== src/Dispatcher.antt =====
-- server/workers/dispatcher.py: one task's way from the queue to its terminal status. The code
-- that runs in one database session is one function; between two of them other workers, the
-- janitor and the API may change the rows.
mod Defs
mod Advance
mod Execute
pub mod Frame
pub mod Safety
pub mod Settled
pub mod Liveness
pub mod CrossJob
unfoldable pub use Defs.*
unfoldable pub use Advance.*
unfoldable pub use Execute.*
