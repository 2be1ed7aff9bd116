-- ===== src/Server/Keeps.antt =====
-- Configuration, recovery and the connections of the server: plain events and the engine's work.
pub mod Core
pub mod Requests
pub mod Hardware
pub use Core.*
pub use Requests.*
pub use Hardware.*
