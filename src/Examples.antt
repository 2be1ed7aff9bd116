-- ===== src/Examples.antt =====
-- Runs of the models on concrete inputs, and the theorems applied to them.
mod Board
mod Wire
mod Dma
mod Serving
pub mod Session
pub mod Client
pub mod Server
mod Startup
mod Talk
mod Loopback
