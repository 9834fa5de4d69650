-- ===== src/Examples.antt =====
-- Tests, and concrete runs of the theorems.
pub mod Data
mod Limits
mod Worker
mod Background
pub mod Edge
mod Sockets
pub mod Keys
pub mod Handlers
mod Creates
mod Pages
mod Templates
mod Auth
mod Journey
