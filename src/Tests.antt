-- ===== src/Tests.antt =====
-- Concrete runs of the model: samples, and the theorems at them.
pub mod Sample
pub mod Messages
pub mod Urls
pub mod Routes
pub mod Connections
pub mod Running
pub mod Polling
pub mod Serving
pub mod Applications
pub mod Chunks
