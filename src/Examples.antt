-- ===== src/Examples.antt =====
-- Concrete runs of the Store and of the runtime.
pub mod Storage
pub mod Assembly
pub mod Script
pub mod Loop
pub mod Programs
pub mod Whole
pub mod Editing
pub mod Requests
pub mod Subscribers
pub mod Searches
pub mod Pictures
