-- ===== src/Tools.antt =====
-- The built-in tools of tile/tools and their support.
pub mod Text
pub mod Truncation
pub mod Edit
pub mod Paths
pub mod Read
pub mod OutputAccumulator
pub mod Grep
pub mod Find
pub mod Ls
pub mod Executables
pub mod Bash
pub mod Write
pub mod ImageProcessing
