-- ===== src/Tests.antt =====
-- Concrete maps and texts on which the theorems are used.
pub mod Tree
pub mod Asks
pub mod Claims
pub mod Sight
pub mod Shown
pub mod Spread
pub mod Detected
pub mod Refused
pub mod Wire
pub mod Reload
