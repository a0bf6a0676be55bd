-- ===== src/Discovery/Connect/Links.antt =====
-- Connections stand on both sides: a node lists another exactly when the other lists it.
pub mod Views
pub mod Steps
pub mod Adds
pub mod Attached
pub mod Noted
pub mod Built
pub mod Pointers
