-- ===== src/Api.antt =====
-- The parts of bifrostd/src/api that keep state or decide.
pub mod Quotes
pub mod Legs
pub mod Inventory
pub mod Stream
pub mod Coordinator
pub mod Server
