-- ===== src/Examples.antt =====
-- Runs of the models on concrete inputs.
pub mod Swap
pub mod Theorems
pub mod Quoting
pub mod Endings
pub mod Serving
pub mod Clients
pub mod Nodes
