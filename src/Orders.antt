-- ===== src/Orders.antt =====
-- bifrostd/src/orders: the order store, the ports to the two nodes and the order engine.
pub mod Store
pub mod Ports
pub mod Marks
pub mod World
pub mod Preimage
pub mod Reasons
pub mod Engine
pub mod Lifecycle
pub mod Protocol
pub mod Runs
pub mod History
pub mod Bindings
pub mod Completes
