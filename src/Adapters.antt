-- ===== src/Adapters.antt =====
-- bifrostd/src/adapters: the adapters of the two nodes (fiber.ts, lightning.ts). A transport is not the
-- adapter's: what it brings back is an argument.
pub mod Events
pub mod Fiber
pub mod Lightning
pub mod Lines
pub mod InOrder
