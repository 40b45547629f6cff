-- ===== src/Sdk.antt =====
-- sdk/src: the protocol's types and errors, expiry, quotes as the client checks them.
pub mod Types
pub mod Expiry
pub mod Canonical
pub mod Signed
pub mod Verify
pub mod Advertisement
pub mod Invoice
pub mod Client
