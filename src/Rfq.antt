-- ===== src/Rfq.antt =====
-- Pricing and quotes: bifrostd/src/rfq.
pub mod Rational
pub mod Fallible
pub mod Pricing
pub mod Minimal
pub mod Service
pub mod Honest
pub mod Issued
