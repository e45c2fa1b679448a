-- ===== src/Curve.antt =====
-- apps/web/src/lib/contracts.ts: trading on the bonding curve from a browser wallet.
pub mod Resolve
pub mod Quote
pub mod Submit
pub mod Confirm
pub mod Recovery
pub mod Reads
