-- ===== src/Sdk.antt =====
-- packages/contracts-sdk/src/index.ts: the arithmetic of slippage, the decoding of receipts and the
-- chain configuration.
pub mod Slippage
pub mod Receipt
pub mod Chain
