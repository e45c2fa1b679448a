-- ===== src/Graduated.antt =====
-- Swaps of a graduated token on Uniswap V3 (apps/web/src/lib/uniswap-v3.ts).
pub mod Quote
pub mod Swap
pub mod Config
pub mod Component
