-- ===== src/Tests.antt =====
-- Runs of the models on concrete inputs: `World` is a chain and a wallet to run them on, and each
-- other module applies theorems to such runs.
mod World
mod Trading
mod Recovery
mod Receipts
mod Storage
mod SwapPanel
mod Swaps
mod Panel
mod DevBuy
mod Session
mod Inputs
mod Launch
mod Quoting
mod CreateForm
mod Chart
mod Marketplace
