-- ===== src/Lib.antt =====
-- A model of the trading client of Zonk.fun (apps/web and packages/contracts-sdk), with theorems.
--
-- The web client quotes, submits, confirms and recovers trades of a token against its bonding curve,
-- and swaps of a graduated token on Uniswap V3. Its parts, and where they stand here:
--   * Sdk: packages/contracts-sdk/src/index.ts. `Sdk.Slippage` has maxInputWithSlippage and
--     minOutputWithSlippage, `Sdk.Receipt` has parseTradeReceipt and parseTokenLaunchedReceipt,
--     `Sdk.Chain` has the supported chains, configured addresses and apps/web/src/lib/chain.ts.
--   * Client: what the client calls and does not implement (viem's public client, the wallet, the
--     clock, event decoding), as the record `Client` of operations on a world of any type, and
--     `Action`, the async functions over it: they return or throw, and keep a trace of events.
--   * Curve: apps/web/src/lib/contracts.ts. `Curve.Resolve` has resolveCurveAddress and the functions
--     that collect reads, `Curve.Quote` the quotes and the two deadline checks, `Curve.Submit`
--     submitBuy and submitSell with the approval and the allowance polling, `Curve.Recovery`
--     recoverTransactionReceipt and replacementReason, `Curve.Confirm` confirmTrade and checkTrade,
--     `Curve.Reads` the reads of the token page and buildSellCalls.
--   * PendingTrade: the stored record of an unresolved trade, apps/web/src/lib/transactions.ts.
--     `PendingTrade.Guards` has isPendingTrade and isTradeRecovery on JSON values, `Store` has
--     persistPendingTrade, readPendingTrade and clearPendingTrade on a storage.
--   * Panel: apps/web/src/components/token-trade-panel.tsx. `Panel.State` has the state and refs of
--     the component in one record, `Panel.Handlers` has report, applyResolution and what they call,
--     `Panel.Submit` has submit up to its await, its catch and finally, and the other handlers,
--     `Panel.Quoting` has getQuote around its await, its debouncing and its inputs, and
--     `Panel.Quoting.Steps` the orders in which requests, answers and other handlers may come,
--     `Panel.Figures` has the amounts that are shown. The panel calls PendingTrade at each step; what
--     it awaits is Curve.
--   * Session: apps/web/src/components/token-trading.tsx, the functions execute, resume and check that
--     connect the panel to Curve: they call the panel's report at each step. `Session.Queries` has
--     the quotes that the panel asks for and the keys of the queries.
--   * DevBuy: apps/web/src/lib/dev-buy.ts, executeDevBuy and its retry classification.
--   * Launch: apps/web/src/app/create/page.tsx, execute, with the requests of apps/web/src/lib/api.ts
--     that it makes (`mutation`); the loop of finalizeMetadata is recursive on its 60 attempts.
--   * CreateForm: apps/web/src/components/create-token-form.tsx and validateCreateToken of
--     transactions.ts. `CreateForm.Validate` has the validation, with the URL parser of the platform
--     as a parameter, `CreateForm.Form` the state of the form and its handlers around their awaits,
--     and `CreateForm.Form.Steps` the orders in which they and the ends of what they await may come.
--   * Inputs: parseDevBuyAmount of transactions.ts, parseSlippageBps of the panel, and the presets of
--     apps/web/src/lib/trade-amount-presets.ts.
--   * Modal: apps/web/src/lib/transaction-modal.ts and tradeModalPhase of the panel.
--   * Graduated: apps/web/src/lib/uniswap-v3.ts. `Graduated.Quote` has minimumOutput, quoteIsFresh,
--     validateCanonicalPool, quoteGraduatedSwap and buildGraduatedSwapTransaction,
--     `Graduated.Swap` has waitForGraduatedAllowance and orchestrateGraduatedSwap,
--     `Graduated.Config` has configuredUniswapV3. `Graduated.Component` is
--     apps/web/src/components/graduated-token-swap.tsx: its state and the handlers of its inputs,
--     requestQuote in `Asking`, and submit with approveExactly and readState in `Swapping`.
--   * Format: apps/web/src/lib/format.ts, with viem's printing, dates and `Intl` as parameters.
--   * Chart: chartCandles and headerCandle of apps/web/src/components/token-chart.tsx, with
--     chartDisplayData in `Chart.Data`.
--   * Marketplace: arrangeTokens of apps/web/src/components/discovery-marketplace.tsx. Its sorting is
--     stable insertion; where a comparison function is not consistent, the platform may choose
--     another order.
--   * Base: shared helpers: Boolean tests, lists, texts as lists of code units, numbers, bigints,
--     thrown values. Tests: runs on concrete inputs.
--
-- Amounts, times and block numbers are natural numbers, since the code keeps them so; a bigint that
-- a text may make negative is an integer (ℤ), a number that the code tests with Number.isInteger is
-- a `Number`, and one that comes out of JSON is a `JsonNumber`. Reads that `Promise.all` starts
-- together are made in order, since they change nothing. The loops are recursive on their delays, or
-- on the number of blocks that are left in a batch, so no fuel is needed.
-- toLowerCase and case-insensitive patterns fold ASCII letters. A JSON text is represented by the value that it parses to.
--
-- Not modelled: rendering, the Solidity contracts, the Go services, ABIs as data, environment
-- variables (the addresses that they configure are arguments), and the schema of the index API.
pub mod Base
pub mod Client
pub mod Sdk
pub mod Curve
pub mod PendingTrade
pub mod Panel
pub mod Session
pub mod DevBuy
pub mod Launch
pub mod CreateForm
pub mod Inputs
pub mod Format
pub mod Chart
pub mod Marketplace
pub mod Modal
pub mod Graduated
pub mod Tests
