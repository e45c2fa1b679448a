-- ===== src/PendingTrade.antt =====
-- apps/web/src/lib/transactions.ts: the record of a submitted trade in the browser's localStorage,
-- its type guards, and the three operations on it. A stored text is modelled by what `JSON.parse`
-- makes of it: nothing (the empty text), a failure, or a value; `JSON.stringify` drops the fields
-- that are undefined.
pub mod Json
pub mod Guards
pub mod Store
