-- ===== src/CreateForm.antt =====
-- The form of apps/web/src/components/create-token-form.tsx, and `validateCreateToken` with its
-- helpers of apps/web/src/lib/transactions.ts. `Urls` is the platform's URL parser.
pub mod Validate
pub mod Form
