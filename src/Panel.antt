-- ===== src/Panel.antt =====
-- TokenTradePanel: what its state is made of, the tests it makes, and its handlers. `State` has the
-- data, `Handlers` the handlers, `Blocking` what they keep.
pub mod State
pub mod Handlers
pub mod Submit
pub mod Recover
pub mod Blocking
pub mod Course
pub mod Suited
pub mod Guards
pub mod Release
pub mod Exclusion
pub mod Figures
pub mod Quoting
