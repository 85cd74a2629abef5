-- ===== src/Nock.antt =====
-- nock.c: the Nock evaluator with its operation and cell budgets, hints and jets.
pub mod Meter
pub mod Slot
pub mod Edit
pub mod Hint
pub mod HotState
pub mod Eval
pub mod Ends
pub mod Budget
pub mod Spec
pub mod Sound
pub mod Jets
pub mod Hot
