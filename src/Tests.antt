-- ===== src/Tests.antt =====
-- Concrete runs of the models, and the theorems applied at concrete inputs.
mod Budgets
mod Meters
mod Records
mod Runs
mod Progress
mod Declared
mod Graphs
mod Texts
mod Wirings
