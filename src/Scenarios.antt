-- ===== src/Scenarios.antt =====
-- Runs of the model on concrete devices, and the theorems applied to them.
mod Data
mod Facts
mod Runs
mod Lit
mod Commanded
mod Stepping
mod Stored
mod Managed
mod Edited
mod Rescheduled
mod Reported
pub mod Torn
