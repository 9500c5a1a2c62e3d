-- ===== src/Examples.antt =====
-- The theorems applied at concrete inputs.
mod Toy
mod Machines
mod Ledger
mod Planning
mod Positions
mod Fills
mod Halting
mod Exiting
mod Gating
mod Streams
mod Regulating
