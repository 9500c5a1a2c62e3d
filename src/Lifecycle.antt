-- ===== src/Lifecycle.antt =====
-- The five state machines of the platform, over the framework of src/feelies/core/state_machine.py.
pub mod Orders
pub mod Macro
pub mod Micro
pub mod Escalation
pub mod Integrity
pub mod Terminal
pub mod Gates
pub mod Levels
