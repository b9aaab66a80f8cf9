-- ===== src/Monitor.antt =====
-- src/monitor.rs. `Chain` follows the state of one hashchain, `Decision` has the rules for the
-- fans, `Tick` the loop of the monitor over its chains.
pub mod Chain
pub mod Protocol
pub mod Decision
pub mod Safety
pub mod Speeds
pub mod Aggregate
pub mod Tick
pub mod Sweep
pub mod Reaction
mod Tests
