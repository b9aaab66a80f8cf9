-- ===== src/Bm1387.antt =====
-- src/bm1387.rs: what the driver knows of the BM1387 chip. `Midstate` has the number of midstates,
-- `Address` the addresses of chips and cores, and `Pll` the table of clock dividers.
pub mod Midstate
pub mod Address
pub mod Counts
pub mod Pll
pub mod Commands
pub mod Registers
pub mod MiscCtrl
pub mod Packing
pub mod TicketMask
mod Tests
