-- ===== src/Io.antt =====
-- src/io.rs and src/io/ext_work_id.rs: the FPGA core of one hashboard.
pub mod ExtWorkId
pub mod Fifo
pub mod Work
pub mod Core
pub mod Sending
pub mod Receiving
mod Tests
mod FifoTests
