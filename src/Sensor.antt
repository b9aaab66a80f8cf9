-- ===== src/Sensor.antt =====
-- src/sensor.rs: temperatures. A temperature in degrees is an `f32` in the source; here it is a
-- number of 1/256 of a degree, which is what the sensors deliver and an `f32` holds exactly.
pub mod Tmp451
pub mod Tmp42x
pub mod Probe
pub mod Readings
pub mod Ranges
pub mod Search
mod Tests
use kasop.Common.Int.{ℤ}

pub data Measurement : Type 0 where
  not_present invalid_reading open_circuit short_circuit : Measurement
  ok : ℤ → Measurement

pub record Temperature : Type 0 where
  pub local : Measurement
  pub remote : Measurement
