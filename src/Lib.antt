-- ===== src/Lib.antt =====
-- A model of the core of a miner for the Kaspa network that drives hash boards with BM1387 chips.
--
-- `Target` models src/target.rs: a target of 256 bits as four words, its compact encoding, order,
-- shift and bytes. `Xoshiro` models the generator of nonces, src/xoshiro256starstar.rs, and the
-- generator of the hash matrix, src/pow/xoshiro.rs. `Bm1387` models src/bm1387.rs: the number of
-- midstates, the addresses of chips and cores, and the table of PLL settings (`Pll`) with
-- `precompute_pll_table` and `lookup_freq`. `Io` has the work ids of src/io/ext_work_id.rs. `Fan`
-- models src/fan.rs and the controllers src/fan/pid.rs and src/fan/pid/offset_pid.rs. `Monitor`
-- models src/monitor.rs: `Chain` the state of a hashchain, `Decision` the rules of
-- `ControlDecision::decide` (with what they guarantee in `Safety` and `Speeds`), `Aggregate` the
-- `TemperatureAccumulator`, `Tick` the operations of `Monitor`, of which `do_tick` is composed as in
-- the source, with its loop over the chains in `Sweep`. `Sensor` models src/sensor.rs with the
-- drivers src/sensor/tmp451.rs and src/sensor/tmp42x.rs, on the buses and devices of `I2c`
-- (src/i2c.rs, and the fake bus of src/i2c/test_utils.rs); their measurements are what the monitor
-- is given. `Counters` models src/counters.rs.
--
-- `Power` models the voltage controllers of src/power.rs and src/power/firmware.rs, down to single
-- bytes on an I2C device (src/async_i2c.rs): `Backend`, `Flash` with the sections `Badcore` and
-- `Freq`, `Firmware`, `Control` and `Startup`. What the program in the PIC does is a record of laws,
-- `Pic`, which `FakePic` meets. The rest of `Io` models src/io.rs: `Fifo` the fifos of commands,
-- `Work` those of solutions and work, `Core` the version and the initialisation. `Command` models
-- src/command.rs over an interface that `OverFifo` fills with `Io`; `Bm1387` also has the commands and
-- registers that it sends and reads. `HashchipI2c` models src/bm1387/i2c.rs over the interface of
-- `Command`, and is a bus for the drivers of `Sensor`.
--
-- `Pow` models src/pow.rs with src/pow/hasher.rs, and `Pow.HeavyHash` models
-- src/pow/heavy_hash.rs: the search for a matrix of full rank takes a number of tries, since no bound
-- is known. Its numbers come from `Xoshiro`, and its bytes and the order of hashes from `Target`.
-- The permutation of keccak, the floating point numbers of the rank and the printing of a hash are
-- parameters. `Pow.Header` models the serialization of a header of proto/rpc.proto with the decoding
-- of its texts, and the hash of a block in src/kaspad_messages.rs, with blake2b as a parameter;
-- `Pow.Blocks` are its blocks as those of `Pow`.
--
-- `Watch` models src/watch.rs, the channel by which the workers get the newest block: the sender and
-- the receivers are threads, and a step is one access to what they share, so that their orders are
-- lists of events. Only one thread sends. `Halt` models the sender of src/halt.rs.
--
-- `Miner` models src/miner.rs: a round of a worker on the CPU (`launch_cpu_miner`), `Gpu` one of a
-- worker on a plugin (`launch_gpu_miner`), for whatever the channel and the plugin answer, and
-- `Manager` has `process_block`, with a send that no other thread interrupts; `Watch` has the single
-- steps of it. `Stratum` models src/client/stratum.rs and the lines of
-- src/client/stratum/statum_codec.rs: `Settings` the extranonce and the difficulty, `Handler`
-- `register`, the closure that sends a share and `handle_message`, which hands jobs to the manager.
-- Its shifts are those of a release build. `Mining` has the client, the manager and a worker
-- together. The decoding of a difficulty by the package num is a parameter.
--
-- A function that can fail returns an `Outcome`: a value, an error of src/error.rs without its
-- texts, or a panic. Words wrap around where the source lets them. A temperature, an `f32` in the
-- source, is an integer in 1/256 of a degree, the resolution of the sensors; NaN and the infinities
-- have no counterpart, nor has the rounding of the PID, whose crate `pid_control` is a parameter. A
-- time is a number of nanoseconds, and each reading of the clock is an argument. The loops are over
-- lists and ranges, and recursion is structural. Only the waits for a fifo and the reception of
-- responses are without a bound in the source, and take fuel: running out of it is marked as a panic,
-- and the theorems say how much is enough. The locks of the monitor
-- make each tick and each message one step.
--
-- Not modelled: the tasks and channels of tokio, logging, the mapping of devices into memory, the
-- connections and the JSON of the clients, the client of a node (src/client/grpc.rs), the start and
-- the joining of threads, the GPU plugins and the vendored libraries.
pub mod Bm1387
pub mod Command
pub mod Common
pub mod Counters
pub mod Fan
pub mod Halt
pub mod HashchipI2c
pub mod I2c
pub mod Io
pub mod Miner
pub mod Monitor
pub mod Pow
pub mod Power
pub mod Sensor
pub mod Stratum
pub mod Target
pub mod Watch
pub mod Xoshiro
