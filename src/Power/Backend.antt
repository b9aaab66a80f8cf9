-- ===== src/Power/Backend.antt =====
-- `I2cBackend` of src/power.rs: commands to the controllers, byte by byte, with retries of writes.
use kasop.Common.{
  ℕ, zero, suc, ◌+◌, ◌-◌, ◌%◌, ◌^◌, List, [], ◌∷◌, Outcome, ok, err, panic, get_elem?, expect, ◌==◌,
  if◌then◌else◌,
}
use kasop.Common.Actions.{Action, ◌>>=◌, ◌>>◌, return, lift}
use kasop.Power.{AsyncI2cDev, pic_base_address, pic_command_1, pic_command_2}

abbrev pub i2c_num_retries : ℕ
i2c_num_retries = 15

-- A `u8`: the index is cut to eight bits, and the sums wrap around.
unfoldable pub get_i2c_address : ℕ → ℕ
get_i2c_address hashboard_idx = (pic_base_address + hashboard_idx % 2 ^ 8 + 2 ^ 8 - 1) % 2 ^ 8

-- What follows a try: `again` is the next one, and `tries_left` the number behind this one.
unfoldable pub after_try :
    {B : Type 0} → ℕ → B × Outcome (Unit {0}) → Action B (Unit {0}) → B × Outcome (Unit {0})
after_try tries_left (s, ok done) again = (s, ok done)
after_try tries_left (s, panic) again = (s, panic)
after_try tries_left (s, err kind) again = if tries_left == 0 then (s, err kind) else again s

module _ {B : Type 0} (inner : AsyncI2cDev B) where
  -- The body of the loop. With no try left the subtraction would go below zero.
  unfoldable pub write_tries : ℕ → ℕ → ℕ → Action B (Unit {0})
  write_tries zero hashboard_idx byte s = (s, panic)
  write_tries (suc tries_left) hashboard_idx byte s =
      after_try tries_left (inner.write (get_i2c_address hashboard_idx) (byte ∷ []) s)
        (write_tries tries_left hashboard_idx byte)

  unfoldable pub write_retry : ℕ → ℕ → Action B (Unit {0})
  write_retry hashboard_idx byte = write_tries i2c_num_retries hashboard_idx byte

  unfoldable pub write_all : ℕ → List ℕ → Action B (Unit {0})
  write_all hashboard_idx [] = return tt
  write_all hashboard_idx (byte ∷ bytes) =
      write_retry hashboard_idx byte >> write_all hashboard_idx bytes

  -- `I2cBackend::write`.
  unfoldable pub write : ℕ → ℕ → List ℕ → Action B (Unit {0})
  write hashboard_idx command bytes =
      write_all hashboard_idx (pic_command_1 ∷ pic_command_2 ∷ command ∷ bytes)

  -- The loop that reads: each transaction asks for `length` bytes, and the first of them counts.
  unfoldable pub read_bytes : ℕ → ℕ → ℕ → Action B (List ℕ)
  read_bytes hashboard_idx length zero = return []
  read_bytes hashboard_idx length (suc rounds) = do
    bytes ← inner.read (get_i2c_address hashboard_idx) length
    byte ← lift (expect (get_elem? bytes 0))
    reply ← read_bytes hashboard_idx length rounds
    return (byte ∷ reply)

  -- `I2cBackend::read`.
  unfoldable pub read : ℕ → ℕ → ℕ → Action B (List ℕ)
  read hashboard_idx command length = do
    write hashboard_idx command []
    read_bytes hashboard_idx length length
