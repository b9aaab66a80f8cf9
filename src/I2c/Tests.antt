-- ===== src/I2c/Tests.antt =====
-- The fake bus of the tests of src/i2c.rs.
use kasop.Common.{[], some, ok, ◌≡◌, refl, set}
use kasop.I2c.{Address, Device, write_readback, same_value}
use kasop.I2c.Fake.{FakeI2cBus, new_fake, fake_bus, fake_read, fake_write, fake_value, fake_store}

abbrev home : Address
home = record { hw = 0x16 }

abbrev device : Device
device = record { address = home }

abbrev answering : FakeI2cBus
answering = new_fake home [] (some 0) (some 0x7f)

eight_accessible : fake_value answering home 8 ≡ ok 0
unfolding fake_value
eight_accessible = refl

-- The write that the test calls `dev.write_readback(8, 8, 0xaa)`.
abbrev written : FakeI2cBus
written = record answering { registers = set answering.registers 8 (some 0xaa) }

readback_succeeds : write_readback fake_bus device 8 8 0xaa answering ≡ (written, ok tt)
unfolding write_readback same_value fake_write fake_read fake_value fake_store
readback_succeeds = refl
