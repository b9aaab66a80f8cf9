-- ===== src/Power/Tests.antt =====
-- A PIC that is given a program of one sector, and the other operations at small inputs.
use kasop.Common.{
  ℕ, zero, suc, ◌<◌, true, false, List, [], ◌∷◌, ◌++◌, length, replicate, get_elem?, get_or, none,
  some, Outcome, ok, err, panic, ErrorKind, ◌≡◌, ◌≢◌, ◌⊎◌, inl, refl, arith,
}
use kasop.Common.Done.{Done}
use kasop.Power.{AsyncI2cDev}
use kasop.Power.Backend
use kasop.Power.Backend.{
  get_i2c_address, write_retry, write_tries, after_try, write_all, read_bytes,
}
use kasop.Power.Voltage.{Voltage, as_pic_value}
use kasop.Power.Flash.{to_bytes, num_chips}
use kasop.Power.Badcore
use kasop.Power.Badcore.{FlashBadcore}
use kasop.Power.Freq
use kasop.Power.Freq.{FlashFreq}
use kasop.Power.Firmware.{PicProgram}
use kasop.Power.Control.{
  program_pic, read_flash, enable_voltage, reset, set_flash_pointer_check, set_flash_pointer,
  get_flash_pointer, from_be_bytes, read_blocks, read_data_from_iic, jump_from_loader_to_app,
  get_version, read_one,
}
use kasop.Power.Startup.{Control, new, is_current, set_voltage, reset_and_start_app, init}
use kasop.Power.Retry.{HasFailed, transaction, behind, write_retry_lem}
use kasop.Power.Sections.{bad_cores_at, badcore_parse_lem}
use kasop.Power.Pic.{Loader}
use kasop.Power.Program.{Fits, Written, program_pic-Done, program_pic-read_flash}
use kasop.Power.Start.{RightVersion, VoltageSent, init-ok}
use kasop.Power.FakePic.{FakePic, Phase, fake_bus, showing}
use kasop.Power.FakeLaws.{Shows, fake-IsPic}

address_of_board_8 : get_i2c_address 8 ≡ 0x57
unfolding get_i2c_address
address_of_board_8 = refl

-- A bus that fails so many times before it works.
abbrev flaky_bus : AsyncI2cDev ℕ
flaky_bus = record { read = λ address num_bytes s. (s, ok []); write = λ address bytes s. flaky s }
  where
    flaky : ℕ → ℕ × Outcome (Unit {0})
    flaky zero = (0, ok tt)
    flaky (suc n) = (n, err ErrorKind.i2c)

early_failures : (i : ℕ) → i < 2 → HasFailed (transaction flaky_bus 8 7 (behind flaky_bus 8 7 i 2))
early_failures zero lt = tt
early_failures (suc zero) lt = tt
early_failures (suc (suc i)) lt = absurd (omega arith)

write_retry_lem_example :
    write_retry flaky_bus 8 7 2 ≡ transaction flaky_bus 8 7 (behind flaky_bus 8 7 2 2)
write_retry_lem_example =
    write_retry_lem flaky_bus 8 7 2 2 (omega arith) early_failures (inl (λ failed. failed))

abbrev sector : PicProgram
sector = record {
  load_addr = record { address = 0x20 };
  prog_size = record { words = 0x20 };
  bytes = replicate 32 0x12 ++ replicate 32 0x34;
}

sector-Fits : Fits sector
sector-Fits = record {
  sector = refl;
  sectors = refl;
  filled = omega arith;
  words = omega arith;
  inside = omega arith;
}

abbrev blank : Loader
blank = record { flash = λ j. 0; blank = λ j. false; pointer = 0; buffer = [] }

program_pic-Done_example :
    Done ⊥
      (program_pic fake_bus 8 sector (showing blank))
      (λ t _. (w : Loader) × Shows t w × Written blank 0x20 sector.bytes w)
program_pic-Done_example =
    program_pic-Done fake_bus 8 ⊥ Shows (fake-IsPic 8) sector (showing blank) blank sector-Fits refl

program_pic-read_flash_example :
    (t : FakePic) × (u : FakePic) × (program_pic fake_bus 8 sector (showing blank) ≡ (t, ok tt))
    × (read_flash fake_bus 8 sector.load_addr sector.prog_size t ≡ (u, ok sector.bytes))
program_pic-read_flash_example =
    program_pic-read_flash fake_bus 8 Shows (fake-IsPic 8) sector (showing blank) blank sector-Fits
      refl

abbrev badcore_bytes : List ℕ
badcore_bytes = 0x23 ∷ 0x21 ∷ replicate 62 0

badcore_runs : Badcore.bad_core badcore_bytes 0 ≡ ok 2
unfolding Badcore.bad_core
badcore_runs = refl

badcore_parse_lem_example :
    ((length badcore_bytes ≢ 0x40) × (Badcore.parse badcore_bytes ≡ panic))
    ⊎ ((length badcore_bytes ≡ 0x40)
        × (((get_or badcore_bytes 0 0 ≢ Badcore.magic) × (Badcore.parse badcore_bytes ≡ ok none))
            ⊎ ((get_or badcore_bytes 0 0 ≡ Badcore.magic)
                × ((flash : FlashBadcore) × (Badcore.parse badcore_bytes ≡ ok (some flash))
                    × (length flash.bad_cores ≡ num_chips)
                    × ((i : ℕ)
                        → i < num_chips
                        → get_elem? flash.bad_cores i ≡ some (bad_cores_at badcore_bytes i))))))
badcore_parse_lem_example = badcore_parse_lem badcore_bytes

abbrev freq_bytes : List ℕ
freq_bytes = 0x3f ∷ 0x7d ∷ replicate 126 5

abbrev ten_bytes : List ℕ
ten_bytes = replicate 10 0

abbrev two_lines : List (Outcome ℕ)
two_lines = ok 0x1234 ∷ ok 0x3fff ∷ []

abbrev volts : Voltage
volts = record { pic = 6 }

abbrev started : Control FakePic
started = record {
  i2c = record {
    loader = record { flash = λ j. 0; blank = λ j. false; pointer = 0xfe0; buffer = [] };
    phase = Phase.idle;
    reply = [];
  };
  current_voltage = some volts;
  badcore_flash = none;
  freq_flash = none;
  heart_beat = true;
}

-- The whole start of a controller with a blank flash, whose application has the expected version.
starts : init fake_bus 8 (err ErrorKind.io) volts (new (showing blank)) ≡ (started, ok tt)
unfolding init new reset_and_start_app reset Backend.write write_all write_retry write_tries
    after_try read_flash to_bytes set_flash_pointer_check set_flash_pointer get_flash_pointer
    Backend.read read_bytes from_be_bytes read_blocks read_data_from_iic Badcore.parse
    Badcore.parse_valid Freq.parse jump_from_loader_to_app get_version read_one set_voltage
    is_current as_pic_value enable_voltage
starts = refl

init-ok_example :
    (s : Control FakePic) × (t : Control FakePic) × RightVersion fake_bus 8
      (err ErrorKind.io)
      (new (showing blank))
      s
    × VoltageSent fake_bus 8 volts s t
    × (enable_voltage fake_bus 8 t.i2c ≡ (started.i2c, ok tt))
    × (started.heart_beat ≡ true)
    × (started.current_voltage ≡ some volts)
init-ok_example = init-ok fake_bus 8 (err ErrorKind.io) volts (new (showing blank)) started starts

abbrev fresh : Control FakePic
fresh = record {
  i2c = showing blank;
  current_voltage = none;
  badcore_flash = none;
  freq_flash = none;
  heart_beat = false;
}

abbrev at_six : Control FakePic
at_six = record fresh { current_voltage = some volts }

sets : set_voltage fake_bus 8 volts fresh ≡ (at_six, ok tt)
unfolding set_voltage is_current as_pic_value Backend.write write_all write_retry write_tries
    after_try
sets = refl
