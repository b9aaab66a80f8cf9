-- ===== src/Command/Tests.antt =====
-- Two chips that answer, and a register that is written.
use kasop.Common.{ℕ, List, [], ◌∷◌, map, some, true, false, ok, ◌≡◌, refl, arith, ◌>>=◌}
use kasop.Common.Done.{Done-ok}
use kasop.Bm1387.Address.{ChipAddress, is_broadcast, to_hw_addr}
use kasop.Bm1387.Commands.{get_status_cmd, set_config_cmd, unpack_response}
use kasop.Bm1387.Registers.{HashrateReg, hashrate_reg}
use kasop.Command.{
  CommandIo, InnerContext, read_register, write_register, from_regs, check_count, collect,
  flush_command_rx,
}
use kasop.Command.Reading.{
  Response, GivesResponses, head?, tail, value_of, answer, left, read_register-answer,
}
use kasop.Command.Interface.{context_interface, all_same, write_register_readback}

-- A fifo that is a list of responses; a command brings none of its own.
abbrev queue_io : CommandIo (List Response)
queue_io = record {
  send_command = λ cmd wait rs. (rs, ok tt);
  recv_response = λ timeout rs. (tail rs, ok (head? rs));
}

abbrev Waits : List Response → List Response → Type 0
Waits s rs = s ≡ rs

queue_gives : GivesResponses queue_io ⊥ Waits
queue_gives = record { receives = λ s rs timeout h. rw h (Done-ok (refl, refl)) }

abbrev response : ℕ → Response
response n = record { b3 = 0; b2 = 0; b1 = 0; b0 = n; chip_address = 0; register = 8 }

abbrev two : List Response
two = response 7 ∷ response 9 ∷ []

abbrev context : InnerContext (List Response)
context = record { command_io = two; chip_count = some 2 }

read_all : get_status_cmd ChipAddress.all 8 ≡ ok (0x54 ∷ 5 ∷ 0 ∷ 8 ∷ [])
unfolding get_status_cmd to_hw_addr is_broadcast
read_all = refl

read_register-answer_example :
    (d : InnerContext (List Response)) × (read_register queue_io 9 hashrate_reg ChipAddress.all
        context
      ≡ (d, answer ChipAddress.all (some 2) (map value_of two) >>= from_regs hashrate_reg))
    × (d.chip_count ≡ some 2)
    × Waits d.command_io (left ChipAddress.all two)
read_register-answer_example =
    read_register-answer queue_io Waits queue_gives hashrate_reg ChipAddress.all
      (0x54 ∷ 5 ∷ 0 ∷ 8 ∷ []) read_all 9 two context (omega arith) (Done-ok refl)

write_all : set_config_cmd ChipAddress.all 8 7 ≡ ok (0x58 ∷ 9 ∷ 0 ∷ 8 ∷ 0 ∷ 0 ∷ 0 ∷ 7 ∷ [])
unfolding set_config_cmd to_hw_addr is_broadcast
write_all = refl

-- A chip that answers every read with what was last written.
abbrev last_written : CommandIo (List Response)
last_written = record {
  send_command = λ cmd wait rs. elim wait [ true ↦ (rs, ok tt) | false ↦ (response 7 ∷ [], ok tt) ];
  recv_response = λ timeout rs. (tail rs, ok (head? rs));
}

abbrev quiet : InnerContext (List Response)
quiet = record { command_io = []; chip_count = some 1 }

abbrev seven : HashrateReg
seven = record { hashrate24 = 7 }

written_back :
    write_register_readback
      (context_interface last_written 9)
      hashrate_reg
      ChipAddress.all
      seven
      quiet
    ≡ (quiet, ok tt)
unfolding write_register_readback all_same read_register write_register from_regs check_count
    collect flush_command_rx get_status_cmd set_config_cmd to_hw_addr is_broadcast unpack_response
written_back = refl
