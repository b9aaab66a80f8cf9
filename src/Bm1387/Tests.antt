-- ===== src/Bm1387/Tests.antt =====
-- Four midstates, with the registers of the FPGA numbered.
use kasop.Common.{ℕ}

abbrev register_1 : ℕ
register_1 = 0

abbrev register_2 : ℕ
register_2 = 1

abbrev register_4 : ℕ
register_4 = 2

abbrev four : ℕ
four = 4
