-- ===== src/Io/Tests.antt =====
-- Concrete work ids, with four midstates.
use kasop.Common.{◌<◌, arith}
use kasop.Bm1387.Midstate.{MidstateCount}
use kasop.Io.ExtWorkId.{ExtWorkId, get_work_id_count}

abbrev four : MidstateCount
four = record { log2 = 2 }

abbrev last_work : ExtWorkId
last_work = record { work_id = 16383; midstate_idx = 1 }

last_work_fits : last_work.work_id < get_work_id_count four
unfolding get_work_id_count
last_work_fits = omega arith
