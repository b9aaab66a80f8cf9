-- ===== src/Io/Core.antt =====
-- `Common` and `Core` of src/io.rs: the registers of an IP core, the check of its version, and the
-- order in which it is initialised. Opening and mapping the devices is left out.
use kasop.Common.{
  ℕ, ◌-◌, Bool, true, false, ◌&&◌, ok, err, ErrorKind, require, ltb, ◌==◌, ◌≡◌, ◌⊎◌, inl, inr, refl,
  arith, Bool-cases, ◌>>◌ as andThen,
}
use kasop.Common.Actions.{Action, ◌>>=◌, ◌>>◌, lift}
use kasop.Bm1387.Midstate.{MidstateCount}
use kasop.Bm1387.Midstate

pub data MinerType : Type 0 where
  -- The one value that is known, `MINER_TYPE_A::ANTMINER`.
  antminer : MinerType
  unknown : ℕ → MinerType

pub record Version : Type 0 where
  pub miner_type : MinerType
  pub model : ℕ
  pub major : ℕ
  pub minor : ℕ
  pub patch : ℕ

abbrev pub expected_s9io_version : Version
expected_s9io_version = record {
  miner_type = MinerType.antminer;
  model = 9;
  major = 1;
  minor = 0;
  patch = 0;
}

abbrev pub is_antminer : MinerType → Bool
is_antminer MinerType.antminer = true
is_antminer (MinerType.unknown n) = false

-- `version == EXPECTED_S9IO_VERSION`.
unfoldable pub is_expected : Version → Bool
is_expected v =
    is_antminer v.miner_type && v.model == 9 && v.major == 1 && v.minor == 0 && v.patch == 0

unfoldable pub seems_legit : ℕ → Bool
seems_legit build_id = ltb 1546300800 build_id && ltb build_id 0x80000000

-- The control register of a fifo.
pub record FifoCtrl : Type 0 where
  pub was_reset : Bool
  pub irq_en : Bool

-- The registers of the whole core. The value of the midstate field is a type of the build.
pub record Registers (R : Type 0) : Type 0 where
  pub build_id : ℕ
  pub version : Version
  pub enabled : Bool
  pub midstate_cnt : R
  pub work_time : ℕ
  pub baud_reg : ℕ
  pub command_ctrl : FifoCtrl
  pub work_rx_ctrl : FifoCtrl
  pub work_tx_ctrl : FifoCtrl
  pub work_tx_irq_thr : ℕ

abbrev pub fifo_size : ℕ
fifo_size = 2048

abbrev pub biggest_work : ℕ
biggest_work = 200

abbrev pub fifo_threshold : ℕ
fifo_threshold = fifo_size - biggest_work

abbrev pub reset_and_enabled : FifoCtrl
reset_and_enabled = record { was_reset = true; irq_en = true }

module _ {R : Type 0} where
  unfoldable pub enable_ip_core : Action (Registers R) (Unit {0})
  enable_ip_core r = (record r { enabled = true }, ok tt)

  unfoldable pub disable_ip_core : Action (Registers R) (Unit {0})
  disable_ip_core r = (record r { enabled = false }, ok tt)

  unfoldable pub set_ip_core_work_time : ℕ → Action (Registers R) (Unit {0})
  set_ip_core_work_time work_time r = (record r { work_time = work_time }, ok tt)

  unfoldable pub set_baud_clock_div : ℕ → Action (Registers R) (Unit {0})
  set_baud_clock_div baud_clock_div r = (record r { baud_reg = baud_clock_div }, ok tt)

  abbrev pub set_ip_core_midstate_count : R → Action (Registers R) (Unit {0})
  set_ip_core_midstate_count value r = (record r { midstate_cnt = value }, ok tt)

  -- The values of the register for one, two and four midstates are arguments.
  unfoldable pub set_midstate_count : R → R → R → MidstateCount → Action (Registers R) (Unit {0})
  set_midstate_count one two four m = do
    value ← lift (Midstate.to_reg one two four m)
    set_ip_core_midstate_count value

  unfoldable pub check_version : Action (Registers R) (Unit {0})
  check_version r = (
    r,
    andThen (require (seems_legit r.build_id) ErrorKind.hashboard)
        (require (is_expected r.version) ErrorKind.unexpected_version),
  )

  -- `Common::init`.
  unfoldable pub init_common : Action (Registers R) (Unit {0})
  unfolding disable_ip_core enable_ip_core check_version
  init_common = do disable_ip_core; enable_ip_core; check_version

  -- `init` of the three fifos.
  unfoldable pub init_command : Action (Registers R) (Unit {0})
  init_command r = (record r { command_ctrl = reset_and_enabled }, ok tt)

  unfoldable pub init_work_rx : Action (Registers R) (Unit {0})
  init_work_rx r = (record r { work_rx_ctrl = reset_and_enabled }, ok tt)

  unfoldable pub init_work_tx : Action (Registers R) (Unit {0})
  init_work_tx r =
      (record r { work_tx_irq_thr = fifo_threshold; work_tx_ctrl = reset_and_enabled }, ok tt)

  unfoldable pub init_and_split : Action (Registers R) (Unit {0})
  unfolding init_common init_command init_work_rx init_work_tx
  init_and_split = do init_common; init_command; init_work_rx; init_work_tx

  -- Initialising a core leaves it enabled. It succeeds exactly for the expected version with a build
  -- time that makes sense, and then all fifos interrupt and the one for work is thought to have room
  -- below its threshold; otherwise an error says which of the two is wrong, the build time first, and
  -- nothing else is changed.
  pub init_and_split_lem :
      (r : Registers R)
      → ((seems_legit r.build_id ≡ true)
          × (is_expected r.version ≡ true)
          × (init_and_split r ≡ (
            record r {
              enabled = true;
              command_ctrl = reset_and_enabled;
              work_rx_ctrl = reset_and_enabled;
              work_tx_ctrl = reset_and_enabled;
              work_tx_irq_thr = 1848;
            },
            ok tt,
          )))
        ⊎ (((seems_legit r.build_id ≡ false)
              × (init_and_split r ≡ (record r { enabled = true }, err ErrorKind.hashboard)))
            ⊎ ((seems_legit r.build_id ≡ true)
                × (is_expected r.version ≡ false)
                × (init_and_split r
                    ≡ (record r { enabled = true }, err ErrorKind.unexpected_version))))
  unfolding init_and_split
  init_and_split_lem r = elim (Bool-cases (seems_legit r.build_id)) [
    | inr odd ↦ inr (inl (odd, rw odd refl))
    | inl legit ↦ elim (Bool-cases (is_expected r.version)) [
      | inr other ↦ inr (inr (legit, other, rw (legit, other) refl))
      | inl right ↦ inl (legit, right, rw (legit, right) refl)
    ]
  ]

-- The versions that are expected are the one that is.
pub is_expected_lem : (v : Version) → is_expected v ≡ true → v ≡ expected_s9io_version
unfolding is_expected
is_expected_lem v h = ground (arith, antminer_of v.miner_type)
  where
    antminer_of : (m : MinerType) → is_antminer m ≡ true → m ≡ MinerType.antminer
    antminer_of MinerType.antminer e = refl
    antminer_of (MinerType.unknown n) e = cc
