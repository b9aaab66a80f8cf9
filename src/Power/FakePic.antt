-- ===== src/Power/FakePic.antt =====
-- A bus with one PIC that follows its commands, for tests: it takes a command byte by byte.
use kasop.Common.{
  ℕ, zero, suc, ◌+◌, ◌*◌, ◌/◌, ◌%◌, ◌^◌, Bool, true, false, List, [], ◌∷◌, ◌++◌, replicate, Outcome,
  ok, err, ErrorKind, ◌==◌, if◌then◌else◌,
}
use kasop.Power.{AsyncI2cDev}
use kasop.Power.Control.{from_be_bytes}
use kasop.Power.Pic.{Loader, window}

-- What of a command has come: nothing, the magic bytes, or a command that waits for arguments.
pub data Phase : Type 0 where
  idle one_magic two_magic : Phase
  waiting : ℕ → ℕ → List ℕ → Phase

pub record FakePic : Type 0 where
  pub loader : Loader
  pub phase : Phase
  pub reply : List ℕ

abbrev pub overwrite : {A : Type 0} → (ℕ → A) → ℕ → List A → ℕ → A
overwrite f at [] j = f j
overwrite f at (b ∷ bs) j = if j == at then b else overwrite f (at + 1) bs j

-- A byte that is burnt where the flash is not blank is spoilt.
abbrev pub burn : (ℕ → ℕ) → (ℕ → Bool) → ℕ → List ℕ → ℕ → ℕ
burn f blank at [] j = f j
burn f blank at (b ∷ bs) j =
    if j == at then (if blank at then b else 0) else burn f blank (at + 1) bs j

abbrev pub num_args : ℕ → ℕ
num_args command =
    if command == 0
    then 16
    else if command == 1
    then 2
    else if command == 2
    then 16
    else if command == 0x10
    then 1
    else if command == 0x15
    then 1
    else 0

abbrev pub execute : ℕ → List ℕ → Loader → Loader
execute command args v =
    if command == 1
    then record v { pointer = from_be_bytes 0 args }
    else if command == 2
    then record v { buffer = args }
    else if command == 3
    then record v { pointer = v.pointer + 8 }
    else if command == 4
    then record v {
      flash = overwrite v.flash (2 * v.pointer) (replicate 64 0);
      blank = overwrite v.blank (2 * v.pointer) (replicate 64 true);
      pointer = v.pointer + 32;
    }
    else if command == 5
    then record v {
      flash = burn v.flash v.blank (2 * v.pointer) v.buffer;
      blank = overwrite v.blank (2 * v.pointer) (replicate 16 false);
      pointer = v.pointer + 8;
    }
    else v

abbrev pub reply_to : ℕ → Loader → List ℕ
reply_to command v =
    if command == 3
    then window v.flash (2 * v.pointer) 16
    else if command == 8
    then v.pointer / 2 ^ 8 ∷ v.pointer % 2 ^ 8 ∷ []
    else if command == 0x17
    then 3 ∷ []
    else []

abbrev pub finish : ℕ → List ℕ → FakePic → FakePic
finish command args s = record {
  loader = execute command args s.loader;
  phase = idle;
  reply = reply_to command s.loader;
}

abbrev pub feed : Phase → ℕ → FakePic → FakePic
feed idle b s = record s { phase = if b == 0x55 then one_magic else idle }
feed one_magic b s = record s { phase = if b == 0xaa then two_magic else idle }
feed two_magic b s =
    if num_args b == 0 then finish b [] s else record s { phase = waiting b (num_args b) [] }
feed (waiting command zero got) b s = record s { phase = idle }
feed (waiting command (suc zero) got) b s = finish command (got ++ b ∷ []) s
feed (waiting command (suc (suc n)) got) b s = record s {
  phase = waiting command (suc n) (got ++ b ∷ []);
}

abbrev pub feed_all : List ℕ → FakePic → FakePic
feed_all [] s = s
feed_all (b ∷ bs) s = feed_all bs (feed s.phase b s)

abbrev pub give : List ℕ → FakePic → FakePic × Outcome (List ℕ)
give [] s = (s, err ErrorKind.i2c)
give (b ∷ bs) s = (record s { reply = bs }, ok (b ∷ []))

abbrev pub fake_bus : AsyncI2cDev FakePic
fake_bus = record {
  read = λ address num_bytes s. give s.reply s;
  write = λ address bytes s. (feed_all bytes s, ok tt);
}

abbrev pub showing : Loader → FakePic
showing v = record { loader = v; phase = idle; reply = [] }
