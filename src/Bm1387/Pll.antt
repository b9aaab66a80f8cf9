-- ===== src/Bm1387/Pll.antt =====
-- `PllReg`, `PllFrequency` and `distance` of src/bm1387.rs. The table is built from the frequency of
-- the crystal; `lookup_freq` has the table as an argument, in the source it is a lazy static.
pub mod Step
pub mod Table
pub mod Best
pub mod Search
pub mod Lookup
mod Tests
use Prim.Native.Nat.{compare, Ordering}
use kasop.Common.{
  ℕ, zero, suc, ◌+◌, ◌-◌, ◌*◌, ◌/◌, ◌≤◌, ◌<◌, Option, none, some, List, [], ◌∷◌, Bool,
}
use kasop.Common.{
  true, false, ◌||◌, ◌==◌, ltb, leb, if◌then◌else◌, length, get_elem?, set, replicate,
}
use kasop.Common.{ErrorKind, Outcome, ok, err, panic, ◌>>=◌, expect}
use kasop.Common.Loop.{for_range}

pub record PllReg : Type 0 where
  pub fbdiv : ℕ
  pub refdiv : ℕ
  pub postdiv1 : ℕ
  pub postdiv2 : ℕ

-- `PllReg::calc`: a division by zero panics. The number is not cut to a `usize`: a crystal for which 32
-- bits are not enough is not in use.
pub calc : PllReg → ℕ → Outcome ℕ
calc r xtal_freq =
    if r.refdiv == 0 || r.postdiv1 == 0 || r.postdiv2 == 0
    then panic
    else ok (xtal_freq * r.fbdiv / r.refdiv / r.postdiv1 / r.postdiv2)

pub distance : ℕ → ℕ → ℕ
distance x y = if leb y x then x - y else y - x

pub record PllFrequency : Type 0 where
  pub frequency : ℕ
  pub reg : PllReg

abbrev pub bin_size_hz : ℕ
bin_size_hz = 1_000_000

-- `MIN_FREQ_HZ / BIN_SIZE_HZ` and `MAX_FREQ_HZ / BIN_SIZE_HZ`.
abbrev pub min_mhz : ℕ
min_mhz = 100_000_000 / bin_size_hz

abbrev pub max_mhz : ℕ
max_mhz = 1_200_000_000 / bin_size_hz

abbrev pub Bins : Type 0
Bins = List (Option PllFrequency)

-- "There's already a PLL in this bucket", and it is as near.
pub is_as_near : Option PllFrequency → ℕ → ℕ → Bool
unfolding distance
is_as_near none bin_freq frequency = false
is_as_near (some old) bin_freq frequency =
    leb (distance bin_freq old.frequency) (distance bin_freq frequency)

-- "Remember this divider", unless the bucket has one that is as near.
pub remember : PllReg → Bins → ℕ → ℕ → Option PllFrequency → Outcome Bins
unfolding is_as_near
remember reg bins frequency bin_no old = ok (
    if is_as_near old (bin_no * bin_size_hz) frequency
    then bins
    else set bins bin_no (some (record { frequency = frequency; reg = reg })))

-- The body of the loop over dividers, from the rounding of the frequency on.
pub offer : PllReg → Bins → ℕ → Outcome Bins
unfolding remember
offer reg bins frequency =
    let bin_no = (frequency + 500_000) / bin_size_hz in
    if ltb bin_no min_mhz || ltb max_mhz bin_no
    then ok bins
    else (expect (get_elem? bins bin_no) >>= remember reg bins frequency bin_no)

pub improve : ℕ → PllReg → Bins → Outcome Bins
unfolding calc offer
improve xtal_freq reg bins = calc reg xtal_freq >>= offer reg bins

-- The four loops.
pub fill_bins : ℕ → Bins → Outcome Bins
unfolding improve
fill_bins xtal_freq = for_range 1 7 λ postdiv1. for_range 1 63 λ refdiv.
    for_range 1 postdiv1 λ postdiv2. for_range 32 96 λ fbdiv.
      improve xtal_freq
        (record { fbdiv = fbdiv; refdiv = refdiv; postdiv1 = postdiv1; postdiv2 = postdiv2 })

-- `filter_map(|x| x)`.
pub filled : Bins → List PllFrequency
filled [] = []
filled (none ∷ bins) = filled bins
filled (some p ∷ bins) = p ∷ filled bins

pub precompute_pll_table : ℕ → Outcome (List PllFrequency)
unfolding fill_bins filled
precompute_pll_table xtal_freq = do
  bins ← fill_bins xtal_freq (replicate (max_mhz + 1) none)
  ok (filled bins)

-- `binary_search_by_key(target, |p| p.frequency)`. On a sorted slice with no key twice the standard
-- library promises the position of the key, or else the place where it would be inserted.
pub data Position : Type 0 where
  found missing : ℕ → Position

pub search_from : ℕ → List PllFrequency → ℕ → Position
search_from target [] i = missing i
search_from target (p ∷ ps) i =
    let rest = search_from target ps (i + 1) in
    elim (compare p.frequency target) [
      | Ordering.lt ↦ rest
      | Ordering.eq ↦ found i
      | Ordering.gt ↦ missing i
    ]

-- What `lookup_freq` does with the result of the search.
pub choose : List PllFrequency → ℕ → Position → Outcome PllFrequency
unfolding distance
choose plls target (found i) = expect (get_elem? plls i)
choose plls target (missing i) = if i == 0 || leb (length plls) i then err ErrorKind.pll else do
  below ← expect (get_elem? plls (i - 1))
  above ← expect (get_elem? plls i)
  ok (
      if leb (distance below.frequency target) (distance above.frequency target)
      then below
      else above)

pub lookup_freq : List PllFrequency → ℕ → Outcome PllFrequency
unfolding search_from choose
lookup_freq plls target = choose plls target (search_from target plls 0)
