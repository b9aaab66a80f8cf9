-- ===== src/Bm1387/Pll/Tests.antt =====
-- The table of the 25 MHz crystal, and a table of two entries.
use kasop.Common.{ℕ, ◌*◌, ◌≤◌, ◌<◌, ◌≡◌, refl, inl, inr, List, [], ◌∷◌, In, ok, arith}
use kasop.Bm1387.Pll.{
  PllReg, PllFrequency, calc, distance, search_from, choose, lookup_freq, bin_size_hz,
}
use kasop.Bm1387.Pll.Step.{bin_of}
use kasop.Bm1387.Pll.Table.{Rises, precompute_pll_table_lem}
use kasop.Bm1387.Pll.Best.{IsTried, precompute_pll_table_best}
use kasop.Bm1387.Pll.Lookup.{Nearest, lookup_freq-Nearest}

abbrev xtal : ℕ
xtal = 25_000_000

-- 650 MHz.
abbrev divider : PllReg
divider = record { fbdiv = 104; refdiv = 2; postdiv1 = 2; postdiv2 = 1 }

divider-IsTried : IsTried divider
divider-IsTried = record {
  postdiv1_from = omega arith;
  postdiv1_to = omega arith;
  refdiv_from = omega arith;
  refdiv_to = omega arith;
  postdiv2_from = omega arith;
  postdiv2_to = omega arith;
  fbdiv_from = omega arith;
  fbdiv_to = omega arith;
}

divider-calc : calc divider xtal ≡ ok 650_000_000
unfolding calc
divider-calc = refl

precompute_pll_table_best_example :
    (p : PllFrequency) × In p (precompute_pll_table_lem xtal).0
    × (bin_of p.frequency ≡ bin_of 650_000_000)
    × (distance (bin_of 650_000_000 * bin_size_hz) p.frequency
        ≤ distance (bin_of 650_000_000 * bin_size_hz) 650_000_000)
precompute_pll_table_best_example =
    precompute_pll_table_best xtal (precompute_pll_table_lem xtal).0 divider 650_000_000
      (precompute_pll_table_lem xtal).1 divider-IsTried divider-calc (omega arith) (omega arith)

abbrev low : PllFrequency
low = record { frequency = 200_000_000; reg = divider }

abbrev high : PllFrequency
high = record { frequency = 650_000_000; reg = divider }

abbrev two : List PllFrequency
two = low ∷ high ∷ []

two_Rises : Rises two
two_Rises = ((omega arith, tt), (tt, tt))

lookup_300 : lookup_freq two 300_000_000 ≡ ok low
unfolding lookup_freq search_from choose distance
lookup_300 = refl

lookup_freq-Nearest_example : Nearest two 300_000_000 low
lookup_freq-Nearest_example = lookup_freq-Nearest two 300_000_000 low two_Rises lookup_300

below_all : (p : PllFrequency) → In p two → 199_999_999 < p.frequency
below_all p (inl e) = rw e (omega arith)
below_all p (inr (inl e)) = rw e (omega arith)
below_all p (inr (inr i)) = absurd i
