-- ===== src/Bm1387/Pll/Best.antt =====
-- No divider in the ranges of the loops comes nearer to a whole MHz than the entry of the table.
use kasop.Common.{ℕ, ◌+◌, ◌*◌, ◌≤◌, ◌<◌, Option, none, some, List, ◌≡◌, sym, ap, ◌∙◌, subst, arith}
use kasop.Common.{get_elem?, get_elem?-set_self, get_elem?-set_ne, get_elem?-lt, set, replicate, In}
use kasop.Common.{ok, ℕ_discrete, >>=-eq-ok, Outcome, false}
use kasop.Common.Loop.{for_range, for_range-rel, for_range_visits}
use kasop.Bm1387.Pll.{
  PllReg, PllFrequency, Bins, calc, distance, is_as_near, improve, fill_bins, filled,
  precompute_pll_table, bin_size_hz, min_mhz, max_mhz,
}
use kasop.Bm1387.Pll.Step.{bin_of, IsBins, Placed, outside, kept, stored, improve-Placed}
use kasop.Bm1387.Pll.Table.{In-filled, fill_bins-total, empty-IsBins}

-- Bucket `b` has an entry as near to `b` MHz as `f` is.
abbrev pub Covers : Bins → ℕ → ℕ → Type 0
Covers s b f =
    (p : PllFrequency) × (get_elem? s b ≡ some (some p))
    × (distance (b * bin_size_hz) p.frequency ≤ distance (b * bin_size_hz) f)

-- Later buckets cover what the earlier ones did.
abbrev Better : Bins → Bins → Type 0
Better s t = (b f : ℕ) → Covers s b f → Covers t b f

far-lt :
    (c f : ℕ) (p : PllFrequency)
    → is_as_near (some p) c f ≡ false
    → distance c f < distance c p.frequency
unfolding is_as_near
far-lt c f p h = ground arith

store-Better :
    (f : ℕ) (reg : PllReg) (s : Bins) (old : Option PllFrequency)
    → get_elem? s (bin_of f) ≡ some old
    → is_as_near old (bin_of f * bin_size_hz) f ≡ false
    → Better s (set s (bin_of f) (some (record { frequency = f; reg = reg })))
store-Better f reg s old got far b g (p, e, near) = elim (ℕ_discrete (bin_of f) b) [
  | yes here ↦
      let entry : PllFrequency = record { frequency = f; reg = reg } in
      let same = get_elem?-set_self s (bin_of f) (some entry) (get_elem?-lt s (bin_of f) got) in
      let was : old ≡ some p = cc in
      let c : ℕ = bin_of f * bin_size_hz in
      let nearer = far-lt c f p (subst (λ o. is_as_near o c f ≡ false) was far) in
      let near' =
        subst (λ u. distance (u * bin_size_hz) p.frequency ≤ distance (u * bin_size_hz) g)
          (sym here) near in
      let total : distance c f ≤ distance c g = omega arith in
      (
        entry,
        ap (get_elem? (set s (bin_of f) (some entry))) (sym here) ∙ same,
        subst (λ u. distance (u * bin_size_hz) f ≤ distance (u * bin_size_hz) g) here total,
      )
  | no there ↦ (p, get_elem?-set_ne s (bin_of f) b _ there ∙ e, near)
]

Placed-Better : (f : ℕ) (reg : PllReg) (s t : Bins) → Placed f reg s t → Better s t
Placed-Better f reg s t (outside h same) b g c = subst (λ u. Covers u b g) (sym same) c
Placed-Better f reg s t (kept old got near same) b g c = subst (λ u. Covers u b g) (sym same) c
Placed-Better f reg s t (stored old got far low same) b g c =
    subst (λ u. Covers u b g) (sym same) (store-Better f reg s old got far b g c)

Placed-Covers :
    (f : ℕ) (reg : PllReg) (s t : Bins)
    → Placed f reg s t
    → min_mhz ≤ bin_of f
    → bin_of f ≤ max_mhz
    → Covers t (bin_of f) f
Placed-Covers f reg s t (outside h same) low high = absurd (omega arith)
Placed-Covers f reg s t (kept old got near same) low high =
    (old, ap (λ (u : Bins). get_elem? u (bin_of f)) same ∙ got, near)
Placed-Covers f reg s t (stored old got far l same) low high =
    let entry : PllFrequency = record { frequency = f; reg = reg } in
    (
      entry,
      ap (λ (u : Bins). get_elem? u (bin_of f)) same
          ∙ get_elem?-set_self s (bin_of f) (some entry) (get_elem?-lt s (bin_of f) got),
      omega arith,
    )

same_Better : (s : Bins) → Better s s
same_Better s b g c = c

both_Better : (s t u : Bins) → Better s t → Better t u → Better s u
both_Better s t u h k b g c = k b g (h b g c)

improve-Better : (xtal : ℕ) (reg : PllReg) (s t : Bins) → improve xtal reg s ≡ ok t → Better s t
improve-Better xtal reg s t e =
    let cut = improve-Placed xtal reg s t e in Placed-Better cut.0 reg s t cut.2

-- A divider in the ranges of the source's loops.
pub record IsTried (r : PllReg) : Type 0 where
  pub postdiv1_from : 1 ≤ r.postdiv1
  pub postdiv1_to : r.postdiv1 ≤ 7
  pub refdiv_from : 1 ≤ r.refdiv
  pub refdiv_to : r.refdiv ≤ 63
  pub postdiv2_from : 1 ≤ r.postdiv2
  pub postdiv2_to : r.postdiv2 ≤ r.postdiv1
  pub fbdiv_from : 32 ≤ r.fbdiv
  pub fbdiv_to : r.fbdiv < 128

module _ (xtal : ℕ) where
  abbrev reg_of : ℕ → ℕ → ℕ → ℕ → PllReg
  reg_of postdiv1 refdiv postdiv2 fbdiv = record {
    fbdiv = fbdiv;
    refdiv = refdiv;
    postdiv1 = postdiv1;
    postdiv2 = postdiv2;
  }

  over_fbdiv : ℕ → ℕ → ℕ → Bins → Outcome Bins
  over_fbdiv a b c = for_range 32 96 λ d. improve xtal (reg_of a b c d)

  over_postdiv2 : ℕ → ℕ → Bins → Outcome Bins
  unfolding over_fbdiv
  over_postdiv2 a b = for_range 1 a λ c. over_fbdiv a b c

  over_refdiv : ℕ → Bins → Outcome Bins
  unfolding over_postdiv2
  over_refdiv a = for_range 1 63 λ b. over_postdiv2 a b

  fbdiv-Better : (a b c : ℕ) (s t : Bins) → over_fbdiv a b c s ≡ ok t → Better s t
  unfolding over_fbdiv
  fbdiv-Better a b c =
      for_range-rel Better same_Better both_Better _ 32 96 (λ d s t e. improve-Better xtal _ s t e)

  postdiv2-Better : (a b : ℕ) (s t : Bins) → over_postdiv2 a b s ≡ ok t → Better s t
  unfolding over_postdiv2
  postdiv2-Better a b =
      for_range-rel Better same_Better both_Better _ 1 a (λ c s t e. fbdiv-Better a b c s t e)

  refdiv-Better : (a : ℕ) (s t : Bins) → over_refdiv a s ≡ ok t → Better s t
  unfolding over_refdiv
  refdiv-Better a =
      for_range-rel Better same_Better both_Better _ 1 63 (λ b s t e. postdiv2-Better a b s t e)

  -- The buckets that the four loops leave cover the frequency of every divider that was tried.
  fill_bins-Covers :
      (r : PllReg) (f : ℕ) (s t : Bins)
      → IsTried r
      → calc r xtal ≡ ok f
      → min_mhz ≤ bin_of f
      → bin_of f ≤ max_mhz
      → fill_bins xtal s ≡ ok t
      → Covers t (bin_of f) f
  unfolding fill_bins over_refdiv
  fill_bins-Covers r f s t v calculated low high e =
      let v1 =
        for_range_visits Better same_Better both_Better over_refdiv 1 7
          (λ a s' t' e'. refdiv-Better a s' t' e') r.postdiv1 v.postdiv1_from (omega arith) s t e in
      let v2 =
        for_range_visits Better same_Better both_Better (over_postdiv2 r.postdiv1) 1 63
          (λ b s' t' e'. postdiv2-Better r.postdiv1 b s' t' e') r.refdiv v.refdiv_from (omega arith)
          v1.0 v1.1 v1.3 in
      let v3 =
        for_range_visits Better same_Better both_Better (over_fbdiv r.postdiv1 r.refdiv) 1
          r.postdiv1 (λ c s' t' e'. fbdiv-Better r.postdiv1 r.refdiv c s' t' e') r.postdiv2
          v.postdiv2_from (omega arith) v2.0 v2.1 v2.3 in
      let v4 =
        for_range_visits Better same_Better both_Better
          (λ d. improve xtal (reg_of r.postdiv1 r.refdiv r.postdiv2 d)) 32 96
          (λ d s' t' e'. improve-Better xtal (reg_of r.postdiv1 r.refdiv r.postdiv2 d) s' t' e')
          r.fbdiv v.fbdiv_from (omega arith) v3.0 v3.1 v3.3 in
      let cut = improve-Placed xtal r v4.0 v4.1 v4.3 in
      let same : cut.0 ≡ f = ground (arith, cut.1, calculated) in
      let here =
        subst (λ g. Covers v4.1 (bin_of g) g) same
          (Placed-Covers cut.0 r v4.0 v4.1 cut.2 (rw same low) (rw same high)) in
      v1.4 (bin_of f) f (v2.4 (bin_of f) f (v3.4 (bin_of f) f (v4.4 (bin_of f) f here)))

-- For every divider in the ranges of the source whose frequency rounds to 100 to 1200 MHz, the
-- table has an entry that rounds to the same MHz and is at least as near to it.
pub precompute_pll_table_best :
    (xtal : ℕ) (table : List PllFrequency) (r : PllReg) (f : ℕ)
    → precompute_pll_table xtal ≡ ok table
    → IsTried r
    → calc r xtal ≡ ok f
    → min_mhz ≤ bin_of f
    → bin_of f ≤ max_mhz
    → (p : PllFrequency) × In p table
      × (bin_of p.frequency ≡ bin_of f)
      × (distance (bin_of f * bin_size_hz) p.frequency ≤ distance (bin_of f * bin_size_hz) f)
unfolding precompute_pll_table
precompute_pll_table_best xtal table r f e v calculated low high =
    let cut =
      >>=-eq-ok (fill_bins xtal (replicate (max_mhz + 1) none)) (λ bins. ok (filled bins)) e in
    let done = fill_bins-total xtal (replicate (max_mhz + 1) none) (empty-IsBins xtal) in
    let same : done.0 ≡ cut.0 = ground (arith, done.1, cut.1) in
    let bins = subst (IsBins xtal) same done.2 in
    let best =
      fill_bins-Covers xtal r f (replicate (max_mhz + 1) none) cut.0 v calculated low high cut.1 in
    let is_table : filled cut.0 ≡ table = ground (arith, cut.2) in
    (
      best.0,
      subst (In best.0) is_table (In-filled cut.0 (bin_of f) best.0 best.1),
      (bins.rounds (bin_of f) best.0 best.1).0,
      best.2,
    )
