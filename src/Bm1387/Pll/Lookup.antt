-- ===== src/Bm1387/Pll/Lookup.antt =====
-- `lookup_freq` over a table of rising frequencies: it answers with the nearest entry exactly when
-- the target lies between two entries, and never panics.
use kasop.Common.{
  ℕ, zero, suc, ◌-◌, ◌≤◌, ◌<◌, some, List, [], ◌∷◌, ◌≡◌, refl, sym, ap, ◌∙◌, ◌⊎◌, inl, inr, arith,
}
use kasop.Common.{
  length, get_elem?, get_elem?-lt, In, subst, ok, err, ErrorKind, ◌==◌, leb, ◌||◌, Bool-cases,
  if◌then◌else◌, true, false, dec_lt,
}
use kasop.Bm1387.Pll.{
  PllFrequency, Position, found, missing, search_from, choose, lookup_freq, distance,
}
use kasop.Bm1387.Pll.Table.{Rises}
use kasop.Bm1387.Pll.Search.{Located, search_from-Located, get-All}

In-get : (ps : List PllFrequency) (p : PllFrequency) → In p ps → (m : ℕ) × (get_elem? ps m ≡ some p)
In-get [] p i = absurd i
In-get (q ∷ ps) p (inl e) = (0, ap some (sym e))
In-get (q ∷ ps) p (inr i) = let rest = In-get ps p i in (suc rest.0, rest.1)

get-In : (ps : List PllFrequency) (m : ℕ) (p : PllFrequency) → get_elem? ps m ≡ some p → In p ps
get-In [] m p e = absurd (cc)
get-In (q ∷ ps) zero p e = inl (cc)
get-In (q ∷ ps) (suc m) p e = inr (get-In ps m p e)

get_in_range :
    (ps : List PllFrequency) (i : ℕ)
    → i < length ps
    → (p : PllFrequency) × (get_elem? ps i ≡ some p)
get_in_range [] i h = absurd (omega arith)
get_in_range (p ∷ ps) zero h = (p, refl)
get_in_range (p ∷ ps) (suc i) h = get_in_range ps i (omega arith)

-- Frequencies rise with the position.
Rises-mono :
    (ps : List PllFrequency)
    → Rises ps
    → (m n : ℕ) (p q : PllFrequency) → get_elem? ps m ≡ some p
    → get_elem? ps n ≡ some q
    → m ≤ n
    → p.frequency ≤ q.frequency
Rises-mono [] r m n p q e f h = absurd (cc)
Rises-mono (s ∷ ps) (a, r) zero zero p q e f h = let same : p ≡ q = cc in rw same (omega arith)
Rises-mono (s ∷ ps) (a, r) zero (suc n) p q e f h =
    let same : s ≡ p = cc in
    let above = get-All (λ q'. s.frequency < q'.frequency) ps a n q f in
    let above' = subst (λ (s' : PllFrequency). s'.frequency < q.frequency) same above in omega arith
Rises-mono (s ∷ ps) (a, r) (suc m) zero p q e f h = absurd (omega arith)
Rises-mono (s ∷ ps) (a, r) (suc m) (suc n) p q e f h = Rises-mono ps r m n p q e f (omega arith)

abbrev pub Nearest : List PllFrequency → ℕ → PllFrequency → Type 0
Nearest ps target r =
    In r ps
    × ((p : PllFrequency) → In p ps → distance r.frequency target ≤ distance p.frequency target)

-- The nearer of two neighbours.
nearer : ℕ → PllFrequency → PllFrequency → PllFrequency
nearer target a b = if leb (distance a.frequency target) (distance b.frequency target) then a else b

nearer-le :
    (target : ℕ) (a b q : PllFrequency)
    → a.frequency < target
    → target < b.frequency
    → (q.frequency ≤ a.frequency) ⊎ (b.frequency ≤ q.frequency)
    → distance (nearer target a b).frequency target ≤ distance q.frequency target
unfolding nearer distance
nearer-le target a b q ha hb h = ground arith

choose_between :
    (ps : List PllFrequency) (target i : ℕ) (a b : PllFrequency)
    → 0 < i
    → i < length ps
    → get_elem? ps (i - 1) ≡ some a
    → get_elem? ps i ≡ some b
    → choose ps target (missing i) ≡ ok (nearer target a b)
unfolding choose nearer
choose_between ps target i a b hi hl ga gb =
    let inside : (i == 0 || leb (length ps) i) ≡ false = ground arith in rw (inside, ga, gb)

nearer-In :
    (ps : List PllFrequency) (target i : ℕ) (a b : PllFrequency)
    → get_elem? ps (i - 1) ≡ some a
    → get_elem? ps i ≡ some b
    → In (nearer target a b) ps
unfolding nearer
nearer-In ps target i a b ga gb =
    elim (Bool-cases (leb (distance a.frequency target) (distance b.frequency target))) [
      | inl e ↦ rw e (get-In ps (i - 1) a ga)
      | inr e ↦ rw e (get-In ps i b gb)
    ]

-- With entries on both sides the nearer neighbour is the nearest of all.
between-Nearest :
    (ps : List PllFrequency) (target i : ℕ) (a b : PllFrequency)
    → Rises ps
    → 0 < i
    → get_elem? ps (i - 1) ≡ some a
    → get_elem? ps i ≡ some b
    → a.frequency < target
    → target < b.frequency
    → Nearest ps target (nearer target a b)
between-Nearest ps target i a b rises hi ga gb la lb = (
  nearer-In ps target i a b ga gb,
  λ q iq. nearer-le target a b q la lb (side q (In-get ps q iq)),
)
  where
    side :
        (q : PllFrequency)
        → (m : ℕ) × (get_elem? ps m ≡ some q)
        → (q.frequency ≤ a.frequency) ⊎ (b.frequency ≤ q.frequency)
    side q (m, gq) = elim (dec_lt m i) [
      | yes h ↦ inl (Rises-mono ps rises m (i - 1) q a gq ga (omega arith))
      | no h ↦ inr (Rises-mono ps rises i m b q gb gq (omega arith))
    ]

choose-Nearest :
    (ps : List PllFrequency) (target : ℕ) (pos : Position)
    → Rises ps
    → Located target ps 0 pos
    → (r : PllFrequency) → choose ps target pos ≡ ok r
    → Nearest ps target r
choose-Nearest ps target (found i) rises (k, p, ei, got, same) r e =
    let here : get_elem? ps i ≡ some p = rw ei (ap (get_elem? ps) (omega arith) ∙ got) in
    let is : p ≡ r = unfold choose in ground (arith, e, here) in
    (
      get-In ps k r (got ∙ ap some is),
      λ q iq. unfold distance in ground (arith, ap (λ (u : PllFrequency). u.frequency) is),
    )
choose-Nearest ps target (missing i) rises (k, ei, size, below, above) r e =
    let tests : (0 < i) × (i < length ps) = unfold choose in ground (arith, e) in
    let (a, ga) = get_in_range ps (i - 1) (omega arith) in
    let (b, gb) = get_in_range ps i (omega arith) in
    let is : nearer target a b ≡ r =
      ground (arith, e, choose_between ps target i a b tests.0 tests.1 ga gb) in
    subst (Nearest ps target) is (
      between-Nearest ps target i a b rises tests.0 ga gb (below (i - 1) a ga (omega arith))
        (above i b gb (omega arith)))

-- Over a table of rising frequencies, what `lookup_freq` answers is an entry of the table, and no
-- entry is nearer to the target.
pub lookup_freq-Nearest :
    (plls : List PllFrequency) (target : ℕ) (r : PllFrequency)
    → Rises plls
    → lookup_freq plls target ≡ ok r
    → Nearest plls target r
unfolding lookup_freq
lookup_freq-Nearest plls target r rises e =
    choose-Nearest plls target (search_from target plls 0) rises
      (search_from-Located target plls 0 rises) r e

choose-ok :
    (ps : List PllFrequency) (target : ℕ) (pos : Position)
    → Located target ps 0 pos
    → (p q : PllFrequency) → In p ps
    → In q ps
    → p.frequency ≤ target
    → target ≤ q.frequency
    → (r : PllFrequency) × (choose ps target pos ≡ ok r)
choose-ok ps target (found i) (k, r, ei, got, same) p q ip iq lp lq =
    let here : get_elem? ps i ≡ some r = rw ei (ap (get_elem? ps) (omega arith) ∙ got) in
    (r, unfold choose in rw here)
choose-ok ps target (missing i) (k, ei, size, below, above) p q ip iq lp lq =
    let (m, gp) = In-get ps p ip in
    let (n, gq) = In-get ps q iq in
    let first : 0 < i = elim (dec_lt m k) [
      | yes h ↦ omega arith
      | no h ↦ absurd (omega (arith, above m p gp (omega arith)))
    ] in
    let last : i < length ps = elim (dec_lt n k) [
      | yes h ↦ absurd (omega (arith, below n q gq h))
      | no h ↦ omega (arith, get_elem?-lt ps n gq)
    ] in
    let (a, ga) = get_in_range ps (i - 1) (omega arith) in
    let (b, gb) = get_in_range ps i last in
    (nearer target a b, choose_between ps target i a b first last ga gb)

-- Over a table of rising frequencies `lookup_freq` answers whenever entries lie on both sides of
-- the target, or on it.
pub lookup_freq_between :
    (plls : List PllFrequency) (target : ℕ) (p q : PllFrequency)
    → Rises plls
    → In p plls
    → In q plls
    → p.frequency ≤ target
    → target ≤ q.frequency
    → (r : PllFrequency) × (lookup_freq plls target ≡ ok r)
unfolding lookup_freq
lookup_freq_between plls target p q rises ip iq lp lq =
    choose-ok plls target (search_from target plls 0) (search_from-Located target plls 0 rises) p q
      ip iq lp lq

choose_outside :
    (ps : List PllFrequency) (target : ℕ) (pos : Position)
    → Located target ps 0 pos
    → ((p : PllFrequency) → In p ps → target < p.frequency)
      ⊎ ((p : PllFrequency) → In p ps → p.frequency < target)
    → choose ps target pos ≡ err ErrorKind.pll
choose_outside ps target (found i) (k, r, ei, got, same) (inl h) =
    absurd (omega (arith, h r (get-In ps k r got)))
choose_outside ps target (found i) (k, r, ei, got, same) (inr h) =
    absurd (omega (arith, h r (get-In ps k r got)))
choose_outside ps target (missing i) (k, ei, size, below, above) (inl h) = elim (dec_lt 0 k) [
  | yes pos ↦
      let (a, ga) = get_in_range ps 0 (omega arith) in
      absurd (omega (arith, below 0 a ga pos, h a (get-In ps 0 a ga)))
  | no none_below ↦
      let first : (i == 0 || leb (length ps) i) ≡ true = ground arith in unfold choose in rw first
]
choose_outside ps target (missing i) (k, ei, size, below, above) (inr h) =
    elim (dec_lt k (length ps)) [
      | yes inside ↦
          let (a, ga) = get_in_range ps k inside in
          absurd (omega (arith, above k a ga (omega arith), h a (get-In ps k a ga)))
      | no behind ↦
          let last : (i == 0 || leb (length ps) i) ≡ true = ground arith in unfold choose in rw last
    ]

-- Over a table of rising frequencies `lookup_freq` reports `PLL` if every entry is above the target
-- or every entry is below it, the empty table included.
pub lookup_freq_outside :
    (plls : List PllFrequency) (target : ℕ)
    → Rises plls
    → ((p : PllFrequency) → In p plls → target < p.frequency)
      ⊎ ((p : PllFrequency) → In p plls → p.frequency < target)
    → lookup_freq plls target ≡ err ErrorKind.pll
unfolding lookup_freq
lookup_freq_outside plls target rises h =
    choose_outside plls target (search_from target plls 0) (search_from-Located target plls 0 rises)
      h
