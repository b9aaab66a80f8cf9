-- ===== src/Xoshiro/Linear.antt =====
-- The step of both generators keeps 64-bit words, and is linear over `^`.
use kasop.Common.{ℕ, bit_xor, ◌≡◌, refl, ap, ap₂, ◌∙◌}
use kasop.Common.Bits.Xor.{xor-lt, xor_interchange}
use kasop.Xoshiro.{State, next_u64, next_plus_plus, xor_state, shl, rotl, IsState}
use kasop.Xoshiro.Rotate.{shl-lt, shl-xor, rotl-lt, rotl-xor}

-- The state behind a step, written out.
abbrev pub step : State → State
step s = record {
  s0 = bit_xor s.s0 (bit_xor s.s3 s.s1);
  s1 = bit_xor s.s1 (bit_xor s.s2 s.s0);
  s2 = bit_xor (bit_xor s.s2 s.s0) (shl s.s1 17);
  s3 = rotl (bit_xor s.s3 s.s1) 45;
}

pub next_u64-step : (s : State) → (next_u64 s).0 ≡ step s
unfolding next_u64
next_u64-step s = refl

-- The two generators differ in what they return only: the state moves in the same way.
pub next_plus_plus-next_u64 : (s : State) → (next_plus_plus s).0 ≡ (next_u64 s).0
unfolding next_plus_plus next_u64
next_plus_plus-next_u64 s = refl

pub step-IsState : (s : State) → IsState s → IsState (step s)
step-IsState s (h0, h1, h2, h3) =
    let a = xor-lt 64 s.s3 s.s1 h3 h1 in
    let b = xor-lt 64 s.s2 s.s0 h2 h0 in
    (
      xor-lt 64 s.s0 (bit_xor s.s3 s.s1) h0 a,
      xor-lt 64 s.s1 (bit_xor s.s2 s.s0) h1 b,
      xor-lt 64 (bit_xor s.s2 s.s0) (shl s.s1 17) b (shl-lt s.s1 17),
      rotl-lt (bit_xor s.s3 s.s1) a,
    )

pub xor_state-IsState : (a b : State) → IsState a → IsState b → IsState (xor_state a b)
unfolding xor_state
xor_state-IsState a b (h0, h1, h2, h3) (k0, k1, k2, k3) = (
  xor-lt 64 a.s0 b.s0 h0 k0,
  xor-lt 64 a.s1 b.s1 h1 k1,
  xor-lt 64 a.s2 b.s2 h2 k2,
  xor-lt 64 a.s3 b.s3 h3 k3,
)

-- The step of a sum is the sum of the steps.
pub step-xor_state :
    (a b : State) → IsState a → IsState b → step (xor_state a b) ≡ xor_state (step a) (step b)
unfolding xor_state
step-xor_state a b (h0, h1, h2, h3) (k0, k1, k2, k3) =
    let e31 = xor_interchange a.s3 b.s3 a.s1 b.s1 in
    let e20 = xor_interchange a.s2 b.s2 a.s0 b.s0 in
    let new0 =
      ap (bit_xor (bit_xor a.s0 b.s0)) e31
      ∙ xor_interchange a.s0 b.s0 (bit_xor a.s3 a.s1) (bit_xor b.s3 b.s1) in
    let new1 =
      ap (bit_xor (bit_xor a.s1 b.s1)) e20
      ∙ xor_interchange a.s1 b.s1 (bit_xor a.s2 a.s0) (bit_xor b.s2 b.s0) in
    let new2 =
      ap₂ bit_xor e20 (shl-xor a.s1 b.s1 17)
      ∙ xor_interchange (bit_xor a.s2 a.s0) (bit_xor b.s2 b.s0) (shl a.s1 17) (shl b.s1 17) in
    let new3 =
      ap (λ (t : ℕ). rotl t 45) e31
      ∙ rotl-xor (bit_xor a.s3 a.s1) (bit_xor b.s3 b.s1) (xor-lt 64 a.s3 a.s1 h3 h1)
          (xor-lt 64 b.s3 b.s1 k3 k1) in
    λ i. record { s0 = new0 i; s1 = new1 i; s2 = new2 i; s3 = new3 i }
