-- ===== src/Xoshiro/Inverse.antt =====
-- The step can be undone, so the generator loses no state and never falls into the zero state.
use kasop.Common.{ℕ, bit_xor, ◌≡◌, ◌≢◌, ap, ap₂, sym, ◌∙◌}
use kasop.Common.Bits.Xor.{xor_comm, xor_zero, xor_cancel, xor_middle, xor-lt}
use kasop.Xoshiro.{State, next_u64, shl, rotl, zero_state, IsState}
use kasop.Xoshiro.Rotate.{shl-xor, shl_four, rotr, rotr-zero, rotr-rotl}
use kasop.Xoshiro.Linear.{step, next_u64-step}

-- Solves `y = x ^ (x << 17)` for `x`.
pub unshift : ℕ → ℕ
unshift y = let z = bit_xor y (shl y 17) in bit_xor z (shl (shl z 17) 17)

-- `x ^ L x` under `1 + L` is `x ^ L (L x)`, and four shifts leave nothing.
pub unshift_lem : (x : ℕ) → unshift (bit_xor x (shl x 17)) ≡ x
unfolding unshift
unshift_lem x =
    let once : bit_xor (bit_xor x (shl x 17)) (shl (bit_xor x (shl x 17)) 17)
        ≡ bit_xor x (shl (shl x 17) 17) =
      ap (bit_xor (bit_xor x (shl x 17))) (shl-xor x (shl x 17) 17)
      ∙ xor_middle x (shl x 17) (shl (shl x 17) 17) in
    let w : ℕ = shl (shl x 17) 17 in
    let twice : shl (shl (bit_xor x w) 17) 17 ≡ bit_xor w 0 =
      ap (λ (t : ℕ). shl t 17) (shl-xor x w 17)
      ∙ (shl-xor (shl x 17) (shl w 17) 17 ∙ ap (bit_xor w) (shl_four x)) in
    rw once (ap (bit_xor (bit_xor x w)) twice ∙ (xor_middle x w 0 ∙ xor_zero x))

pub prev : State → State
prev s =
    let s3' = rotr s.s3 in
    let s0 = bit_xor s.s0 s3' in
    let s1 = unshift (bit_xor s.s1 s.s2) in
    let s2' = bit_xor s.s1 s1 in
    record { s0 = s0; s1 = s1; s2 = bit_xor s2' s0; s3 = bit_xor s3' s1 }

pub prev-step : (s : State) → IsState s → prev (step s) ≡ s
unfolding prev
prev-step s (h0, h1, h2, h3) =
    let a : ℕ = bit_xor s.s3 s.s1 in
    let b : ℕ = bit_xor s.s2 s.s0 in
    let ea : rotr (rotl a 45) ≡ a = rotr-rotl a (xor-lt 64 s.s3 s.s1 h3 h1) in
    let e0 : bit_xor (bit_xor s.s0 a) (rotr (rotl a 45)) ≡ s.s0 =
      ap (bit_xor (bit_xor s.s0 a)) ea ∙ xor_cancel s.s0 a in
    let e1 : unshift (bit_xor (bit_xor s.s1 b) (bit_xor b (shl s.s1 17))) ≡ s.s1 =
      ap unshift (xor_middle s.s1 b (shl s.s1 17)) ∙ unshift_lem s.s1 in
    let eb : bit_xor (bit_xor s.s1 b) s.s1 ≡ b =
      ap (λ (t : ℕ). bit_xor t s.s1) (xor_comm s.s1 b) ∙ xor_cancel b s.s1 in
    let e2 = ap₂ bit_xor (ap (bit_xor (bit_xor s.s1 b)) e1 ∙ eb) e0 ∙ xor_cancel s.s2 s.s0 in
    let e3 = ap₂ bit_xor ea e1 ∙ xor_cancel s.s3 s.s1 in
    λ i. record { s0 = e0 i; s1 = e1 i; s2 = e2 i; s3 = e3 i }

-- `prev` recovers the state from which `next_u64` stepped, for every state of 64-bit words: two
-- states never run together.
pub prev-next_u64 : (s : State) → IsState s → prev (next_u64 s).0 ≡ s
prev-next_u64 s h = ap prev (next_u64-step s) ∙ prev-step s h

pub prev_zero : prev zero_state ≡ zero_state
unfolding prev unshift shl
prev_zero = rw rotr-zero

-- From a state of 64-bit words other than zero the generator never steps into the zero state.
pub next_u64-ne-zero : (s : State) → IsState s → s ≢ zero_state → (next_u64 s).0 ≢ zero_state
next_u64-ne-zero s h ne e = ne (sym (prev-next_u64 s h) ∙ (ap prev e ∙ prev_zero))
