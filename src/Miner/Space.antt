-- ===== src/Miner/Space.antt =====
-- src/miner.rs: the nonces that a worker on the CPU tries, for a mask of low bits and a fixed part
-- above them.
use kasop.Common.{ℕ, ◌+◌, ◌-◌, ◌*◌, ◌%◌, ◌^◌, ◌≤◌, bit_and, bit_or, ◌≡◌, sym, ap, ◌∙◌, arith}
use kasop.Common.Powers.{pow_pos, pow-add}
use kasop.Common.Bits.Fields.{mask_as_mod, or_as_sum, bit_or_comm}
use native.Mathlib.Nat.{mod-lt, mod-add-mod, mod-mod_of_dvd, add-mul-mod_self_right}
use Prim.Native.Nat.{◌∣◌}

-- The nonce `i` rounds after the nonce `n`.
abbrev pub tried_at : ℕ → ℕ → ℕ → ℕ → ℕ
tried_at high k n i = high * 2 ^ k + (n + i) % 2 ^ k

pub masked : (high k n : ℕ) → bit_or (bit_and n (2 ^ k - 1)) (high * 2 ^ k) ≡ tried_at high k n 0
masked high k n =
    let e : n + 0 ≡ n = omega arith in
    rw (mask_as_mod k n, e)
      (bit_or_comm (n % 2 ^ k) (high * 2 ^ k) ∙ or_as_sum k high (n % 2 ^ k) (mod-lt n (pow_pos k)))

pow_dvd : (k : ℕ) → k ≤ 64 → 2 ^ k ∣ 2 ^ 64
pow_dvd k h =
    let e : k + (64 - k) ≡ 64 = omega arith in ∣ (2 ^ (64 - k), rw e at (pow-add k (64 - k))) ∣₁

-- The next nonce is one further in the space, where the sum wraps too.
pub tried_at_next :
    (high k n i : ℕ)
    → k ≤ 64
    → tried_at high k ((tried_at high k n 0 + 1) % 2 ^ 64) i ≡ tried_at high k n (i + 1)
tried_at_next high k n i h =
    let M = 2 ^ k in
    let here = tried_at high k n 0 in
    let e : high * M + n % M + 1 + i ≡ n % M + (1 + i) + high * M = omega arith in
    let f : n + 0 ≡ n = omega arith in
    let g : n + (1 + i) ≡ n + (i + 1) = omega arith in
    ap (λ (t : ℕ). high * M + t)
      (sym (mod-add-mod ((here + 1) % 2 ^ 64) M i)
        ∙ ap (λ (t : ℕ). (t + i) % M) (mod-mod_of_dvd M (here + 1) (pow_dvd k h))
        ∙ mod-add-mod (here + 1) M i
        ∙ rw (f, e) (add-mul-mod_self_right (n % M + (1 + i)) high M)
        ∙ mod-add-mod n M (1 + i)
        ∙ ap (λ (t : ℕ). t % M) g)
