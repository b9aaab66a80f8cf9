-- ===== src/Xoshiro/Jump.antt =====
-- The jump: which states on the orbit of the step each word of it adds up.
use kasop.Common.{
  ℕ, zero, suc, ◌+◌, ◌*◌, ◌/◌, ◌%◌, ◌^◌, bit_and, not, List, [], ◌∷◌, if◌then◌else◌, ◌==◌, ◌≡◌,
  refl, ap, sym, ◌∙◌, Bool-cases, inl, inr, arith,
}
use kasop.Common.Bits.Step.{bit_and_step}
use kasop.Common.Bits.Fields.{mask_as_mod}
use kasop.Common.Bits.Xor.{xor_assoc, xor_comm, xor_zero}
use kasop.Xoshiro.{
  State, next_u64, xor_state, has_bit, jump_bits, jump_words, long_jump, long_jump_words,
  zero_state,
}

-- The state behind `n` steps.
pub orbit : ℕ → State → State
orbit zero s = s
orbit (suc n) s = (next_u64 (orbit n s)).0

-- The binary digit of a number at a position.
pub digit : ℕ → ℕ → ℕ
digit zero n = n % 2
digit (suc b) n = digit b (n / 2)

-- The `^` of the states on the orbit of `s` whose number, from `b` on, is the position of a digit 1.
pub orbit_sum : ℕ → ℕ → ℕ → State → State
orbit_sum n zero b s = zero_state
orbit_sum n (suc left) b s =
    let rest = orbit_sum n left (suc b) s in
    if digit b n == 1 then xor_state (orbit b s) rest else rest

-- The sum for a word of 64 digits.
abbrev pub sum_of : ℕ → State → State
sum_of n s = orbit_sum n 64 0 s

xor_state_assoc : (a b c : State) → xor_state (xor_state a b) c ≡ xor_state a (xor_state b c)
unfolding xor_state
xor_state_assoc a b c = λ i. record {
  s0 = xor_assoc a.s0 b.s0 c.s0 i;
  s1 = xor_assoc a.s1 b.s1 c.s1 i;
  s2 = xor_assoc a.s2 b.s2 c.s2 i;
  s3 = xor_assoc a.s3 b.s3 c.s3 i;
}

xor_state_zero : (a : State) → xor_state a zero_state ≡ a
unfolding xor_state
xor_state_zero a = λ i. record {
  s0 = xor_zero a.s0 i;
  s1 = xor_zero a.s1 i;
  s2 = xor_zero a.s2 i;
  s3 = xor_zero a.s3 i;
}

zero_state_xor : (a : State) → xor_state zero_state a ≡ a
unfolding xor_state
zero_state_xor a = λ i. record {
  s0 = (xor_comm 0 a.s0 ∙ xor_zero a.s0) i;
  s1 = (xor_comm 0 a.s1 ∙ xor_zero a.s1) i;
  s2 = (xor_comm 0 a.s2 ∙ xor_zero a.s2) i;
  s3 = (xor_comm 0 a.s3 ∙ xor_zero a.s3) i;
}

bit_and_double : (n b : ℕ) → bit_and n (2 ^ suc b) ≡ bit_and (n / 2) (2 ^ b) * 2
bit_and_double n b =
    let half : 2 ^ suc b / 2 ≡ 2 ^ b = omega arith in
    let even : 2 ^ suc b % 2 ≡ 0 = omega arith in
    bit_and_step n (2 ^ suc b) ∙ rw (half, even) (omega arith)

double_zero : (n : ℕ) → not (n * 2 == 0) ≡ not (n == 0)
double_zero n = ground arith

has_bit-digit : (n b : ℕ) → has_bit n b ≡ (digit b n == 1)
unfolding has_bit digit
has_bit-digit n zero = let e : bit_and n 1 ≡ n % 2 = mask_as_mod 1 n in rw e (ground arith)
has_bit-digit n (suc b) =
    rw (bit_and_double n b) (double_zero (bit_and (n / 2) (2 ^ b)) ∙ has_bit-digit (n / 2) b)

-- Each digit 1 adds the state of its number to the sums.
jump_bits-orbit_sum :
    (jmp left b : ℕ) (p s : State)
    → (jump_bits jmp left b p (orbit b s)).0 ≡ xor_state p (orbit_sum jmp left b s)
unfolding jump_bits orbit_sum orbit
jump_bits-orbit_sum jmp zero b p s = sym (xor_state_zero p)
jump_bits-orbit_sum jmp (suc left) b p s =
    let e' : b + 1 ≡ suc b = omega arith in
    let bit = has_bit-digit jmp b in
    elim (Bool-cases (digit b jmp == 1)) [
      | inl e ↦
          rw (bit, e, e', jump_bits)
            (jump_bits-orbit_sum jmp left (suc b) (xor_state p (orbit b s)) s
              ∙ xor_state_assoc p (orbit b s) (orbit_sum jmp left (suc b) s))
      | inr e ↦ rw (bit, e, e', jump_bits) (jump_bits-orbit_sum jmp left (suc b) p s)
    ]

-- A word of the jump: its sum is added to the state that the words before it made.
abbrev pub with_word : ℕ → State → State
with_word n s = xor_state s (sum_of n s)

word_sums : (jmp : ℕ) (p s : State) → (jump_bits jmp 64 0 p s).0 ≡ xor_state p (sum_of jmp s)
unfolding orbit
word_sums jmp p s = jump_bits-orbit_sum jmp 64 0 p s

jump_words-with_word :
    (jmp : ℕ) (rest : List ℕ) (s : State)
    → jump_words (jmp ∷ rest) s s ≡ jump_words rest (with_word jmp s) (with_word jmp s)
unfolding jump_words
jump_words-with_word jmp rest s = ap (λ (u : State). jump_words rest u u) (word_sums jmp s s)

leading_word :
    (jmp : ℕ) (rest : List ℕ) (s : State)
    → jump_words (jmp ∷ rest) zero_state s ≡ jump_words rest (sum_of jmp s) (sum_of jmp s)
unfolding jump_words
leading_word jmp rest s =
    ap (λ (u : State). jump_words rest u u)
      (word_sums jmp zero_state s ∙ zero_state_xor (sum_of jmp s))

no_words : (p s : State) → jump_words [] p s ≡ s
unfolding jump_words
no_words p s = refl

long_jump-jump_words : (s : State) → long_jump s ≡ jump_words long_jump_words zero_state s
unfolding long_jump
long_jump-jump_words s = refl

-- What `long_jump` gives, for every state: the sum of the states on its orbit whose numbers are the
-- positions of the digits 1 of the first word; then for each further word, such a sum for the state
-- that the words before it made, not for the orbit 64 steps on, added to that state.
pub long_jump-with_word :
    (s : State)
    → long_jump s
      ≡ with_word 0x39109bb02acbe635 (
          with_word 0x77710069854ee241 (with_word 0xc5004e441c522fb3 (sum_of 0x76e15d3efefdcbbf s)))
long_jump-with_word s =
    let a = sum_of 0x76e15d3efefdcbbf s in
    let b = with_word 0xc5004e441c522fb3 a in
    let c = with_word 0x77710069854ee241 b in
    let d = with_word 0x39109bb02acbe635 c in
    long_jump-jump_words s
    ∙ leading_word 0x76e15d3efefdcbbf
        (0xc5004e441c522fb3 ∷ 0x77710069854ee241 ∷ 0x39109bb02acbe635 ∷ []) s
    ∙ jump_words-with_word 0xc5004e441c522fb3 (0x77710069854ee241 ∷ 0x39109bb02acbe635 ∷ []) a
    ∙ jump_words-with_word 0x77710069854ee241 (0x39109bb02acbe635 ∷ []) b
    ∙ jump_words-with_word 0x39109bb02acbe635 [] c
    ∙ no_words d d
