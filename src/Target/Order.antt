-- ===== src/Target/Order.antt =====
-- The `Ord` instance of src/target.rs.
use Prim.Native.Nat.{compare}
use kasop.Common.{◌≡◌, [], ◌∷◌, arith}
use kasop.Target.{Uint256, IsUint256, value, cmp}

-- On four words of 64 bits each, `cmp` gives the order of the numbers that the words stand for.
pub cmp-compare :
    (a b : Uint256) → IsUint256 a → IsUint256 b → cmp a b ≡ compare (value a) (value b)
unfolding cmp
cmp-compare (a ∷ b ∷ c ∷ d ∷ []) (e ∷ f ∷ g ∷ h ∷ []) p q = ground arith
cmp-compare (a ∷ b ∷ c ∷ d ∷ []) _ p q = absurd q
cmp-compare _ _ p q = absurd p
