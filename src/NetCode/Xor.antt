-- ===== src/NetCode/Xor.antt =====
-- The bytes that are coded and coded again.
use batman_adv.Common.{
  ℕ, zero, suc, ◌≤◌, ◌≡◌, refl, ap, ap₂, ◌∙◌, arith, List, [], ◌∷◌, length, take,
}
use Prim.Native.Nat.{bit_xor}
use batman_adv.Word.Xor.{bit_xor_cancel, bit_xor_comm}
use batman_adv.NetCode.{memxor}

-- The longer packet comes back with the help of the shorter one.
pub memxor_twice : (dst src : List ℕ) (n : ℕ) → memxor (memxor dst src n) src n ≡ dst
unfolding memxor
memxor_twice dst src zero = refl
memxor_twice [] src (suc n) = refl
memxor_twice (d ∷ dst) [] (suc n) = refl
memxor_twice (d ∷ dst) (s ∷ src) (suc n) =
    ap₂ (λ x xs. x ∷ xs) (bit_xor_cancel d s) (memxor_twice dst src n)

-- The shorter one comes back with the help of the longer one, at the start of it.
pub memxor_short :
    (dst src : List ℕ)
    → length src ≤ length dst
    → take (length src) (memxor (memxor dst src (length src)) dst (length src)) ≡ src
unfolding memxor
memxor_short dst [] h = refl
memxor_short [] (s ∷ src) h = absurd (omega arith)
memxor_short (d ∷ dst) (s ∷ src) h =
    ap₂ (λ x xs. x ∷ xs) (ap (λ x. bit_xor x d) (bit_xor_comm d s) ∙ bit_xor_cancel s d)
      (memxor_short dst src (omega arith))

pub length-memxor : (dst src : List ℕ) (n : ℕ) → length (memxor dst src n) ≡ length dst
unfolding memxor
length-memxor dst src zero = refl
length-memxor [] src (suc n) = refl
length-memxor (d ∷ dst) [] (suc n) = refl
length-memxor (d ∷ dst) (s ∷ src) (suc n) = ap suc (length-memxor dst src n)

-- A list no longer than n is its own start.
pub take_whole : (n : ℕ) (xs : List ℕ) → length xs ≤ n → take n xs ≡ xs
take_whole zero [] h = refl
take_whole zero (x ∷ xs) h = absurd (omega arith)
take_whole (suc n) [] h = refl
take_whole (suc n) (x ∷ xs) h = ap (λ l. x ∷ l) (take_whole n xs (omega arith))
