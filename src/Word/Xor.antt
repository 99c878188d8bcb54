-- ===== src/Word/Xor.antt =====
-- The operator `^` of C on unsigned words, by the bits of the numbers.
use Prim.Native.Nat.{bit_xor, bit_xor-bitwise, digits, differ}
use batman_adv.Common.{
  ℕ, zero, suc, ◌+◌, ◌*◌, ◌/◌, ◌%◌, ◌≤◌, ◌<◌, ◌≡◌, refl, sym, ap, ◌∙◌, Bool, true, false, not, ◌==◌,
  arith,
}
use batman_adv.Word.Flags.{test_flag}

-- Exclusive or of two bits.
abbrev xor_bits : Bool → Bool → Bool
xor_bits true b = not b
xor_bits false b = b

no_flag : (k : ℕ) → test_flag k 0 ≡ false
unfolding test_flag
no_flag zero = refl
no_flag (suc k) = no_flag k

-- The lowest bit of the operation on two digits, and that it is one digit.
differ_bit :
    (x y : ℕ) → x < 2 → y < 2 → ((differ x y == 1) ≡ xor_bits (x == 1) (y == 1)) × (differ x y < 2)
differ_bit zero y p q = (refl, q)
differ_bit (suc zero) zero p q = (refl, p)
differ_bit (suc zero) (suc zero) p q = (refl, ground arith)
differ_bit (suc zero) (suc (suc y)) p q = absurd (omega arith)
differ_bit (suc (suc x)) y p q = absurd (omega arith)

-- The recursion behind the native operation, as long as its count lasts for the first number.
flag-digits :
    (k count a b : ℕ)
    → a ≤ count
    → test_flag k (digits (λ rest. rest) differ count a b)
      ≡ xor_bits (test_flag k a) (test_flag k b)
unfolding test_flag
flag-digits k zero a b h =
    let none_set : a ≡ 0 = omega arith in
    sym (
      ap (λ x. xor_bits (test_flag k x) (test_flag k b)) none_set
      ∙ ap (λ x. xor_bits x (test_flag k b)) (no_flag k))
flag-digits k (suc count) zero b h = sym (ap (λ x. xor_bits x (test_flag k b)) (no_flag k))
flag-digits zero (suc count) (suc a) b h =
    let (low, one) = differ_bit (suc a % 2) (b % 2) (omega arith) (omega arith) in
    let high = digits (λ rest. rest) differ count (suc a / 2) (b / 2) in
    let parity : (high * 2 + differ (suc a % 2) (b % 2)) % 2 ≡ differ (suc a % 2) (b % 2) =
      omega arith in
    ap (λ x. x == 1) parity ∙ low
flag-digits (suc k) (suc count) (suc a) b h =
    let (low, one) = differ_bit (suc a % 2) (b % 2) (omega arith) (omega arith) in
    let high = digits (λ rest. rest) differ count (suc a / 2) (b / 2) in
    let half : (high * 2 + differ (suc a % 2) (b % 2)) / 2 ≡ high = omega arith in
    ap (test_flag k) half ∙ flag-digits k count (suc a / 2) (b / 2) (omega arith)

pub test-bit_xor :
    (k a b : ℕ) → test_flag k (bit_xor a b) ≡ xor_bits (test_flag k a) (test_flag k b)
test-bit_xor k a b = ap (test_flag k) (bit_xor-bitwise a b) ∙ flag-digits k a a b (omega arith)

-- Numbers with the same bits are the same.
same_bits_below :
    (bound a b : ℕ) → a ≤ bound → b ≤ bound → ((k : ℕ) → test_flag k a ≡ test_flag k b) → a ≡ b
unfolding test_flag
same_bits_below zero a b p q e = omega arith
same_bits_below (suc bound) a b p q e =
    let halves : a / 2 ≡ b / 2 =
      same_bits_below bound (a / 2) (b / 2) (omega arith) (omega arith) (λ k. e (suc k)) in
    ground (arith, halves, e zero)

same_bits : (a b : ℕ) → ((k : ℕ) → test_flag k a ≡ test_flag k b) → a ≡ b
same_bits a b = same_bits_below (a + b) a b (omega arith) (omega arith)

xor_bits_comm : (x y : Bool) → xor_bits x y ≡ xor_bits y x
xor_bits_comm x y = ground arith

xor_bits_assoc : (x y z : Bool) → xor_bits (xor_bits x y) z ≡ xor_bits x (xor_bits y z)
xor_bits_assoc x y z = ground arith

pub bit_xor_comm : (a b : ℕ) → bit_xor a b ≡ bit_xor b a
bit_xor_comm a b = same_bits _ _ (λ k.
    test-bit_xor k a b ∙ xor_bits_comm (test_flag k a) (test_flag k b) ∙ sym (test-bit_xor k b a))

pub bit_xor_assoc : (a b c : ℕ) → bit_xor (bit_xor a b) c ≡ bit_xor a (bit_xor b c)
bit_xor_assoc a b c = same_bits _ _ (λ k.
    test-bit_xor k (bit_xor a b) c
    ∙ ap (λ x. xor_bits x (test_flag k c)) (test-bit_xor k a b)
    ∙ xor_bits_assoc (test_flag k a) (test_flag k b) (test_flag k c)
    ∙ sym (test-bit_xor k a (bit_xor b c) ∙ ap (xor_bits (test_flag k a)) (test-bit_xor k b c)))

pub zero-bit_xor : (b : ℕ) → bit_xor 0 b ≡ b
zero-bit_xor b = bit_xor-bitwise 0 b

pub bit_xor-zero : (a : ℕ) → bit_xor a 0 ≡ a
bit_xor-zero a = bit_xor_comm a 0 ∙ zero-bit_xor a

pub bit_xor_self : (a : ℕ) → bit_xor a a ≡ 0
bit_xor_self a = same_bits _ _ (λ k. test-bit_xor k a a ∙ cancel (test_flag k a) ∙ sym (no_flag k))
  where
    cancel : (x : Bool) → xor_bits x x ≡ false
    cancel x = ground arith

-- What is combined twice cancels.
pub bit_xor_cancel : (a b : ℕ) → bit_xor (bit_xor a b) b ≡ a
bit_xor_cancel a b = bit_xor_assoc a b b ∙ ap (bit_xor a) (bit_xor_self b) ∙ bit_xor-zero a

-- The order of combination does not matter.
pub bit_xor_swap : (a b c : ℕ) → bit_xor (bit_xor a b) c ≡ bit_xor (bit_xor a c) b
bit_xor_swap a b c =
    bit_xor_assoc a b c ∙ ap (bit_xor a) (bit_xor_comm b c) ∙ sym (bit_xor_assoc a c b)
