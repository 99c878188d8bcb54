-- ===== src/NetCode/Decode.antt =====
-- Who gets what from a coded packet.
use native.Mathlib.Nat.{mul_assoc, mul_comm}
use batman_adv.Ogm.{tq_max}
use batman_adv.Common.{
  ◌-◌, ◌*◌, ◌/◌, ap, ◌%◌, ◌^◌, ◌⊎◌, ◌≢◌, ◌==◌, ==_iff, ℕ, ◌+◌, ◌≤◌, ◌≡◌, sym, subst, ◌∙◌, false,
  ltb, leb, if◌then◌else◌, arith, List, length, take, Bool-cases, inl, inr,
}
use batman_adv.NetCode.{code_payload, unicast_size, random_weight_tq, memxor}
use batman_adv.NetCode.Xor.{memxor_twice, memxor_short, length-memxor, take_whole}

product_even : (a b : ℕ) → a % 2 ≡ 0 → a * b % 2 ≡ 0
product_even a b h =
    let half : a ≡ 2 * (a / 2) = omega (arith, h) in
    let e = ap (λ x. x * b) half ∙ mul_assoc 2 (a / 2) b in omega (arith, e)

product_odd : (a b : ℕ) → a * b % 2 ^ 8 ≡ 255 → (a % 2 ≡ 1) × (b % 2 ≡ 1)
product_odd a b h = elim (Bool-cases (a % 2 == 0)) [
  | inl e ↦ let z = product_even a b ((==_iff (a % 2) 0).0 e) in absurd (omega (arith, h, z))
  | inr e ↦ elim (Bool-cases (b % 2 == 0)) [
    | inl f ↦
        let z = product_even b a ((==_iff (b % 2) 0).0 f) in
        absurd (omega (arith, h, z, mul_comm a b))
    | inr f ↦ (ground (arith, e), ground (arith, f))
  ]
]

-- The weight is meant to spread over all qualities up to 255, but it does not: for a random byte r and a quality q of one byte, it is 254 if the last byte of r * (255 - q) is
-- 255, and then r is odd and q is even; otherwise it is 255. So a link of an odd quality always has the
-- weight of a perfect one.
pub random_weight_tq_exact :
    (rand_val tq : ℕ)
    → tq ≤ tq_max
    → ((random_weight_tq rand_val tq ≡ 254)
        × ((rand_val * (tq_max - tq) % 2 ^ 8 ≡ 255) × ((rand_val % 2 ≡ 1) × (tq % 2 ≡ 0))))
      ⊎ ((random_weight_tq rand_val tq ≡ 255) × (rand_val * (tq_max - tq) % 2 ^ 8 ≢ 255))
unfolding random_weight_tq
random_weight_tq_exact rand_val tq h = elim (Bool-cases (rand_val * (tq_max - tq) % 2 ^ 8 == 255)) [
  | inl e ↦
      let full = (==_iff (rand_val * (tq_max - tq) % 2 ^ 8) 255).0 e in
      let (r, q) = product_odd rand_val (tq_max - tq) full in
      inl (omega (arith, full), (full, (r, omega (arith, q))))
  | inr e ↦ inr (ground (arith, e), λ full. ground (arith, e, full))
]

-- What is left of the bytes after decoding with other ones.
abbrev pub left_over : ℕ → List ℕ → List ℕ → List ℕ
left_over len payload other =
    if ltb (len + unicast_size) (unicast_size + length other)
    then take len (memxor payload other len)
    else memxor payload other len

left_over_long :
    (long short : List ℕ) → left_over (length short) (memxor long short (length short)) short ≡ long
left_over_long long short =
    let e : ltb (length short + unicast_size) (unicast_size + length short) ≡ false =
      ground arith in
    rw (e) (memxor_twice long short (length short))

left_over_short :
    (long short : List ℕ)
    → length short ≤ length long
    → left_over (length short) (memxor long short (length short)) long ≡ short
left_over_short long short h =
    elim (Bool-cases (ltb (length short + unicast_size) (unicast_size + length long))) [
      | inl e ↦ rw (e) (memxor_short long short h)
      | inr e ↦ rw (e) (
          sym (
            take_whole (length short)
              (memxor (memxor long short (length short)) long (length short))
              (subst (λ n. n ≤ length short)
                (sym (
                  length-memxor (memxor long short (length short)) long (length short)
                  ∙ length-memxor long short (length short)))
                (ground (arith, e))))
          ∙ memxor_short long short h)
    ]

-- The bytes of either packet come back with those of the other one.
pub both_payloads :
    (xs ys : List ℕ)
    → let (len, payload) = code_payload xs ys in
      (left_over len payload ys ≡ xs) × ((left_over len payload xs ≡ ys) × (len ≤ length payload))
both_payloads xs ys = elim (Bool-cases (leb (length xs) (length ys))) [
  | inl c ↦ rw (c) (
      (
        left_over_short ys xs (ground (arith, c)),
        (left_over_long ys xs, ground (arith, c, length-memxor ys xs (length xs))),
      ))
  | inr c ↦ rw (c) (
      (
        left_over_long xs ys,
        (
          left_over_short xs ys (ground (arith, c)),
          ground (arith, c, length-memxor xs ys (length ys)),
        ),
      ))
]
