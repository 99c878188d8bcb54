-- ===== src/Ogm/Metric/Bounds.antt =====
-- The qualities stay bytes and never grow on the way.
use native.Mathlib.Nat.{div-le_of_le-mul, zero-div, mul-le-mul, mul-le-mul_left}
use batman_adv.Common.{
  ℕ, ap, ◌∙◌, ◌==◌, ==_iff, Bool-cases, inl, inr, ◌%◌, ◌+◌, min, subst, ltb, if◌then◌else◌, ◌/◌,
  ◌-◌, ◌*◌, ◌^◌, ◌≤◌, ◌≡◌, false, arith, leb, ◌⊎◌,
}
use batman_adv.Ogm.{tq_max}
use batman_adv.Ogm.Metric.{
  LinkCounts, total_count, tq_own, tq_asym_penalty, tq_iface_penalty, calc_tq, hop_penalty,
  local_window,
}

-- The hop penalty never raises a quality.
pub hop_penalty-le : (tq penalty : ℕ) → tq ≤ tq_max → hop_penalty tq penalty ≤ tq
unfolding hop_penalty
hop_penalty-le tq penalty h =
    omega (arith, mul-le-mul_left {m = tq_max - penalty} {n = tq_max} tq (omega arith))

own-le : (l : LinkCounts) → tq_own l ≤ tq_max
unfolding tq_own
own-le l = ground arith

-- The share of our own OGMs that came back, of 255 and at most that.
abbrev pub echo_share : LinkCounts → ℕ
echo_share l = tq_max * min l.orig_eq_count l.neigh_rq_count / l.neigh_rq_count

-- The third power of the share of the neighbour's OGMs that were lost, taken from 255.
abbrev pub symmetry : LinkCounts → ℕ
symmetry l =
    let lost = local_window - l.neigh_rq_count in tq_max - tq_max * (lost * lost * lost) / 64 ^ 3

abbrev pub wifi_share : LinkCounts → ℕ
wifi_share l = if l.same_wifi then tq_max - l.penalty else tq_max

-- The product of the four shares, in numbers without bounds.
abbrev pub link_quality : LinkCounts → ℕ → ℕ
link_quality l tq = tq * echo_share l * symmetry l * wifi_share l / 255 ^ 3

own-share : (l : LinkCounts) → tq_own l ≡ echo_share l
unfolding tq_own
own-share l =
    let t = min l.orig_eq_count l.neigh_rq_count in
    let total : total_count l ≡ t = ground arith in
    elim (Bool-cases (t == 0)) [
      | inl z ↦
          let zero_share : echo_share l ≡ 0 =
            ap (λ n. tq_max * n / l.neigh_rq_count) ((==_iff t 0).0 z)
            ∙ zero-div l.neigh_rq_count in
          rw (tq_own, zero_share) (ground (arith, total, z))
      | inr z ↦
          let cap : echo_share l ≤ 255 = div-le_of_le-mul l.neigh_rq_count (omega arith) in
          rw (tq_own, total) (ground (arith, z, cap))
    ]

asym-symmetry : (l : LinkCounts) → l.neigh_rq_count ≤ local_window → tq_asym_penalty l ≡ symmetry l
unfolding tq_asym_penalty
asym-symmetry l h =
    let lost : local_window - l.neigh_rq_count ≤ 64 = omega arith in
    let e : (local_window + 2 ^ 8 - l.neigh_rq_count) % 2 ^ 8 ≡ local_window - l.neigh_rq_count =
      omega arith in
    let cube = mul-le-mul (mul-le-mul lost lost) lost in
    rw (tq_asym_penalty, e) (omega (arith, cube))

iface-share : (l : LinkCounts) → l.penalty ≤ tq_max → tq_iface_penalty l ≡ wifi_share l
unfolding tq_iface_penalty hop_penalty
iface-share l h = ground arith

product-le : (a b c d : ℕ) → a ≤ 255 → b ≤ 255 → c ≤ 255 → d ≤ 255 → a * b * c * d ≤ a * 16581375
product-le a b c d ha hb hc hd = omega (arith, mul-le-mul (mul-le-mul (mul-le-mul_left a hb) hc) hd)

-- For a count of at most 64 received OGMs and a hop penalty and a quality of one byte, nothing wraps
-- around or is cut off on the way. The new quality is the old one times the share of our OGMs that came
-- back (at most all of those received), times all but the third power of the share of the neighbour's
-- OGMs that were lost, times what the penalty leaves on the same WiFi interface, each in parts of 255 and
-- rounded. It is not above the old one, and the link is bidirectional if it is not 0.
pub calc_tq_exact :
    (l : LinkCounts) (tq : ℕ)
    → l.neigh_rq_count ≤ local_window
    → l.penalty ≤ tq_max
    → tq ≤ tq_max
    → (calc_tq l tq ≡ (ltb 0 (link_quality l tq), link_quality l tq)) × (link_quality l tq ≤ tq)
unfolding calc_tq
calc_tq_exact l tq rq pen h =
    let own : echo_share l ≤ 255 = subst (λ n. n ≤ 255) (own-share l) (own-le l) in
    let wifi : wifi_share l ≤ 255 = ground arith in
    let p = product-le tq (echo_share l) (symmetry l) (wifi_share l) h own (omega arith) wifi in
    let x = tq * echo_share l * symmetry l * wifi_share l in
    let e : x % 2 ^ 32 / (tq_max * tq_max * tq_max) % 2 ^ 8 ≡ link_quality l tq =
      omega (arith, p) in
    rw (own-share l, asym-symmetry l rq, iface-share l pen, e)
      ((ap (λ b. (b, link_quality l tq)) (ground arith), omega (arith, p)))

-- Over a link on which nothing is lost, and with no penalty of the interface, the quality of the
-- OGM stays as it is, and the link counts as bidirectional when that is not 0.
pub calc_tq_perfect :
    (l : LinkCounts) (tq : ℕ)
    → tq ≤ tq_max
    → l.neigh_rq_count ≡ local_window
    → local_window ≤ l.orig_eq_count
    → l.same_wifi ≡ false
    → calc_tq l tq ≡ (leb 1 tq, tq)
unfolding calc_tq tq_own tq_asym_penalty tq_iface_penalty
calc_tq_perfect l tq h rq eq wifi = ground arith

own_zero : (l : LinkCounts) → (l.orig_eq_count ≡ 0) ⊎ (l.neigh_rq_count ≡ 0) → tq_own l ≡ 0
unfolding tq_own
own_zero l h = ground arith

-- A link over which none of our OGMs came back, or none of the neighbour's was received, gets the
-- quality 0 and is not bidirectional, whatever the OGM says.
pub calc_tq_one_way :
    (l : LinkCounts) (tq : ℕ)
    → (l.orig_eq_count ≡ 0) ⊎ (l.neigh_rq_count ≡ 0)
    → calc_tq l tq ≡ (false, 0)
unfolding calc_tq
calc_tq_one_way l tq h = rw (own_zero l h) (ground arith)
