-- ===== src/Ogm/Packet/Parse.antt =====
-- A packet of several OGMs taken apart again.
use batman_adv.Common.{
  ℕ, zero, suc, ◌+◌, ◌*◌, ◌≤◌, ◌<◌, ◌≡◌, dec_lt, refl, sym, ap, ◌∙◌, true, if◌then◌else◌, arith,
  List, [], ◌∷◌, ◌++◌, length, get_or, All, append_assoc, length-append, get_or-append_left,
  get_or-append_right,
}
use batman_adv.Ogm.Packet.{
  ogm_hlen, max_aggregation_bytes, aggr_packet, tvlv_len_at, receive_loop, Received,
  check_management_packet, ogm_receive,
}

-- The bytes of one OGM: the header, and as many bytes of containers as it says.
abbrev pub IsOgm : List ℕ → Type 0
IsOgm o = length o ≡ ogm_hlen + (get_or o 22 0 * 256 + get_or o 23 0)

abbrev pub concat : List (List ℕ) → List ℕ
concat [] = []
concat (o ∷ os) = o ++ concat os

-- Where each OGM begins.
abbrev pub starts : ℕ → List (List ℕ) → List ℕ
starts pos [] = []
starts pos (o ∷ os) = pos ∷ starts (pos + length o) os

module _ (beyond : ℕ → ℕ) where
  -- A byte of an OGM in the middle of a packet.
  pub byte_at :
      (pre o rest : List ℕ) (i : ℕ)
      → i < length o
      → get_or (pre ++ (o ++ rest)) (length pre + i) (beyond (length pre + i)) ≡ get_or o i 0
  byte_at pre o rest i h =
      get_or-append_right pre (o ++ rest) i (beyond (length pre + i))
      ∙ get_or-append_left o rest i (beyond (length pre + i)) 0 h

  -- A rest that is shorter than a header ends the loop, whatever the memory behind it holds.
  receive_stop :
      (fuel : ℕ) (packet : List ℕ) (pos : ℕ)
      → length packet < pos + ogm_hlen
      → receive_loop (suc fuel) beyond packet pos ≡ []
  unfolding receive_loop
  receive_stop fuel packet pos h = ground arith

  receive_step :
      (fuel : ℕ) (packet : List ℕ) (pos : ℕ) (later : List ℕ) (n : ℕ)
      → ogm_hlen + tvlv_len_at beyond packet pos ≡ n
      → pos + n ≤ length packet
      → pos + n ≤ max_aggregation_bytes
      → receive_loop fuel beyond packet (pos + n) ≡ later
      → receive_loop (suc fuel) beyond packet pos ≡ pos ∷ later
  unfolding receive_loop
  receive_step fuel packet pos later n e h hm step =
      let e' : pos + ogm_hlen + tvlv_len_at beyond packet pos ≡ pos + n = omega (arith, e) in
      ground (arith, e', step)

  receive_at :
      (fuel : ℕ) (pre : List ℕ) (os : List (List ℕ)) (rest : List ℕ)
      → All IsOgm os
      → length rest < ogm_hlen
      → length pre + length (concat os) ≤ max_aggregation_bytes
      → length (concat os) < fuel
      → receive_loop fuel beyond (pre ++ (concat os ++ rest)) (length pre) ≡ starts (length pre) os
  unfolding receive_loop
  receive_at zero pre os rest w hr hm hf = absurd (omega arith)
  receive_at (suc fuel) pre [] rest w hr hm hf =
      receive_stop fuel (pre ++ rest) (length pre) (omega (arith, length-append pre rest))
  receive_at (suc fuel) pre (o ∷ os) rest w hr hm hf =
      let tail : List ℕ = concat os ++ rest in
      let e : pre ++ (concat (o ∷ os) ++ rest) ≡ pre ++ (o ++ tail) =
        ap (λ l. pre ++ l) (append_assoc o (concat os) rest) in
      let hi = byte_at pre o tail 22 (omega (arith, w.0)) in
      let lo = byte_at pre o tail 23 (omega (arith, w.0)) in
      let step =
        receive_at fuel (pre ++ o) os rest w.1 hr
          (omega (arith, length-append pre o, length-append o (concat os)))
          (omega (arith, length-append o (concat os), w.0)) in
      rw (e) (
        receive_step fuel (pre ++ (o ++ tail)) (length pre) (starts (length pre + length o) os)
          (length o) (rw (hi, lo) (sym w.0))
          (omega (arith, length-append pre (o ++ tail), length-append o tail))
          (omega (arith, length-append o (concat os)))
          (rw (sym (length-append pre o), sym (append_assoc pre o tail)) step))

get_or-inside : (xs : List ℕ) (i d d' : ℕ) → i < length xs → get_or xs i d ≡ get_or xs i d'
get_or-inside [] i d d' h = absurd (omega arith)
get_or-inside (x ∷ xs) zero d d' h = refl
get_or-inside (x ∷ xs) (suc i) d d' h = get_or-inside xs i d d' (omega arith)

-- A packet of OGMs whose 512 bytes at most are followed by less than a header (padding), if it
-- passes the checks: each OGM is processed once and in order, from where it begins, and nothing else.
pub receive_ogms :
    (r : Received) (beyond : ℕ → ℕ) (os : List (List ℕ)) (rest : List ℕ)
    → check_management_packet r ≡ true
    → All IsOgm os
    → length rest < ogm_hlen
    → length (concat os) ≤ max_aggregation_bytes
    → ogm_receive r true beyond (concat os ++ rest) ≡ starts 0 os
unfolding ogm_receive
receive_ogms r beyond os rest ok w hr hm = rw (ok) (
    receive_at beyond (suc (length (concat os ++ rest))) [] os rest w hr (omega arith)
      (omega (arith, length-append (concat os) rest)))

-- The loop over the OGMs of a packet reads the length of the next OGM before it knows whether that
-- lies in the packet, but what it reads behind the packet never changes which OGMs it processes, and
-- with more rounds than the packet has bytes it has come to its end.
pub receive_loop_ends :
    (f g : ℕ) (beyond beyond' : ℕ → ℕ) (packet : List ℕ) (pos : ℕ)
    → length packet < f + pos
    → length packet < g + pos
    → receive_loop f beyond packet pos ≡ receive_loop g beyond' packet pos
unfolding receive_loop
receive_loop_ends zero zero b b' packet pos hf hg = refl
receive_loop_ends zero (suc g) b b' packet pos hf hg =
    sym (receive_stop b' g packet pos (omega arith))
receive_loop_ends (suc f) zero b b' packet pos hf hg = receive_stop b f packet pos (omega arith)
receive_loop_ends (suc f) (suc g) b b' packet pos hf hg =
    elim (dec_lt (length packet) (pos + ogm_hlen)) [
      | yes h ↦ receive_stop b f packet pos h ∙ sym (receive_stop b' g packet pos h)
      | no h ↦
          let hi = get_or-inside packet (pos + 22) (b (pos + 22)) (b' (pos + 22)) (omega arith) in
          let lo = get_or-inside packet (pos + 23) (b (pos + 23)) (b' (pos + 23)) (omega arith) in
          let n = pos + ogm_hlen + tvlv_len_at b' packet pos in
          rw (hi, lo)
            (ap
              (λ l.
                if aggr_packet pos (length packet) (tvlv_len_at b' packet pos) then pos ∷ l else [])
              (receive_loop_ends f g b b' packet n (omega arith) (omega arith)))
    ]
