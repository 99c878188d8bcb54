-- ===== src/Frag/Send/RoundTrip.antt =====
-- A packet that was sent in fragments is merged again, whatever the order of arrival.
use mathlib.Core.List.{Permᴰ}
use batman_adv.Common.{◌≡◌, refl, ap, ◌∙◌, arith, List, length}
use batman_adv.Frag.{Fragment}
use batman_adv.Frag.Receive.Chains.{bytes}

pub bytes-perm : {xs ys : List Fragment} → Permᴰ xs ys → bytes xs ≡ bytes ys
bytes-perm Permᴰ.nil = refl
bytes-perm (Permᴰ.cons e p) = omega (arith, ap (λ f. length f.payload) e, bytes-perm p)
bytes-perm (Permᴰ.swap e e') =
    omega (arith, ap (λ f. length f.payload) e, ap (λ f. length f.payload) e')
bytes-perm (Permᴰ.trans p q) = bytes-perm p ∙ bytes-perm q
