-- ===== src/Ogm.antt =====
-- bat_iv_ogm.c, B.A.T.M.A.N. IV: link quality, duplicates, the choice of a router and the
-- forwarding of originator messages.
pub mod Metric
pub mod Seqnos
pub mod Packet
pub mod Queue
pub mod Emit
pub mod Own
pub mod Router
use batman_adv.Common.{ℕ}

-- BATADV_TQ_MAX_VALUE
abbrev pub tq_max : ℕ
tq_max = 255
