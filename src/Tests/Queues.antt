-- ===== src/Tests/Queues.antt =====
-- Two OGMs in one packet.
use batman_adv.Common.{
  ℕ, ◌≡◌, refl, arith, true, false, List, [], ◌∷◌, ◌++◌, map, some, get_or, zero, suc,
}
use batman_adv.Word.Flags.{test_flag}
use batman_adv.Ogm.Packet.{Received, ogm_receive, receive_loop}
use batman_adv.Ogm.Packet.Parse.{receive_ogms, receive_loop_ends, concat}
use batman_adv.Ogm.Queue.{ForwPacket, Outgoing, Queue, Resources, queue_add}
use batman_adv.Ogm.Queue.Holds.{Holds}
use batman_adv.Ogm.Queue.Add.{empty, waiting, Added, queue_add-Queued}
use batman_adv.Ogm.Emit.{Emission, emit}
use batman_adv.Ogm.Emit.Wire.{emit_received, on_wire}
use batman_adv.Tests.Instances.{millisecond_jiffies}

-- An OGM with these flags, a time to live of 50 and no containers.
abbrev ogm : ℕ → List ℕ
ogm flags =
    0 ∷ 15 ∷ 50 ∷ flags ∷ 0 ∷ 0 ∷ 0 ∷ 1 ∷ 2 ∷ 2 ∷ 2 ∷ 2 ∷ 2 ∷ 1 ∷ 2 ∷ 2 ∷ 2 ∷ 2 ∷ 2 ∷ 2 ∷ 0 ∷ 200
    ∷ 0 ∷ 0 ∷ []

abbrev accepted : Received
accepted = record {
  pull_ok = true;
  to_broadcast = true;
  from_broadcast = false;
  cow_ok = true;
  linearize_ok = true;
}

receive_ogms_example :
    ogm_receive accepted true (λ i. 77) (concat (ogm 0 ∷ ogm 4 ∷ []) ++ 0 ∷ 0 ∷ []) ≡ 0 ∷ 24 ∷ []
receive_ogms_example =
    receive_ogms accepted (λ i. 77) (ogm 0 ∷ ogm 4 ∷ []) (0 ∷ 0 ∷ []) refl (refl, (refl, tt))
      (omega arith) (omega arith)

receive_loop_ends_example :
    receive_loop 49 (λ i. 77) (ogm 0 ++ ogm 4) 0 ≡ receive_loop 60 (λ i. 0) (ogm 0 ++ ogm 4) 0
receive_loop_ends_example =
    receive_loop_ends 49 60 (λ i. 77) (λ i. 0) (ogm 0 ++ ogm 4) 0 (omega arith) (omega arith)

abbrev forw : ForwPacket
forw = record {
  send_time = 150;
  own = false;
  skb = ogm 0;
  room = 512;
  packet_len = 24;
  direct_link_flags = 0;
  num_packets = 0;
  if_incoming = 1;
  if_outgoing = 1;
}

no_marks : (k : ℕ) → test_flag k 0 ≡ get_or (false ∷ []) k false
unfolding test_flag
no_marks zero = refl
no_marks (suc k) = no_marks_rest k
  where
    no_marks_rest : (k : ℕ) → test_flag k 0 ≡ false
    no_marks_rest zero = refl
    no_marks_rest (suc k) = no_marks_rest k

forw-Holds : Holds ((ogm 0, false) ∷ []) forw
forw-Holds = record {
  bytes = refl;
  whole = (refl, tt);
  counted = refl;
  measured = refl;
  marked = no_marks;
}

abbrev queue : Queue
queue = record { forw_bat_list = forw ∷ []; batman_queue_left = 10; aggregated_ogms = true }

abbrev second : Outgoing
second = record { ogm = ogm 0; iface_in = 1; iface_out = 1; own_packet = false; time = 100 }

abbrev plenty : Resources
plenty = record {
  ref_incoming = true;
  ref_outgoing = true;
  forw_ok = true;
  skb_ok = true;
  slack = 0;
}

queue_add-Queued_example :
    Added
      (ogm 0, false)
      (((ogm 0, false) ∷ []) ∷ [])
      true
      (queue_add millisecond_jiffies plenty (some 1) queue second)
unfolding test_flag
queue_add-Queued_example =
    queue_add-Queued millisecond_jiffies plenty (some 1) queue second (((ogm 0, false) ∷ []) ∷ [])
      (waiting forw-Holds empty) (omega arith, tt) refl (omega arith)
      (record { incoming = refl; outgoing = refl; forw = refl; skb = refl; left = refl })

abbrev up : Emission
up = record {
  incoming_set = true;
  outgoing_set = true;
  same_soft_iface = true;
  incoming_active = true;
  primary_selected = true;
  outgoing_active = true;
  clone_ok = true;
}

emit_received_example :
    emit up (λ i. 77) forw ≡ some (concat (map (on_wire true) ((ogm 0, false) ∷ [])))
emit_received_example =
    (emit_received up accepted (λ i. 77) (λ i. 5) forw ((ogm 0, false) ∷ []) (0 ∷ [])
      (record {
        incoming = refl;
        outgoing = refl;
        soft = refl;
        incoming_up = refl;
        primary = refl;
        outgoing_up = refl;
        clone = refl;
      })
      refl forw-Holds (omega arith) (omega arith)).0
