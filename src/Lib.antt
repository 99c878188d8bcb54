-- ===== src/Lib.antt =====
-- The mesh routing of batman-adv, the kernel module under net/batman-adv.
--
-- A node keeps, for every originator of the mesh, the sequence numbers that it received and the
-- quality of the ways to it, floods broadcasts, and carries payload in unicast packets that are
-- cut into fragments where a link is too narrow. Originator messages (OGMs) spread the metric, and
-- with it containers in which other components announce their data.
--
-- The files, and the code that each is about:
--   Common      shared types, lists and integers.
--   Kernel      the operations of the Linux kernel that are called: records with their laws.
--   Word        main.h: wrapping sequence numbers, `batadv_seq_before`.
--   Window      bitarray.h, bitarray.c: the window of received sequence numbers.
--   Bcast       routing.c: `batadv_window_protected`, `batadv_recv_bcast_packet`.
--   Frag        fragmentation.c: Send cuts a packet, Receive buffers and merges fragments.
--   Tvlv        main.c: containers and their handlers, written to OGMs and read from them.
--   Ogm         bat_iv_ogm.c, B.A.T.M.A.N. IV. Metric: ring buffers and link qualities. Seqnos: the
--               duplicate test of a received OGM. Router: the qualities of an originator's neighbours
--               and its router. Own: our own OGMs that come back. Packet: the OGMs of a received
--               packet. Queue: packets that wait, and the aggregation of OGMs into them. Emit: what
--               is forwarded and what leaves on an interface.
--   Bla         bridge_loop_avoidance.c: the list of recent broadcasts; Claims: the claims and the
--               gateways that hold them; Gateways: what a gateway sends, and the table of gateways;
--               Frames: the claim frames received; Gate: the frames that may pass; Work: the
--               periodic work; Invariant, Loops, Resync: what holds of a gateway and of several.
--   Bonding     routing.c: `batadv_find_router`.
--   NetCode     network-coding.c: two packets coded into one, and decoded.
--   Tt          translation-table.c: the changes that wait to be announced; Local: the own clients and
--               the commit of the changes; Diff, Stale, Stuck: what the announced changes do.
--   Gateway     gateway_client.c: the choice and the election of a gateway; Settings: the table of
--               gateways (also gateway_common.c, and the mode of sysfs.c); Best: what is chosen;
--               Announced, Listed: what holds after all that can happen.
--   Tests       runs at concrete inputs.
--
-- Definitions carry the names of the C functions without the prefix `batadv_`. Numbers are native
-- naturals and every wrap-around of a machine word is written out. A bitmap, the jiffies, the split
-- of a socket buffer and the callbacks are parameters, with the documented behaviour of the
-- kernel's functions as the fields of a record. A failing allocation is an input of the function
-- that allocates. Locks are not modelled: the functions are the critical sections.
--
-- Fuel: the sender of fragments has 15 rounds, since it gives up at the number 15; the parser of
-- containers has as many rounds as the buffer has bytes, since each round takes four at least; the
-- loops over the OGMs of a packet have one round more than it has bytes, since each advances by 24.
--
-- Not modelled: reference counts, RCU, device registration, sysfs (but the
-- gateway mode) and debugfs, statistics, and the
-- components that are not named above (global translation table, distributed ARP table,
-- multicast, B.A.T.M.A.N. V).
pub mod Common
pub mod Word
pub mod Kernel
pub mod Window
pub mod Bcast
pub mod Frag
pub mod Tvlv
pub mod Ogm
pub mod Bla
pub mod Bonding
pub mod NetCode
pub mod Tt
pub mod Gateway
mod Tests
