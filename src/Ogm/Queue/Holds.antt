-- ===== src/Ogm/Queue/Holds.antt =====
-- A waiting packet as a list of OGMs, each with its mark as a direct link.
use batman_adv.Common.{
  ℕ, zero, suc, ◌+◌, ◌*◌, ◌%◌, ◌^◌, ◌≤◌, ◌<◌, ◌≡◌, refl, sym, ap, ◌∙◌, Bool, true, false, ◌&&◌,
  ◌==◌, ltb, if◌then◌else◌, arith, List, [], ◌∷◌, ◌++◌, some, length, get_or, map, All, All-append,
  length-append, append_assoc, append-nil,
}
use batman_adv.Word.Flags.{test_flag, set_flag, test-set_flag}
use batman_adv.Ogm.Packet.{ogm_hlen, max_aggregation_bytes}
use batman_adv.Ogm.Packet.Parse.{IsOgm, concat}
use batman_adv.Ogm.Queue.{ForwPacket, aggregate}

-- An OGM and whether it is a direct link.
abbrev pub Item : Type 0
Item = List ℕ × Bool

abbrev pub ogms : List Item → List (List ℕ)
ogms = map (λ i. i.0)

abbrev pub directs : List Item → List Bool
directs = map (λ i. i.1)

-- The packet consists of these OGMs; the k-th bit of its flags belongs to the k-th of them.
pub record Holds (items : List Item) (forw : ForwPacket) : Type 0 where
  pub bytes : forw.skb ≡ concat (ogms items)
  pub whole : All IsOgm (ogms items)
  pub counted : suc forw.num_packets ≡ length items
  pub measured : forw.packet_len ≡ length forw.skb
  pub marked : (k : ℕ) → test_flag k forw.direct_link_flags ≡ get_or (directs items) k false

concat-snoc : (os : List (List ℕ)) (o : List ℕ) → concat (os ++ o ∷ []) ≡ concat os ++ o
concat-snoc [] o = append-nil o
concat-snoc (x ∷ os) o = rw (concat-snoc os o) (sym (append_assoc x (concat os) o))

map-snoc :
    {A : Type 0} (f : Item → A) (xs : List Item) (x : Item)
    → map f (xs ++ x ∷ []) ≡ map f xs ++ f x ∷ []
map-snoc f [] x = refl
map-snoc f (y ∷ xs) x = ap (λ l. f y ∷ l) (map-snoc f xs x)

-- OGMs of 24 bytes at least.
pub length-concat : (os : List (List ℕ)) → All IsOgm os → ogm_hlen * length os ≤ length (concat os)
length-concat [] w = omega arith
length-concat (o ∷ os) w = omega (arith, length-append o (concat os), length-concat os w.1, w.0)

get_or-snoc :
    (bs : List Bool) (b : Bool) (k : ℕ)
    → get_or (bs ++ b ∷ []) k false ≡ (if k == length bs then b else get_or bs k false)
get_or-snoc [] b zero = refl
get_or-snoc [] b (suc k) = ground arith
get_or-snoc (x ∷ bs) b zero = ground arith
get_or-snoc (x ∷ bs) b (suc k) = ground (arith, get_or-snoc bs b k)

length-directs : (items : List Item) → length (directs items) ≡ length items
length-directs [] = refl
length-directs (x ∷ items) = ap suc (length-directs items)

pub length-ogms : (items : List Item) → length (ogms items) ≡ length items
length-ogms [] = refl
length-ogms (x ∷ items) = ap suc (length-ogms items)

get_or-outside : (bs : List Bool) (k : ℕ) → length bs ≤ k → get_or bs k false ≡ false
get_or-outside [] k h = refl
get_or-outside (b ∷ bs) zero h = absurd (omega arith)
get_or-outside (b ∷ bs) (suc k) h = get_or-outside bs k (omega arith)

-- The flags after one more OGM.
aggregate_mark :
    (bs : List Bool) (num flags : ℕ) (direct : Bool) (k : ℕ)
    → suc num ≡ length bs
    → suc num < 32
    → test_flag k flags ≡ get_or bs k false
    → test_flag k
        (if direct && ltb ((num + 1) % 2 ^ 8) 32 then set_flag ((num + 1) % 2 ^ 8) flags else flags)
      ≡ get_or (bs ++ direct ∷ []) k false
aggregate_mark bs num flags direct k c few e =
    let n : (num + 1) % 2 ^ 8 ≡ length bs = omega arith in
    rw (n, get_or-snoc bs direct k)
      (ground (arith, test-set_flag k (length bs) flags, get_or-outside bs k))

-- The buffer has room for the largest aggregate.
abbrev pub Roomy : ForwPacket → Type 0
Roomy forw = max_aggregation_bytes ≤ forw.room

-- The packet after one more OGM.
pub record Aggregated (items : List Item) (o : List ℕ) (direct : Bool) (forw : ForwPacket)
    : Type 0 where
  pub forw' : ForwPacket
  pub done : aggregate forw o direct ≡ some forw'
  pub held : Holds (items ++ (o, direct) ∷ []) forw'
  pub roomy : Roomy forw'

pub aggregate-Holds :
    (items : List Item) (forw : ForwPacket) (o : List ℕ) (direct : Bool)
    → Holds items forw
    → IsOgm o
    → forw.packet_len + length o ≤ max_aggregation_bytes
    → Roomy forw
    → Aggregated items o direct forw
unfolding aggregate
aggregate-Holds items forw o direct h w len room =
    let few : length items < 32 = omega (
      arith,
      length-concat (ogms items) h.whole,
      length-ogms items,
      ap (length {0}) h.bytes,
      h.measured,
    ) in
    let fits : ltb forw.room (length forw.skb + length o) ≡ false =
      ground (arith, len, room, h.measured) in
    let num = (forw.num_packets + 1) % 2 ^ 8 in
    record {
      forw' = record forw {
        skb = forw.skb ++ o;
        packet_len = (forw.packet_len + length o) % 2 ^ 16;
        num_packets = num;
        direct_link_flags =
            if direct && ltb num 32
            then set_flag num forw.direct_link_flags
            else forw.direct_link_flags;
      };
      done = rw (aggregate, fits) refl;
      held = record {
        bytes = rw (map-snoc (λ i. i.0) items (o, direct), concat-snoc (ogms items) o, h.bytes);
        whole =
            rw (map-snoc (λ i. i.0) items (o, direct))
              (All-append IsOgm (ogms items) (o ∷ []) h.whole (w, tt));
        counted = omega (arith, length-append items ((o, direct) ∷ []), h.counted);
        measured = omega (arith, length-append forw.skb o, h.measured);
        marked = λ k. rw (map-snoc (λ i. i.1) items (o, direct)) (
            aggregate_mark (directs items) forw.num_packets forw.direct_link_flags direct k
              (omega (arith, length-directs items, h.counted)) (omega (arith, h.counted))
              (h.marked k));
      };
      roomy = room;
    }

test_flag-zero : (k : ℕ) → test_flag k 0 ≡ false
unfolding test_flag
test_flag-zero zero = refl
test_flag-zero (suc k) = test_flag-zero k

-- A packet that was made for one OGM.
pub single-Holds :
    (forw : ForwPacket) (o : List ℕ) (direct : Bool)
    → IsOgm o
    → length o < 2 ^ 16
    → forw.skb ≡ o
    → forw.packet_len ≡ length o % 2 ^ 16
    → forw.num_packets ≡ 0
    → forw.direct_link_flags ≡ (if direct then 1 else 0)
    → Holds ((o, direct) ∷ []) forw
unfolding test_flag
single-Holds forw o direct w small s len num flags = record {
  bytes = s ∙ sym (append-nil o);
  whole = (w, tt);
  counted = ap suc num;
  measured = omega (arith, ap (length {0}) s);
  marked = λ k. rw (flags) (single_mark direct k);
}
  where
    single_mark :
        (direct : Bool) (k : ℕ)
        → test_flag k (if direct then 1 else 0) ≡ get_or (direct ∷ []) k false
    single_mark true zero = refl
    single_mark false zero = refl
    single_mark true (suc k) = test_flag-zero k
    single_mark false (suc k) = test_flag-zero k
