-- ===== src/Ogm/Queue/Add.antt =====
-- No OGM is lost or doubled in the queue.
use mathlib.Core.List.{Permᴰ}
use mathlib.Core.Option.{some_inj, none-ne-some}
use mathlib.Core.List.Permᴰ
use batman_adv.Common.{
  ℕ, ◌+◌, ◌^◌, ◌≤◌, ◌<◌, ◌≡◌, refl, sym, subst, Bool, true, false, ◌&&◌, not, ◌==◌, arith, List, [],
  ◌∷◌, ◌++◌, All, ◌∙◌, Option, none, some, length, append_assoc, Bool-cases, Option-cases, inl, inr,
}
use batman_adv.Kernel.{Jiffies}
use batman_adv.Word.Flags.{test_flag}
use batman_adv.Ogm.Packet.{max_aggregation_bytes}
use batman_adv.Ogm.Packet.Parse.{IsOgm}
use batman_adv.Ogm.Queue.{
  ForwPacket, Outgoing, Queue, Resources, directlink, flags_of, can_aggregate, split_first,
  aggregate_new, queue_add,
}
use batman_adv.Ogm.Queue.Holds.{Item, Holds, Roomy, aggregate-Holds, single-Holds}

-- The waiting packets and the OGMs of each.
pub data Queued : List (List Item) → List ForwPacket → Type 0 where
  empty : Queued [] []
  waiting :
      {items : List Item} {forw : ForwPacket} {rows : List (List Item)} {rest : List ForwPacket}
      → Holds items forw
      → Queued rows rest
      → Queued (items ∷ rows) (forw ∷ rest)

abbrev pub flatten : List (List Item) → List Item
flatten [] = []
flatten (items ∷ rows) = items ++ flatten rows

-- A list of packets that holds one item more.
pub record OneMore (item : Item) (rows : List (List Item)) (list : List ForwPacket) : Type 0 where
  pub rows' : List (List Item)
  pub queued : Queued rows' list
  pub same : Permᴰ (flatten rows') (item ∷ flatten rows)

perm_snoc :
    (items : List Item) (x : Item) (l : List Item)
    → Permᴰ ((items ++ x ∷ []) ++ l) (x ∷ (items ++ l))
perm_snoc items x l =
    subst (λ z. Permᴰ z (x ∷ (items ++ l))) (sym (append_assoc items (x ∷ []) l))
      (Permᴰ.middle x items l)

-- A packet of the queue that a test accepts, and what the queue is when the packet gets one more item.
record Place (test : ForwPacket → Bool) (x : Item) (rows : List (List Item))
    (list before : List ForwPacket) (forw : ForwPacket) (behind : List ForwPacket) : Type 0 where
  items : List Item
  held : Holds items forw
  accepted : test forw ≡ true
  roomy : All Roomy list → Roomy forw
  refill :
      (forw' : ForwPacket)
      → Holds (items ++ x ∷ []) forw'
      → OneMore x rows (before ++ forw' ∷ behind)
  keep : (forw' : ForwPacket) → Roomy forw' → All Roomy list → All Roomy (before ++ forw' ∷ behind)

module _ (test : ForwPacket → Bool) (x : Item) where
  split_first-Place :
      {rows : List (List Item)} {list : List ForwPacket} (before : List ForwPacket)
      (forw : ForwPacket) (behind : List ForwPacket)
      → Queued rows list
      → split_first test list ≡ some (before, (forw, behind))
      → Place test x rows list before forw behind
  unfolding split_first
  split_first-Place before forw behind empty e = absurd (none-ne-some _ e)
  split_first-Place before forw behind
        (waiting {items = items} {forw = first} {rows = rows} {rest = rest} h q) e =
      elim (Bool-cases (test first)) [
        | inl t ↦
            let first_one : split_first test (first ∷ rest) ≡ some ([], (first, rest)) =
              rw (split_first, t) refl in
            let same = (some_inj).0 (sym first_one ∙ e) in
            subst
              (λ (r : List ForwPacket × (ForwPacket × List ForwPacket)).
                Place test x (items ∷ rows) (first ∷ rest) r.0 r.1.0 r.1.1)
              same
              (record {
                items = items;
                held = h;
                accepted = t;
                roomy = λ a. a.0;
                refill = λ forw' h'. record {
                  rows' = (items ++ x ∷ []) ∷ rows;
                  queued = waiting h' q;
                  same = perm_snoc items x (flatten rows);
                };
                keep = λ forw' r a. (r, a.1);
              })
        | inr t ↦ elim (Option-cases (split_first test rest)) [
          | inl n ↦
              let nowhere : split_first test (first ∷ rest) ≡ none = rw (split_first, t, n) refl in
              absurd (none-ne-some _ (sym nowhere ∙ e))
          | inr ((before', (forw', behind')), s) ↦
              let p = split_first-Place before' forw' behind' q s in
              let later : split_first test (first ∷ rest)
                  ≡ some (first ∷ before', (forw', behind')) =
                rw (split_first, t, s) refl in
              let same = (some_inj).0 (sym later ∙ e) in
              subst
                (λ (r : List ForwPacket × (ForwPacket × List ForwPacket)).
                  Place test x (items ∷ rows) (first ∷ rest) r.0 r.1.0 r.1.1)
                same
                (record {
                  items = p.items;
                  held = p.held;
                  accepted = p.accepted;
                  roomy = λ a. p.roomy a.1;
                  refill = λ f h'.
                      let more = p.refill f h' in
                      record {
                        rows' = items ∷ more.rows';
                        queued = waiting h more.queued;
                        same =
                            Permᴰ.trans (Permᴰ.append_left items more.same)
                              (Permᴰ.middle x items (flatten rows));
                      };
                  keep = λ f r a. (a.0, p.keep f r a.1);
                })
        ]
      ]

can_aggregate-small :
    (jf : Jiffies) (primary : Option ℕ) (new : Outgoing) (direct : Bool) (f : ForwPacket)
    → can_aggregate jf primary new direct f ≡ true
    → f.packet_len + length new.ogm ≤ max_aggregation_bytes
unfolding can_aggregate
can_aggregate-small jf primary new direct f h = ground arith

-- Everything that an allocation needs is there.
pub record Supplied (res : Resources) (q : Queue) (new : Outgoing) : Type 0 where
  pub incoming : res.ref_incoming ≡ true
  pub outgoing : res.ref_outgoing ≡ true
  pub forw : res.forw_ok ≡ true
  pub skb : res.skb_ok ≡ true
  pub left : not new.own_packet && (q.batman_queue_left == 0) ≡ false

aggregate_new-Queued :
    {rows : List (List Item)} (res : Resources) (q : Queue) (new : Outgoing) (time : ℕ)
    (direct : Bool)
    → Queued rows q.forw_bat_list
    → IsOgm new.ogm
    → length new.ogm < 2 ^ 16
    → Supplied res q new
    → OneMore (new.ogm, direct) rows (aggregate_new res q new time direct).forw_bat_list
unfolding aggregate_new
aggregate_new-Queued {rows} res q new time direct h w small s =
    rw (s.incoming, s.outgoing, s.left, s.forw, s.skb)
      (record {
        rows' = ((new.ogm, direct) ∷ []) ∷ rows;
        queued = waiting (single-Holds _ new.ogm direct w small refl refl refl refl) h;
        same = Permᴰ.refl ((new.ogm, direct) ∷ flatten rows);
      })

-- While OGMs are aggregated, every waiting packet has room for the largest aggregate.
abbrev pub HasRoom : Bool → List ForwPacket → Type 0
HasRoom false list = Unit
HasRoom true list = All Roomy list

HasRoom-cons :
    (on : Bool) (forw : ForwPacket) (list : List ForwPacket)
    → (on ≡ true → Roomy forw)
    → HasRoom on list
    → HasRoom on (forw ∷ list)
HasRoom-cons false forw list r a = tt
HasRoom-cons true forw list r a = (r refl, a)

aggregate_new-HasRoom :
    (res : Resources) (q : Queue) (new : Outgoing) (time : ℕ) (direct : Bool)
    → HasRoom q.aggregated_ogms q.forw_bat_list
    → Supplied res q new
    → HasRoom q.aggregated_ogms (aggregate_new res q new time direct).forw_bat_list
unfolding aggregate_new
aggregate_new-HasRoom res q new time direct a s =
    rw (s.incoming, s.outgoing, s.left, s.forw, s.skb)
      (HasRoom-cons q.aggregated_ogms _ q.forw_bat_list (λ on. ground (arith, on)) a)

-- The queue after an OGM was added.
pub record Added (item : Item) (rows : List (List Item)) (aggregated_ogms : Bool)
    (result : Option Queue) : Type 0 where
  pub queue : Queue
  pub done : result ≡ some queue
  pub more : OneMore item rows queue.forw_bat_list
  pub room : HasRoom aggregated_ogms queue.forw_bat_list

-- If what the queue needs is supplied (references, memory, and room in the queue for an OGM that is
-- not our own), and while OGMs are aggregated every waiting packet has a buffer for 512 bytes at least,
-- then an OGM of less than 2^16 bytes can be added without a panic. It is in the queue afterwards, once
-- and with its mark as a direct link, beside exactly those that were there, in whichever packets they
-- are, and while OGMs are aggregated every packet again has such a buffer.
pub queue_add-Queued :
    (jf : Jiffies) (res : Resources) (primary : Option ℕ) (q : Queue) (new : Outgoing)
    (rows : List (List Item))
    → Queued rows q.forw_bat_list
    → HasRoom q.aggregated_ogms q.forw_bat_list
    → IsOgm new.ogm
    → length new.ogm < 2 ^ 16
    → Supplied res q new
    → Added
        (new.ogm, test_flag directlink (flags_of new.ogm))
        rows
        q.aggregated_ogms
        (queue_add jf res primary q new)
unfolding queue_add
queue_add-Queued jf res primary q new rows h a w small s =
    let direct = test_flag directlink (flags_of new.ogm) in
    let test : ForwPacket → Bool = can_aggregate jf primary new direct in
    let fresh : (time : ℕ)
        → Added (new.ogm, direct) rows q.aggregated_ogms
            (some (aggregate_new res q new time direct)) =
      λ time. record {
        queue = aggregate_new res q new time direct;
        done = refl;
        more = aggregate_new-Queued res q new time direct h w small s;
        room = aggregate_new-HasRoom res q new time direct a s;
      } in
    elim (Bool-cases (q.aggregated_ogms && not new.own_packet)) [
      | inr b ↦ rw (queue_add, b) (fresh _)
      | inl b ↦ elim (Option-cases (split_first test q.forw_bat_list)) [
        | inl n ↦ rw (queue_add, b, n) (fresh _)
        | inr ((before, (forw, behind)), e) ↦
            let on : q.aggregated_ogms ≡ true = ground arith in
            let all : All Roomy q.forw_bat_list = subst (λ b. HasRoom b q.forw_bat_list) on a in
            let p = split_first-Place test (new.ogm, direct) before forw behind h e in
            let g =
              aggregate-Holds p.items forw new.ogm direct p.held w
                (can_aggregate-small jf primary new direct forw p.accepted) (p.roomy all) in
            rw (queue_add, b, e, g.done)
              (record {
                queue = record q { forw_bat_list = before ++ g.forw' ∷ behind };
                done = refl;
                more = p.refill g.forw' g.held;
                room =
                    subst (λ b. HasRoom b (before ++ g.forw' ∷ behind)) (sym on)
                      (p.keep g.forw' g.roomy all);
              })
      ]
    ]
