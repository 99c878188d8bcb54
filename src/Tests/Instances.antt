-- ===== src/Tests/Instances.antt =====
-- The kernel's operations by concrete functions: a bitmap is a predicate, jiffies count
-- milliseconds, and a buffer is split as a list.
use batman_adv.Common.{
  ℕ, ◌-◌, ◌^◌, refl, arith, Bool, true, false, ◌==◌, ltb, if◌then◌else◌, take, drop,
}
use batman_adv.Word.{sub_word}
use batman_adv.Kernel.{Bitmap, Jiffies, count_below}
use batman_adv.Frag.Send.{SkbSplit}

abbrev pub predicate_bitmap : Bitmap
predicate_bitmap = record {
  Bits = ℕ → Bool;
  test = λ i b. b i;
  set = λ i b j. if i == j then true else b j;
  shift_left = λ b n size i. if ltb i n then false else b (i - n);
  clear = λ b size i. false;
  weight = λ b size. count_below size b;
  test-set = λ b i j. refl;
  test-shift_left = λ b n size i _ _. refl;
  test-clear = λ b size i _. refl;
  weight-count = λ b size. refl;
}

abbrev pub millisecond_jiffies : Jiffies
millisecond_jiffies = record {
  time_before = λ a b. ltb (2 ^ 63 - 1) (sub_word 64 a b);
  msecs_to_jiffies = λ m. m;
  before_later = λ t k ht hk. ground arith;
  before_earlier = λ t k ht hk. ground arith;
}

abbrev pub list_split : SkbSplit
list_split = record { split = λ skb n. (take n skb, drop n skb); split_lem = λ skb n _. refl }
