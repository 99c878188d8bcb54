-- ===== src/Ogm/Metric/Ring.antt =====
-- The ring buffer holds the last five values, and its average is theirs.
use batman_adv.Common.{
  ℕ, zero, suc, ◌+◌, ◌*◌, ◌/◌, ◌%◌, ◌^◌, ◌<◌, ◌≤◌, ◌≡◌, refl, arith, if◌then◌else◌, List, [], ◌∷◌,
  length, take, get_or, set, All, ◌==◌, replicate, length-set, All-set, ◌∙◌, ap, ◌++◌, subst,
}
use native.Mathlib.Nat.{le-div_iff_mul-le, div-le_of_le-mul}
use batman_adv.Ogm.{tq_max}
use batman_adv.Ogm.Metric.{ring_buffer_set, ring_buffer_sums, ring_buffer_avg, global_window}

-- 1 for a value that counts.
unfoldable pub counts : ℕ → ℕ
counts x = if x == 0 then 0 else 1

abbrev pub sum : List ℕ → ℕ
sum [] = 0
sum (x ∷ xs) = x + sum xs

-- How many values are not zero.
abbrev pub nonzero : List ℕ → ℕ
nonzero [] = 0
nonzero (x ∷ xs) = counts x + nonzero xs

-- The mean of the values that are not zero, rounded down, and 0 without any.
abbrev pub mean : List ℕ → ℕ
mean xs = if nonzero xs == 0 then 0 else sum xs / nonzero xs

abbrev Bytes : List ℕ → Type 0
Bytes = All (λ x. x ≤ tq_max)

sums-plain :
    (xs : List ℕ)
    → Bytes xs
    → length xs ≤ global_window
    → (ring_buffer_sums xs ≡ (nonzero xs, sum xs))
      × (sum xs ≤ tq_max * nonzero xs)
      × (nonzero xs ≤ length xs)
unfolding ring_buffer_sums counts
sums-plain [] b h = (refl, omega arith, omega arith)
sums-plain (x ∷ xs) b h = ground (arith, sums-plain xs b.1)

div-byte : (s n : ℕ) → s ≤ n * tq_max → s / n < 2 ^ 8
div-byte s n h = omega (arith, div-le_of_le-mul n h)

-- The average is the mean, and so at most the largest value that a byte holds.
avg-mean : (xs : List ℕ) → Bytes xs → length xs ≤ global_window → ring_buffer_avg xs ≡ mean xs
unfolding ring_buffer_avg
avg-mean xs b h =
    let p = sums-plain xs b h in
    rw p.0 (ground (arith, div-byte (sum xs) (nonzero xs) (omega (arith, p.1))))

-- The values from the newest to the oldest, in a buffer whose next place to write is i.
abbrev pub recent : List ℕ → ℕ → List ℕ
recent buf i =
    get_or buf ((i + 4) % 5) 0
    ∷ get_or buf ((i + 3) % 5) 0
    ∷ get_or buf ((i + 2) % 5) 0
    ∷ get_or buf ((i + 1) % 5) 0
    ∷ get_or buf i 0
    ∷ []

-- A write puts the value in front and drops the oldest.
pub recent-set :
    (a b c d e i v : ℕ)
    → i < global_window
    → let buf = a ∷ b ∷ c ∷ d ∷ e ∷ [] in
      let (buf', i') = ring_buffer_set buf i v in recent buf' i' ≡ v ∷ take 4 (recent buf i)
unfolding ring_buffer_set
recent-set a b c d e zero v h = refl
recent-set a b c d e (suc zero) v h = refl
recent-set a b c d e (suc (suc zero)) v h = refl
recent-set a b c d e (suc (suc (suc zero))) v h = refl
recent-set a b c d e (suc (suc (suc (suc zero)))) v h = refl
recent-set a b c d e (suc (suc (suc (suc (suc i))))) v h = absurd (omega arith)

mean_of : (xs ys : List ℕ) → sum xs ≡ sum ys → nonzero xs ≡ nonzero ys → mean xs ≡ mean ys
mean_of xs ys e e' = rw (e, e')

mean-recent :
    (a b c d e i : ℕ)
    → i < global_window
    → let buf = a ∷ b ∷ c ∷ d ∷ e ∷ [] in mean buf ≡ mean (recent buf i)
mean-recent a b c d e zero h =
    mean_of (a ∷ b ∷ c ∷ d ∷ e ∷ []) (recent (a ∷ b ∷ c ∷ d ∷ e ∷ []) 0) (omega arith) (omega arith)
mean-recent a b c d e (suc zero) h =
    mean_of (a ∷ b ∷ c ∷ d ∷ e ∷ []) (recent (a ∷ b ∷ c ∷ d ∷ e ∷ []) 1) (omega arith) (omega arith)
mean-recent a b c d e (suc (suc zero)) h =
    mean_of (a ∷ b ∷ c ∷ d ∷ e ∷ []) (recent (a ∷ b ∷ c ∷ d ∷ e ∷ []) 2) (omega arith) (omega arith)
mean-recent a b c d e (suc (suc (suc zero))) h =
    mean_of (a ∷ b ∷ c ∷ d ∷ e ∷ []) (recent (a ∷ b ∷ c ∷ d ∷ e ∷ []) 3) (omega arith) (omega arith)
mean-recent a b c d e (suc (suc (suc (suc zero)))) h =
    mean_of (a ∷ b ∷ c ∷ d ∷ e ∷ []) (recent (a ∷ b ∷ c ∷ d ∷ e ∷ []) 4) (omega arith) (omega arith)
mean-recent a b c d e (suc (suc (suc (suc (suc i))))) h = absurd (omega arith)

-- The ring buffer after the values of a list, the newest first, on a buffer of zeros.
abbrev pub received : List ℕ → List ℕ × ℕ
unfolding ring_buffer_set
received [] = (replicate global_window 0, 0)
received (v ∷ vs) = let (buf, i) = received vs in ring_buffer_set buf i v

record Buffered (r : List ℕ × ℕ) (vs : List ℕ) : Type 0 where
  buffer_length : length r.0 ≡ global_window
  index_bound : r.1 < global_window
  buffer_bytes : Bytes r.0
  buffer_recent : recent r.0 r.1 ≡ take global_window (vs ++ replicate global_window 0)

-- A list of five is its five elements.
entries : List ℕ → List ℕ
entries xs = get_or xs 0 0 ∷ get_or xs 1 0 ∷ get_or xs 2 0 ∷ get_or xs 3 0 ∷ get_or xs 4 0 ∷ []

entries_lem : (xs : List ℕ) → length xs ≡ global_window → entries xs ≡ xs
unfolding entries
entries_lem [] l = absurd (omega arith)
entries_lem (a ∷ []) l = absurd (omega arith)
entries_lem (a ∷ b ∷ []) l = absurd (omega arith)
entries_lem (a ∷ b ∷ c ∷ []) l = absurd (omega arith)
entries_lem (a ∷ b ∷ c ∷ d ∷ []) l = absurd (omega arith)
entries_lem (a ∷ b ∷ c ∷ d ∷ e ∷ []) l = refl
entries_lem (a ∷ b ∷ c ∷ d ∷ e ∷ f ∷ xs) l = absurd (omega arith)

recent-set_list :
    (buf : List ℕ) (i v : ℕ)
    → length buf ≡ global_window
    → i < global_window
    → recent (set buf i v) ((i + 1) % 5) ≡ v ∷ take 4 (recent buf i)
unfolding entries ring_buffer_set
recent-set_list buf i v l h =
    subst (λ b. recent (set b i v) ((i + 1) % 5) ≡ v ∷ take 4 (recent b i)) (entries_lem buf l)
      (recent-set (get_or buf 0 0) (get_or buf 1 0) (get_or buf 2 0) (get_or buf 3 0)
        (get_or buf 4 0) i v h)

mean-recent_list :
    (buf : List ℕ) (i : ℕ)
    → length buf ≡ global_window
    → i < global_window
    → mean buf ≡ mean (recent buf i)
unfolding entries
mean-recent_list buf i l h =
    subst (λ b. mean b ≡ mean (recent b i)) (entries_lem buf l)
      (mean-recent (get_or buf 0 0) (get_or buf 1 0) (get_or buf 2 0) (get_or buf 3 0)
        (get_or buf 4 0) i h)

pub take-take : {A : Type 0} (k n : ℕ) (xs : List A) → k ≤ n → take k (take n xs) ≡ take k xs
take-take zero n xs h = refl
take-take (suc k) zero xs h = absurd (omega arith)
take-take (suc k) (suc n) [] h = refl
take-take (suc k) (suc n) (x ∷ xs) h = ap (λ l. x ∷ l) (take-take k n xs (omega arith))

set-Buffered :
    (r : List ℕ × ℕ) (v : ℕ) (vs : List ℕ)
    → v ≤ tq_max
    → Buffered r vs
    → Buffered (set r.0 r.1 v, (r.1 + 1) % 5) (v ∷ vs)
set-Buffered r v vs h x = record {
  buffer_length = length-set r.0 r.1 v ∙ x.buffer_length;
  index_bound = omega arith;
  buffer_bytes = All-set (λ x. x ≤ tq_max) r.0 r.1 v x.buffer_bytes h;
  buffer_recent =
      recent-set_list r.0 r.1 v x.buffer_length x.index_bound
      ∙ ap (λ l. v ∷ take 4 l) x.buffer_recent
      ∙ ap (λ l. v ∷ l) (take-take 4 5 (vs ++ replicate 5 0) (omega arith));
}

received-Buffered : (vs : List ℕ) → Bytes vs → Buffered (received vs) vs
unfolding ring_buffer_set
received-Buffered [] b = record {
  buffer_length = refl;
  index_bound = omega arith;
  buffer_bytes = ground arith;
  buffer_recent = refl;
}
received-Buffered (v ∷ vs) b = set-Buffered (received vs) v vs b.0 (received-Buffered vs b.1)

replicate-zeros :
    (k n : ℕ) → (sum (take k (replicate n 0)) ≡ 0) × (nonzero (take k (replicate n 0)) ≡ 0)
unfolding counts
replicate-zeros zero n = (refl, refl)
replicate-zeros (suc k) zero = (refl, refl)
replicate-zeros (suc k) (suc n) = ground (arith, replicate-zeros k n)

append-zeros :
    (k n : ℕ) (vs : List ℕ)
    → (sum (take k (vs ++ replicate n 0)) ≡ sum (take k vs))
      × (nonzero (take k (vs ++ replicate n 0)) ≡ nonzero (take k vs))
append-zeros zero n vs = (refl, refl)
append-zeros (suc k) n [] = replicate-zeros (suc k) n
append-zeros (suc k) n (v ∷ vs) = ground (arith, append-zeros k n vs)

-- A buffer of five bytes, and its average, after a byte is written to it.
pub record Fits (buf : List ℕ) (i : ℕ) : Type 0 where
  pub five : length buf ≡ global_window
  pub place : i < global_window
  pub bytes : Bytes buf

pub set-Fits :
    (buf : List ℕ) (i v : ℕ)
    → Fits buf i
    → v ≤ tq_max
    → Fits (set buf i v) ((i + 1) % 5)
      × (recent (set buf i v) ((i + 1) % 5) ≡ v ∷ take 4 (recent buf i))
set-Fits buf i v f h = (
  record {
    five = length-set buf i v ∙ f.five;
    place = omega (arith, f.place);
    bytes = All-set (λ x. x ≤ tq_max) buf i v f.bytes h;
  },
  recent-set_list buf i v f.five f.place,
)

pub avg-Fits : (buf : List ℕ) (i : ℕ) → Fits buf i → ring_buffer_avg buf ≡ mean (recent buf i)
avg-Fits buf i f =
    avg-mean buf f.bytes (omega (arith, f.five)) ∙ mean-recent_list buf i f.five f.place

nonzero-sum : (xs : List ℕ) → nonzero xs ≤ sum xs
unfolding counts
nonzero-sum [] = omega arith
nonzero-sum (x ∷ xs) = ground (arith, nonzero-sum xs)

-- A value that is not 0 makes the mean positive.
pub mean-pos : (v : ℕ) (xs : List ℕ) → 0 < v → 0 < mean (v ∷ xs)
unfolding counts
mean-pos v xs h =
    let n = nonzero-sum (v ∷ xs) in
    let pos : 0 < nonzero (v ∷ xs) = ground arith in
    let one : 1 ≤ sum (v ∷ xs) / nonzero (v ∷ xs) =
      (le-div_iff_mul-le {x = 1} {y = sum (v ∷ xs)} pos).1 (omega (arith, n)) in
    ground (arith, one, pos)

-- The average of the ring buffer, after any bytes were written to it in turn, is the mean of those
-- of the last five that are not zero, rounded down (0 when there is none).
pub ring_buffer_avg-recent :
    (vs : List ℕ) → Bytes vs → ring_buffer_avg (received vs).0 ≡ mean (take global_window vs)
ring_buffer_avg-recent vs b =
    let x = received-Buffered vs b in
    let buf = (received vs).0 in
    let i = (received vs).1 in
    avg-mean buf x.buffer_bytes (omega (arith, x.buffer_length))
    ∙ mean-recent_list buf i x.buffer_length x.index_bound
    ∙ ap mean x.buffer_recent
    ∙ mean_of (take 5 (vs ++ replicate 5 0)) (take 5 vs) (append-zeros 5 5 vs).0
        (append-zeros 5 5 vs).1
