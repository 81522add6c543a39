-- ===== src/Thread/Wakeup.antt =====
-- `thread_wakeup` against the list of the sleepers.
use mathlib.Core.List.{append_assoc, append-nil}
use cse.Base.{
  ℕ, zero, suc, ◌+◌, ◌<◌, ◌≡◌, refl, ◌∙◌, ap, ◌≢◌, arith, Bool, true, false, List, [], ◌∷◌, ◌++◌,
  length, length-append, ltb, lt→ltb, not-lt→ltb, eq→==, not-==, ℕ_discrete,
}
use cse.Base.Outcome.{ok}
use cse.Base.Blocks.{load}
use cse.Array
use cse.Array.Items.{without, getguy-load, remove-Changes}
use cse.Queue.Grow.{addtail-room}
use cse.Thread.{Threads, make_runnable, wake, wakeup_loop, wakeup}
use cse.Thread.Room.{Tables, on_addr, not_on}

load_middle : (xs ys : List ℕ) (y : ℕ) → load (xs ++ (y ∷ ys)) (length xs) ≡ ok y
load_middle [] ys y = refl
load_middle (x ∷ xs) ys y = load_middle xs ys y

without_middle : (xs ys : List ℕ) (y : ℕ) → without (length xs) (xs ++ (y ∷ ys)) ≡ xs ++ ys
without_middle [] ys y = refl
without_middle (x ∷ xs) ys y = ap (λ l. x ∷ l) (without_middle xs ys y)

-- The sleepers' table changed with the run queue, and nothing else.
pub record Moved (ready asleep dead : List ℕ) (k k' : Threads) : Type 0 where
  pub tables : Tables ready asleep dead k'
  pub same_curthread : k'.curthread ≡ k.curthread
  pub same_numthreads : k'.numthreads ≡ k.numthreads
  pub same_sleepaddr : k'.sleepaddr ≡ k.sleepaddr
  pub same_curspl : k'.curspl ≡ k.curspl
  pub same_room : k'.runqueue.size ≡ k.runqueue.size
  pub same_max : k'.sleepers.max ≡ k.sleepers.max
  pub same_zombies : k'.zombies ≡ k.zombies

module _ (junk : ℕ → ℕ) where
  -- One sleeper is moved to the end of the run queue.
  pub wake-Moved :
      (mem : ℕ → Bool) (rs xs ys dead : List ℕ) (t : ℕ) (k : Threads)
      → Tables rs (xs ++ (t ∷ ys)) dead k
      → 0 < k.curspl
      → length rs + 1 < k.runqueue.size
      → (k' : Threads) × (wake junk mem k (length xs) t ≡ ok k')
        × Moved (rs ++ (t ∷ [])) (xs ++ ys) dead k k'
  unfolding wake make_runnable
  wake-Moved mem rs xs ys dead t k h off room =
      let (s, e, hs, m) =
        (remove-Changes (xs ++ (t ∷ ys)) k.sleepers (length xs) h.sleeps).0
          (omega (arith, length-append xs (t ∷ ys))) in
      let (q, e', hq, z) = addtail-room 0 1 mem junk t h.runs room in
      (
        record k { sleepers = s; runqueue = q },
        ground (arith, e, e', lt→ltb 0 k.curspl off),
        record {
          tables = record {
            runs = hq;
            sleeps = rw (without_middle xs ys t) at hs;
            rests = h.rests;
          };
          same_curthread = refl;
          same_numthreads = refl;
          same_sleepaddr = refl;
          same_curspl = refl;
          same_room = z;
          same_max = m;
          same_zombies = refl;
        },
      )

Moved-trans :
    {rs ss rs' ss' dead : List ℕ} {k k1 k2 : Threads}
    → Moved rs ss dead k k1
    → Moved rs' ss' dead k1 k2
    → Moved rs' ss' dead k k2
Moved-trans a b = record {
  tables = b.tables;
  same_curthread = b.same_curthread ∙ a.same_curthread;
  same_numthreads = b.same_numthreads ∙ a.same_numthreads;
  same_sleepaddr = b.same_sleepaddr ∙ a.same_sleepaddr;
  same_curspl = b.same_curspl ∙ a.same_curspl;
  same_room = b.same_room ∙ a.same_room;
  same_max = b.same_max ∙ a.same_max;
  same_zombies = b.same_zombies ∙ a.same_zombies;
}

pub Moved-refl : {rs ss dead : List ℕ} {k : Threads} → Tables rs ss dead k → Moved rs ss dead k k
Moved-refl h = record {
  tables = h;
  same_curthread = refl;
  same_numthreads = refl;
  same_sleepaddr = refl;
  same_curspl = refl;
  same_room = refl;
  same_max = refl;
  same_zombies = refl;
}

-- What the loops over the sleepers read at the index that they have come to.
module _ (xs ys dead : List ℕ) {rs : List ℕ} (k : Threads) where
  pub at_item :
      (t : ℕ)
      → Tables rs (xs ++ (t ∷ ys)) dead k
      → (Array.getguy k.sleepers (length xs) ≡ ok t)
        × (ltb (length xs) (Array.getnum k.sleepers) ≡ true)
  at_item t h = (
    getguy-load (xs ++ (t ∷ ys)) k.sleepers (length xs) h.sleeps ∙ load_middle xs ys t,
    lt→ltb (length xs) (Array.getnum k.sleepers)
        (omega (arith, h.sleeps.count, length-append xs (t ∷ ys))),
  )

module _ (junk : ℕ → ℕ) where
  loop_end :
      (fuel i addr : ℕ) (mem : ℕ → ℕ → Bool) (k : Threads)
      → ltb i (Array.getnum k.sleepers) ≡ false
      → wakeup_loop junk (suc fuel) i addr mem k ≡ ok k
  unfolding wakeup_loop
  loop_end fuel i addr mem k e = rw e

  loop_skip :
      (fuel i addr t : ℕ) (mem : ℕ → ℕ → Bool) (k : Threads)
      → (Array.getguy k.sleepers i ≡ ok t) × (ltb i (Array.getnum k.sleepers) ≡ true)
      → k.sleepaddr t ≢ addr
      → wakeup_loop junk (suc fuel) i addr mem k ≡ wakeup_loop junk fuel (i + 1) addr mem k
  unfolding wakeup_loop
  loop_skip fuel i addr t mem k (e, lt) ne = ground (arith, e, lt, not-== ne)

  loop_take :
      (fuel i addr t : ℕ) (mem : ℕ → ℕ → Bool) (k k' : Threads)
      → (Array.getguy k.sleepers i ≡ ok t) × (ltb i (Array.getnum k.sleepers) ≡ true)
      → k.sleepaddr t ≡ addr
      → wake junk (mem fuel) k i t ≡ ok k'
      → wakeup_loop junk (suc fuel) i addr mem k ≡ wakeup_loop junk fuel i addr mem k'
  unfolding wakeup_loop
  loop_take fuel i addr t mem k k' (e, lt) same w = ground (arith, e, lt, eq→== same, w)

  wakeup_loop-Moved :
      (fuel addr : ℕ) (mem : ℕ → ℕ → Bool) (rs xs ys dead : List ℕ) (k : Threads)
      → Tables rs (xs ++ ys) dead k
      → 0 < k.curspl
      → length rs + length ys < k.runqueue.size
      → length ys < fuel
      → (k' : Threads) × (wakeup_loop junk fuel (length xs) addr mem k ≡ ok k')
        × Moved (rs ++ on_addr k.sleepaddr addr ys) (xs ++ not_on k.sleepaddr addr ys) dead k k'
  wakeup_loop-Moved zero addr mem rs xs ys dead k h off room enough = absurd (omega arith)
  wakeup_loop-Moved (suc fuel) addr mem rs xs [] dead k h off room enough = (
    k,
    loop_end fuel (length xs) addr mem k (
        not-lt→ltb (length xs) (Array.getnum k.sleepers)
          (omega (arith, h.sleeps.count, length-append {A = ℕ} xs []))),
    Moved-refl (record { runs = rw append-nil h.runs; sleeps = h.sleeps; rests = h.rests }),
  )
  wakeup_loop-Moved (suc fuel) addr mem rs xs (t ∷ ys) dead k h off room enough =
      elim (ℕ_discrete (k.sleepaddr t) addr) [
        | yes same ↦
            let (k1, e1, m1) = wake-Moved junk (mem fuel) rs xs ys dead t k h off (omega arith) in
            let (k2, e2, m2) =
              wakeup_loop-Moved fuel addr mem (rs ++ (t ∷ [])) xs ys dead k1 m1.tables
                (omega (arith, m1.same_curspl))
                (omega (arith, length-append rs (t ∷ []), m1.same_room)) (omega arith) in
            (
              k2,
              loop_take fuel (length xs) addr t mem k k1 (at_item xs ys dead k t h) same e1 ∙ e2,
              rw (eq→== same) (Moved-trans m1 (rw append_assoc at (rw m1.same_sleepaddr at m2))),
            )
        | no ne ↦
            let (k2, e2, m2) =
              wakeup_loop-Moved fuel addr mem rs (xs ++ (t ∷ [])) ys dead k (rw append_assoc h) off
                (omega arith) (omega arith) in
            (
              k2,
              loop_skip fuel (length xs) addr t mem k (at_item xs ys dead k t h) ne
                  ∙ ap (λ i. wakeup_loop junk fuel i addr mem k)
                      (omega (arith, length-append xs (t ∷ [])))
                  ∙ e2,
              rw (not-== ne) (rw append_assoc at m2),
            )
      ]

  -- With interrupts off and room in the run queue for every sleeper `thread_wakeup` makes all
  -- threads that sleep on the address runnable, in the order in which they stand among the
  -- sleepers, and leaves the others asleep, whether or not memory is left. No assertion fails.
  pub wakeup-Moved :
      (addr : ℕ) (mem : ℕ → ℕ → Bool) (rs ss dead : List ℕ) (k : Threads)
      → Tables rs ss dead k
      → 0 < k.curspl
      → length rs + length ss < k.runqueue.size
      → (k' : Threads) × (wakeup junk mem k addr ≡ ok k')
        × Moved (rs ++ on_addr k.sleepaddr addr ss) (not_on k.sleepaddr addr ss) dead k k'
  unfolding wakeup
  wakeup-Moved addr mem rs ss dead k h off room =
      let (k', e, m) =
        wakeup_loop-Moved (Array.getnum k.sleepers + 1) addr mem rs [] ss dead k h off room
          (omega (arith, h.sleeps.count)) in
      (k', rw (lt→ltb 0 k.curspl off) e, m)
