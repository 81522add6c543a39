-- ===== src/Thread/One.antt =====
-- `thread_wakeup_one` and `thread_hassleepers` against the list of the sleepers.
use mathlib.Core.List.{append_assoc, append-nil}
use cse.Base.{
  ℕ, zero, suc, ◌+◌, ◌<◌, ◌≡◌, ◌∙◌, ap, ◌≢◌, arith, Bool, true, false, List, [], ◌∷◌, ◌++◌, length,
  length-append, ltb, ◌==◌, lt→ltb, not-lt→ltb, eq→==, not-==, if◌then◌else◌, ℕ_discrete,
  Bool-cases, ◌⊎◌, inl, inr,
}
use cse.Base.Outcome.{ok}
use cse.Array
use cse.Thread.{Threads, wake, wakeup_one_loop, wakeup_one, hassleepers_loop, hassleepers}
use cse.Thread.Room.{Tables, first_on, without_first}
use cse.Thread.Wakeup.{Moved, Moved-refl, wake-Moved, at_item}

module _ (junk : ℕ → ℕ) where
  one_end :
      (fuel i addr : ℕ) (mem : ℕ → Bool) (k : Threads)
      → ltb i (Array.getnum k.sleepers) ≡ false
      → wakeup_one_loop junk (suc fuel) i addr mem k ≡ ok k
  unfolding wakeup_one_loop
  one_end fuel i addr mem k e = rw e

  one_skip :
      (fuel i addr t : ℕ) (mem : ℕ → Bool) (k : Threads)
      → (Array.getguy k.sleepers i ≡ ok t) × (ltb i (Array.getnum k.sleepers) ≡ true)
      → k.sleepaddr t ≢ addr
      → wakeup_one_loop junk (suc fuel) i addr mem k ≡ wakeup_one_loop junk fuel (i + 1) addr mem k
  unfolding wakeup_one_loop
  one_skip fuel i addr t mem k (e, lt) ne = ground (arith, e, lt, not-== ne)

  one_take :
      (fuel i addr t : ℕ) (mem : ℕ → Bool) (k : Threads)
      → (Array.getguy k.sleepers i ≡ ok t) × (ltb i (Array.getnum k.sleepers) ≡ true)
      → k.sleepaddr t ≡ addr
      → wakeup_one_loop junk (suc fuel) i addr mem k ≡ wake junk mem k i t
  unfolding wakeup_one_loop
  one_take fuel i addr t mem k (e, lt) same = ground (arith, e, lt, eq→== same)

  wakeup_one_loop-Moved :
      (fuel addr : ℕ) (mem : ℕ → Bool) (rs xs ys dead : List ℕ) (k : Threads)
      → Tables rs (xs ++ ys) dead k
      → 0 < k.curspl
      → length rs + 1 < k.runqueue.size
      → length ys < fuel
      → (k' : Threads) × (wakeup_one_loop junk fuel (length xs) addr mem k ≡ ok k')
        × Moved
            (rs ++ first_on k.sleepaddr addr ys)
            (xs ++ without_first k.sleepaddr addr ys)
            dead
            k
            k'
  wakeup_one_loop-Moved zero addr mem rs xs ys dead k h off room enough = absurd (omega arith)
  wakeup_one_loop-Moved (suc fuel) addr mem rs xs [] dead k h off room enough = (
    k,
    one_end fuel (length xs) addr mem k (
        not-lt→ltb (length xs) (Array.getnum k.sleepers)
          (omega (arith, h.sleeps.count, length-append {A = ℕ} xs []))),
    Moved-refl (record { runs = rw append-nil h.runs; sleeps = h.sleeps; rests = h.rests }),
  )
  wakeup_one_loop-Moved (suc fuel) addr mem rs xs (t ∷ ys) dead k h off room enough =
      elim (ℕ_discrete (k.sleepaddr t) addr) [
        | yes same ↦
            let (k1, e1, m1) = wake-Moved junk mem rs xs ys dead t k h off room in
            (
              k1,
              one_take fuel (length xs) addr t mem k (at_item xs ys dead k t h) same ∙ e1,
              rw (eq→== same) m1,
            )
        | no ne ↦
            let (k2, e2, m2) =
              wakeup_one_loop-Moved fuel addr mem rs (xs ++ (t ∷ [])) ys dead k (rw append_assoc h)
                off room (omega arith) in
            (
              k2,
              one_skip fuel (length xs) addr t mem k (at_item xs ys dead k t h) ne
                  ∙ ap (λ i. wakeup_one_loop junk fuel i addr mem k)
                      (omega (arith, length-append xs (t ∷ [])))
                  ∙ e2,
              rw (not-== ne) (rw append_assoc at m2),
            )
      ]

  -- With interrupts off and room in the run queue for one thread more `thread_wakeup_one` makes
  -- the first sleeper on the address runnable, where there is one, and leaves all others asleep,
  -- whether or not memory is left. No assertion fails.
  pub wakeup_one-Moved :
      (addr : ℕ) (mem : ℕ → Bool) (rs ss dead : List ℕ) (k : Threads)
      → Tables rs ss dead k
      → 0 < k.curspl
      → length rs + 1 < k.runqueue.size
      → (k' : Threads) × (wakeup_one junk mem k addr ≡ ok k')
        × Moved (rs ++ first_on k.sleepaddr addr ss) (without_first k.sleepaddr addr ss) dead k k'
  unfolding wakeup_one
  wakeup_one-Moved addr mem rs ss dead k h off room =
      let (k', e, m) =
        wakeup_one_loop-Moved (Array.getnum k.sleepers + 1) addr mem rs [] ss dead k h off room
          (omega (arith, h.sleeps.count)) in
      (k', rw (lt→ltb 0 k.curspl off) e, m)

-- Does a list have a thread that sleeps on the address?
abbrev pub any_on : (ℕ → ℕ) → ℕ → List ℕ → Bool
any_on at addr [] = false
any_on at addr (t ∷ ts) = let rest = any_on at addr ts in if at t == addr then true else rest

has_step :
    (fuel i addr t : ℕ) (k : Threads)
    → (Array.getguy k.sleepers i ≡ ok t) × (ltb i (Array.getnum k.sleepers) ≡ true)
    → hassleepers_loop (suc fuel) i addr k ≡ (
        let rest = hassleepers_loop fuel (i + 1) addr k in
        if k.sleepaddr t == addr then ok true else rest)
unfolding hassleepers_loop
has_step fuel i addr t k (e, lt) = ground (arith, e, lt)

hassleepers_loop-any_on :
    (fuel addr : ℕ) (rs xs ys dead : List ℕ) (k : Threads)
    → Tables rs (xs ++ ys) dead k
    → length ys < fuel
    → hassleepers_loop fuel (length xs) addr k ≡ ok (any_on k.sleepaddr addr ys)
unfolding hassleepers_loop
hassleepers_loop-any_on zero addr rs xs ys dead k h enough = absurd (omega arith)
hassleepers_loop-any_on (suc fuel) addr rs xs [] dead k h enough = rw (
    not-lt→ltb (length xs) (Array.getnum k.sleepers)
      (omega (arith, h.sleeps.count, length-append {A = ℕ} xs [])))
hassleepers_loop-any_on (suc fuel) addr rs xs (t ∷ ys) dead k h enough =
    let here : length xs + 1 ≡ length (xs ++ (t ∷ [])) = omega (arith, length-append xs (t ∷ [])) in
    let rest : hassleepers_loop fuel (length xs + 1) addr k ≡ ok (any_on k.sleepaddr addr ys) =
      ap (λ i. hassleepers_loop fuel i addr k) here
      ∙ hassleepers_loop-any_on fuel addr rs (xs ++ (t ∷ [])) ys dead k (rw append_assoc h)
          (omega arith) in
    has_step fuel (length xs) addr t k (at_item xs ys dead k t h)
    ∙ rw rest (split (Bool-cases (k.sleepaddr t == addr)))
  where
    split :
        ((k.sleepaddr t == addr) ≡ true) ⊎ ((k.sleepaddr t == addr) ≡ false)
        → (if k.sleepaddr t == addr then ok true else ok (any_on k.sleepaddr addr ys))
          ≡ ok (any_on k.sleepaddr addr (t ∷ ys))
    split (inl e) = rw e
    split (inr e) = rw e

-- With interrupts off `thread_hassleepers` answers whether a thread among the sleepers sleeps on
-- the address.
pub hassleepers-any_on :
    (addr : ℕ) (rs ss dead : List ℕ) (k : Threads)
    → Tables rs ss dead k
    → 0 < k.curspl
    → hassleepers k addr ≡ ok (any_on k.sleepaddr addr ss)
unfolding hassleepers
hassleepers-any_on addr rs ss dead k h off = rw (lt→ltb 0 k.curspl off) (
    hassleepers_loop-any_on (Array.getnum k.sleepers + 1) addr rs [] ss dead k h
      (omega (arith, h.sleeps.count)))
