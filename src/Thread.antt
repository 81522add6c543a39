-- ===== src/Thread.antt =====
-- os161/kern/thread/thread.c and scheduler.c: the thread tables and the scheduler.
-- A thread is a number, in place of its address; a sleep address is a number, 0 for NULL. An
-- operation returns the new state of the tables. `mem` answers the calls of `kmalloc`, and `junk` is
-- what a new block holds. The name, the stack and the address space of a thread are left out, with
-- the magic number that `mi_switch` finds on a stack.
pub mod Room
pub mod Wakeup
pub mod One
pub mod Switch
pub mod Fork
mod Tests
use cse.Base.{
  ℕ, zero, suc, ◌+◌, ◌-◌, Bool, true, false, ◌&&◌, not, Option, none, some, List, [], ◌∷◌, ltb, leb,
  ◌==◌, if◌then◌else◌,
}
use cse.Base.Outcome.{Outcome, ok, err, panic, enomem, ◌>>=◌, ◌>>◌, assert, must}
use cse.Array
use cse.Queue

-- The global variables.
pub record Threads : Type 0 where
  pub curthread : Option ℕ
  pub sleepers : Array.Array ℕ
  pub zombies : Array.Array ℕ
  pub runqueue : Queue.Queue ℕ
  pub numthreads : ℕ
  pub sleepaddr : ℕ → ℕ  -- `t_sleepaddr` of each thread
  pub curspl : ℕ  -- interrupts are off where it is not 0
  pub in_interrupt : Bool

pub data Threadstate : Type 0 where
  s_run s_ready s_sleep s_zomb : Threadstate

-- `t_sleepaddr = addr` for one thread.
abbrev pub set_sleepaddr : Threads → ℕ → ℕ → Threads
set_sleepaddr k t addr = record k { sleepaddr = λ u. if u == t then addr else k.sleepaddr u }

pub hassleepers_loop : ℕ → ℕ → ℕ → Threads → Outcome Bool
hassleepers_loop zero i addr k = panic
hassleepers_loop (suc fuel) i addr k =
    let rest = hassleepers_loop fuel (i + 1) addr k in
    let found = (do
      t ← Array.getguy k.sleepers i
      if k.sleepaddr t == addr then ok true else rest) in
    if ltb i (Array.getnum k.sleepers) then found else ok false

pub hassleepers : Threads → ℕ → Outcome Bool
unfolding hassleepers_loop
hassleepers k addr = do
  assert (ltb 0 k.curspl)
  hassleepers_loop (Array.getnum k.sleepers + 1) 0 addr k

-- `while (q_empty(runqueue)) cpu_idle();`: each `cpu_idle` ends with an interrupt, whose handler
-- changes the tables. Where no interrupt comes any more the processor waits for ever, and the model
-- panics.
pub idle_loop : List (Threads → Threads) → Threads → Outcome Threads
idle_loop [] k = if Queue.empty k.runqueue then panic else ok k
idle_loop (interrupt ∷ rest) k =
    let later = idle_loop rest (interrupt k) in if Queue.empty k.runqueue then later else ok k

pub scheduler : List (Threads → Threads) → Threads → Outcome (ℕ × Threads)
unfolding idle_loop
scheduler idle k = do
  assert (ltb 0 k.curspl)
  k1 ← idle_loop idle k
  (next, q) ← Queue.remhead k1.runqueue
  ok (next, record k1 { runqueue = q })

module _ (junk : ℕ → ℕ) where
  pub scheduler_preallocate : (ℕ → Bool) → Threads → ℕ → Outcome Threads
  scheduler_preallocate mem k nthreads = do
    assert (ltb 0 k.curspl)
    q ← Queue.preallocate junk mem k.runqueue nthreads
    ok (record k { runqueue = q })

  pub make_runnable : (ℕ → Bool) → Threads → ℕ → Outcome Threads
  make_runnable mem k t = do
    assert (ltb 0 k.curspl)
    q ← Queue.addtail junk 2 mem k.runqueue t
    ok (record k { runqueue = q })

  -- Removes the sleeper at `i` and makes it runnable.
  pub wake : (ℕ → Bool) → Threads → (i t : ℕ) → Outcome Threads
  unfolding make_runnable
  wake mem k i t = do
    s ← Array.remove k.sleepers i
    must (make_runnable mem (record k { sleepers = s }) t)

  -- `mem n` answers the allocations of the round with `n` rounds left.
  pub wakeup_loop : ℕ → ℕ → ℕ → (ℕ → ℕ → Bool) → Threads → Outcome Threads
  wakeup_loop zero i addr mem k = panic
  wakeup_loop (suc fuel) i addr mem k =
      let skip = wakeup_loop fuel (i + 1) addr mem k in
      let body = (do
        t ← Array.getguy k.sleepers i
        let taken = wake (mem fuel) k i t >>= λ k'. wakeup_loop fuel i addr mem k'
        if k.sleepaddr t == addr then taken else skip) in
      if ltb i (Array.getnum k.sleepers) then body else ok k

  pub wakeup : (ℕ → ℕ → Bool) → Threads → ℕ → Outcome Threads
  unfolding wakeup_loop wake
  wakeup mem k addr = do
    assert (ltb 0 k.curspl)
    wakeup_loop (Array.getnum k.sleepers + 1) 0 addr mem k

  pub wakeup_one_loop : ℕ → ℕ → ℕ → (ℕ → Bool) → Threads → Outcome Threads
  unfolding wake
  wakeup_one_loop zero i addr mem k = panic
  wakeup_one_loop (suc fuel) i addr mem k =
      let skip = wakeup_one_loop fuel (i + 1) addr mem k in
      let body = (do
        t ← Array.getguy k.sleepers i
        if k.sleepaddr t == addr then wake mem k i t else skip) in
      if ltb i (Array.getnum k.sleepers) then body else ok k

  pub wakeup_one : (ℕ → Bool) → Threads → ℕ → Outcome Threads
  unfolding wakeup_one_loop
  wakeup_one mem k addr = do
    assert (ltb 0 k.curspl)
    wakeup_one_loop (Array.getnum k.sleepers + 1) 0 addr mem k

  -- The list that `mi_switch` puts the thread on.
  pub stash : (ℕ → Bool) → Threads → ℕ → Threadstate → Outcome Threads
  unfolding make_runnable
  stash mem k cur s_ready = must (make_runnable mem k cur)
  stash mem k cur s_sleep = do
    s ← must (Array.add junk (mem 0) k.sleepers cur)
    ok (record k { sleepers = s })
  stash mem k cur s_zomb = do
    z ← must (Array.add junk (mem 0) k.zombies cur)
    ok (record k { zombies = z })
  stash mem k cur s_run = panic

-- `idle` is what the interrupts do while there is no thread to run.
module _ (junk : ℕ → ℕ) (idle : List (Threads → Threads)) where
  -- `mi_switch` up to the call of `md_switch`, behind which `next` runs.
  pub mi_switch : (ℕ → Bool) → Threads → Threadstate → Outcome Threads
  unfolding stash scheduler
  mi_switch mem k nextstate = do
    assert (ltb 0 k.curspl)
    elim k.curthread [
      | none ↦ ok k
      | some cur ↦ (do
        k1 ← stash junk mem (record k { curthread = none }) cur nextstate
        (next, k2) ← scheduler idle k1
        ok (record k2 { curthread = some next }))
    ]

  -- `mi_switch` returns at once where no thread runs, and the priority is put back then; a thread that
  -- switched does that when it runs again.
  pub yield : (ℕ → Bool) → Threads → Outcome Threads
  unfolding mi_switch
  yield mem k =
      let switched = mi_switch mem (record k { curspl = 15 }) s_ready in
      elim k.curthread [
        | none ↦ switched >>= (λ k'. ok (record k' { curspl = k.curspl }))
        | some _ ↦ switched
      ]

  -- `thread_sleep` up to the switch; the thread clears its `t_sleepaddr` when it runs again.
  pub sleep : (ℕ → Bool) → Threads → ℕ → Outcome Threads
  unfolding mi_switch
  sleep mem k addr = do
    assert (not k.in_interrupt)
    elim k.curthread [ none ↦ panic | some cur ↦ mi_switch mem (set_sleepaddr k cur addr) s_sleep ]

  -- `thread_exit` from `assert(numthreads > 0)` on.
  pub exit : (ℕ → Bool) → Threads → Outcome Threads
  unfolding mi_switch
  exit mem k = do
    assert (ltb 0 k.numthreads)
    mi_switch mem (record k { curspl = 15; numthreads = k.numthreads - 1 }) s_zomb

module _ (junk : ℕ → ℕ) where
  -- An error ends the function, in the state that it has by then.
  abbrev pub or_fail {ℓ} :
      {A : Type ℓ}
      → Threads
      → Outcome A
      → (A → Threads × Outcome (Unit {0}))
      → Threads × Outcome (Unit {0})
  or_fail k (ok a) f = f a
  or_fail k (err e) f = (k, err e)
  or_fail k panic f = (k, panic)

  -- `thread_fork` from the preallocation on, which asks for memory in turn for the sleepers, the
  -- zombies and the run queue; a table that has grown stays so where a later one fails.
  pub fork : Bool → Bool → (ℕ → Bool) → Threads → ℕ → Threads × Outcome (Unit {0})
  unfolding scheduler_preallocate make_runnable
  fork mem_s mem_z mem_q k newguy =
      or_fail k (Array.preallocate junk mem_s k.sleepers (k.numthreads + 1)) λ s.
        let k1 = record k { sleepers = s } in
        or_fail k1 (Array.preallocate junk mem_z k.zombies (k.numthreads + 1)) λ z.
          let k2 = record k1 { zombies = z } in
          or_fail k2
            (scheduler_preallocate junk mem_q (record k2 { curspl = 15 }) (k.numthreads + 1))
            λ k3.
              or_fail (record k3 { curspl = k.curspl }) (make_runnable junk mem_q k3 newguy)
                λ k4. (record k4 { numthreads = k.numthreads + 1; curspl = k.curspl }, ok tt)

  -- The loop of `exorcise` only destroys; a zombie that is running fails its assertion.
  pub all_dead : ℕ → ℕ → Threads → Outcome (Unit {0})
  all_dead zero i k = panic
  all_dead (suc fuel) i k =
      let rest = all_dead fuel (i + 1) k in
      let body = (do
        z ← Array.getguy k.zombies i
        elim k.curthread [ none ↦ rest | some cur ↦ if z == cur then panic else rest ]) in
      if ltb i (Array.getnum k.zombies) then body else ok tt

  pub exorcise : Bool → Threads → Outcome Threads
  unfolding all_dead
  exorcise enough k = do
    assert (ltb 0 k.curspl)
    all_dead (Array.getnum k.zombies + 1) 0 k
    z ← must (Array.setsize junk enough k.zombies 0)
    ok (record k { zombies = z })
