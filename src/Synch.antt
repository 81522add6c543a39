-- ===== src/Synch.antt =====
-- os161/kern/thread/synch.c: semaphores, locks and condition variables.
-- `P` and `lock_acquire` loop round `thread_sleep`, in which other threads run: the model has one
-- round of the loop, which ends with the semaphore or the lock taken, or in the switch to another
-- thread; the thread makes the next round when it runs again. The address of the primitive is the
-- sleep address. `splhigh` is the priority 15, which stays on across the rounds; an operation that
-- does not switch gives the priority back at its end. Names of primitives are left out.
pub mod Semaphores
pub mod Locks
mod Tests
use cse.Base.{
  List, ℕ, zero, suc, ◌+◌, ◌-◌, ◌*◌, ◌^◌, Bool, true, false, ◌&&◌, not, Option, none, some, ltb,
  leb, ◌==◌, if◌then◌else◌,
}
use cse.Base.Outcome.{Outcome, ok, err, panic, ◌>>=◌, ◌>>◌, assert}
use cse.Thread.{Threads, hassleepers, wakeup, wakeup_one, sleep}

pub record Semaphore : Type 0 where
  pub addr : ℕ
  pub count : ℕ  -- an int that is never negative

pub record Lock : Type 0 where
  pub addr : ℕ
  pub locked : ℕ
  pub owner : Option ℕ

pub record Cv : Type 0 where
  pub addr : ℕ

-- The flags say whether the `kmalloc` of the structure and the copy of the name succeed.
pub sem_create : Bool → Bool → ℕ → ℕ → Option Semaphore
sem_create false second addr initial_count = none
sem_create true false addr initial_count = none
sem_create true true addr initial_count = some (record { addr = addr; count = initial_count })

pub sem_destroy : Threads → Semaphore → Outcome (Unit {0})
sem_destroy k sem = do
  sleeping ← hassleepers (record k { curspl = 15 }) sem.addr
  assert (not sleeping)

pub lock_create : Bool → Bool → ℕ → Option Lock
lock_create false second addr = none
lock_create true false addr = none
lock_create true true addr = some (record { addr = addr; locked = 0; owner = none })

-- `lock->owner == curthread`, where `curthread` is never NULL.
abbrev pub owned_by : Option ℕ → Option ℕ → Bool
owned_by (some o) (some c) = o == c
owned_by _ _ = false

abbrev pub unowned : Option ℕ → Bool
unowned none = true
unowned (some o) = false

pub lock_destroy : Threads → Lock → Outcome (Unit {0})
lock_destroy k lock = do
  assert (lock.locked == 0)
  assert (unowned lock.owner)
  sleeping ← hassleepers (record k { curspl = 15 }) lock.addr
  assert (not sleeping)

pub lock_do_i_hold : Threads → Lock → Bool
lock_do_i_hold k lock = not (lock.locked == 0) && owned_by lock.owner k.curthread

pub cv_create : Bool → Bool → ℕ → Option Cv
cv_create false second addr = none
cv_create true false addr = none
cv_create true true addr = some (record { addr = addr })

pub cv_destroy : Threads → Cv → Outcome (Unit {0})
cv_destroy k cv = do
  sleeping ← hassleepers (record k { curspl = 15 }) cv.addr
  assert (not sleeping)

module _ (junk : ℕ → ℕ) (idle : List (Threads → Threads)) where
  -- One round of `P`: is the semaphore taken?
  pub p_round : (ℕ → Bool) → Semaphore → Threads → Outcome (Bool × Semaphore × Threads)
  p_round mem sem k = do
    assert (not k.in_interrupt)
    let waits =
        sleep junk idle mem (record k { curspl = 15 }) sem.addr >>= λ k'. ok (false, sem, k')
    if sem.count == 0 then waits else ok (true, record sem { count = sem.count - 1 }, k)

  -- `assert(sem->count > 0)` fails where the increment overflows the int.
  pub v : (ℕ → ℕ → Bool) → Semaphore → Threads → Outcome (Semaphore × Threads)
  v mem sem k = do
    assert (ltb (sem.count + 1) (2 ^ 31))
    k' ← wakeup junk mem (record k { curspl = 15 }) sem.addr
    ok (record sem { count = sem.count + 1 }, record k' { curspl = k.curspl })

  -- One round of `lock_acquire`: is the lock taken?
  pub acquire_round : (ℕ → Bool) → Lock → Threads → Outcome (Bool × Lock × Threads)
  acquire_round mem lock k = do
    assert (not k.in_interrupt)
    let waits =
        sleep junk idle mem (record k { curspl = 15 }) lock.addr >>= λ k'. ok (false, lock, k')
    let takes = (do
      assert (lock.locked == 0)
      assert (unowned lock.owner)
      ok (true, record lock { locked = 1; owner = k.curthread }, k))
    if lock.locked == 1 then waits else takes

  pub lock_release : (ℕ → ℕ → Bool) → Lock → Threads → Outcome (Lock × Threads)
  lock_release mem lock k = do
    assert (lock.locked == 1)
    assert (owned_by lock.owner k.curthread)
    k' ← wakeup junk mem (record k { curspl = 15 }) lock.addr
    ok (record lock { locked = 0; owner = none }, record k' { curspl = k.curspl })

  -- `cv_wait` up to the switch; then it goes on with `lock_acquire`.
  pub cv_wait : (ℕ → ℕ → Bool) → (ℕ → Bool) → Cv → Lock → Threads → Outcome (Lock × Threads)
  unfolding lock_release
  cv_wait mem mem_s cv lock k = do
    assert (not k.in_interrupt)
    assert (lock.locked == 1)
    assert (owned_by lock.owner k.curthread)
    (lock', k') ← lock_release mem lock (record k { curspl = 15 })
    k'' ← sleep junk idle mem_s k' cv.addr
    ok (lock', k'')

  pub cv_signal : (ℕ → Bool) → Cv → Lock → Threads → Outcome Threads
  cv_signal mem cv lock k = do
    assert (lock.locked == 1)
    assert (owned_by lock.owner k.curthread)
    k' ← wakeup_one junk mem (record k { curspl = 15 }) cv.addr
    ok (record k' { curspl = k.curspl })

  pub cv_broadcast : (ℕ → ℕ → Bool) → Cv → Lock → Threads → Outcome Threads
  cv_broadcast mem cv lock k = do
    assert (lock.locked == 1)
    assert (owned_by lock.owner k.curthread)
    k' ← wakeup junk mem (record k { curspl = 15 }) cv.addr
    ok (record k' { curspl = k.curspl })
