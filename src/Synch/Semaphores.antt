-- ===== src/Synch/Semaphores.antt =====
-- Semaphores: no unit is lost or made up, and no thread sleeps while there are units.
use mathlib.Core.Path.{subst}
use cse.Base.{
  ◌≢◌, ℕ, ◌+◌, ◌-◌, ◌^◌, ◌≤◌, ◌<◌, ◌≡◌, refl, sym, arith, Bool, true, false, some, List, [], ◌∷◌,
  ◌++◌, lt→ltb, not-lt→ltb, not-==, dec_lt, ℕ_discrete,
}
use cse.Base.Outcome.{Outcome, ok, err, panic}
use cse.Thread.{Threads, sleep}
use cse.Thread.Room.{Tables, Roomy, on_addr, not_on}
use cse.Thread.One.{any_on}
use cse.Thread.Wakeup.{wakeup-Moved}
use cse.Thread.Switch.{sleep-Roomy}
use cse.Synch.{Semaphore, p_round, v}

-- After a wakeup nobody sleeps on the address.
not_on-any_on : (at : ℕ → ℕ) (addr : ℕ) (ts : List ℕ) → any_on at addr (not_on at addr ts) ≡ false
not_on-any_on at addr [] = refl
not_on-any_on at addr (t ∷ ts) = ground (arith, not_on-any_on at addr ts)

-- What `V` answers: one unit more, every thread that waited is ready, and nobody waits any more; a
-- count past the int panics.
abbrev pub Signals :
    Semaphore → Threads → List ℕ → List ℕ → List ℕ → Outcome (Semaphore × Threads) → Type 0
Signals sem k ready asleep dead (ok (sem', k')) =
    (sem'.count ≡ sem.count + 1)
    × (sem.count + 1 < 2 ^ 31)
    × Tables (ready ++ on_addr k.sleepaddr sem.addr asleep) (not_on k.sleepaddr sem.addr asleep)
        dead k'
    × (any_on k'.sleepaddr sem.addr (not_on k.sleepaddr sem.addr asleep) ≡ false)
Signals sem k ready asleep dead (err e) = ⊥
Signals sem k ready asleep dead panic = 2 ^ 31 ≤ sem.count + 1

-- What a round of `P` answers: a unit less, where there is one; else the thread sleeps on the
-- semaphore and the next one runs.
abbrev pub Waits :
    Semaphore
    → Threads
    → ℕ
    → ℕ
    → List ℕ
    → List ℕ
    → List ℕ
    → Outcome (Bool × Semaphore × Threads)
    → Type 0
Waits sem k c t ready asleep dead (ok (true, sem', k')) = (sem'.count + 1 ≡ sem.count) × (k' ≡ k)
Waits sem k c t ready asleep dead (ok (false, sem', k')) =
    (sem.count ≡ 0)
    × (sem' ≡ sem)
    × Roomy ready (asleep ++ (c ∷ [])) dead k'
    × (k'.curthread ≡ some t)
    × (k'.sleepaddr c ≡ sem.addr)
Waits sem k c t ready asleep dead (err e) = ⊥
Waits sem k c t ready asleep dead panic = ⊥

module _ (junk : ℕ → ℕ) (idle : List (Threads → Threads)) where
  -- Where there is room for all threads in every table, `V` adds one unit and makes all threads
  -- that wait on the semaphore ready, in order, and nobody waits any more; it panics exactly where
  -- the count would pass the largest int.
  pub v-Signals :
      (mem : ℕ → ℕ → Bool) (sem : Semaphore) (k : Threads) (ready asleep dead : List ℕ)
      → Roomy ready asleep dead k
      → Signals sem k ready asleep dead (v junk idle mem sem k)
  unfolding v
  v-Signals mem sem k ready asleep dead h = elim (dec_lt (sem.count + 1) (2 ^ 31)) [
    | yes fits ↦
        let (k', e, m) =
          wakeup-Moved junk sem.addr mem ready asleep dead (record k { curspl = 15 })
            (record { runs = h.tables.runs; sleeps = h.tables.sleeps; rests = h.tables.rests })
            (omega arith) (omega (arith, h.everyone, h.ready_room)) in
        rw (lt→ltb (sem.count + 1) (2 ^ 31) fits, e)
          (
            refl,
            fits,
            record { runs = m.tables.runs; sleeps = m.tables.sleeps; rests = m.tables.rests },
            rw m.same_sleepaddr (not_on-any_on k.sleepaddr sem.addr asleep),
          )
    | no full ↦ rw (not-lt→ltb (sem.count + 1) (2 ^ 31) full) (omega arith)
  ]

  p_sleeps :
      (mem : ℕ → Bool) (sem : Semaphore) (k k' : Threads)
      → k.in_interrupt ≡ false
      → sem.count ≡ 0
      → sleep junk idle mem (record k { curspl = 15 }) sem.addr ≡ ok k'
      → p_round junk idle mem sem k ≡ ok (false, sem, k')
  unfolding p_round
  p_sleeps mem sem k k' calm z e = ground (arith, calm, z, e)

  p_takes :
      (mem : ℕ → Bool) (sem : Semaphore) (k : Threads)
      → k.in_interrupt ≡ false
      → sem.count ≢ 0
      → p_round junk idle mem sem k ≡ ok (true, record sem { count = sem.count - 1 }, k)
  unfolding p_round
  p_takes mem sem k calm nz = ground (arith, calm, not-== nz)

  -- Where there is room for all threads in every table and another thread is ready, a round of `P`
  -- outside an interrupt takes a unit and returns, if there is one; otherwise the thread that runs
  -- sleeps on the semaphore, and the next of the run queue runs. It needs no memory and does not
  -- panic.
  pub p_round-Waits :
      (mem : ℕ → Bool) (sem : Semaphore) (k : Threads) (c t : ℕ) (ready asleep dead : List ℕ)
      → Roomy (t ∷ ready) asleep dead k
      → k.curthread ≡ some c
      → k.in_interrupt ≡ false
      → Waits sem k c t ready asleep dead (p_round junk idle mem sem k)
  p_round-Waits mem sem k c t ready asleep dead h cur calm = elim (ℕ_discrete sem.count 0) [
    | yes z ↦
        let (k', e, h', next, at) =
          sleep-Roomy junk idle mem (record k { curspl = 15 }) c t sem.addr ready asleep dead
            (record {
              tables = record {
                runs = h.tables.runs;
                sleeps = h.tables.sleeps;
                rests = h.tables.rests;
              };
              everyone = h.everyone;
              ready_room = h.ready_room;
              asleep_room = h.asleep_room;
              dead_room = h.dead_room;
            })
            cur (omega arith) calm in
        subst (Waits sem k c t ready asleep dead) (sym (p_sleeps mem sem k k' calm z e))
          (z, refl, h', next, at)
    | no nz ↦
        subst (Waits sem k c t ready asleep dead) (sym (p_takes mem sem k calm nz))
          (omega (arith, nz), refl)
  ]
