-- ===== src/Synch/Locks.antt =====
-- Locks: at most one thread holds a lock, whatever the order in which threads run.
use cse.Base.{
  ℕ, ◌≡◌, refl, sym, arith, Bool, true, false, Option, none, some, List, [], ◌∷◌, ◌==◌,
  if◌then◌else◌, eq→==,
}
use cse.Base.Outcome.{Outcome, ok, err, panic, ◌>>=◌}
use cse.Thread.{Threads, wakeup, sleep}
use cse.Synch.{Lock, Cv, owned_by, acquire_round, lock_release, cv_wait}

-- A lock, the tables of threads, and the threads whose `lock_acquire` has returned and that have not
-- given the lock back since.
pub record System : Type 0 where
  pub lock : Lock
  pub threads : Threads
  pub holders : List ℕ

-- What the thread that runs does next: a round of `lock_acquire`, `lock_release`, or `cv_wait`, with the
-- memory that each finds; or anything that leaves the lock alone, such as a switch.
pub data Action : Type 0 where
  acquires : (ℕ → Bool) → Action
  releases : (ℕ → ℕ → Bool) → Action
  waits : (ℕ → ℕ → Bool) → (ℕ → Bool) → Cv → Action
  else_runs : Threads → Action

abbrev pub holds : Bool → ℕ → List ℕ → List ℕ
holds true c cs = c ∷ cs
holds false c cs = cs

-- The thread that gives the lock back is no longer a holder.
abbrev pub leaves : ℕ → List ℕ → List ℕ
leaves c [] = []
leaves c (d ∷ cs) = let rest = leaves c cs in if c == d then rest else d ∷ rest

module _ (junk : ℕ → ℕ) (idle : List (Threads → Threads)) where
  abbrev pub act_as : ℕ → Action → System → Outcome System
  act_as c (acquires mem) s = do
    (got, l, k) ← acquire_round junk idle mem s.lock s.threads
    ok (record { lock = l; threads = k; holders = holds got c s.holders })
  act_as c (releases mem) s = do
    (l, k) ← lock_release junk idle mem s.lock s.threads
    ok (record { lock = l; threads = k; holders = leaves c s.holders })
  act_as c (waits mem mem_s cv) s = do
    (l, k) ← cv_wait junk idle mem mem_s cv s.lock s.threads
    ok (record { lock = l; threads = k; holders = leaves c s.holders })
  act_as c (else_runs k) s = ok (record s { threads = k })

  -- A step of the thread that runs; without one the system is stuck.
  abbrev pub act : Action → System → Outcome System
  act a s = elim s.threads.curthread [ none ↦ panic | some c ↦ act_as c a s ]

  abbrev pub run : List Action → System → Outcome System
  run [] s = ok s
  run (a ∷ rest) s = act a s >>= λ s'. run rest s'

-- The lock is free and has no holder, or it is taken and its owner is the one holder.
pub data Agrees : Lock → List ℕ → Type 0 where
  free : (a : ℕ) → Agrees (record { addr = a; locked = 0; owner = none }) []
  taken : (a c : ℕ) → Agrees (record { addr = a; locked = 1; owner = some c }) (c ∷ [])

-- In every state that is reached.
abbrev pub Sound : Outcome System → Type 0
Sound (ok s) = Agrees s.lock s.holders
Sound (err e) = Unit {0}
Sound panic = Unit {0}

abbrev pub unlocked : ℕ → Lock
unlocked a = record { addr = a; locked = 0; owner = none }

abbrev pub locked_by : ℕ → ℕ → Lock
locked_by a c = record { addr = a; locked = 1; owner = some c }

-- What the operations that give the lock back answer: the thread had it.
abbrev pub Leaves : Lock → ℕ → Outcome (Lock × Threads) → Type 0
Leaves lock c (ok (l, k)) =
    (lock.locked ≡ 1) × (owned_by lock.owner (some c) ≡ true) × (l ≡ unlocked lock.addr)
Leaves lock c (err e) = Unit {0}
Leaves lock c panic = Unit {0}

-- A round of `lock_acquire` takes a free lock, or leaves the lock alone.
abbrev pub Rounds : Lock → Lock → Outcome (Bool × Lock × Threads) → Type 0
Rounds lock lock' (ok (true, l, k)) = (lock.locked ≡ 0) × (l ≡ lock')
Rounds lock lock' (ok (false, l, k)) = l ≡ lock
Rounds lock lock' (err e) = Unit {0}
Rounds lock lock' panic = Unit {0}

module _ (junk : ℕ → ℕ) (idle : List (Threads → Threads)) (k : Threads) (c : ℕ)
    (running : k.curthread ≡ some c) where
  acquire_round-Rounds :
      (mem : ℕ → Bool) (lock : Lock)
      → Rounds lock (locked_by lock.addr c) (acquire_round junk idle mem lock k)
  unfolding acquire_round
  acquire_round-Rounds mem lock =
      step (sleep junk idle mem (record k { curspl = 15 }) lock.addr) refl
    where
      step :
          (r : Outcome Threads)
          → sleep junk idle mem (record k { curspl = 15 }) lock.addr ≡ r
          → Rounds lock (locked_by lock.addr c) (acquire_round junk idle mem lock k)
      step (ok k') e = ground (arith, e, running)
      step (err x) e = ground (arith, e, running)
      step panic e = ground (arith, e, running)

  lock_release-Leaves :
      (mem : ℕ → ℕ → Bool) (lock : Lock) → Leaves lock c (lock_release junk idle mem lock k)
  unfolding lock_release
  lock_release-Leaves mem lock = step (wakeup junk mem (record k { curspl = 15 }) lock.addr) refl
    where
      step :
          (r : Outcome Threads)
          → wakeup junk mem (record k { curspl = 15 }) lock.addr ≡ r
          → Leaves lock c (lock_release junk idle mem lock k)
      step (ok k') e = ground (arith, e, running)
      step (err x) e = ground (arith, e, running)
      step panic e = ground (arith, e, running)

  cv_wait-Leaves :
      (mem : ℕ → ℕ → Bool) (mem_s : ℕ → Bool) (cv : Cv) (lock : Lock)
      → Leaves lock c (cv_wait junk idle mem mem_s cv lock k)
  unfolding cv_wait lock_release
  cv_wait-Leaves mem mem_s cv lock =
      step (wakeup junk mem (record k { curspl = 15 }) lock.addr) refl
    where
      slept :
          (k1 : Threads) (r : Outcome Threads)
          → wakeup junk mem (record k { curspl = 15 }) lock.addr ≡ ok k1
          → sleep junk idle mem_s (record k1 { curspl = 15 }) cv.addr ≡ r
          → Leaves lock c (cv_wait junk idle mem mem_s cv lock k)
      slept k1 (ok k') e e' = ground (arith, e, e', running)
      slept k1 (err x) e e' = ground (arith, e, e', running)
      slept k1 panic e e' = ground (arith, e, e', running)

      step :
          (r : Outcome Threads)
          → wakeup junk mem (record k { curspl = 15 }) lock.addr ≡ r
          → Leaves lock c (cv_wait junk idle mem mem_s cv lock k)
      step (ok k1) e = slept k1 (sleep junk idle mem_s (record k1 { curspl = 15 }) cv.addr) e refl
      step (err x) e = ground (arith, e, running)
      step panic e = ground (arith, e, running)

-- The steps keep the agreement.
acquired-Sound :
    (c : ℕ) (lock : Lock) (cs : List ℕ)
    → Agrees lock cs
    → (r : Outcome (Bool × Lock × Threads)) → Rounds lock (locked_by lock.addr c) r
    → Sound (r >>= λ x. ok (record { lock = x.1; threads = x.2; holders = holds x.0 c cs }))
acquired-Sound c _ _ (free a) (ok (true, l, k)) (z, e) = rw e (taken a c)
acquired-Sound c _ _ (taken a d) (ok (true, l, k)) (z, e) = absurd (omega (arith, z))
acquired-Sound c lock cs h (ok (false, l, k)) e = rw e h
acquired-Sound c lock cs h (err x) t = tt
acquired-Sound c lock cs h panic t = tt

left-Sound :
    (c : ℕ) (lock : Lock) (cs : List ℕ)
    → Agrees lock cs
    → (r : Outcome (Lock × Threads)) → Leaves lock c r
    → Sound (r >>= λ x. ok (record { lock = x.0; threads = x.1; holders = leaves c cs }))
left-Sound c _ _ (free a) (ok (l, k)) (one, own, e) = absurd (omega (arith, one))
left-Sound c _ _ (taken a d) (ok (l, k)) (one, own, e) =
    rw (e, eq→== {a = c} {b = d} (ground (arith, own))) (free a)
left-Sound c lock cs h (err x) t = tt
left-Sound c lock cs h panic t = tt

module _ (junk : ℕ → ℕ) (idle : List (Threads → Threads)) where
  act_as-Sound :
      (a : Action) (c : ℕ) (s : System)
      → s.threads.curthread ≡ some c
      → Agrees s.lock s.holders
      → Sound (act_as junk idle c a s)
  act_as-Sound (acquires mem) c s running h =
      acquired-Sound c s.lock s.holders h (acquire_round junk idle mem s.lock s.threads)
        (acquire_round-Rounds junk idle s.threads c running mem s.lock)
  act_as-Sound (releases mem) c s running h =
      left-Sound c s.lock s.holders h (lock_release junk idle mem s.lock s.threads)
        (lock_release-Leaves junk idle s.threads c running mem s.lock)
  act_as-Sound (waits mem mem_s cv) c s running h =
      left-Sound c s.lock s.holders h (cv_wait junk idle mem mem_s cv s.lock s.threads)
        (cv_wait-Leaves junk idle s.threads c running mem mem_s cv s.lock)
  act_as-Sound (else_runs k) c s running h = h

  act-Sound : (a : Action) (s : System) → Agrees s.lock s.holders → Sound (act junk idle a s)
  act-Sound a s h = split s.threads.curthread refl
    where
      split :
          (o : Option ℕ)
          → o ≡ s.threads.curthread
          → Sound (elim o [ none ↦ panic | some c ↦ act_as junk idle c a s ])
      split none e = tt
      split (some c) e = act_as-Sound a c s (sym e) h

  -- From a state in which the lock is free and nobody holds it, or its owner is the one thread
  -- that holds it, every sequence of steps of the threads in which no step panics leads to such a
  -- state: two threads never hold the lock at a time, and `owner` names the one that does.
  pub run-Sound :
      (actions : List Action) (s : System)
      → Agrees s.lock s.holders
      → Sound (run junk idle actions s)
  run-Sound [] s h = h
  run-Sound (a ∷ rest) s h = further (act junk idle a s) (act-Sound a s h) (run-Sound rest)
    where
      further :
          (r : Outcome System)
          → Sound r
          → ((s' : System) → Agrees s'.lock s'.holders → Sound (run junk idle rest s'))
          → Sound (r >>= λ s'. run junk idle rest s')
      further (ok s') h' ih = ih s' h'
      further (err e) h' ih = tt
      further panic h' ih = tt
