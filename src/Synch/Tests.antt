-- ===== src/Synch/Tests.antt =====
-- synch.c with three threads, and the theorems at inputs that meet their hypotheses.
use cse.Base.{
  ℕ, zero, suc, ◌<◌, ◌≡◌, refl, Bool, false, some, List, [], ◌∷◌, ◌==◌, if◌then◌else◌, get_elem?,
  arith,
}
use cse.Thread.{Threads}
use cse.Thread.Room.{Roomy}
use cse.Synch.{Semaphore, p_round, v}
use cse.Synch.Locks.{System, Action, acquires, else_runs, run, Sound, unlocked, free, run-Sound}
use cse.Synch.Semaphores.{Signals, v-Signals, Waits, p_round-Waits}

abbrev junk : ℕ → ℕ
junk n = 99

-- Nothing happens while the processor idles.
abbrev idle : List (Threads → Threads)
idle = []

abbrev no_memory : ℕ → Bool
no_memory n = false

-- Thread 1 runs, 2 is ready, 3 sleeps on the semaphore at 0x40.
abbrev three : Threads
three = record {
  curthread = some 1;
  sleepers = record { num = 1; max = 3; v = some (3 ∷ 99 ∷ 99 ∷ []) };
  zombies = record { num = 0; max = 3; v = some (99 ∷ 99 ∷ 99 ∷ []) };
  runqueue = record { size = 4; nextwrite = 1; nextread = 0; entries = 2 ∷ 99 ∷ 99 ∷ 99 ∷ [] };
  numthreads = 3;
  sleepaddr = λ t. if t == 3 then 0x40 else 0;
  curspl = 0;
  in_interrupt = false;
}

three-Roomy : Roomy (2 ∷ []) (3 ∷ []) [] three
three-Roomy = record {
  tables = record {
    runs = record {
      valid = record {
        small = omega arith;
        full_block = refl;
        write_in = omega arith;
        read_in = omega arith;
      };
      items = refl;
    };
    sleeps = record {
      count = refl;
      fits = omega arith;
      small = omega arith;
      full_block = refl;
      item = first;
    };
    rests = record {
      count = refl;
      fits = omega arith;
      small = omega arith;
      full_block = refl;
      item = λ i h. absurd (omega arith);
    };
  };
  everyone = refl;
  ready_room = omega arith;
  asleep_room = omega arith;
  dead_room = omega arith;
}
  where
    first : (i : ℕ) → i < 1 → get_elem? {A = ℕ} (3 ∷ 99 ∷ 99 ∷ []) i ≡ get_elem? {A = ℕ} (3 ∷ []) i
    first zero h = refl
    first (suc i) h = absurd (omega arith)

abbrev empty_sem : Semaphore
empty_sem = record { addr = 0x40; count = 0 }

v-Signals_example :
    Signals empty_sem three (2 ∷ []) (3 ∷ []) [] (v junk idle (λ n m. false) empty_sem three)
v-Signals_example =
    v-Signals junk idle (λ n m. false) empty_sem three (2 ∷ []) (3 ∷ []) [] three-Roomy

p_round-Waits_example :
    Waits empty_sem three 1 2 [] (3 ∷ []) [] (p_round junk idle no_memory empty_sem three)
p_round-Waits_example =
    p_round-Waits junk idle no_memory empty_sem three 1 2 [] (3 ∷ []) [] three-Roomy refl refl

-- Thread 1 takes the lock, thread 2 runs and has to wait.
abbrev start : System
start = record { lock = unlocked 0x50; threads = three; holders = [] }

abbrev contend : List Action
contend =
    acquires no_memory ∷ else_runs (record three { curthread = some 2 }) ∷ acquires no_memory ∷ []

run-Sound_example : Sound (run junk idle contend start)
run-Sound_example = run-Sound junk idle contend start (free 0x50)
