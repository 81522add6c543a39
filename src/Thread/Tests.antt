-- ===== src/Thread/Tests.antt =====
-- thread.c at small tables, and the theorems at inputs that meet their hypotheses.
use cse.Base.{
  List, none, ℕ, zero, suc, get_elem?, ◌<◌, ◌≡◌, refl, Bool, true, false, some, [], ◌∷◌, ◌==◌,
  if◌then◌else◌, arith,
}
use cse.Base.Outcome.{ok, panic}
use cse.Array
use cse.Queue
use cse.Queue.Grow.{Holds}
use cse.Thread.{Threads, wakeup, yield, sleep, fork}
use cse.Thread.Room.{Tables, Roomy}
use cse.Thread.Wakeup.{Moved, wakeup-Moved}
use cse.Queue.Room.{empty-Holds}
use cse.Thread.{scheduler}
use cse.Thread.Switch.{after, scheduler-after, sleep-Roomy, yield-panics}
use cse.Thread.Fork.{Forks, fork-Forks}

abbrev junk : ℕ → ℕ
junk n = 99

-- Nothing happens while the processor idles.
abbrev idle : List (Threads → Threads)
idle = []

abbrev no_memory : ℕ → Bool
no_memory n = false

abbrev ring : Queue.Queue ℕ
ring = record { size = 4; nextwrite = 1; nextread = 3; entries = 3 ∷ 99 ∷ 99 ∷ 2 ∷ [] }

ring-Holds : Holds 0 (2 ∷ 3 ∷ []) ring
ring-Holds = record {
  valid = record {
    small = omega arith;
    full_block = refl;
    write_in = omega arith;
    read_in = omega arith;
  };
  items = refl;
}

-- Thread 1 runs, 2 and 3 are ready, 4 sleeps on 0x80.
abbrev asleep : Array.Array ℕ
asleep = record { num = 1; max = 4; v = some (4 ∷ 99 ∷ 99 ∷ 99 ∷ []) }

abbrev dead : Array.Array ℕ
dead = record { num = 0; max = 4; v = some (99 ∷ 99 ∷ 99 ∷ 99 ∷ []) }

abbrev four : Threads
four = record {
  curthread = some 1;
  sleepers = asleep;
  zombies = dead;
  runqueue = ring;
  numthreads = 4;
  sleepaddr = λ t. if t == 4 then 0x80 else 0;
  curspl = 15;
  in_interrupt = false;
}

four-Tables : Tables (2 ∷ 3 ∷ []) (4 ∷ []) [] four
four-Tables = record {
  runs = ring-Holds;
  sleeps = record {
    count = refl;
    fits = omega arith;
    small = omega arith;
    full_block = refl;
    item = λ i h. first i h;
  };
  rests = record {
    count = refl;
    fits = omega arith;
    small = omega arith;
    full_block = refl;
    item = λ i h. absurd (omega arith);
  };
}
  where
    first :
        (i : ℕ) → i < 1 → get_elem? {A = ℕ} (4 ∷ 99 ∷ 99 ∷ 99 ∷ []) i ≡ get_elem? {A = ℕ} (4 ∷ []) i
    first zero h = refl
    first (suc i) h = absurd (omega arith)

four-Roomy : Roomy (2 ∷ 3 ∷ []) (4 ∷ []) [] four
four-Roomy = record {
  tables = four-Tables;
  everyone = refl;
  ready_room = omega arith;
  asleep_room = omega arith;
  dead_room = omega arith;
}

-- All three others ready: the ring of four is full.
abbrev busy : Threads
busy = record four {
  sleepers = dead;
  runqueue = record { size = 4; nextwrite = 2; nextread = 3; entries = 3 ∷ 4 ∷ 99 ∷ 2 ∷ [] };
}

busy-Roomy : Roomy (2 ∷ 3 ∷ 4 ∷ []) [] [] busy
busy-Roomy = record {
  tables = record {
    runs = record {
      valid = record {
        small = omega arith;
        full_block = refl;
        write_in = omega arith;
        read_in = omega arith;
      };
      items = refl;
    };
    sleeps = four-Tables.rests;
    rests = four-Tables.rests;
  };
  everyone = refl;
  ready_room = omega arith;
  asleep_room = omega arith;
  dead_room = omega arith;
}

wakeup-Moved_example :
    (k' : Threads) × (wakeup junk (λ n m. false) four 0x80 ≡ ok k')
    × Moved (2 ∷ 3 ∷ 4 ∷ []) [] [] four k'
wakeup-Moved_example =
    wakeup-Moved junk 0x80 (λ n m. false) (2 ∷ 3 ∷ []) (4 ∷ []) [] four four-Tables (omega arith)
      (omega arith)

sleep-Roomy_example :
    (k' : Threads) × (sleep junk idle no_memory four 0x90 ≡ ok k')
    × Roomy (3 ∷ []) (4 ∷ 1 ∷ []) [] k'
    × (k'.curthread ≡ some 2)
    × (k'.sleepaddr 1 ≡ 0x90)
sleep-Roomy_example =
    sleep-Roomy junk idle no_memory four 1 2 0x90 (3 ∷ []) (4 ∷ []) [] four-Roomy refl (omega arith)
      refl

yield-panics_example : yield junk idle no_memory busy ≡ panic
yield-panics_example =
    yield-panics junk idle no_memory busy 1 (2 ∷ 3 ∷ 4 ∷ []) [] [] busy-Roomy refl refl refl
      (omega arith) refl

fork-Forks_example :
    Forks (2 ∷ 3 ∷ []) (4 ∷ []) [] four 5 true (fork junk true true (λ n. true) four 5)
fork-Forks_example =
    fork-Forks junk (λ n. true) four 5 true true (2 ∷ 3 ∷ []) (4 ∷ []) [] four-Roomy (omega arith)

-- While the processor idles, the disk interrupts twice: first for nothing, then for thread 2.
abbrev waiting : Threads
waiting = record four {
  curthread = none;
  runqueue = record { size = 4; nextwrite = 0; nextread = 0; entries = 0 ∷ 0 ∷ 0 ∷ 0 ∷ [] };
}

empty_ring : Holds 0 [] waiting.runqueue
empty_ring = record {
  valid = record {
    small = omega arith;
    full_block = refl;
    write_in = omega arith;
    read_in = omega arith;
  };
  items = refl;
}

abbrev disk : List (Threads → Threads)
disk = (λ k. k) ∷ (λ k. record k { runqueue = four.runqueue }) ∷ []

queue_empty : Queue.empty waiting.runqueue ≡ true
queue_empty = empty-Holds 0 junk [] waiting.runqueue empty_ring

scheduler-after_example :
    (q : Queue.Queue ℕ) × (scheduler disk waiting
      ≡ ok (2, record (after disk waiting) { runqueue = q }))
    × Holds 0 (3 ∷ []) q
scheduler-after_example =
    scheduler-after disk [] waiting 2 (3 ∷ []) (4 ∷ []) [] (omega arith)
      (queue_empty, (queue_empty, tt))
      (record { runs = four-Tables.runs; sleeps = four-Tables.sleeps; rests = four-Tables.rests })
