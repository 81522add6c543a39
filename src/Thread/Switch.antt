-- ===== src/Thread/Switch.antt =====
-- `thread_yield`, `thread_sleep`, `thread_exit` and `exorcise`: what a switch does to the tables, and
-- that the room made at a fork is enough for it.
use cse.Base.{
  Option, none, some, ℕ, ◌+◌, ◌-◌, ◌^◌, ◌<◌, ◌≡◌, refl, ◌∙◌, ap, arith, Bool, false, none, some,
  List, [], ◌∷◌, ◌++◌, length, length-append, ◌==◌, lt→ltb, not-lt→ltb, eq→==, not-==, true, inl,
  inr, if◌then◌else◌,
}
use cse.Base.Outcome.{Outcome, ok, err, panic, enomem}
use cse.Array.Grow.{add-room}
use cse.Queue
use cse.Queue.Grow.{Holds, addtail-room}
use cse.Queue.Refine.{remhead-Takes, Appends, addtail-Appends}
use cse.Queue.Room.{empty-Holds}
use cse.Thread.{
  Threads, Threadstate, s_ready, s_sleep, s_zomb, set_sleepaddr, make_runnable, idle_loop,
  scheduler, stash, mi_switch, yield, sleep, exit,
}
use cse.Thread.Room.{Tables, Roomy}

idle_loop-ready :
    (idle : List (Threads → Threads)) (k : Threads)
    → Queue.empty k.runqueue ≡ false
    → idle_loop idle k ≡ ok k
unfolding idle_loop
idle_loop-ready [] k e = rw e
idle_loop-ready (interrupt ∷ rest) k e = rw e

-- The tables after a row of interrupts.
abbrev pub after : List (Threads → Threads) → Threads → Threads
after [] k = k
after (interrupt ∷ rest) k = after rest (interrupt k)

-- The run queue is empty now, and behind each interrupt but the last.
abbrev pub Quiet : List (Threads → Threads) → Threads → Type 0
Quiet [] k = Unit {0}
Quiet (interrupt ∷ rest) k = (Queue.empty k.runqueue ≡ true) × Quiet rest (interrupt k)

idle_loop-after :
    (first rest : List (Threads → Threads)) (k : Threads)
    → Quiet first k
    → Queue.empty (after first k).runqueue ≡ false
    → idle_loop (first ++ rest) k ≡ ok (after first k)
unfolding idle_loop
idle_loop-after [] rest k q e = idle_loop-ready rest k e
idle_loop-after (interrupt ∷ first) rest k q e =
    rw q.0 (idle_loop-after first rest (interrupt k) q.1 e)

ready-Tables :
    (junk : ℕ → ℕ) (k : Threads) (t : ℕ) (rs asleep dead : List ℕ)
    → Tables (t ∷ rs) asleep dead k
    → Queue.empty k.runqueue ≡ false
ready-Tables junk k t rs asleep dead h =
    empty-Holds 0 junk (t ∷ rs) k.runqueue h.runs
    ∙ not-== {a = length (t ∷ rs)} {b = 0} (omega arith)

-- With interrupts off the scheduler waits out any row of interrupts that leave the run queue empty;
-- the first interrupt that makes a thread ready ends the wait, and the first thread that it made
-- ready is the next to run.
pub scheduler-after :
    (first rest : List (Threads → Threads)) (k : Threads) (t : ℕ) (rs asleep dead : List ℕ)
    → 0 < k.curspl
    → Quiet first k
    → Tables (t ∷ rs) asleep dead (after first k)
    → (q : Queue.Queue ℕ) × (scheduler (first ++ rest) k
        ≡ ok (t, record (after first k) { runqueue = q }))
      × Holds 0 rs q
unfolding scheduler
scheduler-after first rest k t rs asleep dead off quiet h =
    let (q, e, hq, s) = remhead-Takes 0 (λ n. n) (t ∷ rs) (after first k).runqueue h.runs in
    (
      q,
      ground (
        arith,
        e,
        lt→ltb 0 k.curspl off,
        idle_loop-after first rest k quiet
            (ready-Tables (λ n. n) (after first k) t rs asleep dead h),
      ),
      hq,
    )

module _ (junk : ℕ → ℕ) (idle : List (Threads → Threads)) where
  scheduler-next :
      (k : Threads) (t : ℕ) (rs asleep dead : List ℕ)
      → Tables (t ∷ rs) asleep dead k
      → 0 < k.curspl
      → (q : Queue.Queue ℕ) × (scheduler idle k ≡ ok (t, record k { runqueue = q }))
        × Holds 0 rs q
        × (q.size ≡ k.runqueue.size)
  unfolding scheduler
  scheduler-next k t rs asleep dead h off =
      let (q, e, hq, s) = remhead-Takes 0 junk (t ∷ rs) k.runqueue h.runs in
      (
        q,
        ground (
          arith,
          e,
          lt→ltb 0 k.curspl off,
          idle_loop-ready idle k (ready-Tables junk k t rs asleep dead h),
        ),
        hq,
        s,
      )

  -- Where the thread can be put away, the first of the run queue runs next.
  mi_switch-next :
      (mem : ℕ → Bool) (k k1 : Threads) (c t : ℕ) (rs asleep dead : List ℕ) (to : Threadstate)
      → k.curthread ≡ some c
      → 0 < k.curspl
      → stash junk mem (record k { curthread = none }) c to ≡ ok k1
      → Tables (t ∷ rs) asleep dead k1
      → 0 < k1.curspl
      → (q : Queue.Queue ℕ) × (mi_switch junk idle mem k to
          ≡ ok (record k1 { runqueue = q; curthread = some t }))
        × Holds 0 rs q
        × (q.size ≡ k1.runqueue.size)
  unfolding mi_switch
  mi_switch-next mem k k1 c t rs asleep dead to cur off e h off1 =
      let (q, e', hq, s) = scheduler-next k1 t rs asleep dead h off1 in
      (q, ground (arith, cur, e, e', lt→ltb 0 k.curspl off), hq, s)

  sleep_switches :
      (mem : ℕ → Bool) (k : Threads) (c addr : ℕ)
      → k.curthread ≡ some c
      → k.in_interrupt ≡ false
      → sleep junk idle mem k addr ≡ mi_switch junk idle mem (set_sleepaddr k c addr) s_sleep
  unfolding sleep
  sleep_switches mem k c addr cur calm = ground (arith, calm, cur)

  exit_switches :
      (mem : ℕ → Bool) (k : Threads)
      → 0 < k.numthreads
      → exit junk idle mem k
        ≡ mi_switch junk idle mem (record k { curspl = 15; numthreads = k.numthreads - 1 }) s_zomb
  unfolding exit
  exit_switches mem k pos = rw (lt→ltb 0 k.numthreads pos)

  -- Where there is room for all threads in every table, interrupts are off outside a handler and
  -- another thread is ready, `thread_sleep` puts the thread that runs behind the other sleepers,
  -- with its sleep address, and the first of the run queue runs next. This needs no memory, and no
  -- assertion fails; the room stays.
  pub sleep-Roomy :
      (mem : ℕ → Bool) (k : Threads) (c t addr : ℕ) (rs asleep dead : List ℕ)
      → Roomy (t ∷ rs) asleep dead k
      → k.curthread ≡ some c
      → 0 < k.curspl
      → k.in_interrupt ≡ false
      → (k' : Threads) × (sleep junk idle mem k addr ≡ ok k')
        × Roomy rs (asleep ++ (c ∷ [])) dead k'
        × (k'.curthread ≡ some t)
        × (k'.sleepaddr c ≡ addr)
  unfolding stash
  sleep-Roomy mem k c t addr rs asleep dead h cur off calm =
      let (a, e, ha, m) =
        add-room junk (mem 0) c h.tables.sleeps (omega (arith, h.everyone, h.asleep_room)) in
      let k1 : Threads = record k {
        sleepaddr = λ u. if u == c then addr else k.sleepaddr u;
        curthread = none;
        sleepers = a;
      } in
      let (q, e', hq, s) =
        mi_switch-next mem (set_sleepaddr k c addr) k1 c t rs (asleep ++ (c ∷ [])) dead s_sleep cur
          off (rw e) (record { runs = h.tables.runs; sleeps = ha; rests = h.tables.rests }) off in
      (
        record k1 { runqueue = q; curthread = some t },
        sleep_switches mem k c addr cur calm ∙ e',
        record {
          tables = record { runs = hq; sleeps = ha; rests = h.tables.rests };
          everyone = omega (arith, h.everyone, length-append asleep (c ∷ []));
          ready_room = omega (arith, h.ready_room, s);
          asleep_room = omega (arith, h.asleep_room, m);
          dead_room = h.dead_room;
        },
        refl,
        rw (eq→== {a = c} refl),
      )

  -- Where there is room for all threads in every table, there are fewer dead than threads and
  -- another thread is ready, `thread_exit` leaves the thread that runs with the dead, and the
  -- first of the run queue runs next. This needs no memory, and no assertion fails; the room
  -- stays.
  pub exit-Roomy :
      (mem : ℕ → Bool) (k : Threads) (c t : ℕ) (rs asleep dead : List ℕ)
      → Roomy (t ∷ rs) asleep dead k
      → k.curthread ≡ some c
      → length dead < k.numthreads
      → (k' : Threads) × (exit junk idle mem k ≡ ok k')
        × Roomy rs asleep (dead ++ (c ∷ [])) k'
        × (k'.curthread ≡ some t)
  unfolding stash
  exit-Roomy mem k c t rs asleep dead h cur few =
      let (z, e, hz, m) =
        add-room junk (mem 0) c h.tables.rests (omega (arith, few, h.dead_room)) in
      let k1 : Threads = record k {
        curspl = 15;
        numthreads = k.numthreads - 1;
        curthread = none;
        zombies = z;
      } in
      let (q, e', hq, s) =
        mi_switch-next mem (record k { curspl = 15; numthreads = k.numthreads - 1 }) k1 c t rs
          asleep (dead ++ (c ∷ [])) s_zomb cur (omega arith) (rw e)
          (record { runs = h.tables.runs; sleeps = h.tables.sleeps; rests = hz }) (omega arith) in
      (
        record k1 { runqueue = q; curthread = some t },
        exit_switches mem k (omega (arith, few)) ∙ e',
        record {
          tables = record { runs = hq; sleeps = h.tables.sleeps; rests = hz };
          everyone = omega (arith, h.everyone);
          ready_room = omega (arith, h.ready_room, s);
          asleep_room = omega (arith, h.asleep_room);
          dead_room = omega (arith, h.dead_room, m);
        },
        refl,
      )

  yield_lem :
      (mem : ℕ → Bool) (k : Threads) (c : ℕ)
      → k.curthread ≡ some c
      → yield junk idle mem k ≡ mi_switch junk idle mem (record k { curspl = 15 }) s_ready
  unfolding yield
  yield_lem mem k c cur = chosen k.curthread cur _ _
    where
      chosen :
          (f : Option ℕ)
          → f ≡ some c
          → (a b : Outcome Threads) → (elim f [ none ↦ a | some _ ↦ b ]) ≡ b
      chosen none e a b = absurd (ground (arith, e))
      chosen (some x) e a b = refl

  -- Where there is room for all threads in every table, and in the run queue also for the thread
  -- that runs, `thread_yield` puts that thread behind the others in the run queue, and the first
  -- of them runs next. This needs no memory, and no assertion fails; the room stays.
  pub yield-Roomy :
      (mem : ℕ → Bool) (k : Threads) (c t : ℕ) (rs rest asleep dead : List ℕ)
      → Roomy rs asleep dead k
      → k.curthread ≡ some c
      → length rs + 1 < k.runqueue.size
      → rs ++ (c ∷ []) ≡ t ∷ rest
      → (k' : Threads) × (yield junk idle mem k ≡ ok k')
        × Roomy rest asleep dead k'
        × (k'.curthread ≡ some t)
  unfolding stash make_runnable
  yield-Roomy mem k c t rs rest asleep dead h cur room first =
      let (q1, e, h1, s1) = addtail-room 0 1 mem junk c h.tables.runs room in
      let k1 : Threads = record k { curspl = 15; curthread = none; runqueue = q1 } in
      let (q, e', hq, s) =
        mi_switch-next mem (record k { curspl = 15 }) k1 c t rest asleep dead s_ready cur
          (omega arith) (rw e)
          (record { runs = rw first at h1; sleeps = h.tables.sleeps; rests = h.tables.rests })
          (omega arith) in
      (
        record k1 { runqueue = q; curthread = some t },
        yield_lem mem k c cur ∙ e',
        record {
          tables = record { runs = hq; sleeps = h.tables.sleeps; rests = h.tables.rests };
          everyone = omega (arith, h.everyone, length-append rs (c ∷ []), ap length first);
          ready_room = omega (arith, h.ready_room, s, s1);
          asleep_room = h.asleep_room;
          dead_room = h.dead_room;
        },
        refl,
      )

  fails :
      (rs : List ℕ) (c : ℕ) (r : Outcome (Queue.Queue ℕ))
      → Appends 0 rs c false false r
      → r ≡ err enomem
  fails rs c (ok q) (inl e, h) = cc e
  fails rs c (ok q) (inr e, h) = cc e
  fails rs c (err e) h = ap err h.0
  fails rs c panic h = absurd h

  switch_panics :
      (mem : ℕ → Bool) (k : Threads) (c : ℕ)
      → k.curthread ≡ some c
      → 0 < k.curspl
      → Queue.addtail junk 2 mem k.runqueue c ≡ err enomem
      → mi_switch junk idle mem k s_ready ≡ panic
  unfolding mi_switch stash make_runnable
  switch_panics mem k c cur off e = ground (arith, cur, e, lt→ltb 0 k.curspl off)

  -- Where nobody sleeps and the run queue has one place for each thread, which is the room that is
  -- kept for the threads, `thread_yield` fails the assertion of `mi_switch` when no memory is
  -- found, for less than 2^29 threads.
  pub yield-panics :
      (mem : ℕ → Bool) (k : Threads) (c : ℕ) (rs asleep dead : List ℕ)
      → Roomy rs asleep dead k
      → k.curthread ≡ some c
      → k.runqueue.size ≡ k.numthreads
      → asleep ≡ []
      → k.numthreads < 2 ^ 29
      → mem 1 ≡ false
      → yield junk idle mem k ≡ panic
  yield-panics mem k c rs asleep dead h cur full none_asleep small none_left =
      yield_lem mem k c cur
      ∙ switch_panics mem (record k { curspl = 15 }) c cur (omega arith)
          (fails rs c (Queue.addtail junk 2 mem k.runqueue c) (
            rw (not-lt→ltb (length rs + 1) k.runqueue.size tight, none_left) at
              (addtail-Appends 0 junk mem rs k.runqueue c h.tables.runs (omega arith))))
    where
      tight : ¬ (length rs + 1 < k.runqueue.size)
      tight lt = absurd (omega (arith, h.everyone, ap length none_asleep))
