-- ===== src/Thread/Fork.antt =====
-- `thread_fork`: the new thread is ready to run, and there is room for it in every table.
use cse.Base.{
  ℕ, ◌+◌, ◌^◌, ◌≤◌, ◌<◌, ◌≡◌, refl, ◌∙◌, ap, arith, Bool, true, false, ◌&&◌, List, [], ◌∷◌, ◌++◌,
  length-append,
}
use cse.Base.Outcome.{Outcome, ok, err, panic, enomem}
use cse.Array
use cse.Array.Grow
use cse.Array.Grow.{preallocate-Holds, preallocate-enomem}
use cse.Queue
use cse.Queue.Grow.{addtail-room}
use cse.Queue.Room.{Preallocates, preallocate-Preallocates}
use cse.Thread.{Threads, make_runnable, scheduler_preallocate, fork}
use cse.Thread.Room.{Roomy}

-- What `thread_fork` answers: one thread more, at the end of the run queue, and room for it in all
-- the tables; ENOMEM only where one of the blocks of memory is not found, with the threads as before.
abbrev pub Forks :
    List ℕ → List ℕ → List ℕ → Threads → ℕ → Bool → Threads × Outcome (Unit {0}) → Type 0
Forks rs asleep dead k newguy enough (k', ok _) =
    Roomy (rs ++ (newguy ∷ [])) asleep dead k'
    × (k'.numthreads ≡ k.numthreads + 1)
    × (k'.curthread ≡ k.curthread)
    × (k'.curspl ≡ k.curspl)
Forks rs asleep dead k newguy enough (k', err e) =
    (e ≡ enomem)
    × (enough ≡ false)
    × Roomy rs asleep dead k'
    × (k'.numthreads ≡ k.numthreads)
    × (k'.curthread ≡ k.curthread)
    × (k'.curspl ≡ k.curspl)
Forks rs asleep dead k newguy enough (k', panic) = ⊥

module _ (junk : ℕ → ℕ) (mem_s mem_z : Bool) (mem_q : ℕ → Bool) (k : Threads) (newguy : ℕ) where
  forked :
      (s z : Array.Array ℕ) (q q' : Queue.Queue ℕ)
      → Array.preallocate junk mem_s k.sleepers (k.numthreads + 1) ≡ ok s
      → Array.preallocate junk mem_z k.zombies (k.numthreads + 1) ≡ ok z
      → Queue.preallocate junk mem_q k.runqueue (k.numthreads + 1) ≡ ok q
      → Queue.addtail junk 2 mem_q q newguy ≡ ok q'
      → fork junk mem_s mem_z mem_q k newguy ≡ (
        record k { sleepers = s; zombies = z; runqueue = q'; numthreads = k.numthreads + 1 },
        ok tt,
      )
  unfolding fork scheduler_preallocate make_runnable
  forked s z q q' es ez eq ea = ground (arith, es, ez, eq, ea)

  no_sleepers :
      (e : Array.preallocate junk mem_s k.sleepers (k.numthreads + 1) ≡ err enomem)
      → fork junk mem_s mem_z mem_q k newguy ≡ (k, err enomem)
  unfolding fork
  no_sleepers e = rw e refl

  no_zombies :
      (s : Array.Array ℕ)
      → Array.preallocate junk mem_s k.sleepers (k.numthreads + 1) ≡ ok s
      → Array.preallocate junk mem_z k.zombies (k.numthreads + 1) ≡ err enomem
      → fork junk mem_s mem_z mem_q k newguy ≡ (record k { sleepers = s }, err enomem)
  unfolding fork
  no_zombies s es ez = rw (es, ez) refl

  no_runqueue :
      (s z : Array.Array ℕ)
      → Array.preallocate junk mem_s k.sleepers (k.numthreads + 1) ≡ ok s
      → Array.preallocate junk mem_z k.zombies (k.numthreads + 1) ≡ ok z
      → Queue.preallocate junk mem_q k.runqueue (k.numthreads + 1) ≡ err enomem
      → fork junk mem_s mem_z mem_q k newguy ≡ (record k { sleepers = s; zombies = z }, err enomem)
  unfolding fork scheduler_preallocate
  no_runqueue s z es ez eq = rw (es, ez, eq) refl

  -- The last part: the room for the run queue, and the new thread in it.
  queued :
      (rs asleep dead : List ℕ) (s z : Array.Array ℕ) (r : Outcome (Queue.Queue ℕ))
      → Roomy rs asleep dead k
      → Grow.Holds asleep s × (k.numthreads + 1 ≤ s.max)
      → Grow.Holds dead z × (k.numthreads + 1 ≤ z.max)
      → Array.preallocate junk mem_s k.sleepers (k.numthreads + 1) ≡ ok s
      → Array.preallocate junk mem_z k.zombies (k.numthreads + 1) ≡ ok z
      → Queue.preallocate junk mem_q k.runqueue (k.numthreads + 1) ≡ r
      → Preallocates 0 rs (k.numthreads + 1) k.runqueue (mem_q 1) r
      → Forks rs asleep dead k newguy
          (mem_s && mem_z && mem_q 1)
          (fork junk mem_s mem_z mem_q k newguy)
  queued rs asleep dead s z (ok q) h (hs, rs_s) (hz, rs_z) es ez eq (hq, big, more) =
      let (q', ea, h', same) = addtail-room 0 1 mem_q junk newguy hq (omega (arith, h.everyone)) in
      rw (forked s z q q' es ez eq ea) (
        record {
          tables = record { runs = h'; sleeps = hs; rests = hz };
          everyone = omega (arith, h.everyone, length-append rs (newguy ∷ []));
          ready_room = omega (arith, same);
          asleep_room = rs_s;
          dead_room = rs_z;
        },
        refl,
        refl,
        refl,
      )
  queued rs asleep dead s z (err e) h hs hz es ez eq (is_enomem, none_left, small) =
      rw (no_runqueue s z es ez (eq ∙ ap err is_enomem)) (
        refl,
        failed mem_s mem_z none_left,
        record {
          tables = record { runs = h.tables.runs; sleeps = hs.0; rests = hz.0 };
          everyone = h.everyone;
          ready_room = h.ready_room;
          asleep_room = omega (arith, hs.1);
          dead_room = omega (arith, hz.1);
        },
        refl,
        refl,
        refl,
      )
    where
      failed : (a b : Bool) → mem_q 1 ≡ false → (a && b && mem_q 1) ≡ false
      failed a b e = ground (arith, e)
  queued rs asleep dead s z panic h hs hz es ez eq p = absurd p

module _ (junk : ℕ → ℕ) (mem_q : ℕ → Bool) (k : Threads) (newguy : ℕ) where
  -- Where there is room for all threads in every table, and for less than 2^29 - 1 threads,
  -- `thread_fork` puts the new thread behind the others in the run queue and makes room for one
  -- thread more in every table; it fails only where a block of memory is not found, and then the
  -- threads are as before, though a table may have grown. No assertion fails.
  pub fork-Forks :
      (mem_s mem_z : Bool) (rs asleep dead : List ℕ)
      → Roomy rs asleep dead k
      → k.numthreads + 1 < 2 ^ 29
      → Forks rs asleep dead k newguy
          (mem_s && mem_z && mem_q 1)
          (fork junk mem_s mem_z mem_q k newguy)
  fork-Forks false mem_z rs asleep dead h small =
      rw
        (no_sleepers junk false mem_z mem_q k newguy
          (preallocate-enomem junk (k.numthreads + 1) h.tables.sleeps small))
        (refl, refl, h, refl, refl, refl)
  fork-Forks true false rs asleep dead h small =
      let (s, es, hs, big, more) =
        preallocate-Holds junk (k.numthreads + 1) h.tables.sleeps small in
      rw
        (no_zombies junk true false mem_q k newguy s es
          (preallocate-enomem junk (k.numthreads + 1) h.tables.rests small))
        (
          refl,
          refl,
          record {
            tables = record { runs = h.tables.runs; sleeps = hs; rests = h.tables.rests };
            everyone = h.everyone;
            ready_room = h.ready_room;
            asleep_room = omega (arith, big);
            dead_room = h.dead_room;
          },
          refl,
          refl,
          refl,
        )
  fork-Forks true true rs asleep dead h small =
      let (s, es, hs, big, more) =
        preallocate-Holds junk (k.numthreads + 1) h.tables.sleeps small in
      let (z, ez, hz, big_z, more_z) =
        preallocate-Holds junk (k.numthreads + 1) h.tables.rests small in
      queued junk true true mem_q k newguy rs asleep dead s z
        (Queue.preallocate junk mem_q k.runqueue (k.numthreads + 1)) h (hs, big) (hz, big_z) es ez
        refl
        (preallocate-Preallocates 0 junk mem_q rs k.runqueue (k.numthreads + 1) h.tables.runs
          (omega arith))
