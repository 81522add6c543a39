-- ===== src/Thread/Room.antt =====
-- What the thread tables hold, as lists, and the room in them.
use cse.Base.{ℕ, ◌+◌, ◌≤◌, ◌≡◌, List, [], ◌∷◌, length, ◌==◌, if◌then◌else◌}
use cse.Array.Grow
use cse.Queue.Grow.{Holds}
use cse.Thread.{Threads}

-- The threads that are ready, in the order that they are to run, asleep, and dead.
pub record Tables (ready asleep dead : List ℕ) (k : Threads) : Type 0 where
  pub runs : Holds 0 ready k.runqueue
  pub sleeps : Grow.Holds asleep k.sleepers
  pub rests : Grow.Holds dead k.zombies

-- Every thread but the one that runs is ready or asleep, and there is room for all of them.
pub record Roomy (ready asleep dead : List ℕ) (k : Threads) : Type 0 where
  pub tables : Tables ready asleep dead k
  pub everyone : length ready + length asleep + 1 ≡ k.numthreads
  pub ready_room : k.numthreads ≤ k.runqueue.size
  pub asleep_room : k.numthreads ≤ k.sleepers.max
  pub dead_room : k.numthreads ≤ k.zombies.max

-- The threads of a list that sleep on an address, and the others.
abbrev pub on_addr : (ℕ → ℕ) → ℕ → List ℕ → List ℕ
on_addr at addr [] = []
on_addr at addr (t ∷ ts) = let rest = on_addr at addr ts in if at t == addr then t ∷ rest else rest

abbrev pub not_on : (ℕ → ℕ) → ℕ → List ℕ → List ℕ
not_on at addr [] = []
not_on at addr (t ∷ ts) = let rest = not_on at addr ts in if at t == addr then rest else t ∷ rest

-- The list without the first thread that sleeps on the address.
abbrev pub first_on : (ℕ → ℕ) → ℕ → List ℕ → List ℕ
first_on at addr [] = []
first_on at addr (t ∷ ts) = let rest = first_on at addr ts in if at t == addr then t ∷ [] else rest

abbrev pub without_first : (ℕ → ℕ) → ℕ → List ℕ → List ℕ
without_first at addr [] = []
without_first at addr (t ∷ ts) =
    let rest = without_first at addr ts in if at t == addr then ts else t ∷ rest
