-- ===== src/Queue.antt =====
-- os161/kern/lib/queue.c: a queue of pointers in a ring buffer that grows.
-- An operation that changes `*q` returns the new queue. `q_grow` and `q_addtail` call each other:
-- the number `d` bounds how deep, and `mem d` says whether the `kmalloc` at depth `d` succeeds.
-- A block fresh from `kmalloc` holds the arbitrary pointers `junk`.
pub mod Ring
pub mod Grow
pub mod Refine
pub mod Room
mod Tests
use cse.Base.{
  ℕ, zero, suc, ◌+◌, ◌*◌, ◌/◌, ◌%◌, ◌^◌, Bool, true, false, ◌&&◌, not, Option, none, some, List, [],
  ◌∷◌, ltb, leb, ◌==◌, if◌then◌else◌, length, get_elem?, set,
}
use cse.Base.Outcome.{Outcome, ok, err, panic, enomem, ◌>>=◌, ◌>>◌, assert, must}

pub record Queue (A : Type 0) : Type 0 where
  pub size : ℕ  -- the three indices are ints
  pub nextwrite : ℕ
  pub nextread : ℕ
  pub entries : List A  -- `data`

-- The pointers that fit a block of `n * sizeof(void *)` bytes, a product of 32 bits.
abbrev pub room : ℕ → ℕ
room n = n * 4 % 2 ^ 32 / 4

-- `while (nsize < targetsize) { nsize *= 2; assert(nsize > 0); }`: a product of 2^31 or more is not
-- positive as an int, so 32 rounds are enough. Without fuel the model panics.
pub grow_size : ℕ → ℕ → ℕ → Outcome ℕ
grow_size zero targetsize nsize = panic
grow_size (suc fuel) targetsize nsize =
    let doubled = nsize * 2 in
    let rest = grow_size fuel targetsize doubled in
    let next = if ltb 0 doubled && ltb doubled (2 ^ 31) then rest else panic in
    if ltb nsize targetsize then next else ok nsize

module _ {A : Type 0} where
  -- `entries[i] = x` and `entries[i]`; outside the block, a fault.
  abbrev pub store : Queue A → ℕ → A → Outcome (Queue A)
  store q i x =
      if ltb i (length q.entries) then ok (record q { entries = set q.entries i x }) else panic

  abbrev pub load : List A → ℕ → Outcome A
  load xs i = elim (get_elem? xs i) [ none ↦ panic | some x ↦ ok x ]

  pub empty : Queue A → Bool
  empty q = q.nextwrite == q.nextread

  pub remhead : Queue A → Outcome (A × Queue A)
  unfolding empty
  remhead q = do
    assert (ltb 0 q.size)
    assert (not (empty q))
    ret ← load q.entries q.nextread
    ok (ret, record q { nextread = (q.nextread + 1) % q.size })

  pub destroy : Queue A → Outcome (Unit {0})
  unfolding empty
  destroy q = assert (empty q)

  pub getguy : Queue A → ℕ → Outcome A
  getguy q index = do assert (ltb index q.size); load q.entries index

  -- `for (i = onr; i != onw; i = (i + 1) % osize) { result = q_addtail(q, olddata[i]); ... }`
  pub move :
      (Queue A → A → Outcome (Queue A))
      → ℕ
      → List A
      → (osize onw i : ℕ) → Queue A
      → Outcome (Queue A)
  move add zero olddata osize onw i q = if i == onw then ok q else panic
  move add (suc fuel) olddata osize onw i q =
      let rest = (do
        x ← load olddata i
        q' ← must (add q x)
        move add fuel olddata osize onw ((i + 1) % osize) q') in
      if i == onw then ok q else rest

  -- The end of `q_addtail`, with the index that `nextwrite` is to have.
  pub put : Queue A → A → ℕ → Outcome (Queue A)
  put q x nextnext = do q' ← store q q.nextwrite x; ok (record q' { nextwrite = nextnext })

module _ {A : Type 0} (junk : ℕ → A) where
  pub block : ℕ → List A
  block zero = []
  block (suc n) = junk n ∷ block n

  -- The flags say whether the first and the second `kmalloc` succeed; `none` is NULL.
  pub create : Bool → Bool → ℕ → Option (Queue A)
  unfolding block
  create false second n = none
  create true false n = none
  create true true n =
      some (record { size = n; nextwrite = 0; nextread = 0; entries = block (room n) })

  -- `q_grow`, with the `q_addtail` that it calls and the answer of its `kmalloc`.
  pub grow : (Queue A → A → Outcome (Queue A)) → Bool → Queue A → ℕ → Outcome (Queue A)
  unfolding grow_size block move
  grow add enough q targetsize = do
    nsize ← grow_size 32 targetsize q.size
    if enough
        then move add q.size q.entries q.size q.nextwrite q.nextread
            (record { size = nsize; nextwrite = 0; nextread = 0; entries = block (room nsize) })
        else err enomem

  pub addtail : ℕ → (ℕ → Bool) → Queue A → A → Outcome (Queue A)
  unfolding grow put
  addtail zero mem q x = panic
  addtail (suc d) mem q x = do
    assert (ltb 0 q.size)
    let nextnext = (q.nextwrite + 1) % q.size
    if nextnext == q.nextread
        then (do
          q' ← grow (addtail d mem) (mem d) q (q.size + 1)
          put q' x ((q'.nextwrite + 1) % q'.size))
        else put q x nextnext

  pub preallocate : (ℕ → Bool) → Queue A → ℕ → Outcome (Queue A)
  preallocate mem q size = do
    assert (ltb 0 q.size)
    if ltb q.size size then grow (addtail 1 mem) (mem 1) q size else ok q
