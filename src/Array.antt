-- ===== src/Array.antt =====
-- os161/kern/lib/array.c: an array of pointers that grows.
-- An operation that changes `*a` returns the new array. The flag `enough` says whether a `kmalloc`
-- succeeds; a block fresh from it holds the arbitrary pointers `junk`. An index is an int that is
-- not negative: a negative one fails the same assertion as one that is too large.
pub mod Grow
pub mod Items
mod Tests
use cse.Base.{
  ℕ, zero, suc, ◌+◌, ◌-◌, ◌*◌, ◌^◌, Bool, true, false, ◌&&◌, not, Option, none, some, List, [], ltb,
  leb, ◌==◌, if◌then◌else◌,
}
use cse.Base.Outcome.{Outcome, ok, err, panic, enomem, ◌>>=◌, ◌>>◌, assert}
use cse.Base.Blocks.{pointers, load, store, fresh_block, copy_items, memmove_down}

pub record Array (A : Type 0) : Type 0 where
  pub num : ℕ
  pub max : ℕ
  pub v : Option (List A)  -- `none` is NULL

-- `while (nguys > newmax) newmax = (newmax + 1) * 2;` over the numbers an int holds: where the
-- product is past them, or without fuel, the model panics.
pub grow_max : ℕ → ℕ → ℕ → Outcome ℕ
grow_max zero nguys newmax = panic
grow_max (suc fuel) nguys newmax =
    let next = (newmax + 1) * 2 in
    let rest = grow_max fuel nguys next in
    let checked = if ltb next (2 ^ 31) then rest else panic in
    if ltb newmax nguys then checked else ok newmax

module _ {A : Type 0} where
  -- An access through `a->v`; NULL faults.
  abbrev pub entries : Array A → List A
  entries a = elim a.v [ none ↦ [] | some xs ↦ xs ]

  abbrev pub null : Array A → Bool
  null a = elim a.v [ none ↦ true | some xs ↦ false ]

  pub create : Bool → Option (Array A)
  create false = none
  create true = some (record { num = 0; max = 0; v = none })

  abbrev pub getnum : Array A → ℕ
  getnum a = a.num

  pub getguy : Array A → ℕ → Outcome A
  getguy a index = do assert (leb a.num a.max); assert (ltb index a.num); load (entries a) index

  pub setguy : Array A → ℕ → A → Outcome (Array A)
  setguy a index ptr = do
    assert (leb a.num a.max)
    assert (ltb index a.num)
    v ← store (entries a) index ptr
    ok (record a { v = some v })

  pub remove : Array A → ℕ → Outcome (Array A)
  remove a index = do
    assert (leb a.num a.max)
    assert (ltb index a.num)
    let nmove = a.num - (index + 1)
    v ← memmove_down nmove (index + 1) index (entries a)
    ok (record a { num = a.num - 1; v = some v })

module _ {A : Type 0} (junk : ℕ → A) where
  pub preallocate : Bool → Array A → ℕ → Outcome (Array A)
  unfolding grow_max
  preallocate enough a nguys = do
    assert (leb a.num a.max)
    newmax ← grow_max 32 nguys a.max
    if enough
        then (do
          newv ← copy_items a.num 0 0 (entries a) (fresh_block junk (pointers newmax))
          ok (record a { max = newmax; v = some newv }))
        else err enomem

  pub setsize : Bool → Array A → ℕ → Outcome (Array A)
  unfolding preallocate
  setsize enough a nguys = do
    assert (leb a.num a.max)
    let trim = nguys == 0 && ltb 16 a.max
    a' ←
        if ltb a.max nguys
        then preallocate enough a nguys
        else if trim
        then assert (not (null a)) >> ok (record a { v = none; max = 0 })
        else ok a
    ok (record a' { num = nguys })

  pub add : Bool → Array A → A → Outcome (Array A)
  unfolding setsize
  add enough a guy = do
    let ix = a.num
    a' ← setsize enough a (ix + 1)
    v ← store (entries a') ix guy
    ok (record a' { v = some v })
