-- ===== src/Bitmap.antt =====
-- os161/kern/lib/bitmap.c: a fixed-size array of bits, kept in bytes.
-- An operation that changes `*b` returns the new bitmap.
pub mod Bytes
pub mod Spec
pub mod Create
pub mod Alloc
pub mod Mark
mod Tests
use Prim.Native.Nat.{bit_and, bit_or}
use cse.Base.{
  ℕ, zero, suc, ◌+◌, ◌-◌, ◌*◌, ◌/◌, ◌%◌, ◌^◌, Bool, true, false, not, ◌&&◌, Option, none, some,
  List, ltb, ◌==◌, if◌then◌else◌, get_elem?, set, replicate,
}
use cse.Base.Outcome.{Outcome, ok, err, panic, Errno, enospc, ◌>>=◌, ◌>>◌, assert}

pub record Bitmap : Type 0 where
  pub nbits : ℕ  -- u_int32_t
  pub v : List ℕ  -- unsigned char

abbrev pub bits_per_word : ℕ
bits_per_word = 8

abbrev pub word_allbits : ℕ
word_allbits = 0xff

-- `DIVROUNDUP(n, BITS_PER_WORD)` of os161/kern/include/lib.h, on a u_int32_t.
abbrev pub words_for : ℕ → ℕ
words_for n = (n + 7) % 2 ^ 32 / bits_per_word

-- `for (j = o; j < o + n; j++) w |= 1 << j`
pub mark_from : ℕ → ℕ → ℕ → ℕ
mark_from zero o w = w
mark_from (suc n) o w = mark_from n (o + 1) (bit_or w (2 ^ o))

-- The flags say whether the first and the second `kmalloc` succeed; `ok none` is NULL.
pub create : Bool → Bool → ℕ → Outcome (Option Bitmap)
unfolding mark_from
create false second n = ok none
create true false n = ok none
create true true n =
    let words = words_for n in
    let ix = words - 1 in
    let overbits = n - ix * bits_per_word in
    if ltb (n / bits_per_word) words
    then (do
      assert (n / bits_per_word == ix)
      assert (ltb 0 overbits && ltb overbits bits_per_word)
      ok (
          some (record {
            nbits = n;
            v = set (replicate words 0) ix (mark_from (bits_per_word - overbits) overbits 0);
          })))
    else ok (some (record { nbits = n; v = replicate words 0 }))

-- The inner loop of `bitmap_alloc`: the first clear bit among `n` from `offset` on.
pub find_clear : ℕ → ℕ → ℕ → Option ℕ
find_clear zero offset w = none
find_clear (suc n) offset w =
    let rest = find_clear n (offset + 1) w in
    if bit_and w (2 ^ offset) == 0 then some offset else rest

-- What the inner loop does with the bit; without one, the `assert(0)` behind it.
pub take_bit : Bitmap → ℕ → ℕ → Option ℕ → Outcome (Bitmap × ℕ)
take_bit b ix w none = panic
take_bit b ix w (some offset) = do
  let index = ix * bits_per_word + offset
  assert (ltb index b.nbits)
  ok (record b { v = set b.v ix (bit_or w (2 ^ offset)) }, index)

-- The outer loop, with `n` bytes left from byte `ix` on.
pub alloc_loop : ℕ → ℕ → Bitmap → Outcome (Bitmap × ℕ)
alloc_loop zero ix b = err enospc
alloc_loop (suc n) ix b =
    let rest = alloc_loop n (ix + 1) b in
    elim (get_elem? b.v ix) [
      | none ↦ panic
      | some w ↦ if w == word_allbits then rest else take_bit b ix w (find_clear bits_per_word 0 w)
    ]

pub alloc : Bitmap → Outcome (Bitmap × ℕ)
unfolding alloc_loop take_bit find_clear
alloc b = alloc_loop (words_for b.nbits) 0 b

-- `bitmap_translate`: the byte and the mask of a bit.
abbrev pub translate : ℕ → ℕ × ℕ
translate bitno = (bitno / bits_per_word, 2 ^ (bitno % bits_per_word))

abbrev pub read : Bitmap → ℕ → Outcome ℕ
read b ix = elim (get_elem? b.v ix) [ none ↦ panic | some w ↦ ok w ]

pub mark : Bitmap → ℕ → Outcome Bitmap
mark b index = do
  assert (ltb index b.nbits)
  let (ix, mask) = translate index
  w ← read b ix
  assert (bit_and w mask == 0)
  ok (record b { v = set b.v ix (bit_or w mask) })

-- `~mask` in a byte is `255 - mask`.
pub unmark : Bitmap → ℕ → Outcome Bitmap
unmark b index = do
  assert (ltb index b.nbits)
  let (ix, mask) = translate index
  w ← read b ix
  assert (not (bit_and w mask == 0))
  ok (record b { v = set b.v ix (bit_and w (word_allbits - mask)) })

unfoldable pub isset : Bitmap → ℕ → Outcome ℕ
isset b index = do let (ix, mask) = translate index; w ← read b ix; ok (bit_and w mask)
