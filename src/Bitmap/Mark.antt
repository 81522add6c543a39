-- ===== src/Bitmap/Mark.antt =====
-- `bitmap_mark`, `bitmap_unmark` and `bitmap_isset` against the set of bits.
use Prim.Native.Nat.{bit_and, bit_or}
use cse.Base.{
  ℕ, ◌-◌, ◌*◌, ◌/◌, ◌%◌, ◌^◌, ◌<◌, ◌≡◌, refl, inl, inr, Bool, true, false, not, arith, some, length,
  get_elem?, get_or, set, length-set, get_elem?-eq-get_or, get_or-set, set-set_self, set-get_or,
  ltb, lt→ltb, not-lt→ltb, ◌==◌, if◌then◌else◌, Bool-cases, dec_lt,
}
use cse.Base.Outcome.{ok, panic}
use cse.Bitmap.{Bitmap, mark, unmark, isset}
use cse.Bitmap.Bytes.{has_bit, bit_or-lt, bit_and-lt, has_bit-set, has_bit-clear, clear-set}
use cse.Bitmap.Spec.{bit, IsValid, Changes, Flips}

-- A new value for the byte of bit `i`, in which just that bit is `x`, makes the change.
pub set-Changes :
    (b : Bitmap) (i : ℕ) (x : Bool) (w : ℕ)
    → IsValid b
    → i < b.nbits
    → w < 256
    → ((p : ℕ) → p < 8 → has_bit w p ≡ (if i % 8 == p then x else has_bit (get_or b.v (i / 8) 0) p))
    → Changes b i x (record b { v = set b.v (i / 8) w })
set-Changes b i x w v lt hw h = record {
  valid = record {
    small = v.small;
    words = omega (arith, length-set b.v (i / 8) w, v.words);
    bytes = λ k. ground (arith, get_or-set b.v (i / 8) k w 0 inside, v.bytes k);
    over = λ j lo hi. ground (arith, bits j, v.over j lo, length-set b.v (i / 8) w);
  };
  nbits = refl;
  bits = bits;
}
  where
    inside : i / 8 < length b.v
    inside = omega (arith, v.words, v.small)

    bits :
        (j : ℕ)
        → j < 8 * length b.v
        → bit (record b { v = set b.v (i / 8) w }) j ≡ (if i == j then x else bit b j)
    bits j hj = ground (arith, get_or-set b.v (i / 8) (j / 8) w 0 inside, h (j % 8) (omega arith))

read-ok :
    (b : Bitmap) (i : ℕ)
    → IsValid b
    → i < b.nbits
    → get_elem? b.v (i / 8) ≡ some (get_or b.v (i / 8) 0)
read-ok b i v lt = get_elem?-eq-get_or b.v (i / 8) 0 (omega (arith, v.words, v.small))

-- `bitmap_mark` and `bitmap_unmark` on a valid bitmap, by their three cases.
mark_lem :
    (b : Bitmap) (i : ℕ)
    → IsValid b
    → mark b i ≡ (
        if ltb i b.nbits
        then if bit b i
          then panic
          else ok (record b { v = set b.v (i / 8) (bit_or (get_or b.v (i / 8) 0) (2 ^ (i % 8))) })
        else panic)
unfolding mark
mark_lem b i v = ground (arith, read-ok b i v)

unmark_lem :
    (b : Bitmap) (i : ℕ)
    → IsValid b
    → unmark b i ≡ (
        if ltb i b.nbits
        then if bit b i
          then ok (record b {
            v = set b.v (i / 8) (bit_and (get_or b.v (i / 8) 0) (255 - 2 ^ (i % 8)));
          })
          else panic
        else panic)
unfolding unmark
unmark_lem b i v = ground (arith, read-ok b i v)

-- Marking sets the bit and no other, and leaves a valid bitmap, if the bit is in range and clear;
-- otherwise it panics.
pub mark-Flips : (b : Bitmap) (i : ℕ) → IsValid b → Flips b i true (mark b i)
mark-Flips b i v = rw (mark_lem b i v) (elim (dec_lt i b.nbits) [
  | yes lt ↦ rw (lt→ltb i b.nbits lt) (elim (Bool-cases (bit b i)) [
    | inl taken ↦ rw taken (inr taken)
    | inr free ↦ rw free (
      lt,
      ground arith,
      set-Changes b i true _ v lt (bit_or-lt _ (i % 8) (v.bytes (i / 8)) (omega arith))
          (has_bit-set _ (i % 8) (v.bytes (i / 8)) (omega arith)),
    )
  ])
  | no ge ↦ rw (not-lt→ltb i b.nbits ge) (inl (omega arith))
])

-- Unmarking clears the bit and no other, and leaves a valid bitmap, if the bit is in range and set;
-- otherwise it panics.
pub unmark-Flips : (b : Bitmap) (i : ℕ) → IsValid b → Flips b i false (unmark b i)
unmark-Flips b i v = rw (unmark_lem b i v) (elim (dec_lt i b.nbits) [
  | yes lt ↦ rw (lt→ltb i b.nbits lt) (elim (Bool-cases (bit b i)) [
    | inl taken ↦ rw taken (
      lt,
      ground arith,
      set-Changes b i false _ v lt (bit_and-lt _ (i % 8) (v.bytes (i / 8)) (omega arith))
          (has_bit-clear _ (i % 8) (v.bytes (i / 8)) (omega arith)),
    )
    | inr free ↦ rw free (inr free)
  ])
  | no ge ↦ rw (not-lt→ltb i b.nbits ge) (inl (omega arith))
])

-- The bytes after a mark and an unmark of a clear bit are the bytes before.
unmark_marked :
    (b : Bitmap) (i : ℕ)
    → IsValid b
    → i < b.nbits
    → bit b i ≡ false
    → let w = get_or b.v (i / 8) 0 in
      set
        (set b.v (i / 8) (bit_or w (2 ^ (i % 8))))
        (i / 8)
        (bit_and (bit_or w (2 ^ (i % 8))) (255 - 2 ^ (i % 8)))
      ≡ b.v
unmark_marked b i v lt free =
    rw (set-set_self, clear-set _ (i % 8) (v.bytes (i / 8)) (omega arith) free, set-get_or)

-- Unmarking a bit that was just marked gives the bitmap back.
pub unmark-mark : (b c : Bitmap) (i : ℕ) → IsValid b → mark b i ≡ ok c → unmark c i ≡ ok b
unmark-mark b c i v e =
    let changed : Flips b i true (ok c) = rw e at (mark-Flips b i v) in
    let inside : i < 8 * length b.v = omega (arith, changed.0, v.words, v.small) in
    let in_range : i < c.nbits = omega (arith, changed.0, changed.2.nbits) in
    let taken : bit c i ≡ true = ground (arith, changed.2.bits i inside) in
    let free : bit b i ≡ false = ground (arith, changed.1) in
    let same_c : c
        ≡ record b { v = set b.v (i / 8) (bit_or (get_or b.v (i / 8) 0) (2 ^ (i % 8))) } =
      ground (arith, mark_lem b i v, changed.0) in
    let read_back : get_or c.v (i / 8) 0 ≡ bit_or (get_or b.v (i / 8) 0) (2 ^ (i % 8)) = rw same_c (
      ground (
        arith,
        get_or-set b.v (i / 8) (i / 8) (bit_or (get_or b.v (i / 8) 0) (2 ^ (i % 8))) 0
            (omega arith),
      )) in
    let bytes_back : set c.v (i / 8)
          (bit_and (bit_or (get_or b.v (i / 8) 0) (2 ^ (i % 8))) (255 - 2 ^ (i % 8)))
        ≡ b.v =
      rw same_c (unmark_marked b i v changed.0 free) in
    rw (unmark_lem c i changed.2.valid, lt→ltb i c.nbits in_range, taken, read_back)
      (λ k. ok (record { nbits = changed.2.nbits k; v = bytes_back k }))

-- `bitmap_isset` answers nonzero exactly where the bit is set.
pub isset-bit :
    (b : Bitmap) (i : ℕ)
    → IsValid b
    → i < 8 * length b.v
    → (x : ℕ) × (isset b i ≡ ok x) × (not (x == 0) ≡ bit b i)
unfolding isset
isset-bit b i v h = (
  bit_and (get_or b.v (i / 8) 0) (2 ^ (i % 8)),
  ground (arith, get_elem?-eq-get_or b.v (i / 8) 0),
  refl,
)
