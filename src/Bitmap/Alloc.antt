-- ===== src/Bitmap/Alloc.antt =====
-- `bitmap_alloc` against the set of bits.
use Prim.Native.Nat.{bit_or}
use cse.Base.{
  ℕ, zero, suc, ◌+◌, ◌-◌, ◌*◌, ◌/◌, ◌%◌, ◌^◌, ◌≤◌, ◌<◌, ◌≡◌, refl, ◌∙◌, inl, inr, true, arith,
  Option, none, some, ◌≢◌, length, get_or, set, get_elem?-eq-get_or, ◌==◌, lt→ltb, Bool-cases,
  dec_lt,
}
use cse.Bitmap.{Bitmap, take_bit, words_for, alloc_loop, alloc}
use cse.Bitmap.Bytes.{
  has_bit, FirstClear, find_clear-FirstClear, has_bit-full, eq_255, bit_or-lt, has_bit-set,
}
use cse.Bitmap.Spec.{bit, IsValid, Changes, Allocates}
use cse.Bitmap.Mark.{set-Changes}

module _ (b : Bitmap) (v : IsValid b) (ix : ℕ) (inside : ix < length b.v) where
  abbrev byte : ℕ
  byte = get_or b.v ix 0

  bit_of_byte : (k : ℕ) → k < 8 → bit b (ix * 8 + k) ≡ has_bit byte k
  bit_of_byte k h =
      let q : (ix * 8 + k) / 8 ≡ ix = omega arith in
      let r : (ix * 8 + k) % 8 ≡ k = omega arith in rw (q, r)

  -- The bits of the byte from its clear bit's index.
  take_bit-Changes :
      (k : ℕ)
      → k < 8
      → ix * 8 + k < b.nbits
      → Changes b (ix * 8 + k) true (record b { v = set b.v ix (bit_or byte (2 ^ k)) })
  take_bit-Changes k h lt =
      let q : (ix * 8 + k) / 8 ≡ ix = omega arith in
      let r : (ix * 8 + k) % 8 ≡ k = omega arith in
      rw q at (
        set-Changes b (ix * 8 + k) true (bit_or byte (2 ^ k)) v lt (bit_or-lt byte k (v.bytes ix) h)
          (rw (q, r) (has_bit-set byte k (v.bytes ix) h)))

  all_before :
      ((j : ℕ) → j < 8 * ix → bit b j ≡ true)
      → (k : ℕ) → k ≤ 8
      → ((p : ℕ) → 0 ≤ p → p < k → has_bit byte p ≡ true)
      → (j : ℕ) → j < ix * 8 + k
      → bit b j ≡ true
  all_before before k h set_below j hj = elim (dec_lt j (8 * ix)) [
    | yes old ↦ before j old
    | no new ↦
        let e : j ≡ ix * 8 + (j - 8 * ix) = omega arith in
        rw e (
          bit_of_byte (j - 8 * ix) (omega arith)
          ∙ set_below (j - 8 * ix) (omega arith) (omega arith))
  ]

  all_full :
      byte ≡ 255
      → ((j : ℕ) → j < 8 * ix → bit b j ≡ true)
      → (j : ℕ) → j < 8 * (ix + 1)
      → bit b j ≡ true
  all_full e before j h =
      all_before before 8 (omega arith) (λ p lo lt. rw e (has_bit-full p lt)) j (omega arith)

  take_bit-Allocates :
      ((j : ℕ) → j < 8 * ix → bit b j ≡ true)
      → byte ≢ 255
      → (r : Option ℕ) → FirstClear 8 0 byte r
      → Allocates b (take_bit b ix byte r)
  unfolding take_bit
  take_bit-Allocates before ne none f =
      ne (eq_255 byte (v.bytes ix) (λ p lt. f p (omega arith) (omega arith)))
  take_bit-Allocates before ne (some k) (lo, hi, clear, below) =
      let lt : ix * 8 + k < b.nbits = elim (dec_lt (ix * 8 + k) b.nbits) [
        | yes lt ↦ lt
        | no ge ↦
            cc (bit_of_byte k (omega arith), v.over (ix * 8 + k) (omega arith) (omega arith), clear)
      ] in
      rw (lt→ltb (ix * 8 + k) b.nbits lt) (
        lt,
        bit_of_byte k (omega arith) ∙ clear,
        all_before before k (omega arith) below,
        take_bit-Changes k (omega arith) lt,
      )

module _ (b : Bitmap) (v : IsValid b) where
  alloc_loop-Allocates :
      (n ix : ℕ)
      → ix + n ≡ length b.v
      → ((j : ℕ) → j < 8 * ix → bit b j ≡ true)
      → Allocates b (alloc_loop n ix b)
  unfolding alloc_loop
  alloc_loop-Allocates zero ix e before = (refl, λ j h. before j (omega (arith, v.words)))
  alloc_loop-Allocates (suc n) ix e before =
      rw (get_elem?-eq-get_or b.v ix 0 (omega arith), alloc_loop)
        (elim (Bool-cases (get_or b.v ix 0 == 255)) [
          | inl full ↦ rw full (
              alloc_loop-Allocates n (ix + 1) (omega arith)
                (all_full b v ix (omega arith) (ground arith) before))
          | inr free ↦ rw free (
              take_bit-Allocates b v ix (omega arith) before (ground arith) _
                (find_clear-FirstClear 8 0 _))
        ])

  -- On a valid bitmap `bitmap_alloc` returns the lowest clear bit, sets it and no other, and keeps the bitmap valid; it
  -- answers ENOSPC exactly where no bit is clear, and none of its assertions fails.
  pub alloc-Allocates : Allocates b (alloc b)
  unfolding alloc
  alloc-Allocates =
      alloc_loop-Allocates (words_for b.nbits) 0 (omega (arith, v.words, v.small))
        (λ j h. absurd (omega arith))
