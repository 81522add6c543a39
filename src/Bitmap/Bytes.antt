-- ===== src/Bitmap/Bytes.antt =====
-- The bits of one byte under the masks of bitmap.c, checked for all 256 bytes, and the two loops
-- over the bits of a byte.
use Prim.Native.Nat.{bit_and, bit_or}
use cse.Base.{
  ℕ, zero, suc, ◌+◌, ◌-◌, ◌^◌, ◌≤◌, ◌<◌, ◌≡◌, refl, inl, inr, Bool, true, false, not, ◌&&◌, ◌||◌,
  arith, Option, none, some, ltb, leb, ◌==◌, if◌then◌else◌, same, Bool-cases, dec_lt,
}
use cse.Base.Range.{all_below, all_below-elim}
use cse.Bitmap.{find_clear, mark_from}

abbrev pub has_bit : ℕ → ℕ → Bool
has_bit w o = not (bit_and w (2 ^ o) == 0)

-- Set a bit, clear a bit, and clear what was set, all within a byte.
abbrev one_bit_test : ℕ → ℕ → Bool
one_bit_test w o =
    ltb (bit_or w (2 ^ o)) 256
    && ltb (bit_and w (255 - 2 ^ o)) 256
    && (has_bit w o || (bit_and (bit_or w (2 ^ o)) (255 - 2 ^ o) == w))

one_bit_table : all_below 256 (λ w. all_below 8 (λ o. one_bit_test w o)) ≡ true
unfolding all_below
one_bit_table = refl

one_bit : (w o : ℕ) → w < 256 → o < 8 → one_bit_test w o ≡ true
one_bit w o hw ho =
    all_below-elim 8 (λ o. one_bit_test w o) o
      (all_below-elim 256 (λ w. all_below 8 (λ o. one_bit_test w o)) w one_bit_table hw) ho

-- Both changes seen at another bit.
abbrev two_bits_test : ℕ → ℕ → ℕ → Bool
two_bits_test w o p =
    same (has_bit (bit_or w (2 ^ o)) p) (if o == p then true else has_bit w p)
    && same (has_bit (bit_and w (255 - 2 ^ o)) p) (if o == p then false else has_bit w p)

two_bits_table :
    all_below 256 (λ w. all_below 8 (λ o. all_below 8 (λ p. two_bits_test w o p))) ≡ true
unfolding all_below
two_bits_table = refl

two_bits : (w o p : ℕ) → w < 256 → o < 8 → p < 8 → two_bits_test w o p ≡ true
two_bits w o p hw ho hp =
    all_below-elim 8 (λ p. two_bits_test w o p) p
      (all_below-elim 8 (λ o. all_below 8 (λ p. two_bits_test w o p)) o
        (all_below-elim 256 (λ w. all_below 8 (λ o. all_below 8 (λ p. two_bits_test w o p))) w
          two_bits_table hw)
        ho)
      hp

-- A byte with all its bits set is 0xff, and 0xff has all its bits set.
abbrev full_test : ℕ → Bool
full_test w = same (w == 255) (all_below 8 (λ p. has_bit w p))

full_table : all_below 256 (λ w. full_test w) ≡ true
unfolding all_below
full_table = refl

full : (w : ℕ) → w < 256 → full_test w ≡ true
full w hw = all_below-elim 256 (λ w. full_test w) w full_table hw

zero_table : all_below 8 (λ p. not (has_bit 0 p)) ≡ true
unfolding all_below
zero_table = refl

pub has_bit-zero : (p : ℕ) → p < 8 → has_bit 0 p ≡ false
has_bit-zero p h = ground (arith, all_below-elim 8 (λ p. not (has_bit 0 p)) p zero_table h)

module _ (w o : ℕ) (hw : w < 256) (ho : o < 8) where
  pub bit_or-lt : bit_or w (2 ^ o) < 256
  bit_or-lt = ground (arith, one_bit w o hw ho)

  pub bit_and-lt : bit_and w (255 - 2 ^ o) < 256
  bit_and-lt = ground (arith, one_bit w o hw ho)

  pub clear-set : has_bit w o ≡ false → bit_and (bit_or w (2 ^ o)) (255 - 2 ^ o) ≡ w
  clear-set h = ground (arith, one_bit w o hw ho)

  pub has_bit-set :
      (p : ℕ) → p < 8 → has_bit (bit_or w (2 ^ o)) p ≡ (if o == p then true else has_bit w p)
  has_bit-set p hp = ground (arith, two_bits w o p hw ho hp)

  pub has_bit-clear :
      (p : ℕ)
      → p < 8
      → has_bit (bit_and w (255 - 2 ^ o)) p ≡ (if o == p then false else has_bit w p)
  has_bit-clear p hp = ground (arith, two_bits w o p hw ho hp)

-- The same, as statements.
pub has_bit-full : (p : ℕ) → p < 8 → has_bit 255 p ≡ true
unfolding all_below
has_bit-full p hp = ground (arith, all_below-elim 8 (λ p. has_bit 255 p) p full_table_255 hp)
  where
    full_table_255 : all_below 8 (λ p. has_bit 255 p) ≡ true
    full_table_255 = refl

all_below-intro : (n : ℕ) (p : ℕ → Bool) → ((x : ℕ) → x < n → p x ≡ true) → all_below n p ≡ true
unfolding all_below
all_below-intro zero p h = refl
all_below-intro (suc n) p h =
    ground (arith, h n (omega arith), all_below-intro n p (λ x lt. h x (omega arith)))

pub eq_255 : (w : ℕ) → w < 256 → ((p : ℕ) → p < 8 → has_bit w p ≡ true) → w ≡ 255
eq_255 w hw h = ground (arith, full w hw, all_below-intro 8 (λ p. has_bit w p) h)

-- What the inner loop of `bitmap_alloc` answers.
abbrev pub FirstClear : ℕ → ℕ → ℕ → Option ℕ → Type 0
FirstClear n o w none = (p : ℕ) → o ≤ p → p < o + n → has_bit w p ≡ true
FirstClear n o w (some k) =
    (o ≤ k) × (k < o + n) × (has_bit w k ≡ false) × ((p : ℕ) → o ≤ p → p < k → has_bit w p ≡ true)

FirstClear-skip :
    (n o w : ℕ) (r : Option ℕ)
    → has_bit w o ≡ true
    → FirstClear n (o + 1) w r
    → FirstClear (suc n) o w r
FirstClear-skip n o w none h f = λ p lo hi. elim (dec_lt o p) [
  | yes lt ↦ f p (omega arith) (omega arith)
  | no ge ↦ let e : p ≡ o = omega arith in rw e h
]
FirstClear-skip n o w (some k) h f = (
  omega arith,
  omega arith,
  f.2,
  λ p lo hi. elim (dec_lt o p) [
    | yes lt ↦ f.3 p (omega arith) hi
    | no ge ↦ let e : p ≡ o = omega arith in rw e h
  ],
)

pub find_clear-FirstClear : (n o w : ℕ) → FirstClear n o w (find_clear n o w)
unfolding find_clear
find_clear-FirstClear zero o w = λ p lo hi. absurd (omega arith)
find_clear-FirstClear (suc n) o w = elim (Bool-cases (bit_and w (2 ^ o) == 0)) [
  | inl clear ↦ rw clear (omega arith, omega arith, ground arith, λ p lo hi. absurd (omega arith))
  | inr taken ↦ rw taken (
      FirstClear-skip n o w (find_clear n (o + 1) w) (ground arith)
        (find_clear-FirstClear n (o + 1) w))
]

-- `mark_from` sets the bits from `o` on, and leaves a byte.
pub mark_from-lt : (n o w : ℕ) → w < 256 → o + n ≤ 8 → mark_from n o w < 256
unfolding mark_from
mark_from-lt zero o w hw h = hw
mark_from-lt (suc n) o w hw h =
    mark_from-lt n (o + 1) (bit_or w (2 ^ o)) (bit_or-lt w o hw (omega arith)) (omega arith)

pub has_bit-mark_from :
    (n o w p : ℕ)
    → w < 256
    → o + n ≤ 8
    → p < 8
    → has_bit (mark_from n o w) p ≡ (if leb o p && ltb p (o + n) then true else has_bit w p)
unfolding mark_from
has_bit-mark_from zero o w p hw h hp = ground arith
has_bit-mark_from (suc n) o w p hw h hp = ground (
  arith,
  has_bit-mark_from n (o + 1) (bit_or w (2 ^ o)) p (bit_or-lt w o hw (omega arith)),
  has_bit-set w o hw (omega arith) p hp,
)
