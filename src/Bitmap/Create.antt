-- ===== src/Bitmap/Create.antt =====
-- `bitmap_create` makes a valid bitmap with every bit clear.
use cse.Base.{
  ℕ, ◌+◌, ◌-◌, ◌*◌, ◌/◌, ◌%◌, ◌^◌, ◌<◌, ◌≡◌, ◌≢◌, refl, true, false, arith, some, get_or, set,
  replicate, length-set, length-replicate, get_or-set, get_or-replicate, leb, ◌==◌, if◌then◌else◌,
  ℕ_discrete,
}
use cse.Base.Outcome.{ok}
use cse.Bitmap.{Bitmap, mark_from, create}
use cse.Bitmap.Bytes.{has_bit-zero, mark_from-lt, has_bit-mark_from}
use cse.Bitmap.Spec.{bit, IsValid}

-- A bitmap just made: valid, of the size asked for, and with no bit in use.
pub record IsFresh (n : ℕ) (b : Bitmap) : Type 0 where
  pub valid : IsValid b
  pub nbits : b.nbits ≡ n
  pub clear : (i : ℕ) → i < n → bit b i ≡ false

module _ (n : ℕ) (small : n + 7 < 2 ^ 32) where
  abbrev pub words : ℕ
  words = (n + 7) / 8

  abbrev whole : Bitmap
  whole = record { nbits = n; v = replicate words 0 }

  abbrev pub partial : Bitmap
  partial = record {
    nbits = n;
    v = set (replicate words 0) (n / 8) (mark_from (8 - n % 8) (n % 8) 0);
  }

  whole-IsFresh : n % 8 ≡ 0 → IsFresh n whole
  whole-IsFresh e = record {
    valid = record {
      small = small;
      words = length-replicate {A = ℕ} words 0;
      bytes = λ k. rw (get_or-replicate {A = ℕ} words k 0) (omega arith);
      over = λ i lo hi. absurd (omega (arith, length-replicate {A = ℕ} words 0));
    };
    nbits = refl;
    clear =
        λ i h. rw (get_or-replicate {A = ℕ} words (i / 8) 0) (has_bit-zero (i % 8) (omega arith));
  }

  -- A byte of the bitmap whose last byte is partly in use.
  partial_byte :
      n % 8 ≢ 0
      → (k : ℕ) → get_or partial.v k 0 ≡ (if n / 8 == k then mark_from (8 - n % 8) (n % 8) 0 else 0)
  partial_byte ne k = ground (
    arith,
    get_or-set (replicate words 0) (n / 8) k (mark_from (8 - n % 8) (n % 8) 0) 0,
    length-replicate {A = ℕ} words 0,
    get_or-replicate {A = ℕ} words k 0,
  )

  partial-bit : n % 8 ≢ 0 → (i : ℕ) → i < 8 * words → bit partial i ≡ leb n i
  partial-bit ne i h = ground (
    arith,
    partial_byte ne (i / 8),
    has_bit-mark_from (8 - n % 8) (n % 8) 0 (i % 8),
    has_bit-zero (i % 8),
  )

  pub partial-IsFresh : n % 8 ≢ 0 → IsFresh n partial
  partial-IsFresh ne = record {
    valid = record {
      small = small;
      words = omega (
        arith,
        length-set (replicate words 0) (n / 8) (mark_from (8 - n % 8) (n % 8) 0),
        length-replicate {A = ℕ} words 0,
      );
      bytes = λ k. ground (arith, partial_byte ne k, mark_from-lt (8 - n % 8) (n % 8) 0);
      over = λ i lo hi. ground (
        arith,
        partial-bit ne i,
        length-set (replicate words 0) (n / 8) (mark_from (8 - n % 8) (n % 8) 0),
        length-replicate {A = ℕ} words 0,
      );
    };
    nbits = refl;
    clear = λ i h. ground (arith, partial-bit ne i);
  }

  -- When both blocks of memory are found, `bitmap_create` returns a valid bitmap of `n` bits, all clear; none of its assertions fails.
  pub create-IsFresh : (b : Bitmap) × (create true true n ≡ ok (some b)) × IsFresh n b
  unfolding create
  create-IsFresh = elim (ℕ_discrete (n % 8) 0) [
    | yes e ↦ (whole, ground arith, whole-IsFresh e)
    | no ne ↦ (partial, ground arith, partial-IsFresh ne)
  ]
