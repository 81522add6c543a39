-- ===== src/Bitmap/Spec.antt =====
-- A bitmap as the set of its bits: what each operation of bitmap.c promises.
use cse.Base.{
  ℕ, ◌+◌, ◌*◌, ◌/◌, ◌%◌, ◌^◌, ◌≤◌, ◌<◌, ◌≡◌, ◌≢◌, ◌⊎◌, Bool, true, false, length, get_or, ◌==◌,
  if◌then◌else◌,
}
use cse.Base.Outcome.{Outcome, ok, err, panic, enospc}
use cse.Bitmap.{Bitmap}
use cse.Bitmap.Bytes.{has_bit}

-- Bit `i`, as `bitmap_isset` reads it.
abbrev pub bit : Bitmap → ℕ → Bool
bit b i = has_bit (get_or b.v (i / 8) 0) (i % 8)

-- The bytes cover `nbits` bits, and the bits past them are marked in use.
pub record IsValid (b : Bitmap) : Type 0 where
  pub small : b.nbits + 7 < 2 ^ 32
  pub words : length b.v ≡ (b.nbits + 7) / 8
  pub bytes : (k : ℕ) → get_or b.v k 0 < 256
  pub over : (i : ℕ) → b.nbits ≤ i → i < 8 * length b.v → bit b i ≡ true

-- `c` is `b` with bit `i` changed to `x`, and is valid.
pub record Changes (b : Bitmap) (i : ℕ) (x : Bool) (c : Bitmap) : Type 0 where
  pub valid : IsValid c
  pub nbits : c.nbits ≡ b.nbits
  pub bits : (j : ℕ) → j < 8 * length b.v → bit c j ≡ (if i == j then x else bit b j)

-- `bitmap_alloc` takes the lowest clear bit. It fails, with ENOSPC, only where no bit is clear, and
-- none of its assertions does.
abbrev pub Allocates : Bitmap → Outcome (Bitmap × ℕ) → Type 0
Allocates b (ok (c, i)) =
    (i < b.nbits) × (bit b i ≡ false) × ((j : ℕ) → j < i → bit b j ≡ true) × Changes b i true c
Allocates b (err e) = (e ≡ enospc) × ((j : ℕ) → j < b.nbits → bit b j ≡ true)
Allocates b panic = ⊥

-- `bitmap_mark` and `bitmap_unmark` change a bit from `not x` to `x`, and panic where it is `x`
-- already or lies past the end.
abbrev pub Flips : Bitmap → ℕ → Bool → Outcome Bitmap → Type 0
Flips b i x (ok c) = (i < b.nbits) × (bit b i ≢ x) × Changes b i x c
Flips b i x (err e) = ⊥
Flips b i x panic = (b.nbits ≤ i) ⊎ (bit b i ≡ x)
