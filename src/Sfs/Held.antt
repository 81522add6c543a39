-- ===== src/Sfs/Held.antt =====
-- The blocks that a list of block numbers holds, as a set that the map of SFS marks as in use.
use cse.Base.{
  mem, mem-append, ℕ, ◌<◌, ◌≡◌, inl, inr, refl, ◌∙◌, true, false, List, [], ◌∷◌, ◌++◌, ◌==◌,
  if◌then◌else◌, arith,
}
use cse.Base.Outcome.{Outcome, ok, err, panic}
use cse.Bitmap
use cse.Bitmap.Spec.{bit, IsValid, Changes, Flips}
use cse.Bitmap.Mark.{unmark-Flips}
use cse.Sfs.{Fs, bfree}

-- The blocks of a list of entries, in which 0 is no block.
abbrev pub nonzero : List ℕ → List ℕ
nonzero [] = []
nonzero (x ∷ xs) = if x == 0 then nonzero xs else x ∷ nonzero xs

-- Different blocks, which the map marks as in use.
abbrev pub Held : Bitmap.Bitmap → List ℕ → Type 0
Held m [] = Unit {0}
Held m (x ∷ xs) = (x < m.nbits) × (bit m x ≡ true) × (mem x xs ≡ false) × Held m xs

-- Two lists of held blocks, one after the other.
pub Held-split :
    (m : Bitmap.Bitmap) (xs ys : List ℕ)
    → Held m (xs ++ ys)
    → Held m xs × Held m ys × ((j : ℕ) → mem j xs ≡ true → mem j ys ≡ false)
Held-split m [] ys h = (tt, h, λ j e. absurd (ground (arith, e)))
Held-split m (x ∷ xs) ys (lt, used, apart, h) =
    let (hx, hy, disjoint) = Held-split m xs ys h in
    (
      (lt, used, ground (arith, mem-append x xs ys, apart), hx),
      hy,
      λ j e. ground (arith, e, disjoint j, mem-append x xs ys, apart),
    )

pub Held-join :
    (m : Bitmap.Bitmap) (xs ys : List ℕ)
    → Held m xs
    → Held m ys
    → ((j : ℕ) → mem j xs ≡ true → mem j ys ≡ false)
    → Held m (xs ++ ys)
Held-join m [] ys hx hy disjoint = hy
Held-join m (x ∷ xs) ys (lt, used, apart, hx) hy disjoint = (
  lt,
  used,
  mem-append x xs ys ∙ ground (arith, apart, disjoint x),
  Held-join m xs ys hx hy (λ j e. disjoint j (ground (arith, e))),
)

-- The blocks of the indirect block and the direct ones change places around it.
pub Held-turn :
    (m : Bitmap.Bitmap) (x : ℕ) (ls rs : List ℕ) → Held m (ls ++ (x ∷ rs)) → Held m (rs ++ (x ∷ ls))
Held-turn m x ls rs h =
    let (hl, hb, disjoint) = Held-split m ls (x ∷ rs) h in
    let (lt, used, apart, hrs) = hb in
    Held-join m rs (x ∷ ls) hrs (lt, used, ground (arith, disjoint x), hl)
      (λ j e. ground (arith, e, disjoint j, apart))

pub Held-mem :
    (m : Bitmap.Bitmap) (xs : List ℕ) (j : ℕ) → Held m xs → mem j xs ≡ true → bit m j ≡ true
Held-mem m [] j h e = absurd (ground (arith, e))
Held-mem m (x ∷ xs) j (lt, used, apart, h) e = ground (arith, used, e, Held-mem m xs j h)

-- Freeing a block that is not among them leaves the others held.
pub Held-Changes :
    (m c : Bitmap.Bitmap) (x : ℕ) (zs : List ℕ)
    → IsValid m
    → Changes m x false c
    → mem x zs ≡ false
    → Held m zs
    → Held c zs
Held-Changes m c x [] v ch away h = tt
Held-Changes m c x (z ∷ zs) v ch away (lt, used, apart, h) = (
  omega (arith, lt, ch.nbits),
  ground (arith, ch.bits z (omega (arith, lt, v.words)), used, away),
  apart,
  Held-Changes m c x zs v ch (ground (arith, away)) h,
)

module _ (fs : Fs) (x : ℕ) (v : IsValid fs.freemap) (lt : x < fs.freemap.nbits)
    (used : bit fs.freemap x ≡ true) where
  freed :
      (c : Bitmap.Bitmap)
      → Bitmap.unmark fs.freemap x ≡ ok c
      → bfree fs x ≡ ok (record fs { freemap = c; freemapdirty = true })
  unfolding bfree
  freed c e = ground (arith, e)

  pub bfree-Changes :
      (c : Bitmap.Bitmap) × (bfree fs x ≡ ok (record fs { freemap = c; freemapdirty = true }))
      × Changes fs.freemap x false c
  bfree-Changes = go (Bitmap.unmark fs.freemap x) refl (unmark-Flips fs.freemap x v)
    where
      go :
          (r : Outcome Bitmap.Bitmap)
          → Bitmap.unmark fs.freemap x ≡ r
          → Flips fs.freemap x false r
          → (c : Bitmap.Bitmap) × (bfree fs x ≡ ok (record fs { freemap = c; freemapdirty = true }))
            × Changes fs.freemap x false c
      go (ok c) e (in_range, flipped, ch) = (c, freed c e, ch)
      go (err e) p f = absurd f
      go panic e (inl past) = absurd (omega (arith, past, lt))
      go panic e (inr free) = absurd (cc (free, used))
