-- ===== src/Sfs/Discard.antt =====
-- One entry in the two loops of `sfs_truncate`: what the loop then does to the whole list.
use cse.Base.{
  mem, mem-append, ℕ, zero, suc, ◌+◌, ◌<◌, ◌≡◌, ◌≢◌, inl, inr, refl, ◌∙◌, sym, ap, Bool, true,
  false, ◌||◌, List, ◌∷◌, ◌++◌, ◌==◌, if◌then◌else◌, get_or, length, arith, Bool-cases, not-==,
}
use cse.Bitmap
use cse.Bitmap.Spec.{bit, IsValid, Changes}
use cse.Sfs.{Fs}
use cse.Sfs.Held.{nonzero, Held}

-- The entries `xs`, from index `i` on, became `kept`; `ys` are held as well.
pub record Discards (fs : Fs) (past : ℕ → Bool) (i : ℕ) (xs ys : List ℕ) (fs' : Fs) (kept : List ℕ)
    (dirty : Bool) : Type 0 where
  pub valid : IsValid fs'.freemap
  pub nbits : fs'.freemap.nbits ≡ fs.freemap.nbits
  pub disk : fs'.disk ≡ fs.disk
  pub device : fs'.device ≡ fs.device
  pub held : Held fs'.freemap (nonzero kept ++ ys)
  pub entries : (k : ℕ) → get_or kept k 0 ≡ (if past (i + k) then 0 else get_or xs k 0)
  pub same_length : length kept ≡ length xs
  pub bits :
      (j : ℕ)
      → j < fs.freemap.nbits
      → bit fs'.freemap j ≡ (if mem j (nonzero xs) then mem j (nonzero kept) else bit fs.freemap j)
  pub fewer : (j : ℕ) → mem j (nonzero xs) ≡ false → mem j (nonzero kept) ≡ false
  pub clean : dirty ≡ false → kept ≡ xs

-- The entry stays.
module _ (fs : Fs) (past : ℕ → Bool) (i block : ℕ) (rest ys : List ℕ) (fs2 : Fs) (kept : List ℕ)
    (dirty : Bool) where
  pub stays_zero :
      block ≡ 0
      → Discards fs past (i + 1) rest ys fs2 kept dirty
      → Discards fs past i (block ∷ rest) ys fs2 (block ∷ kept) dirty
  stays_zero z d = rw z (record {
    valid = d.valid;
    nbits = d.nbits;
    disk = d.disk;
    device = d.device;
    held = d.held;
    entries = at;
    same_length = ap suc d.same_length;
    bits = d.bits;
    fewer = d.fewer;
    clean = λ e. ap (λ l. 0 ∷ l) (d.clean e);
  })
    where
      at : (k : ℕ) → get_or (0 ∷ kept) k 0 ≡ (if past (i + k) then 0 else get_or (0 ∷ rest) k 0)
      at zero = elim (Bool-cases (past (i + 0))) [ inl t ↦ rw t refl | inr f ↦ rw f refl ]
      at (suc k) = let e : i + suc k ≡ i + 1 + k = omega arith in rw e (d.entries k)

  pub stays :
      block ≢ 0
      → past i ≡ false
      → Held fs.freemap (block ∷ (nonzero rest ++ ys))
      → Discards fs past (i + 1) rest ys fs2 kept dirty
      → Discards fs past i (block ∷ rest) ys fs2 (block ∷ kept) dirty
  stays nz keep (lt, used, apart, h) d = record {
    valid = d.valid;
    nbits = d.nbits;
    disk = d.disk;
    device = d.device;
    held = rw (not-== nz) (
      omega (arith, lt, d.nbits),
      d.bits block lt ∙ rw away used,
      mem-append block (nonzero kept) ys ∙ rw (d.fewer block away) away_ys,
      d.held,
    );
    entries = at;
    same_length = ap suc d.same_length;
    bits = λ j lt. rw (not-== nz) (bits j lt);
    fewer = λ j. rw (not-== nz) (fewer j);
    clean = λ e. ap (λ l. block ∷ l) (d.clean e);
  }
    where
      split : (mem block (nonzero rest) || mem block ys) ≡ false
      split = sym (mem-append block (nonzero rest) ys) ∙ apart

      away : mem block (nonzero rest) ≡ false
      away = ground (arith, split)

      away_ys : mem block ys ≡ false
      away_ys = ground (arith, split)

      at :
          (k : ℕ)
          → get_or (block ∷ kept) k 0 ≡ (if past (i + k) then 0 else get_or (block ∷ rest) k 0)
      at zero = let e : i + 0 ≡ i = omega arith in rw (e, keep) refl
      at (suc k) = let e : i + suc k ≡ i + 1 + k = omega arith in rw e (d.entries k)

      bits :
          (j : ℕ)
          → j < fs.freemap.nbits
          → bit fs2.freemap j ≡ (
              if mem j (block ∷ nonzero rest)
              then mem j (block ∷ nonzero kept)
              else bit fs.freemap j)
      bits j lt = ground (arith, d.bits j lt, d.bits block, used, away)

      fewer : (j : ℕ) → mem j (block ∷ nonzero rest) ≡ false → mem j (block ∷ nonzero kept) ≡ false
      fewer j e = ground (arith, d.fewer j)

  -- The entry is zeroed and its block freed.
  pub goes :
      (c : Bitmap.Bitmap)
      → block ≢ 0
      → past i ≡ true
      → IsValid fs.freemap
      → Changes fs.freemap block false c
      → Held fs.freemap (block ∷ (nonzero rest ++ ys))
      → Discards
          (record fs { freemap = c; freemapdirty = true })
          past
          (i + 1)
          rest
          ys
          fs2
          kept
          dirty
      → Discards fs past i (block ∷ rest) ys fs2 (0 ∷ kept) true
  goes c nz drop v ch (lt, used, apart, h) d = record {
    valid = d.valid;
    nbits = d.nbits ∙ ch.nbits;
    disk = d.disk;
    device = d.device;
    held = d.held;
    entries = at;
    same_length = ap suc d.same_length;
    bits = λ j lt. rw (not-== nz) (bits j lt);
    fewer = λ j. rw (not-== nz) (fewer j);
    clean = λ e. absurd (ground (arith, e));
  }
    where
      away : mem block (nonzero rest) ≡ false
      away = ground (arith, mem-append block (nonzero rest) ys, apart)

      at : (k : ℕ) → get_or (0 ∷ kept) k 0 ≡ (if past (i + k) then 0 else get_or (block ∷ rest) k 0)
      at zero = let e : i + 0 ≡ i = omega arith in rw (e, drop) refl
      at (suc k) = let e : i + suc k ≡ i + 1 + k = omega arith in rw e (d.entries k)

      after :
          (j : ℕ)
          → j < fs.freemap.nbits
          → bit fs2.freemap j ≡ (
              if mem j (nonzero rest)
              then mem j (nonzero kept)
              else if block == j
              then false
              else bit fs.freemap j)
      after j lt =
          d.bits j (omega (arith, lt, ch.nbits)) ∙ rw (ch.bits j (omega (arith, lt, v.words))) refl

      bits :
          (j : ℕ)
          → j < fs.freemap.nbits
          → bit fs2.freemap j
            ≡ (if mem j (block ∷ nonzero rest) then mem j (nonzero kept) else bit fs.freemap j)
      bits j lt = ground (arith, after j lt, d.fewer block, away)

      fewer : (j : ℕ) → mem j (block ∷ nonzero rest) ≡ false → mem j (nonzero kept) ≡ false
      fewer j e = ground (arith, d.fewer j)
