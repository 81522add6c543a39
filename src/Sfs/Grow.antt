-- ===== src/Sfs/Grow.antt =====
-- `sfs_bmap` where it allocates: a direct block that the file does not have yet.
use cse.Base.{
  ℕ, ◌<◌, ◌≡◌, ◌≢◌, inr, refl, ◌∙◌, sym, true, false, length, arith, not-==, eq→==, lt→ltb, get_or,
  set, get_or-set,
}
use cse.Base.Outcome.{Outcome, ok, err, panic, Errno}
use cse.Bitmap.Spec.{bit, Changes}
use cse.Sfs.{Fs, Inode, sfs_ndirect, balloc, hand_back, bmap_direct, bmap}
use cse.Sfs.Blocks.{Mapped, Takes}
use cse.Sfs.Map.{block_at, InUse, hand_back-ok}

-- The file has a block that was free, and no other of its direct blocks changes; or the file is as
-- before.
abbrev pub Grows : Fs → Inode → ℕ → Fs × Inode × Outcome ℕ → Type 0
Grows fs sv i (fs', sv', ok b) =
    (bit fs.freemap b ≡ false)
    × InUse fs' b
    × (block_at fs' sv' i ≡ b)
    × ((j : ℕ) → j ≢ i → get_or sv'.direct j 0 ≡ get_or sv.direct j 0)
    × (sv'.indirect ≡ sv.indirect)
    × (sv'.dirty ≡ true)
    × Mapped fs'
Grows fs sv i (fs', sv', err e) = (sv' ≡ sv) × Takes fs (fs', err e)
Grows fs sv i (fs', sv', panic) = (sv' ≡ sv) × Takes fs (fs', panic)

module _ (fs : Fs) (h : Mapped fs) (sv : Inode) (i : ℕ) (low : i < sfs_ndirect)
    (full : length sv.direct ≡ sfs_ndirect) (absent : get_or sv.direct i 0 ≡ 0) where
  grown :
      (fs1 : Fs) (b : ℕ)
      → balloc fs ≡ (fs1, ok b)
      → hand_back fs1 b ≡ ok b
      → bmap fs sv i true ≡ (fs1, record sv { direct = set sv.direct i b; dirty = true }, ok b)
  unfolding bmap bmap_direct
  grown fs1 b e back = ground (arith, low, absent, e, back)

  failed : (fs1 : Fs) (x : Errno) → balloc fs ≡ (fs1, err x) → bmap fs sv i true ≡ (fs1, sv, err x)
  unfolding bmap bmap_direct
  failed fs1 x e = ground (arith, low, absent, e)

  crashed : (fs1 : Fs) → balloc fs ≡ (fs1, panic) → bmap fs sv i true ≡ (fs1, sv, panic)
  unfolding bmap bmap_direct
  crashed fs1 e = ground (arith, low, absent, e)

  in_use :
      (fs1 : Fs) (b : ℕ)
      → b < fs.nblocks
      → b < fs1.nblocks
      → Changes fs.freemap b true fs1.freemap
      → InUse fs1 b
  in_use fs1 b lt lt1 ch =
      (lt1, ch.bits b (omega (arith, h.covers, h.valid.words)) ∙ rw (eq→== {a = b} refl))

  step : (r : Fs × Outcome ℕ) → balloc fs ≡ r → Takes fs r → Grows fs sv i (bmap fs sv i true)
  step (fs1, ok b) e ((lt, free, below), ch, zeroed, others, n, mapped) =
      let used : InUse fs1 b = in_use fs1 b lt (omega (arith, n)) ch in
      rw (grown fs1 b e (hand_back-ok fs1 mapped b (inr used))) (
        free,
        used,
        rw (lt→ltb i sfs_ndirect low)
            (get_or-set sv.direct i i b 0 (omega (arith, full)) ∙ rw (eq→== {a = i} refl)),
        λ j ne.
            get_or-set sv.direct i j b 0 (omega (arith, full))
            ∙ rw (not-== {a = i} {b = j} (λ p. ne (sym p))),
        refl,
        refl,
        mapped,
      )
  step (fs1, err x) e t = rw (failed fs1 x e) (refl, t)
  step (fs1, panic) e t = rw (crashed fs1 e) (refl, t)
