-- ===== src/Sfs/Partial.antt =====
-- `sfs_partialio` against the bytes of a file.
use cse.Base.{
  ℕ, suc, ◌+◌, ◌-◌, ◌/◌, ◌<◌, ◌≤◌, ◌≡◌, inl, inr, refl, ◌∙◌, true, false, List, ◌++◌, leb, ◌==◌,
  if◌then◌else◌, arith, length, take, drop, replicate, length-drop, ℕ_discrete, not-==, eq→==,
  lt→ltb,
}
use cse.Base.Outcome.{ok}
use cse.Sfs.{sector-same, Fs, Inode, sfs_ndirect, sfs_dbperidb}
use cse.Sfs.Blocks.{Mapped}
use cse.Sfs.Map.{CanRead, CanWrite, block_at, Ready, bmap-block_at}
use cse.Sfs.Io.{
  Uio, smaller, moved, uiomove_loop, uiomove, bytes_of, words_of, blocksize, load_block,
  partial_move, partial_block, partialio,
}

le→leb : {a b : ℕ} → a ≤ b → leb a b ≡ true
le→leb {a} {b} h = ground arith

module _ (ptr : List ℕ) (n : ℕ) (u : Uio) (pos : 0 < n) (room : n ≤ length u.base)
    (inside : n ≤ length ptr) (left : n ≤ u.resid) where
  smaller_lem : smaller (length u.base) n ≡ n
  smaller_lem = ground (arith, room)

  moves_once :
      (fuel : ℕ)
      → uiomove_loop (suc (suc fuel)) ptr n u
        ≡ ok (take n (if u.writing then u.base else ptr) ++ drop n ptr, moved ptr n u)
  unfolding uiomove_loop
  moves_once fuel =
      let z : n - n ≡ 0 = omega arith in
      rw
        (
          lt→ltb 0 n pos,
          lt→ltb 0 u.resid (omega (arith, pos, left)),
          smaller_lem,
          not-== {a = n} {b = 0} (omega (arith, pos)),
          le→leb {a = n} {b = length ptr} inside,
          z,
        )
        refl

  -- A move inside both buffers is done in one round.
  pub uiomove-once :
      uiomove ptr n u ≡ ok (take n (if u.writing then u.base else ptr) ++ drop n ptr, moved ptr n u)
  unfolding uiomove
  uiomove-once = let e : n + 1 ≡ suc (suc (n - 1)) = omega (arith, pos) in rw e (moves_once (n - 1))

-- The 512 bytes of a file block, which are 0 where the file has no disk block.
abbrev pub contents : Fs → Inode → ℕ → List ℕ
contents fs sv fileblock =
    if block_at fs sv fileblock == 0
    then replicate blocksize 0
    else bytes_of (fs.disk (block_at fs sv fileblock))

module _ (fs : Fs) (h : Mapped fs) (sv : Inode) (u : Uio) (skip len : ℕ)
    (low : u.offset / blocksize < sfs_ndirect + sfs_dbperidb)
    (good_indirect : CanRead fs sv.indirect)
    (good : CanRead fs (block_at fs sv (u.offset / blocksize)))
    (ready : Ready fs sv (u.offset / blocksize) u.writing) (fits : skip + len ≤ blocksize) where
  abbrev b : ℕ
  b = block_at fs sv (u.offset / blocksize)

  abbrev old : List ℕ
  old = contents fs sv (u.offset / blocksize)

  loaded : load_block fs u.writing b ≡ ok old
  unfolding load_block
  loaded = elim (ℕ_discrete b 0) [
    | yes z ↦ rw (eq→== z, read_only z ready) refl
    | no nz ↦ rw (not-== nz, sector-same b good.1, good.0) refl
  ]
    where
      read_only : b ≡ 0 → Ready fs sv (u.offset / blocksize) u.writing → u.writing ≡ false
      read_only z (inl (e, reading)) = reading
      read_only z (inr (used, nz)) = absurd (nz z)

  partial_block_lem : partial_block fs sv u skip len b ≡ partial_move fs sv u b skip len old
  unfolding partial_block
  partial_block_lem = ground (arith, loaded)

  mapped_lem : partialio fs sv u skip len ≡ partial_block fs sv u skip len b
  unfolding partialio
  mapped_lem =
      ground (
        arith,
        fits,
        bmap-block_at fs h sv u.writing (u.offset / blocksize) low good_indirect ready,
      )

  pub partialio-moves : partialio fs sv u skip len ≡ partial_move fs sv u b skip len old
  partialio-moves = mapped_lem ∙ partial_block_lem

module _ (fs : Fs) (sv : Inode) (u : Uio) (b skip len : ℕ) (iobuf : List ℕ) (pos : 0 < len)
    (full : length iobuf ≡ blocksize) (fits : skip + len ≤ blocksize) (room : len ≤ length u.base)
    (left : len ≤ u.resid) where
  behind : len ≤ length (drop skip iobuf)
  behind = omega (arith, length-drop skip iobuf, full, fits)

  pub partial_move-read :
      u.writing ≡ false
      → partial_move fs sv u b skip len iobuf ≡ (fs, sv, moved (drop skip iobuf) len u, ok tt)
  unfolding partial_move
  partial_move-read reading =
      ground (arith, uiomove-once (drop skip iobuf) len u pos room behind left, reading)

  -- The bytes of the block behind a write.
  abbrev pub written : List ℕ
  written = take skip iobuf ++ (take len u.base ++ drop len (drop skip iobuf))

  pub partial_move-write :
      u.writing ≡ true
      → CanWrite fs b
      → partial_move fs sv u b skip len iobuf ≡ (
        record fs { disk = λ c. if c == b then words_of written else fs.disk c },
        sv,
        moved (drop skip iobuf) len u,
        ok tt,
      )
  unfolding partial_move
  partial_move-write writing good = ground (
    arith,
    uiomove-once (drop skip iobuf) len u pos room behind left,
    writing,
    sector-same b good.1,
    good.0,
  )
