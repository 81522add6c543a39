-- ===== src/Sfs/Transfer.antt =====
-- What `sfs_partialio` reads and writes.
use cse.Base.{
  ℕ, ◌+◌, ◌-◌, ◌/◌, ◌%◌, ◌^◌, ◌<◌, ◌≤◌, ◌≡◌, ◌≢◌, inr, refl, ◌∙◌, sym, ap, true, false, List, ◌++◌,
  ◌==◌, if◌then◌else◌, arith, length, take, drop, length-take, length-drop, length-append,
  length-replicate, ℕ_discrete, not-==, eq→==,
}
use cse.Base.Outcome.{ok, err, panic}
use cse.Sfs.{Fs, Inode, sfs_ndirect, sfs_dbperidb}
use cse.Sfs.Blocks.{Mapped}
use cse.Sfs.Map.{CanRead, CanWrite, block_at, InUse, Ready}
use cse.Sfs.Io.{Uio, bytes_of, words_of, blocksize, Io, partialio}
use cse.Sfs.Bytes.{
  Octets, bytes_of-words_of, length-words_of, Octets-bytes_of, length-bytes_of, Octets-append,
  Octets-take, Octets-drop,
}
use cse.Sfs.Partial.{contents, partialio-moves, partial_move-read, partial_move-write}

-- The bytes were moved to the buffer, and nothing else changes.
abbrev pub Reads : Fs → Inode → Uio → (skip len : ℕ) → Io → Type 0
Reads fs sv u skip len (fs', sv', u', ok _) =
    (fs' ≡ fs)
    × (sv' ≡ sv)
    × (u'.passed ≡ u.passed ++ take len (drop skip (contents fs sv (u.offset / blocksize))))
    × (u'.offset ≡ u.offset + len)
    × (u'.resid ≡ u.resid - len)
Reads fs sv u skip len (fs', sv', u', err e) = ⊥
Reads fs sv u skip len (fs', sv', u', panic) = ⊥

-- The bytes of the buffer stand in the block, and nothing else changes.
abbrev pub Writes : Fs → Inode → Uio → (skip len : ℕ) → Io → Type 0
Writes fs sv u skip len (fs', sv', u', ok _) =
    (sv' ≡ sv)
    × (u'.offset ≡ u.offset + len)
    × (u'.resid ≡ u.resid - len)
    × (contents fs' sv (u.offset / blocksize)
        ≡ take skip (contents fs sv (u.offset / blocksize))
          ++ (take len u.base ++ drop len (drop skip (contents fs sv (u.offset / blocksize)))))
    × ((g : ℕ) → block_at fs' sv g ≡ block_at fs sv g)
    × ((c : ℕ) → c ≢ block_at fs sv (u.offset / blocksize) → fs'.disk c ≡ fs.disk c)
    × (length (fs'.disk (block_at fs sv (u.offset / blocksize))) ≡ 128)
    × (fs'.device ≡ fs.device)
    × (fs'.freemap ≡ fs.freemap)
    × (fs'.nblocks ≡ fs.nblocks)
    × Mapped fs'
Writes fs sv u skip len (fs', sv', u', err e) = ⊥
Writes fs sv u skip len (fs', sv', u', panic) = ⊥

test_self : (b : ℕ) (x y : List ℕ) → (if b == b then x else y) ≡ x
test_self b x y = rw (eq→== {a = b} refl) refl

contents_at :
    (fs : Fs) (sv : Inode) (f b : ℕ)
    → block_at fs sv f ≡ b
    → b ≢ 0
    → contents fs sv f ≡ bytes_of (fs.disk b)
contents_at fs sv f b e nz = rw (e, not-== nz) refl

-- A block that is not the indirect one does not change the map of the file.
block_at-elsewhere :
    (fs : Fs) (sv : Inode) (b : ℕ) (words : List ℕ)
    → b ≢ sv.indirect
    → (g : ℕ)
    → block_at (record fs { disk = λ c. if c == b then words else fs.disk c }) sv g
      ≡ block_at fs sv g
block_at-elsewhere fs sv b words apart g =
    rw (not-== {a = sv.indirect} {b = b} (λ e. apart (sym e))) refl

module _ (fs : Fs) (h : Mapped fs) (sv : Inode) (u : Uio) (skip len : ℕ)
    (low : u.offset / blocksize < sfs_ndirect + sfs_dbperidb)
    (good_indirect : CanRead fs sv.indirect)
    (good : CanRead fs (block_at fs sv (u.offset / blocksize)))
    (full : length (fs.disk (block_at fs sv (u.offset / blocksize))) ≡ 128) (pos : 0 < len)
    (fits : skip + len ≤ blocksize) (room : len ≤ length u.base) (left : len ≤ u.resid)
    (small : u.resid < 2 ^ 32) where
  abbrev b : ℕ
  b = block_at fs sv (u.offset / blocksize)

  abbrev old : List ℕ
  old = contents fs sv (u.offset / blocksize)

  pub length-contents : length old ≡ blocksize
  length-contents = elim (ℕ_discrete b 0) [
    | yes z ↦ rw (eq→== z) (length-replicate {A = ℕ} 512 0)
    | no nz ↦ rw (not-== nz) (length-bytes_of (fs.disk b) ∙ rw full refl)
  ]

  resid_lem : (u.resid + 2 ^ 32 - len) % 2 ^ 32 ≡ u.resid - len
  resid_lem = omega (arith, left, small)

  -- If the map covers the disk, of at most 2^23 blocks, and the file block is below 15 + 128, is in
  -- use on the disk or is not there, and it and the indirect block, of a number below 2^23, can be
  -- read, `sfs_partialio` reads some bytes inside the block, or zeros, into a buffer with room for
  -- them. It changes nothing on the disk, and does not panic.
  pub partialio-Reads :
      u.writing ≡ false
      → Ready fs sv (u.offset / blocksize) u.writing
      → Reads fs sv u skip len (partialio fs sv u skip len)
  partialio-Reads reading ready =
      rw
        (partialio-moves fs h sv u skip len low good_indirect good ready fits
          ∙ partial_move-read fs sv u b skip len old pos length-contents fits room left reading)
        (refl, refl, rw reading refl, refl, resid_lem)

  module _ (writable : CanWrite fs (block_at fs sv (u.offset / blocksize)))
      (writing : u.writing ≡ true) (used : InUse fs b) (nz : b ≢ 0) (apart : b ≢ sv.indirect)
      (octets : Octets u.base) where
    abbrev new : List ℕ
    new = take skip old ++ (take len u.base ++ drop len (drop skip old))

    abbrev after : Fs
    after = record fs { disk = λ c. if c == b then words_of new else fs.disk c }

    long : length new ≡ 512
    long = omega (
      arith,
      length-append (take skip old) (take len u.base ++ drop len (drop skip old)),
      length-append (take len u.base) (drop len (drop skip old)),
      length-take skip old,
      length-take len u.base,
      length-drop len (drop skip old),
      length-drop skip old,
      length-contents,
      fits,
      room,
    )

    new_bytes : bytes_of (words_of new) ≡ new
    new_bytes = bytes_of-words_of 128 new long all_octets
      where
        old_octets : Octets old
        old_octets = rw (not-== nz) (Octets-bytes_of (fs.disk b))

        all_octets : Octets new
        all_octets = Octets-append (take skip old) _ (Octets-take skip old old_octets) (
            Octets-append (take len u.base) _ (Octets-take len u.base octets)
              (Octets-drop len (drop skip old) (Octets-drop skip old old_octets)))

    new_contents : contents after sv (u.offset / blocksize) ≡ new
    new_contents =
        contents_at after sv (u.offset / blocksize) b
          (block_at-elsewhere fs sv b (words_of new) apart (u.offset / blocksize)) nz
        ∙ ap bytes_of (test_self b (words_of new) (fs.disk b))
        ∙ new_bytes

    -- If the map covers the disk, of at most 2^23 blocks, the file has the block, which is in use
    -- and is not the indirect block, it can be read and written, and the indirect block, of a
    -- number below 2^23, can be read, `sfs_partialio` puts some bytes of the buffer into the block,
    -- inside which they lie. It changes no other byte, and does not panic.
    pub partialio-Writes : Writes fs sv u skip len (partialio fs sv u skip len)
    partialio-Writes =
        rw
          (partialio-moves fs h sv u skip len low good_indirect good (inr (used, nz)) fits
            ∙ partial_move-write fs sv u b skip len old pos length-contents fits room left writing
                writable)
          (
            refl,
            refl,
            resid_lem,
            new_contents,
            block_at-elsewhere fs sv b (words_of new) apart,
            λ c ne. rw (not-== ne) refl,
            ap length (test_self b (words_of new) (fs.disk b)) ∙ length-words_of 128 new long,
            refl,
            refl,
            refl,
            record {
              valid = h.valid;
              covers = h.covers;
              addressable = h.addressable;
              past = h.past;
            },
          )
