-- ===== src/Sfs/ReadBack.antt =====
-- `sfs_partialio` reads back what it wrote.
use cse.Base.{
  ℕ, ◌+◌, ◌/◌, ◌<◌, ◌≤◌, ◌≡◌, ◌≢◌, inr, refl, ◌∙◌, true, false, List, ◌++◌, arith, length, take,
  drop, length-take,
}
use cse.Base.Outcome.{ok, err, panic}
use cse.Sfs.{Fs, Inode, sfs_ndirect, sfs_dbperidb}
use cse.Sfs.Blocks.{Mapped}
use cse.Sfs.Map.{CanRead, CanWrite, block_at, InUse}
use cse.Sfs.Io.{Uio, mk_kuio, blocksize, Io, partialio}
use cse.Sfs.Bytes.{Octets, take_all, take-append, drop-append}
use cse.Sfs.Partial.{contents}
use cse.Sfs.Transfer.{Reads, Writes, length-contents, partialio-Reads, partialio-Writes}

-- The buffer has the bytes.
abbrev pub Gives : List ℕ → Io → Type 0
Gives bytes (fs, sv, u, ok _) = u.passed ≡ bytes
Gives bytes (fs, sv, u, err e) = ⊥
Gives bytes (fs, sv, u, panic) = ⊥

-- In the state in which a write returns, a read of as many bytes at its place into `buf`.
abbrev pub then_read : Io → (buf : List ℕ) → (pos skip : ℕ) → Io
then_read (fs, sv, u, ok _) buf pos skip = partialio fs sv (mk_kuio buf pos false) skip (length buf)
then_read (fs, sv, u, err e) buf pos skip = (fs, sv, u, err e)
then_read (fs, sv, u, panic) buf pos skip = (fs, sv, u, panic)

Gives-Reads :
    (fs : Fs) (sv : Inode) (u : Uio) (skip len : ℕ) (bytes : List ℕ) (r : Io)
    → u.passed ++ take len (drop skip (contents fs sv (u.offset / blocksize))) ≡ bytes
    → Reads fs sv u skip len r
    → Gives bytes r
Gives-Reads fs sv u skip len bytes (fs', sv', u', ok _) e (same, same_sv, passed, off, left) =
    passed ∙ e
Gives-Reads fs sv u skip len bytes (fs', sv', u', err x) e r = absurd r
Gives-Reads fs sv u skip len bytes (fs', sv', u', panic) e r = absurd r

module _ (fs : Fs) (h : Mapped fs) (sv : Inode) (bytes buf : List ℕ) (pos skip : ℕ)
    (low : pos / blocksize < sfs_ndirect + sfs_dbperidb) (good_indirect : CanRead fs sv.indirect)
    (good : CanRead fs (block_at fs sv (pos / blocksize)))
    (writable : CanWrite fs (block_at fs sv (pos / blocksize)))
    (full : length (fs.disk (block_at fs sv (pos / blocksize))) ≡ 128)
    (used : InUse fs (block_at fs sv (pos / blocksize))) (nz : block_at fs sv (pos / blocksize) ≢ 0)
    (apart : block_at fs sv (pos / blocksize) ≢ sv.indirect) (octets : Octets bytes)
    (some_bytes : 0 < length bytes) (fits : skip + length bytes ≤ blocksize)
    (same_length : length buf ≡ length bytes) where
  step :
      (r : Io)
      → Writes fs sv (mk_kuio bytes pos true) skip (length bytes) r
      → Gives bytes (then_read r buf pos skip)
  step (fs', sv', u', ok _)
        (e, off, left, new, same_map, others, full', same_device, map, n, mapped) =
      rw e (
        Gives-Reads fs' sv (mk_kuio buf pos false) skip (length buf) bytes
          (partialio fs' sv (mk_kuio buf pos false) skip (length buf)) same
          (partialio-Reads fs' mapped sv (mk_kuio buf pos false) skip (length buf) low
            (rw same_device good_indirect) (rw (same_map (pos / blocksize), same_device) good)
            (rw (same_map (pos / blocksize)) full') (omega (arith, same_length, some_bytes))
            (omega (arith, same_length, fits)) (omega arith) (omega arith)
            (omega (arith, same_length, fits)) refl
            (inr
              (rw (same_map (pos / blocksize), n, map) used, rw (same_map (pos / blocksize)) nz))))
    where
      skipped : length (take skip (contents fs sv (pos / blocksize))) ≡ skip
      skipped = omega (
        arith,
        length-take skip (contents fs sv (pos / blocksize)),
        length-contents fs h sv (mk_kuio bytes pos true) skip (length bytes) low good_indirect good
            full some_bytes fits (omega arith) (omega arith) (omega (arith, fits)),
        fits,
      )

      same : take (length buf) (drop skip (contents fs' sv (pos / blocksize))) ≡ bytes
      same =
          rw (same_length, new, take_all bytes (length bytes) refl)
            (rw (drop-append (take skip (contents fs sv (pos / blocksize))) _ skip skipped)
              (take-append bytes _ (length bytes) refl))
  step (fs', sv', u', err x) w = absurd w
  step (fs', sv', u', panic) w = absurd w

  -- Some bytes that `sfs_partialio` wrote inside one block are what a read of as many at the same
  -- place gives, if the map covers the disk, of at most 2^23 blocks, the file has the block, which
  -- is in use and is not the indirect block, it can be read and written, and the indirect block, of
  -- a number below 2^23, can be read. Neither panics.
  pub partialio-read_back :
      Gives bytes
        (then_read (partialio fs sv (mk_kuio bytes pos true) skip (length bytes)) buf pos skip)
  partialio-read_back = step _ (
      partialio-Writes fs h sv (mk_kuio bytes pos true) skip (length bytes) low good_indirect good
        full some_bytes fits (omega arith) (omega arith) (omega (arith, fits)) writable refl used nz
        apart octets)
