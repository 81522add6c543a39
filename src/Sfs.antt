-- ===== src/Sfs.antt =====
-- os161/kern/fs/sfs/sfs_vnode.c: the block allocation of the SFS file system and the block map of a file.
-- A disk block is the list of its 128 words of 32 bits. The device answers each access of a block, a read
-- or a write: `sfs_rwblock` panics on EINVAL, which is the answer past the end of the device, and hands
-- on any other error when its retries are done. An operation returns the new state also where it
-- fails. `sv_dirty` and the inode are kept together.
pub mod Blocks
pub mod Map
pub mod Grow
pub mod Truncate
pub mod Held
pub mod Discard
pub mod Loop
pub mod Cut
pub mod Resize
pub mod Phase
pub mod Whole
pub mod Io
pub mod Bytes
pub mod Partial
pub mod Transfer
pub mod ReadBack
pub mod Dir
pub mod Search
pub mod Slots
pub mod Entries
pub mod Rewrite
pub mod Links
pub mod Zeros
mod Tests
mod DirTests
use cse.Base.{
  arith, ◌<◌, ◌≡◌, ℕ, zero, suc, ◌+◌, ◌-◌, ◌*◌, ◌/◌, ◌%◌, ◌^◌, Bool, true, false, ◌&&◌, not, Option,
  none, some, List, [], ◌∷◌, ltb, leb, ◌==◌, if◌then◌else◌, get_or, set, replicate,
}
use cse.Base.Outcome.{Outcome, ok, err, panic, einval, Errno, ◌>>=◌, ◌>>◌, assert}
use cse.Bitmap

abbrev pub sfs_dbperidb : ℕ
sfs_dbperidb = 128

abbrev pub sfs_ndirect : ℕ
sfs_ndirect = 15

-- What the last try of `d_io` answers: the block was moved, EINVAL, or another error.
pub data Answer : Type 0 where
  done invalid : Answer
  failed : Errno → Answer

pub record Fs : Type 0 where
  pub freemap : Bitmap.Bitmap
  pub freemapdirty : Bool
  pub nblocks : ℕ  -- `sp_nblocks` of the superblock
  pub disk : ℕ → List ℕ
  pub device : (writing : Bool) → (block : ℕ) → Answer  -- `sfs_device`

abbrev pub sfs_type_dir : ℕ
sfs_type_dir = 2

pub record Inode : Type 0 where
  pub kind : ℕ  -- `sfi_type`
  pub direct : List ℕ
  pub indirect : ℕ
  pub size : ℕ  -- `sfi_size`
  pub dirty : Bool

-- The end of `sfs_rwblock`.
abbrev pub rw_result : Answer → Outcome (Unit {0})
rw_result done = ok tt
rw_result invalid = panic
rw_result (failed e) = err e

-- The block that the offset `(off_t)block * SFS_BLOCKSIZE`, of 32 bits, stands for: a block from 2^23 on
-- is taken for another one. From 2^22 on the offset is negative, and past the end of any device.
unfoldable pub sector : ℕ → ℕ
sector block = block * 512 % 2 ^ 32 / 512

pub sector-same : (block : ℕ) → block < 2 ^ 23 → sector block ≡ block
unfolding sector
sector-same block lt = omega (arith, lt)

abbrev pub rblock : Fs → ℕ → Outcome (List ℕ)
rblock fs block = rw_result (fs.device false (sector block)) >> ok (fs.disk (sector block))

-- The block is on the disk where the device moved it.
abbrev pub after_write : Fs → Fs → Outcome (Unit {0}) → Fs × Outcome (Unit {0})
after_write fs fs1 (ok _) = (fs1, ok tt)
after_write fs fs1 (err e) = (fs, err e)
after_write fs fs1 panic = (fs, panic)

abbrev pub wblock : Fs → List ℕ → ℕ → Fs × Outcome (Unit {0})
wblock fs words block =
    let at = sector block in
    after_write fs (record fs { disk = λ b. if b == at then words else fs.disk b })
      (rw_result (fs.device true at))

abbrev pub zeros : List ℕ
zeros = replicate 128 0

abbrev pub clearblock : Fs → ℕ → Fs × Outcome (Unit {0})
clearblock fs block = wblock fs zeros block

-- A block that was marked is handed out once it is cleared.
abbrev pub handed_out : ℕ → Fs × Outcome (Unit {0}) → Fs × Outcome ℕ
handed_out block (fs, ok _) = (fs, ok block)
handed_out block (fs, err e) = (fs, err e)
handed_out block (fs, panic) = (fs, panic)

unfoldable pub balloc : Fs → Fs × Outcome ℕ
balloc fs = elim (Bitmap.alloc fs.freemap) [
  | ok x ↦
      (let fs1 = record fs { freemap = x.0; freemapdirty = true } in
        if leb fs.nblocks x.1 then (fs1, panic) else handed_out x.1 (clearblock fs1 x.1))
  | err e ↦ (fs, err e)
  | panic ↦ (fs, panic)
]

unfoldable pub bfree : Fs → ℕ → Outcome Fs
bfree fs diskblock = do
  b ← Bitmap.unmark fs.freemap diskblock
  ok (record fs { freemap = b; freemapdirty = true })

unfoldable pub bused : Fs → ℕ → Outcome Bool
bused fs diskblock =
    if leb fs.nblocks diskblock
    then panic
    else Bitmap.isset fs.freemap diskblock >>= λ x. ok (not (x == 0))

-- The end of `sfs_bmap`: a block that is not in use panics.
unfoldable pub hand_back : Fs → ℕ → Outcome ℕ
hand_back fs block = if block == 0 then ok 0 else bused fs block >>= λ used. assert used >> ok block

unfoldable pub bmap_direct : Fs → Inode → ℕ → Bool → Fs × Inode × Outcome ℕ
bmap_direct fs sv fileblock doalloc =
    let block = get_or sv.direct fileblock 0 in
    let found : Fs × Inode × Outcome ℕ = (fs, sv, hand_back fs block) in
    let (fs1, r) = balloc fs in
    let added : Fs × Inode × Outcome ℕ = elim r [
      | ok new ↦
          (fs1, record sv { direct = set sv.direct fileblock new; dirty = true }, hand_back fs1 new)
      | err e ↦ (fs1, sv, err e)
      | panic ↦ (fs1, sv, panic)
    ] in
    if (block == 0) && doalloc then added else found

-- From `block = idbuf[idoff]` on, with the indirect block in `idbuf`.
unfoldable pub bmap_entry :
    Fs → Inode → (idblock idoff : ℕ) → List ℕ → Bool → Fs × Inode × Outcome ℕ
bmap_entry fs sv idblock idoff idbuf doalloc =
    let block = get_or idbuf idoff 0 in
    let found : Fs × Inode × Outcome ℕ = (fs, sv, hand_back fs block) in
    let (fs1, r) = balloc fs in
    let added : Fs × Inode × Outcome ℕ = elim r [
      | ok new ↦
          (let (fs2, w) = wblock fs1 (set idbuf idoff new) idblock in
            elim w [
              | ok _ ↦ (fs2, sv, hand_back fs2 new)
              | err e ↦ (fs2, sv, err e)
              | panic ↦ (fs2, sv, panic)
            ])
      | err e ↦ (fs1, sv, err e)
      | panic ↦ (fs1, sv, panic)
    ] in
    if (block == 0) && doalloc then added else found

-- A file block past the direct ones, as the offset in the indirect block.
unfoldable pub bmap_indirect : Fs → Inode → ℕ → Bool → Fs × Inode × Outcome ℕ
bmap_indirect fs sv idoff doalloc =
    let idblock = sv.indirect in
    let loaded : Fs × Inode × Outcome ℕ = elim (rblock fs idblock) [
      | ok idbuf ↦ bmap_entry fs sv idblock idoff idbuf doalloc
      | err e ↦ (fs, sv, err e)
      | panic ↦ (fs, sv, panic)
    ] in
    let (fs1, r) = balloc fs in
    let added : Fs × Inode × Outcome ℕ = elim r [
      | ok new ↦ bmap_entry fs1 (record sv { indirect = new; dirty = true }) new idoff zeros doalloc
      | err e ↦ (fs1, sv, err e)
      | panic ↦ (fs1, sv, panic)
    ] in
    if (idblock == 0) && not doalloc then (fs, sv, ok 0) else if idblock == 0 then added else loaded

unfoldable pub bmap : Fs → Inode → ℕ → Bool → Fs × Inode × Outcome ℕ
bmap fs sv fileblock doalloc =
    let off = fileblock - sfs_ndirect in
    if ltb fileblock sfs_ndirect
    then bmap_direct fs sv fileblock doalloc
    else if ltb 0 (off / sfs_dbperidb)
    then (fs, sv, err einval)
    else bmap_indirect fs sv (off % sfs_dbperidb) doalloc

-- `sfs_sync_inode`: `ino` is the block of the inode, whose words the caller gives.
unfoldable pub sync_inode : Fs → Inode → ℕ → List ℕ → Fs × Inode × Outcome (Unit {0})
sync_inode fs sv ino words =
    let (fs1, r) = wblock fs words ino in
    let written : Fs × Inode × Outcome (Unit {0}) = elim r [
      | ok _ ↦ (fs1, record sv { dirty = false }, ok tt)
      | err e ↦ (fs1, sv, err e)
      | panic ↦ (fs1, sv, panic)
    ] in
    if sv.dirty then written else (fs, sv, ok tt)
