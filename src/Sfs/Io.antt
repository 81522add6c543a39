-- ===== src/Sfs/Io.antt =====
-- os161/kern/userprog/uio.c, for a uio in kernel space, and the reading and writing of files in
-- os161/kern/fs/sfs/sfs_vnode.c: sfs_partialio, sfs_blockio and sfs_io.
use cse.Base.{
  ℕ, zero, suc, ◌+◌, ◌-◌, ◌*◌, ◌/◌, ◌%◌, ◌^◌, Bool, true, ◌&&◌, not, List, [], ◌∷◌, ◌++◌, ltb, leb,
  ◌==◌, if◌then◌else◌, length, take, drop, replicate,
}
use cse.Base.Outcome.{Outcome, ok, err, panic, ◌>>=◌, ◌>>◌, assert}
use cse.Sfs.{Fs, Inode, rw_result, rblock, wblock, bmap}

-- `base` is the buffer from `iov_kbase` on, of `iov_len` bytes, and `passed` what lies before it.
pub record Uio : Type 0 where
  pub passed : List ℕ
  pub base : List ℕ
  pub offset : ℕ
  pub resid : ℕ
  pub writing : Bool  -- `uio_rw == UIO_WRITE`

abbrev pub mk_kuio : List ℕ → (pos : ℕ) → Bool → Uio
mk_kuio kbuf pos writing = record {
  passed = [];
  base = kbuf;
  offset = pos;
  resid = length kbuf;
  writing = writing;
}

abbrev pub smaller : ℕ → ℕ → ℕ
smaller a b = if ltb b a then b else a

-- One `memmove` of `size` bytes, which the buffer at `ptr` takes in or gives: the uio behind it.
abbrev pub moved : List ℕ → ℕ → Uio → Uio
moved ptr size u = record u {
  passed = u.passed ++ take size (if u.writing then u.base else ptr);
  base = drop size u.base;
  offset = u.offset + size;
  resid = (u.resid + 2 ^ 32 - size) % 2 ^ 32;
}

-- The loop of `uiomove`. The buffer at `ptr` has the bytes `ptr`; it is answered with what it holds
-- then. A piece that is longer than the buffer is a fault.
unfoldable pub uiomove_loop : (fuel : ℕ) → List ℕ → ℕ → Uio → Outcome (List ℕ × Uio)
uiomove_loop zero ptr n u = panic
uiomove_loop (suc fuel) ptr n u =
    let size = smaller (length u.base) n in
    let piece = take size (if u.writing then u.base else ptr) in
    let more = uiomove_loop fuel (drop size ptr) (n - size) (moved ptr size u) in
    if ltb 0 n && ltb 0 u.resid
    then (do
      assert (not (size == 0))
      assert (leb size (length ptr))
      rest ← more
      let (behind, u1) = rest
      ok (piece ++ behind, u1))
    else ok (ptr, u)

-- Each round moves a byte at least.
unfoldable pub uiomove : List ℕ → ℕ → Uio → Outcome (List ℕ × Uio)
uiomove ptr n u = uiomove_loop (n + 1) ptr n u

unfoldable pub uiomovezeros_loop : (fuel n : ℕ) → Uio → Outcome Uio
uiomovezeros_loop zero n u = panic
uiomovezeros_loop (suc fuel) n u =
    let amt = smaller 16 n in
    let more = uiomove (replicate 16 0) amt u >>= λ r. uiomovezeros_loop fuel (n - amt) r.1 in
    if ltb 0 n then more else ok u

unfoldable pub uiomovezeros : ℕ → Uio → Outcome Uio
uiomovezeros n u = assert (not u.writing) >> uiomovezeros_loop (n + 1) n u

-- The bytes of a block in memory, and back: the machine has its high byte first.
abbrev pub bytes_of : List ℕ → List ℕ
bytes_of [] = []
bytes_of (w ∷ ws) =
    (w / 2 ^ 24 % 2 ^ 8) ∷ (w / 2 ^ 16 % 2 ^ 8) ∷ (w / 2 ^ 8 % 2 ^ 8) ∷ (w % 2 ^ 8) ∷ bytes_of ws

abbrev pub words_of : List ℕ → List ℕ
words_of (a ∷ b ∷ c ∷ d ∷ bs) = (((a * 2 ^ 8 + b) * 2 ^ 8 + c) * 2 ^ 8 + d) ∷ words_of bs
words_of _ = []

abbrev pub blocksize : ℕ
blocksize = 512

-- The state that a function returns in, and its result; where the kernel panics, the state before.
abbrev pub Io : Type 0
Io = Fs × Inode × Uio × Outcome (Unit {0})

-- The block in `iobuf`: zeros where the file has none, which a read only may find.
unfoldable pub load_block : Fs → Bool → ℕ → Outcome (List ℕ)
load_block fs writing diskblock =
    if diskblock == 0
    then assert (not writing) >> ok (replicate blocksize 0)
    else rblock fs diskblock >>= λ words. ok (bytes_of words)

-- `sfs_partialio` from the `uiomove` on.
unfoldable pub partial_move : Fs → Inode → Uio → (diskblock skip len : ℕ) → List ℕ → Io
partial_move fs sv u diskblock skip len iobuf = elim (uiomove (drop skip iobuf) len u) [
  | ok (behind, u1) ↦
      (let (fs1, w) = wblock fs (words_of (take skip iobuf ++ behind)) diskblock in
        if u1.writing then (fs1, sv, u1, w) else (fs, sv, u1, ok tt))
  | err e ↦ (fs, sv, u, err e)
  | panic ↦ (fs, sv, u, panic)
]

-- With the block found.
unfoldable pub partial_block : Fs → Inode → Uio → (skip len diskblock : ℕ) → Io
partial_block fs sv u skip len diskblock = elim (load_block fs u.writing diskblock) [
  | ok iobuf ↦ partial_move fs sv u diskblock skip len iobuf
  | err e ↦ (fs, sv, u, err e)
  | panic ↦ (fs, sv, u, panic)
]

unfoldable pub partialio : Fs → Inode → Uio → (skipstart len : ℕ) → Io
partialio fs sv u skipstart len =
    let (fs1, sv1, r) = bmap fs sv (u.offset / blocksize) u.writing in
    let mapped : Io = elim r [
      | ok diskblock ↦ partial_block fs1 sv1 u skipstart len diskblock
      | err e ↦ (fs1, sv1, u, err e)
      | panic ↦ (fs1, sv1, u, panic)
    ] in
    if leb (skipstart + len) blocksize then mapped else (fs, sv, u, panic)

-- `sfs_rwblock` moves the block at `uio_offset` between the device and the uio. A device that fails has
-- moved nothing.
unfoldable pub rwblock : Fs → Uio → Outcome (Fs × Uio)
rwblock fs u =
    let block = u.offset / blocksize in
    let moving =
      uiomove (if u.writing then replicate blocksize 0 else bytes_of (fs.disk block)) blocksize u in
    let stored : List ℕ × Uio → Fs × Uio = λ r.
      if u.writing
      then (record fs { disk = λ b. if b == block then words_of r.0 else fs.disk b }, r.1)
      else (fs, r.1) in
    rw_result (fs.device u.writing block) >> (moving >>= (λ r. ok (stored r)))

-- `sfs_blockio` with the block found, and the uio put back in place afterwards.
unfoldable pub block_move : Fs → Inode → Uio → (diskblock : ℕ) → Io
block_move fs sv u diskblock =
    let there = record u { offset = diskblock * blocksize; resid = blocksize } in
    let back : Uio → Uio = λ v. record v {
      offset = v.offset - diskblock * blocksize + u.offset;
      resid = v.resid + u.resid - blocksize;
    } in
    let done : Io = elim (rwblock fs there) [
      | ok (fs1, u1) ↦ (fs1, sv, back u1, ok tt)
      | err e ↦ (fs, sv, u, err e)
      | panic ↦ (fs, sv, u, panic)
    ] in
    let zeroed : Io = elim (uiomovezeros blocksize u) [
      | ok u1 ↦ (fs, sv, u1, ok tt)
      | err e ↦ (fs, sv, u, err e)
      | panic ↦ (fs, sv, u, panic)
    ] in
    if diskblock == 0
    then (if u.writing then (fs, sv, u, panic) else zeroed)
    else if leb blocksize u.resid
    then done
    else (fs, sv, u, panic)

unfoldable pub blockio : Fs → Inode → Uio → Io
blockio fs sv u =
    let (fs1, sv1, r) = bmap fs sv (u.offset / blocksize) u.writing in
    elim r [
      | ok diskblock ↦ block_move fs1 sv1 u diskblock
      | err e ↦ (fs1, sv1, u, err e)
      | panic ↦ (fs1, sv1, u, panic)
    ]

-- Go on where there was no error; `goto out` otherwise.
abbrev pub and_then : Io → (Fs → Inode → Uio → Io) → Io
and_then (fs, sv, u, ok _) next = next fs sv u
and_then (fs, sv, u, err e) next = (fs, sv, u, err e)
and_then (fs, sv, u, panic) next = (fs, sv, u, panic)

-- The loop over the whole blocks.
unfoldable pub block_loop : ℕ → Fs → Inode → Uio → Io
block_loop zero fs sv u = (fs, sv, u, ok tt)
block_loop (suc n) fs sv u = and_then (blockio fs sv u) (block_loop n)

-- The end of a file, in the block that it ends in.
unfoldable pub last_block : Fs → Inode → Uio → Io
last_block fs sv u =
    let rest = partialio fs sv u 0 u.resid in
    if leb blocksize u.resid
    then (fs, sv, u, panic)
    else if ltb 0 u.resid
    then rest
    else (fs, sv, u, ok tt)

unfoldable pub whole_blocks : Fs → Inode → Uio → Io
whole_blocks fs sv u =
    let rest = and_then (block_loop (u.resid / blocksize) fs sv u) last_block in
    if u.resid == 0
    then (fs, sv, u, ok tt)
    else if u.offset % blocksize == 0
    then rest
    else (fs, sv, u, panic)

-- `sfs_io` up to `out`, past the test for the end of the file.
unfoldable pub io_body : Fs → Inode → Uio → Io
io_body fs sv u =
    let blkoff = u.offset % blocksize in
    let first = partialio fs sv u blkoff (smaller (blocksize - blkoff) u.resid) in
    and_then (if blkoff == 0 then (fs, sv, u, ok tt) else first) whole_blocks

-- From `out` on.
abbrev pub io_out : (extraresid : ℕ) → Io → Io
io_out extraresid (fs, sv, u, r) = (
  fs,
  if u.writing && ltb sv.size u.offset then record sv { size = u.offset; dirty = true } else sv,
  record u { resid = u.resid + extraresid },
  r,
)

unfoldable pub io : Fs → Inode → Uio → Io
io fs sv u =
    let endpos = u.offset + u.resid in
    let extraresid = endpos - sv.size in
    let clipped = io_out extraresid (io_body fs sv (record u { resid = u.resid - extraresid })) in
    let whole = io_out 0 (io_body fs sv u) in
    if u.writing
    then whole
    else if leb sv.size u.offset
    then (fs, sv, u, ok tt)
    else if ltb sv.size endpos
    then (if ltb extraresid u.resid then clipped else (fs, sv, u, panic))
    else whole
