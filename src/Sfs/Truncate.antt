-- ===== src/Sfs/Truncate.antt =====
-- `sfs_truncate` of os161/kern/fs/sfs/sfs_vnode.c: the blocks past a new length of a file go back to
-- the map. `len` is not negative.
use cse.Base.{
  ℕ, ◌+◌, ◌-◌, ◌/◌, Bool, true, false, ◌&&◌, ◌||◌, not, List, [], ◌∷◌, ltb, leb, ◌==◌,
  if◌then◌else◌,
}
use cse.Base.Outcome.{Outcome, ok, err, panic, ◌>>=◌}
use cse.Sfs.{Fs, Inode, sfs_dbperidb, sfs_ndirect, rblock, wblock, bfree}

-- `DIVROUNDUP(len, SFS_BLOCKSIZE)`
abbrev pub blocks_for : ℕ → ℕ
blocks_for len = (len + 511) / 512

-- The body of both loops: a block past the limit is freed and its entry zeroed.
unfoldable pub discard : Fs → Bool → ℕ → Outcome (Fs × ℕ × Bool)
discard fs past block =
    if past && not (block == 0)
    then bfree fs block >>= (λ fs1. ok (fs1, 0, true))
    else ok (fs, block, false)

-- A loop over the entries from index `i` on, which also answers whether an entry was zeroed.
unfoldable pub discard_loop : Fs → (ℕ → Bool) → ℕ → List ℕ → Outcome (Fs × List ℕ × Bool)
discard_loop fs past i [] = ok (fs, [], false)
discard_loop fs past i (block ∷ rest) = do
  one ← discard fs (past i) block
  let (fs1, block1, dirty1) = one
  more ← discard_loop fs1 past (i + 1) rest
  let (fs2, rest1, dirty2) = more
  ok (fs2, block1 ∷ rest1, dirty1 || dirty2)

-- The flag that the second loop collects.
abbrev pub hasnonzero : List ℕ → Bool
hasnonzero [] = false
hasnonzero (block ∷ rest) = not (block == 0) || hasnonzero rest

-- What becomes of the indirect block, with the entries that are left in `idbuf`.
unfoldable pub put_back :
    Fs
    → Inode
    → (idblock : ℕ) → List ℕ
    → (iddirty : Bool) → Outcome (Fs × Inode × Outcome (Unit {0}))
put_back fs sv idblock idbuf iddirty =
    let freed : Outcome (Fs × Inode × Outcome (Unit {0})) =
      bfree fs idblock >>= (λ fs1. ok (fs1, record sv { indirect = 0; dirty = true }, ok tt)) in
    let (fs1, w) = wblock fs idbuf idblock in
    if not (hasnonzero idbuf)
    then freed
    else if iddirty
    then ok (fs1, sv, w)
    else ok (fs, sv, ok tt)

unfoldable pub truncate_indirect :
    Fs → Inode → (blocklen : ℕ) → Outcome (Fs × Inode × Outcome (Unit {0}))
truncate_indirect fs sv blocklen =
    let idblock = sv.indirect in
    let loaded : Outcome (Fs × Inode × Outcome (Unit {0})) = elim (rblock fs idblock) [
      | ok idbuf ↦
          (discard_loop fs (λ j. ltb blocklen (sfs_ndirect + j)) 0 idbuf >>= λ r.
          put_back r.0 sv idblock r.1 r.2)
      | err e ↦ ok (fs, sv, err e)
      | panic ↦ panic
    ] in
    if ltb blocklen (sfs_ndirect + sfs_dbperidb - 1) && not (idblock == 0)
    then loaded
    else ok (fs, sv, ok tt)

-- The end of the function, which an error on the way does not reach.
abbrev pub resized : ℕ → Fs × Inode × Outcome (Unit {0}) → Fs × Inode × Outcome (Unit {0})
resized len (fs, sv, ok _) = (fs, record sv { size = len; dirty = true }, ok tt)
resized len (fs, sv, err e) = (fs, sv, err e)
resized len (fs, sv, panic) = (fs, sv, panic)

-- The state is that in which the function returns; a failed `assert` panics as a whole.
unfoldable pub truncate : Fs → Inode → (len : ℕ) → Outcome (Fs × Inode × Outcome (Unit {0}))
truncate fs sv len = do
  let blocklen = blocks_for len
  r ← discard_loop fs (λ i. leb blocklen i) 0 sv.direct
  let (fs1, direct1, dirty1) = r
  s ← truncate_indirect fs1 (record sv { direct = direct1; dirty = sv.dirty || dirty1 }) blocklen
  ok (resized len s)
