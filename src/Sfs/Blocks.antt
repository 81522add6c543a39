-- ===== src/Sfs/Blocks.antt =====
-- `sfs_balloc`, `sfs_bfree` and `sfs_bused` against the set of the blocks in use.
use cse.Base.{◌^◌, ℕ, ◌≤◌, ◌<◌, ◌≡◌, ◌≢◌, ◌⊎◌, true, false}
use cse.Base.Outcome.{Outcome, ok, err, panic, enospc}
use cse.Bitmap
use cse.Bitmap.Spec.{bit, IsValid, Changes}
use cse.Sfs.{Fs, Answer, invalid, failed, zeros}

-- The map covers the disk, whose blocks an offset can stand for, and the bits past the end of the
-- disk are marked.
pub record Mapped (fs : Fs) : Type 0 where
  pub valid : IsValid fs.freemap
  pub covers : fs.nblocks ≤ fs.freemap.nbits
  pub addressable : fs.nblocks ≤ 2 ^ 23  -- an offset has 32 bits
  pub past : (i : ℕ) → fs.nblocks ≤ i → i < fs.freemap.nbits → bit fs.freemap i ≡ true

-- The block was free, with none free below it.
abbrev pub Lowest : Fs → (block : ℕ) → Type 0
Lowest fs block =
    (block < fs.nblocks)
    × (bit fs.freemap block ≡ false)
    × ((j : ℕ) → j < block → bit fs.freemap j ≡ true)

-- The lowest free block cannot be written: it stays marked, and the disk is as before.
abbrev pub Unwritten : Fs → (fs' : Fs) → Answer → Type 0
Unwritten fs fs' a =
    (block : ℕ) × Lowest fs block
    × (fs.device true block ≡ a)
    × Changes fs.freemap block true fs'.freemap
    × (fs'.disk ≡ fs.disk)

-- The block was free, and is in use and zero now; nothing else on the disk changes. Where there is an
-- error, no block is free, or the lowest free one cannot be written.
abbrev pub Takes : Fs → Fs × Outcome ℕ → Type 0
Takes fs (fs', ok block) =
    Lowest fs block
    × Changes fs.freemap block true fs'.freemap
    × (fs'.disk block ≡ zeros)
    × ((b : ℕ) → b ≢ block → fs'.disk b ≡ fs.disk b)
    × (fs'.nblocks ≡ fs.nblocks)
    × Mapped fs'
Takes fs (fs', err e) =
    ((e ≡ enospc) × ((j : ℕ) → j < fs.nblocks → bit fs.freemap j ≡ true) × (fs' ≡ fs))
    ⊎ Unwritten fs fs' (failed e)
Takes fs (fs', panic) = Unwritten fs fs' invalid
