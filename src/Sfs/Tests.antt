-- ===== src/Sfs/Tests.antt =====
-- sfs_vnode.c on a disk of eight blocks, and the theorems at inputs that meet their hypotheses.
use cse.Base.{
  ℕ, zero, suc, ◌<◌, ◌≡◌, refl, true, false, inl, inr, [], ◌∷◌, arith, get_or, ◌==◌, ◌*◌,
  if◌then◌else◌, replicate,
}
use cse.Base.Outcome.{ok, eio}
use cse.Sfs.{done, failed, Fs, Inode, zeros, bmap}
use cse.Sfs.Blocks.{Mapped}
use cse.Sfs.Map.{bmap-block_at}
use cse.Sfs.Held.{Held}
use cse.Sfs.Io.{Uio, mk_kuio, partialio, uiomovezeros}
use cse.Sfs.Zeros.{Zeroed, uiomovezeros-Zeroed}
use cse.Sfs.Transfer.{Reads, Writes, partialio-Reads, partialio-Writes}
use cse.Sfs.ReadBack.{Gives, then_read, partialio-read_back}

-- The superblock, the root directory, the map and one file block are in use.
abbrev small : Fs
small = record {
  freemap = record { nbits = 8; v = 0x0f ∷ [] };
  freemapdirty = false;
  nblocks = 8;
  disk = λ b. zeros;
  device = λ writing b. if b == 7 then failed eio else done;
}

abbrev file : Inode
file = record {
  kind = 1;
  direct = 3 ∷ 0 ∷ 0 ∷ 0 ∷ 0 ∷ 0 ∷ 0 ∷ 0 ∷ 0 ∷ 0 ∷ 0 ∷ 0 ∷ 0 ∷ 0 ∷ 0 ∷ [];
  indirect = 0;
  size = 512;
  dirty = false;
}

small-Mapped : Mapped small
small-Mapped = record {
  valid = record {
    small = omega arith;
    words = refl;
    bytes = bytes;
    over = λ i lo hi. absurd (omega arith);
  };
  covers = omega arith;
  addressable = omega arith;
  past = λ i lo hi. absurd (omega arith);
}
  where
    bytes : (k : ℕ) → get_or (0x0f ∷ []) k 0 < 256
    bytes zero = omega arith
    bytes (suc k) = omega arith

bmap-block_at_example : bmap small file 0 false ≡ (small, file, ok 3)
bmap-block_at_example =
    bmap-block_at small small-Mapped file false 0 (omega arith) (refl, omega arith)
      (inr ((omega arith, refl), omega arith))

-- A file of 17 blocks of which it has the first and the last two, through the indirect block 4.
abbrev deep : Fs
deep = record small {
  freemap = record { nbits = 8; v = 0x7f ∷ [] };
  disk = λ b. if b == 4 then 5 ∷ 6 ∷ replicate 126 0 else zeros;
}

abbrev long : Inode
long = record file { indirect = 4; size = 17 * 512 }

-- The second block of the file does not exist, and reads as zeros.
partialio-Reads_example :
    Reads small file
      (mk_kuio (1 ∷ 1 ∷ []) 512 false)
      0
      2
      (partialio small file (mk_kuio (1 ∷ 1 ∷ []) 512 false) 0 2)
partialio-Reads_example =
    partialio-Reads small small-Mapped file (mk_kuio (1 ∷ 1 ∷ []) 512 false) 0 2 (omega arith)
      (refl, omega arith) (refl, omega arith) refl (omega arith) (omega arith) (omega arith)
      (omega arith) (omega arith) refl (inl (refl, refl))

partialio-Writes_example :
    Writes small file
      (mk_kuio (7 ∷ 8 ∷ 9 ∷ []) 20 true)
      20
      3
      (partialio small file (mk_kuio (7 ∷ 8 ∷ 9 ∷ []) 20 true) 20 3)
partialio-Writes_example =
    partialio-Writes small small-Mapped file (mk_kuio (7 ∷ 8 ∷ 9 ∷ []) 20 true) 20 3 (omega arith)
      (refl, omega arith) (refl, omega arith) refl (omega arith) (omega arith) (omega arith)
      (omega arith) (omega arith) (refl, omega arith) refl (omega arith, refl) (omega arith)
      (omega arith) (omega arith, (omega arith, (omega arith, tt)))

partialio-read_back_example : Gives (7 ∷ 8 ∷ 9 ∷ []) (
    then_read (partialio small file (mk_kuio (7 ∷ 8 ∷ 9 ∷ []) 20 true) 20 3) (0 ∷ 0 ∷ 0 ∷ []) 20 20)
partialio-read_back_example =
    partialio-read_back small small-Mapped file (7 ∷ 8 ∷ 9 ∷ []) (0 ∷ 0 ∷ 0 ∷ []) 20 20
      (omega arith) (refl, omega arith) (refl, omega arith) (refl, omega arith) refl
      (omega arith, refl) (omega arith) (omega arith)
      (omega arith, (omega arith, (omega arith, tt))) (omega arith) (omega arith) refl

-- A read of 20 zeros, in two rounds, into a buffer of 24 bytes.
abbrev hole : Uio
hole = mk_kuio (replicate 24 7) 100 false

uiomovezeros-Zeroed_example : (u1 : Uio) × (uiomovezeros 20 hole ≡ ok u1) × Zeroed 20 hole u1
uiomovezeros-Zeroed_example =
    uiomovezeros-Zeroed 20 hole refl (omega arith) (omega arith) (omega arith)
