-- ===== src/Sfs/DirTests.antt =====
-- The search of a directory of two slots: a free one, and the inode 3 as "a".
use cse.Base.{
  ℕ, zero, suc, ◌<◌, ◌≡◌, refl, false, [], ◌∷◌, ◌++◌, arith, ◌==◌, if◌then◌else◌, replicate, ◌/◌,
  ◌≢◌, ◌∙◌, sym, get_or,
}
use cse.Base.Outcome.{ok}
use cse.Sfs.{sector, sfs_type_dir, done, Fs, Inode, zeros, bmap, bmap_direct, hand_back, bused}
use cse.Bitmap.{isset}
use cse.Sfs.Io.{
  io, io_body, whole_blocks, last_block, block_loop, partialio, partial_block, partial_move,
  load_block, uiomove, uiomove_loop,
}
use cse.Sfs.Blocks.{Mapped}
use cse.Sfs.Dir.{Sfd, decode, readdir, findname, dir_link, dir_unlink}
use cse.Sfs.Entries.{Sound, Directory, block_of, slot_bytes}
use cse.Sfs.Links.{Proper, Linked, Unlinked, dir_link-Linked, dir_unlink-Unlinked}
use cse.Sfs.Search.{matches, Result, findname-Finds}

abbrev disk_two : Fs
disk_two = record {
  freemap = record { nbits = 8; v = 0x0f ∷ [] };
  freemapdirty = false;
  nblocks = 8;
  disk = λ b. if b == 3 then replicate 16 0 ++ (3 ∷ 0x6100_0000 ∷ replicate 110 0) else zeros;
  device = λ writing b. done;
}

abbrev dir : Inode
dir = record {
  kind = sfs_type_dir;
  direct = 3 ∷ replicate 14 0;
  indirect = 0;
  size = 128;
  dirty = false;
}

abbrev entries : ℕ → Sfd
entries zero = record { ino = 0; name = replicate 60 0 }
entries (suc k) = record { ino = 3; name = 97 ∷ replicate 59 0 }

readable_zero : readdir disk_two dir 0 ≡ (disk_two, dir, ok (entries 0))
unfolding sector readdir io io_body whole_blocks last_block block_loop partialio partial_block
    partial_move load_block uiomove uiomove_loop bmap bmap_direct hand_back bused isset
readable_zero = refl

readable_one : readdir disk_two dir 1 ≡ (disk_two, dir, ok (entries 1))
unfolding sector readdir io io_body whole_blocks last_block block_loop partialio partial_block
    partial_move load_block uiomove uiomove_loop bmap bmap_direct hand_back bused isset
readable_one = refl

readable : (k : ℕ) → k < dir.size / 64 → readdir disk_two dir k ≡ (disk_two, dir, ok (entries k))
readable zero lt = readable_zero
readable (suc zero) lt = readable_one
readable (suc (suc k)) lt = absurd (omega (arith, lt))

findname-Finds_example : Result entries (97 ∷ []) 2 disk_two dir (findname disk_two dir (97 ∷ []))
findname-Finds_example = findname-Finds entries (97 ∷ []) disk_two dir refl refl readable

-- The blocks of the disk have 128 words.
disk_two-Mapped : Mapped disk_two
disk_two-Mapped = record {
  valid = record {
    small = omega arith;
    words = refl;
    bytes = bytes;
    over = λ i lo hi. absurd (omega arith);
  };
  covers = omega arith;
  addressable = omega arith;
  past = λ i lo hi. absurd (omega arith);
}
  where
    bytes : (k : ℕ) → get_or (0x0f ∷ []) k 0 < 256
    bytes zero = omega arith
    bytes (suc k) = omega arith

dir-Sound : (k : ℕ) → k < 2 → Sound disk_two dir (block_of k)
dir-Sound zero lt = record {
  low = omega arith;
  good = (refl, omega arith);
  writable = (refl, omega arith);
  full = refl;
  used = (omega arith, refl);
  nz = ground arith;
  apart = ground arith;
}
dir-Sound (suc zero) lt = record {
  low = omega arith;
  good = (refl, omega arith);
  writable = (refl, omega arith);
  full = refl;
  used = (omega arith, refl);
  nz = ground arith;
  apart = ground arith;
}
dir-Sound (suc (suc k)) lt = absurd (omega (arith, lt))

one_block : (k : ℕ) → k < 2 → block_of k ≡ 0
one_block k lt = omega (arith, lt)

dir-Directory : Directory disk_two dir entries
dir-Directory = record {
  mapped = disk_two-Mapped;
  good_indirect = (refl, omega arith);
  is_dir = refl;
  whole = refl;
  sound = dir-Sound;
  distinct = λ j k j_lt k_lt ne. absurd (ne (one_block j j_lt ∙ sym (one_block k k_lt)));
  holds = holds;
}
  where
    holds : (k : ℕ) → k < 2 → decode (slot_bytes disk_two dir k) ≡ entries k
    holds zero lt = refl
    holds (suc zero) lt = refl
    holds (suc (suc k)) lt = absurd (omega (arith, lt))

-- The name "b", which no slot has.
b-Proper : Proper (98 ∷ [])
b-Proper = record { short = omega arith; octets = (omega arith, tt); no_null = refl }

no_b : (j : ℕ) → j < 2 → matches (98 ∷ []) (entries j) ≡ false
no_b zero lt = refl
no_b (suc j) lt = refl

dir_link-Linked_example : Linked entries (98 ∷ []) 5 dir (dir_link disk_two dir (98 ∷ []) 5)
dir_link-Linked_example =
    dir_link-Linked disk_two dir entries dir-Directory (98 ∷ []) 5 b-Proper
      (λ e. absurd (ground (arith, e))) (omega arith) no_b 0 (omega arith) refl

dir_unlink-Unlinked_example : Unlinked entries 1 (97 ∷ []) dir (dir_unlink disk_two dir 1)
dir_unlink-Unlinked_example =
    dir_unlink-Unlinked disk_two dir entries dir-Directory (97 ∷ []) 1 (omega arith) only
  where
    only : (j : ℕ) → j < 2 → j ≢ 1 → matches (97 ∷ []) (entries j) ≡ false
    only zero lt ne = refl
    only (suc zero) lt ne = absurd (ne refl)
    only (suc (suc k)) lt ne = absurd (omega (arith, lt))
