-- ===== src/Sfs/Entries.antt =====
-- The entries of a directory and the bytes of its slots: sfs_readdir and sfs_writedir of sfs_vnode.c.
use cse.Base.{
  ℕ, ◌+◌, ◌-◌, ◌*◌, ◌/◌, ◌%◌, ◌^◌, ◌<◌, ◌≤◌, ◌≡◌, ◌≢◌, inr, refl, ◌∙◌, ap, false, List, [], ◌∷◌,
  ◌++◌, ◌==◌, if◌then◌else◌, arith, length, take, drop, replicate, length-take, ◌⊎◌, inl,
}
use cse.Base.Outcome.{ok, err, panic}
use cse.Sfs.{Fs, Inode, sfs_type_dir, sfs_ndirect, sfs_dbperidb}
use cse.Sfs.Blocks.{Mapped}
use cse.Sfs.Map.{CanRead, CanWrite, block_at, InUse}
use cse.Sfs.Io.{Uio, bytes_of, mk_kuio, blocksize, Io, partialio}
use cse.Sfs.Bytes.{
  Octets, Octets-append, Octets-bytes_of, take_before, take-append, drop-append, drop-drop,
  drop_past,
}
use cse.Sfs.Partial.{contents}
use cse.Sfs.Transfer.{Reads, partialio-Reads}
use cse.Sfs.Dir.{Sfd, encode, decode, read_answer, readdir}
use cse.Sfs.Slots.{io_reads}

-- A block of a file that can be read and written, apart from the indirect block.
pub record Sound (fs : Fs) (sv : Inode) (g : ℕ) : Type 0 where
  pub low : g < sfs_ndirect + sfs_dbperidb
  pub good : CanRead fs (block_at fs sv g)
  pub writable : CanWrite fs (block_at fs sv g)
  pub full : length (fs.disk (block_at fs sv g)) ≡ 128
  pub used : InUse fs (block_at fs sv g)
  pub nz : block_at fs sv g ≢ 0
  pub apart : block_at fs sv g ≢ sv.indirect

-- The block that a slot is in, and its bytes there.
abbrev pub block_of : (slot : ℕ) → ℕ
block_of slot = slot * 64 / blocksize

abbrev pub slot_bytes : Fs → Inode → (slot : ℕ) → List ℕ
slot_bytes fs sv slot = take 64 (drop (slot * 64 % blocksize) (contents fs sv (block_of slot)))

-- The file is a directory of whole entries, in sound blocks, no two of which are one.
pub record Directory (fs : Fs) (sv : Inode) (entries : ℕ → Sfd) : Type 0 where
  pub mapped : Mapped fs
  pub good_indirect : CanRead fs sv.indirect
  pub is_dir : sv.kind ≡ sfs_type_dir
  pub whole : sv.size % 64 ≡ 0
  pub sound : (k : ℕ) → k < sv.size / 64 → Sound fs sv (block_of k)
  pub distinct :
      (j k : ℕ)
      → j < sv.size / 64
      → k < sv.size / 64
      → block_of j ≢ block_of k
      → block_at fs sv (block_of j) ≢ block_at fs sv (block_of k)
  pub holds : (k : ℕ) → k < sv.size / 64 → decode (slot_bytes fs sv k) ≡ entries k

module _ (fs : Fs) (sv : Inode) (entries : ℕ → Sfd) (d : Directory fs sv entries) (k : ℕ)
    (there : k < sv.size / 64) where
  abbrev reader : Uio
  reader = mk_kuio (replicate 64 0) (k * 64) false

  inside_block : k * 64 % blocksize + 64 ≤ blocksize
  inside_block = omega arith

  readdir_step :
      (r : Io)
      → partialio fs sv reader (k * 64 % blocksize) 64 ≡ r
      → Reads fs sv reader (k * 64 % blocksize) 64 r
      → readdir fs sv k ≡ (fs, sv, ok (entries k))
  unfolding readdir
  readdir_step (fs1, sv1, u1, ok x) e (same, same_sv, passed, off, left) =
      let one_io =
        io_reads fs sv reader fs1 sv1 u1 (omega arith) (omega arith) inside_block e left
          (rw same_sv (omega (arith, off, there))) refl (omega (arith, there)) in
      ap read_answer one_io
      ∙ rw (left, passed, same, same_sv) (ap (λ (sd : Sfd). (fs, sv, ok sd)) (d.holds k there))
  readdir_step (fs1, sv1, u1, err x) e r = absurd r
  readdir_step (fs1, sv1, u1, panic) e r = absurd r

  -- A slot of a directory is read without a change of state.
  pub readdir-Directory : readdir fs sv k ≡ (fs, sv, ok (entries k))
  readdir-Directory =
      let s = d.sound k there in
      readdir_step (partialio fs sv reader (k * 64 % blocksize) 64) refl (
        partialio-Reads fs d.mapped sv reader (k * 64 % blocksize) 64 s.low d.good_indirect s.good
          s.full (omega arith) inside_block (omega arith) (omega arith) (omega arith) refl
          (inr (s.used, s.nz)))

-- What `sfs_dir` takes for an entry: an inode number, and 60 bytes of name.
pub record Fit (sd : Sfd) : Type 0 where
  pub ino : sd.ino < 2 ^ 32
  pub length_name : length sd.name ≡ 60
  pub octets : Octets sd.name

module _ (sd : Sfd) (fit : Fit sd) where
  pub length-encode : length (encode sd) ≡ 64
  length-encode = omega (arith, fit.length_name)

  pub decode-encode : decode (encode sd) ≡ sd
  decode-encode = ap (λ i. record { ino = i; name = sd.name }) (omega (arith, fit.ino))

  pub Octets-encode : Octets (encode sd)
  Octets-encode =
      Octets-append (bytes_of (sd.ino ∷ [])) sd.name (Octets-bytes_of (sd.ino ∷ [])) fit.octets

abbrev pub updated : (ℕ → Sfd) → (slot : ℕ) → Sfd → ℕ → Sfd
updated entries slot sd k = if k == slot then sd else entries k

abbrev pub spliced : (old mid : List ℕ) (off : ℕ) → List ℕ
spliced old mid off = take off old ++ (mid ++ drop 64 (drop off old))

-- A piece of a list that has other pieces of it replaced.
module _ (old mid : List ℕ) (off : ℕ) (long : length old ≡ 512) (len : length mid ≡ 64)
    (fits : off + 64 ≤ 512) where
  length_front : length (take off old) ≡ off
  length_front = omega (arith, length-take off old, long, fits)

  pub spliced_self : take 64 (drop off (spliced old mid off)) ≡ mid
  spliced_self =
      rw (drop-append (take off old) (mid ++ drop 64 (drop off old)) off length_front)
        (take-append mid (drop 64 (drop off old)) 64 len)

  spliced_before :
      (i : ℕ) → i + 64 ≤ off → take 64 (drop i (spliced old mid off)) ≡ take 64 (drop i old)
  spliced_before i h =
      take_before old (mid ++ drop 64 (drop off old)) i 64 off h (omega (arith, long, fits))

  spliced_behind : (j : ℕ) → drop (off + (64 + j)) (spliced old mid off) ≡ drop (off + (64 + j)) old
  spliced_behind j =
      drop_past (take off old) (mid ++ drop 64 (drop off old)) off (64 + j) length_front
      ∙ drop_past mid (drop 64 (drop off old)) 64 j len
      ∙ drop-drop (drop off old) 64 j
      ∙ drop-drop old off (64 + j)

  pub spliced_other :
      (i : ℕ)
      → (i + 64 ≤ off) ⊎ (off + 64 ≤ i)
      → take 64 (drop i (spliced old mid off)) ≡ take 64 (drop i old)
  spliced_other i (inl h) = spliced_before i h
  spliced_other i (inr h) =
      let e : i ≡ off + (64 + (i - off - 64)) = omega (arith, h) in
      rw e (ap (take 64) (spliced_behind (i - off - 64)))
