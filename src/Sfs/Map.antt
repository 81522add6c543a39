-- ===== src/Sfs/Map.antt =====
-- `sfs_bmap` against the map from the blocks of a file to the blocks of the disk.
use cse.Base.{
  ◌^◌, ℕ, ◌+◌, ◌-◌, ◌/◌, ◌%◌, ◌<◌, ◌≡◌, ◌≢◌, ◌⊎◌, inl, inr, ◌∙◌, sym, ap, Bool, true, false, ◌==◌,
  List, if◌then◌else◌, arith, ltb, not-==, eq→==, lt→ltb, not-lt→ltb, dec_lt, ℕ_discrete, get_or,
  set,
}
use cse.Base.Outcome.{ok}
use cse.Bitmap.Spec.{bit}
use cse.Bitmap.Mark.{isset-bit}
use cse.Sfs.{
  sector-same, Fs, done, Inode, sfs_ndirect, sfs_dbperidb, bused, hand_back, bmap_direct,
  bmap_entry, bmap_indirect, bmap,
}
use cse.Sfs.Blocks.{Mapped}

-- The disk block of a file block, 0 where there is none.
abbrev pub block_at : Fs → Inode → ℕ → ℕ
block_at fs sv fileblock =
    if ltb fileblock sfs_ndirect
    then get_or sv.direct fileblock 0
    else if sv.indirect == 0
    then 0
    else get_or (fs.disk sv.indirect) (fileblock - sfs_ndirect) 0

-- The block can be read, or written, and an offset can stand for it.
abbrev pub CanRead : Fs → ℕ → Type 0
CanRead fs block = (fs.device false block ≡ done) × (block < 2 ^ 23)

abbrev pub CanWrite : Fs → ℕ → Type 0
CanWrite fs block = (fs.device true block ≡ done) × (block < 2 ^ 23)

-- A block of the disk that is marked as in use.
abbrev pub InUse : Fs → ℕ → Type 0
InUse fs block = (block < fs.nblocks) × (bit fs.freemap block ≡ true)

module _ (fs : Fs) (h : Mapped fs) where
  bused-true : (block : ℕ) → InUse fs block → bused fs block ≡ ok true
  unfolding bused
  bused-true block (lt, used) =
      let (x, e, set) =
        isset-bit fs.freemap block h.valid (omega (arith, h.covers, h.valid.words)) in
      ground (arith, e, lt, set ∙ used)

  pub hand_back-ok : (block : ℕ) → (block ≡ 0) ⊎ InUse fs block → hand_back fs block ≡ ok block
  unfolding hand_back
  hand_back-ok block (inl z) = rw (eq→== z) (ap ok (sym z))
  hand_back-ok block (inr u) = elim (ℕ_discrete block 0) [
    | yes z ↦ rw (eq→== z) (ap ok (sym z))
    | no nz ↦ rw (not-== nz, bused-true block u)
  ]

  module _ (sv : Inode) (doalloc : Bool) where
    bmap_direct-found :
        (i : ℕ)
        → (get_or sv.direct i 0 ≡ 0) × (doalloc ≡ false)
          ⊎ InUse fs (get_or sv.direct i 0) × (get_or sv.direct i 0 ≢ 0)
        → bmap_direct fs sv i doalloc ≡ (fs, sv, ok (get_or sv.direct i 0))
    unfolding bmap_direct
    bmap_direct-found i (inl (z, no_alloc)) =
        ground (arith, z, no_alloc, hand_back-ok (get_or sv.direct i 0) (inl z))
    bmap_direct-found i (inr (u, nz)) =
        ground (arith, nz, hand_back-ok (get_or sv.direct i 0) (inr u))

    bmap_entry-found :
        (idblock i : ℕ) (idbuf : List ℕ)
        → (get_or idbuf i 0 ≡ 0) × (doalloc ≡ false)
          ⊎ InUse fs (get_or idbuf i 0) × (get_or idbuf i 0 ≢ 0)
        → bmap_entry fs sv idblock i idbuf doalloc ≡ (fs, sv, ok (get_or idbuf i 0))
    unfolding bmap_entry
    bmap_entry-found idblock i idbuf (inl (z, no_alloc)) =
        ground (arith, z, no_alloc, hand_back-ok (get_or idbuf i 0) (inl z))
    bmap_entry-found idblock i idbuf (inr (u, nz)) =
        ground (arith, nz, hand_back-ok (get_or idbuf i 0) (inr u))

-- The file has the block, and the disk marks it as in use; or it has none, and none is asked for.
abbrev pub Ready : Fs → Inode → ℕ → Bool → Type 0
Ready fs sv fileblock doalloc =
    (block_at fs sv fileblock ≡ 0) × (doalloc ≡ false)
    ⊎ InUse fs (block_at fs sv fileblock) × (block_at fs sv fileblock ≢ 0)

module _ (fs : Fs) (h : Mapped fs) (sv : Inode) (doalloc : Bool) where
  indirect-found :
      (i : ℕ)
      → CanRead fs sv.indirect
      → sv.indirect ≢ 0
      → (get_or (fs.disk sv.indirect) i 0 ≡ 0) × (doalloc ≡ false)
        ⊎ InUse fs (get_or (fs.disk sv.indirect) i 0) × (get_or (fs.disk sv.indirect) i 0 ≢ 0)
      → bmap_indirect fs sv i doalloc ≡ (fs, sv, ok (get_or (fs.disk sv.indirect) i 0))
  unfolding bmap_indirect
  indirect-found i good nz ready = ground (
    arith,
    nz,
    good.0,
    sector-same sv.indirect good.1,
    bmap_entry-found fs h sv doalloc sv.indirect i (fs.disk sv.indirect) ready,
  )

  indirect_none :
      (i : ℕ) → sv.indirect ≡ 0 → doalloc ≡ false → bmap_indirect fs sv i doalloc ≡ (fs, sv, ok 0)
  unfolding bmap_indirect
  indirect_none i z unasked = ground (arith, z, unasked)

  bmap_high :
      (fileblock : ℕ)
      → ¬ (fileblock < sfs_ndirect)
      → fileblock < sfs_ndirect + sfs_dbperidb
      → bmap fs sv fileblock doalloc ≡ bmap_indirect fs sv (fileblock - sfs_ndirect) doalloc
  unfolding bmap
  bmap_high fileblock high lt =
      let q : (fileblock - sfs_ndirect) / sfs_dbperidb ≡ 0 = omega (arith, lt) in
      let r : (fileblock - sfs_ndirect) % sfs_dbperidb ≡ fileblock - sfs_ndirect =
        omega (arith, lt) in
      rw (not-lt→ltb fileblock sfs_ndirect high, q, r)

  unmapped :
      (fileblock : ℕ) → ¬ (fileblock < sfs_ndirect) → sv.indirect ≡ 0 → block_at fs sv fileblock ≡ 0
  unmapped fileblock high z = rw (not-lt→ltb fileblock sfs_ndirect high, z)

  mapped :
      (fileblock : ℕ)
      → ¬ (fileblock < sfs_ndirect)
      → sv.indirect ≢ 0
      → block_at fs sv fileblock ≡ get_or (fs.disk sv.indirect) (fileblock - sfs_ndirect) 0
  mapped fileblock high nz = rw (not-lt→ltb fileblock sfs_ndirect high, not-== nz)

  without_block :
      (fileblock : ℕ)
      → block_at fs sv fileblock ≡ 0
      → sv.indirect ≡ 0
      → Ready fs sv fileblock doalloc
      → bmap_indirect fs sv (fileblock - sfs_ndirect) doalloc
        ≡ (fs, sv, ok (block_at fs sv fileblock))
  without_block fileblock e z (inl (e', unasked)) =
      rw e (indirect_none (fileblock - sfs_ndirect) z unasked)
  without_block fileblock e z (inr (u, ne)) = absurd (ne e)

  -- For a file block below 15 + 128 that the file has, or that is not to be allocated, `sfs_bmap`
  -- answers its disk block, 0 for none, and changes nothing, if the map covers the disk, of at most
  -- 2^23 blocks, the indirect block, of a number below 2^23, can be read and the block is in use.
  -- It does not panic.
  pub bmap-block_at :
      (fileblock : ℕ)
      → fileblock < sfs_ndirect + sfs_dbperidb
      → CanRead fs sv.indirect
      → Ready fs sv fileblock doalloc
      → bmap fs sv fileblock doalloc ≡ (fs, sv, ok (block_at fs sv fileblock))
  unfolding bmap
  bmap-block_at fileblock lt good ready = elim (dec_lt fileblock sfs_ndirect) [
    | yes low ↦ rw (lt→ltb fileblock sfs_ndirect low) (
        bmap_direct-found fs h sv doalloc fileblock
          (rw (lt→ltb fileblock sfs_ndirect low) at ready))
    | no high ↦ elim (ℕ_discrete sv.indirect 0) [
      | yes z ↦
          bmap_high fileblock high lt ∙ without_block fileblock (unmapped fileblock high z) z ready
      | no nz ↦
          bmap_high fileblock high lt
          ∙ rw (mapped fileblock high nz) (
              indirect-found (fileblock - sfs_ndirect) good nz
                (rw (mapped fileblock high nz) at ready))
    ]
  ]
