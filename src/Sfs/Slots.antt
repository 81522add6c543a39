-- ===== src/Sfs/Slots.antt =====
-- `sfs_io` inside one block, and the slots of a directory, which lie so.
use cse.Base.{
  ℕ, ◌+◌, ◌-◌, ◌/◌, ◌%◌, ◌<◌, ◌≤◌, ◌≡◌, refl, ◌∙◌, sym, ap, Bool, true, false, ◌&&◌, leb, arith,
  ℕ_discrete, not-==, eq→==, lt→ltb, not-lt→ltb,
}
use cse.Base.Outcome.{ok}
use cse.Sfs.{Fs, Inode}
use cse.Sfs.Io.{
  Uio, smaller, blocksize, partialio, block_loop, last_block, whole_blocks, io_body, io_out, io,
}

smaller_left : (a b : ℕ) → b ≤ a → smaller a b ≡ b
smaller_left a b h = ground arith

not_le : (a b : ℕ) → a < b → leb b a ≡ false
not_le a b h = ground arith

never : (b : Bool) → (b && false) ≡ false
never b = ground arith

-- A piece inside one block is one `sfs_partialio`.
module _ (fs : Fs) (sv : Inode) (u : Uio) (fs1 : Fs) (sv1 : Inode) (u1 : Uio)
    (some_bytes : 0 < u.resid) (small : u.resid < blocksize)
    (inside : u.offset % blocksize + u.resid ≤ blocksize)
    (moves : partialio fs sv u (u.offset % blocksize) u.resid ≡ (fs1, sv1, u1, ok tt))
    (all : u1.resid ≡ 0) where
  no_more : whole_blocks fs1 sv1 u1 ≡ (fs1, sv1, u1, ok tt)
  unfolding whole_blocks
  no_more = rw (eq→== all) refl

  aligned : u.offset % blocksize ≡ 0 → whole_blocks fs sv u ≡ (fs1, sv1, u1, ok tt)
  unfolding whole_blocks last_block block_loop
  aligned start =
      let none : u.resid / blocksize ≡ 0 = omega (arith, small) in
      rw
        (
          not-== {a = u.resid} {b = 0} (λ e. omega (arith, e, some_bytes)),
          eq→== start,
          none,
          not_le u.resid blocksize small,
          lt→ltb 0 u.resid some_bytes,
        )
        (ap (λ k. partialio fs sv u k u.resid) (sym start) ∙ moves)

  io_body-one : io_body fs sv u ≡ (fs1, sv1, u1, ok tt)
  unfolding io_body
  io_body-one = elim (ℕ_discrete (u.offset % blocksize) 0) [
    | yes start ↦ rw (eq→== start) (aligned start)
    | no ne ↦
        let whole =
          smaller_left (blocksize - u.offset % blocksize) u.resid (omega (arith, inside)) in
        rw (not-== ne, whole, moves) no_more
  ]

  module _ (within_size : u1.offset ≤ sv1.size) where
    out : io_out 0 (fs1, sv1, u1, ok tt) ≡ (fs1, sv1, u1, ok tt)
    out =
        let plain : u1.resid + 0 ≡ u1.resid = omega arith in
        rw (not-lt→ltb sv1.size u1.offset (omega (arith, within_size)), never u1.writing)
          (ap (λ k. (fs1, sv1, record u1 { resid = k }, ok tt)) plain)

    pub io_writes : u.writing ≡ true → io fs sv u ≡ (fs1, sv1, u1, ok tt)
    unfolding io
    io_writes writing = rw (io_body-one, writing) out

    pub io_reads :
        u.writing ≡ false → u.offset + u.resid ≤ sv.size → io fs sv u ≡ (fs1, sv1, u1, ok tt)
    unfolding io
    io_reads reading inside_file =
        rw
          (
            not_le u.offset sv.size (omega (arith, some_bytes, inside_file)),
            not-lt→ltb sv.size (u.offset + u.resid) (omega (arith, inside_file)),
            io_body-one,
            reading,
          )
          out
