-- ===== src/Sfs/Rewrite.antt =====
-- What sfs_writedir of sfs_vnode.c makes of a directory.
use cse.Base.{
  ℕ, ◌+◌, ◌-◌, ◌*◌, ◌/◌, ◌%◌, ◌<◌, ◌≤◌, ◌≡◌, ◌≢◌, inl, inr, ◌⊎◌, refl, ◌∙◌, sym, ap, true, List,
  ◌++◌, arith, length, take, drop, ℕ_discrete, dec_le, not-==, eq→==,
}
use cse.Base.Outcome.{Outcome, ok, err, panic}
use cse.Sfs.{Fs, Inode}
use cse.Sfs.Map.{block_at}
use cse.Sfs.Io.{Uio, mk_kuio, blocksize, Io, partialio}
use cse.Sfs.Bytes.{take_all}
use cse.Sfs.Partial.{contents}
use cse.Sfs.Transfer.{Writes, partialio-Writes, length-contents}
use cse.Sfs.Dir.{Sfd, encode, decode, write_answer, writedir}
use cse.Sfs.Slots.{io_writes}
use cse.Sfs.Entries.{
  Sound, Directory, block_of, slot_bytes, Fit, length-encode, decode-encode, Octets-encode, updated,
  spliced, spliced_self, spliced_other,
}

-- The slot has the entry, the others keep theirs, and the file is a directory still.
abbrev pub Rewrites :
    (entries : ℕ → Sfd) (slot : ℕ) → Sfd → Inode → Fs × Inode × Outcome (Unit {0}) → Type 0
Rewrites entries slot sd sv (fs1, sv1, ok _) =
    (sv1 ≡ sv) × Directory fs1 sv (updated entries slot sd)
Rewrites entries slot sd sv (fs1, sv1, err e) = ⊥
Rewrites entries slot sd sv (fs1, sv1, panic) = ⊥

-- Two slots of a block do not meet.
slots_apart :
    (j k : ℕ)
    → j ≢ k
    → block_of j ≡ block_of k
    → (j * 64 % blocksize + 64 ≤ k * 64 % blocksize)
      ⊎ (k * 64 % blocksize + 64 ≤ j * 64 % blocksize)
slots_apart j k ne same = elim (dec_le (j * 64 % blocksize + 64) (k * 64 % blocksize)) [
  | yes before ↦ inl before
  | no behind ↦ inr (omega (arith, behind, ne, same))
]

module _ (fs : Fs) (sv : Inode) (entries : ℕ → Sfd) (d : Directory fs sv entries) (slot : ℕ)
    (there : slot < sv.size / 64) (sd : Sfd) (fit : Fit sd) where
  abbrev g : ℕ
  g = block_of slot

  abbrev off : ℕ
  off = slot * 64 % blocksize

  abbrev writer : Uio
  writer = mk_kuio (encode sd) (slot * 64) true

  inside_block : off + 64 ≤ blocksize
  inside_block = omega arith

  sized : length (encode sd) ≡ 64
  sized = length-encode sd fit

  abbrev old : List ℕ
  old = contents fs sv g

  old_long : length old ≡ blocksize
  old_long =
      let s = d.sound slot there in
      length-contents fs d.mapped sv writer off (length (encode sd)) s.low d.good_indirect s.good
        s.full (omega (arith, sized)) (omega (arith, sized, inside_block)) (omega arith)
        (omega arith) (omega (arith, sized))

  module _ (fs1 : Fs) (new : contents fs1 sv g ≡ spliced old (encode sd) off)
      (map : (f : ℕ) → block_at fs1 sv f ≡ block_at fs sv f)
      (others : (c : ℕ) → c ≢ block_at fs sv g → fs1.disk c ≡ fs.disk c) where
    elsewhere :
        (k : ℕ)
        → k < sv.size / 64
        → block_of k ≢ g
        → contents fs1 sv (block_of k) ≡ contents fs sv (block_of k)
    elsewhere k lt ne =
        rw (map (block_of k), others (block_at fs sv (block_of k)) (d.distinct k slot lt there ne))
          refl

    slot_after :
        (k : ℕ) → k < sv.size / 64 → decode (slot_bytes fs1 sv k) ≡ updated entries slot sd k
    slot_after k lt = elim (ℕ_discrete k slot) [
      | yes e ↦
          rw
            (
              e,
              eq→== {a = slot} refl,
              new,
              spliced_self old (encode sd) off old_long sized inside_block,
            )
            (decode-encode sd fit)
      | no ne ↦ elim (ℕ_discrete (block_of k) g) [
        | no apart ↦ rw (not-== ne, elsewhere k lt apart) (d.holds k lt)
        | yes same ↦
            rw
              (
                not-== ne,
                same,
                new,
                spliced_other old (encode sd) off old_long sized inside_block (k * 64 % blocksize)
                    (slots_apart k slot ne same),
              )
              (ap (λ f. decode (take 64 (drop (k * 64 % blocksize) (contents fs sv f)))) (sym same)
                ∙ d.holds k lt)
      ]
    ]

    Sound-after :
        (k : ℕ)
        → k < sv.size / 64
        → length (fs1.disk (block_at fs sv g)) ≡ 128
        → fs1.device ≡ fs.device
        → fs1.freemap ≡ fs.freemap
        → fs1.nblocks ≡ fs.nblocks
        → Sound fs1 sv (block_of k)
    Sound-after k lt full same_device freemap nblocks =
        let s = d.sound k lt in
        record {
          low = s.low;
          good = rw (map (block_of k), same_device) s.good;
          writable = rw (map (block_of k), same_device) s.writable;
          full = rw (map (block_of k)) (elim (ℕ_discrete (block_of k) g) [
            | yes same ↦ rw same full
            | no apart ↦
                rw (others (block_at fs sv (block_of k)) (d.distinct k slot lt there apart)) s.full
          ]);
          used = rw (map (block_of k), nblocks, freemap) s.used;
          nz = rw (map (block_of k)) s.nz;
          apart = rw (map (block_of k)) s.apart;
        }

  answer :
      (fs1 : Fs) (sv1 : Inode) (u1 : Uio)
      → partialio fs sv writer off (length (encode sd)) ≡ (fs1, sv1, u1, ok tt)
      → sv1 ≡ sv
      → u1.offset ≡ slot * 64 + length (encode sd)
      → u1.resid ≡ length (encode sd) - length (encode sd)
      → writedir fs sv sd slot ≡ (fs1, sv1, ok tt)
  unfolding writedir
  answer fs1 sv1 u1 e same_sv o left =
      let none : u1.resid ≡ 0 = omega (arith, left) in
      let one_io =
        io_writes fs sv writer fs1 sv1 u1 (omega arith) (omega (arith, sized))
          (omega (arith, sized, inside_block)) e none (rw same_sv (omega (arith, o, sized, there)))
          refl in
      ap write_answer one_io ∙ rw none refl

  spliced_whole :
      take off old
        ++ (take (length (encode sd)) (encode sd) ++ drop (length (encode sd)) (drop off old))
      ≡ spliced old (encode sd) off
  spliced_whole =
      ap (λ p. take off old ++ (p ++ drop (length (encode sd)) (drop off old)))
        (take_all (encode sd) (length (encode sd)) refl)
      ∙ ap (λ n. take off old ++ (encode sd ++ drop n (drop off old))) sized

  writedir_step :
      (r : Io)
      → partialio fs sv writer off (length (encode sd)) ≡ r
      → Writes fs sv writer off (length (encode sd)) r
      → Rewrites entries slot sd sv (writedir fs sv sd slot)
  writedir_step (fs1, sv1, u1, err x) e w = absurd w
  writedir_step (fs1, sv1, u1, panic) e w = absurd w
  writedir_step (fs1, sv1, u1, ok x) e
        (same_sv, o, left, new, map, others, full, same_device, freemap, nblocks, mapped) =
      let whole = new ∙ spliced_whole in
      rw (answer fs1 sv1 u1 e same_sv o left) (
        same_sv,
        record {
          mapped = mapped;
          good_indirect = rw same_device d.good_indirect;
          is_dir = d.is_dir;
          whole = d.whole;
          sound = λ k lt. Sound-after fs1 whole map others k lt full same_device freemap nblocks;
          distinct = λ j k lt_j lt_k ne.
              rw (map (block_of j), map (block_of k)) (d.distinct j k lt_j lt_k ne);
          holds = λ k lt. slot_after fs1 whole map others k lt;
        },
      )

  pub writedir-Rewrites : Rewrites entries slot sd sv (writedir fs sv sd slot)
  writedir-Rewrites =
      let s = d.sound slot there in
      writedir_step (partialio fs sv writer off (length (encode sd))) refl (
        partialio-Writes fs d.mapped sv writer off (length (encode sd)) s.low d.good_indirect s.good
          s.full (omega arith) (omega (arith, sized, inside_block)) (omega arith) (omega arith)
          (omega (arith, sized)) s.writable refl s.used s.nz s.apart (Octets-encode sd fit))
