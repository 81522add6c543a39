-- ===== src/Sfs/Resize.antt =====
-- The two phases of `sfs_truncate`, and the whole.
use cse.Base.{
  mem, mem-append, ℕ, ◌+◌, ◌-◌, ◌<◌, ◌≡◌, ◌≢◌, refl, ◌∙◌, sym, ap, Bool, true, false, ◌&&◌, ◌||◌,
  not, List, [], ◌∷◌, ◌++◌, ltb, ◌==◌, if◌then◌else◌, get_or, arith, dec_lt, not-==, lt→ltb,
  not-lt→ltb,
}
use cse.Bitmap.Spec.{bit, Changes}
use cse.Sfs.{Fs, Inode, sfs_ndirect}
use cse.Sfs.Map.{block_at}
use cse.Sfs.Held.{nonzero, Held, Held-Changes, Held-split, Held-join, Held-turn, Held-mem}
use cse.Sfs.Discard.{Discards}
use cse.Sfs.Cut.{blocks_of, Shrinks}

-- The part of `blocks_of` behind the direct blocks.
abbrev pub tail_of : Fs → Inode → List ℕ
tail_of fs sv = if sv.indirect == 0 then [] else sv.indirect ∷ nonzero (fs.disk sv.indirect)

module _ (fs : Fs) (sv : Inode) (past : ℕ → Bool) (fs1 : Fs) (kept : List ℕ) (dirty dirty1 : Bool)
    (d : Discards fs past 0 sv.direct (tail_of fs sv) fs1 kept dirty) where
  pub direct-Shrinks :
      Shrinks
        (λ f. ltb f sfs_ndirect && past f)
        fs
        sv
        fs1
        (record sv { direct = kept; dirty = dirty1 })
  direct-Shrinks = record {
    valid = d.valid;
    nbits = d.nbits;
    held = rw (sym same_tail) at d.held;
    bits = λ j lt.
        rw (mem-append j (nonzero sv.direct) (tail_of fs sv), now j)
          (with_tail (mem j (nonzero sv.direct)) _ (mem j (tail_of fs sv)) _ _ (d.bits j lt)
            (in_tail j));
    fewer = λ j e.
        now j ∙ ground (arith, d.fewer j, mem-append j (nonzero sv.direct) (tail_of fs sv), e);
    entries = λ f lt. entry f (dec_lt f sfs_ndirect);
    disk = λ b ne. ap (λ g. g b) d.disk;
  }
    where
      same_tail : tail_of fs1 sv ≡ tail_of fs sv
      same_tail =
          ap (λ g. if sv.indirect == 0 then [] else sv.indirect ∷ nonzero (g sv.indirect)) d.disk

      now :
          (j : ℕ)
          → mem j (nonzero kept ++ tail_of fs1 sv) ≡ (mem j (nonzero kept) || mem j (tail_of fs sv))
      now j = rw same_tail (mem-append j (nonzero kept) (tail_of fs sv))

      in_tail : (j : ℕ) → mem j (tail_of fs sv) ≡ true → bit fs1.freemap j ≡ true
      in_tail j e =
          Held-mem fs1.freemap (tail_of fs sv) j
            (Held-split fs1.freemap (nonzero kept) (tail_of fs sv) d.held).1 e

      entry :
          (f : ℕ)
          → Dec (f < sfs_ndirect)
          → block_at fs1 (record sv { direct = kept; dirty = dirty1 }) f
            ≡ (if ltb f sfs_ndirect && past f then 0 else block_at fs sv f)
      entry f (yes low) =
          rw (lt→ltb f sfs_ndirect low) (let e : 0 + f ≡ f = omega arith in rw e at (d.entries f))
      entry f (no high) = rw (not-lt→ltb f sfs_ndirect high, d.disk) refl

      with_tail :
          (x y t b b0 : Bool)
          → b ≡ (if x then y else b0)
          → (t ≡ true → b ≡ true)
          → b ≡ (if x || t then y || t else b0)
      with_tail x y t b b0 e f = ground (arith, e, f)

==_sym : (a b : ℕ) → (a == b) ≡ (b == a)
==_sym a b = ground arith

-- The file block has its entry in the indirect block, and the entry is past the limit.
abbrev pub behind : (ℕ → Bool) → ℕ → Bool
behind past f = not (ltb f sfs_ndirect) && past (f - sfs_ndirect)

-- The entries of the indirect block went through the loop.
module _ (fs : Fs) (sv : Inode) (past : ℕ → Bool) (fs2 : Fs) (kept : List ℕ) (dirty : Bool)
    (nz : sv.indirect ≢ 0)
    (d : Discards fs past 0
      (fs.disk sv.indirect)
      (sv.indirect ∷ nonzero sv.direct)
      fs2
      kept
      dirty) where
  had : blocks_of fs sv ≡ nonzero sv.direct ++ (sv.indirect ∷ nonzero (fs.disk sv.indirect))
  had = rw (not-== nz) refl

  -- The list of the blocks a file has, as a test.
  mem-had :
      (j : ℕ)
      → mem j (blocks_of fs sv) ≡ (
          mem j (nonzero sv.direct)
          || ((j == sv.indirect) || mem j (nonzero (fs.disk sv.indirect))))
  mem-had j =
      rw had (mem-append j (nonzero sv.direct) (sv.indirect ∷ nonzero (fs.disk sv.indirect)))

  split_blocks :
      Held fs2.freemap (nonzero kept)
      × Held fs2.freemap (sv.indirect ∷ nonzero sv.direct)
      × ((j : ℕ) → mem j (nonzero kept) ≡ true → mem j (sv.indirect ∷ nonzero sv.direct) ≡ false)
  split_blocks = Held-split fs2.freemap (nonzero kept) (sv.indirect ∷ nonzero sv.direct) d.held

  others : (j : ℕ) → mem j (sv.indirect ∷ nonzero sv.direct) ≡ true → bit fs2.freemap j ≡ true
  others j e = Held-mem fs2.freemap (sv.indirect ∷ nonzero sv.direct) j split_blocks.1 e

  entry_behind :
      (words : List ℕ) (f : ℕ)
      → ((k : ℕ) → get_or words k 0 ≡ get_or kept k 0)
      → ¬ (f < sfs_ndirect)
      → get_or words (f - sfs_ndirect) 0 ≡ (if behind past f then 0 else block_at fs sv f)
  entry_behind words f e high =
      rw (not-lt→ltb f sfs_ndirect high, not-== nz)
        (e (f - sfs_ndirect)
          ∙ (let z : 0 + (f - sfs_ndirect) ≡ f - sfs_ndirect = omega arith in
              rw z at (d.entries (f - sfs_ndirect))))

  pub stored-Shrinks :
      (fs3 : Fs)
      → fs3.freemap ≡ fs2.freemap
      → fs3.disk sv.indirect ≡ kept
      → ((b : ℕ) → b ≢ sv.indirect → fs3.disk b ≡ fs.disk b)
      → Shrinks (behind past) fs sv fs3 sv
  stored-Shrinks fs3 m stored same = record {
    valid = rw m d.valid;
    nbits = ap (λ b. b.nbits) m ∙ d.nbits;
    held =
        rw (m, has) (Held-turn fs2.freemap sv.indirect (nonzero kept) (nonzero sv.direct) d.held);
    bits = λ j lt.
        rw (m, mem-has j, mem-had j)
          (among (mem j (nonzero sv.direct)) (j == sv.indirect) _ (mem j (nonzero kept)) _ _
            (d.bits j lt) (others j) (d.fewer j));
    fewer = λ j e. mem-has j ∙ ground (arith, mem-had j, e, d.fewer j);
    entries = λ f lt. entry f (dec_lt f sfs_ndirect);
    disk = same;
  }
    where
      has : blocks_of fs3 sv ≡ nonzero sv.direct ++ (sv.indirect ∷ nonzero kept)
      has = rw (not-== nz, stored) refl

      mem-has :
          (j : ℕ)
          → mem j (blocks_of fs3 sv)
            ≡ (mem j (nonzero sv.direct) || ((j == sv.indirect) || mem j (nonzero kept)))
      mem-has j = rw has (mem-append j (nonzero sv.direct) (sv.indirect ∷ nonzero kept))

      among :
          (x y t k b b0 : Bool)
          → b ≡ (if t then k else b0)
          → (y || x ≡ true → b ≡ true)
          → (t ≡ false → k ≡ false)
          → b ≡ (if x || (y || t) then x || (y || k) else b0)
      among x y t k b b0 e f g = ground (arith, e, f, g)

      entry :
          (f : ℕ)
          → Dec (f < sfs_ndirect)
          → block_at fs3 sv f ≡ (if behind past f then 0 else block_at fs sv f)
      entry f (yes low) = rw (lt→ltb f sfs_ndirect low) refl
      entry f (no high) =
          rw (not-lt→ltb f sfs_ndirect high, not-== nz)
            (rw (not-lt→ltb f sfs_ndirect high, not-== nz) at
              (entry_behind (fs3.disk sv.indirect) f (λ k. ap (λ l. get_or l k 0) stored) high))

  pub emptied-Shrinks :
      (fs3 : Fs) (dirty3 : Bool)
      → nonzero kept ≡ []
      → ((k : ℕ) → get_or kept k 0 ≡ 0)
      → Changes fs2.freemap sv.indirect false fs3.freemap
      → fs3.disk ≡ fs.disk
      → Shrinks (behind past) fs sv fs3 (record sv { indirect = 0; dirty = dirty3 })
  emptied-Shrinks fs3 dirty3 empty zero_entries ch same = record {
    valid = ch.valid;
    nbits = ch.nbits ∙ d.nbits;
    held =
        Held-join fs3.freemap (nonzero sv.direct) []
          (Held-Changes fs2.freemap fs3.freemap sv.indirect (nonzero sv.direct) d.valid ch apart
            split_blocks.1.3)
          tt (λ j e. refl);
    bits = λ j lt.
        rw (mem-has j, mem-had j)
          (among (mem j (nonzero sv.direct)) (j == sv.indirect) _ _ _ _ (d.bits j lt) (others j)
            (rw empty refl)
            (ch.bits j (omega (arith, lt, d.nbits, d.valid.words)) ∙ rw (==_sym sv.indirect j) refl)
            (gone j));
    fewer = λ j e. mem-has j ∙ ground (arith, mem-had j, e);
    entries = λ f lt. entry f (dec_lt f sfs_ndirect);
    disk = λ b ne. ap (λ g. g b) same;
  }
    where
      apart : mem sv.indirect (nonzero sv.direct) ≡ false
      apart = split_blocks.1.2

      gone : (j : ℕ) → (j == sv.indirect) ≡ true → mem j (nonzero sv.direct) ≡ false
      gone j e = ground (arith, e, apart)

      among :
          (x y t k b b0 : Bool) {b3 : Bool}
          → b ≡ (if t then k else b0)
          → (y || x ≡ true → b ≡ true)
          → k ≡ false
          → b3 ≡ (if y then false else b)
          → (y ≡ true → x ≡ false)
          → b3 ≡ (if x || (y || t) then x else b0)
      among x y t k b b0 {b3} e f n e3 g = ground (arith, e, f, n, e3, g)

      mem-has : (j : ℕ) → mem j (nonzero sv.direct ++ []) ≡ mem j (nonzero sv.direct)
      mem-has j = ground (arith, mem-append j (nonzero sv.direct) [])

      entry :
          (f : ℕ)
          → Dec (f < sfs_ndirect)
          → block_at fs3 (record sv { indirect = 0; dirty = dirty3 }) f
            ≡ (if behind past f then 0 else block_at fs sv f)
      entry f (yes low) = rw (lt→ltb f sfs_ndirect low) refl
      entry f (no high) =
          rw (not-lt→ltb f sfs_ndirect high, not-== nz)
            (rw (not-lt→ltb f sfs_ndirect high, not-== nz) at
              (entry_behind [] f (λ k. sym (zero_entries k)) high))
