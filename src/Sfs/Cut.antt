-- ===== src/Sfs/Cut.antt =====
-- `sfs_truncate` against the map from the blocks of a file to those of the disk, and against the set
-- of the blocks in use.
use cse.Base.{
  mem, ℕ, ◌+◌, ◌<◌, ◌≡◌, ◌≢◌, Bool, true, false, ◌||◌, List, [], ◌∷◌, ◌++◌, ◌==◌, if◌then◌else◌,
  arith, refl, ◌∙◌, sym,
}
use cse.Bitmap.Spec.{bit, IsValid}
use cse.Sfs.{Fs, Inode, sfs_ndirect, sfs_dbperidb}
use cse.Sfs.Map.{block_at}
use cse.Sfs.Held.{nonzero, Held, Held-mem}

-- The blocks of the disk that a file has: its direct ones, its indirect block, and those it lists.
abbrev pub blocks_of : Fs → Inode → List ℕ
blocks_of fs sv =
    nonzero sv.direct
    ++ (if sv.indirect == 0 then [] else sv.indirect ∷ nonzero (fs.disk sv.indirect))

-- The file blocks that `gone` tells are given up. The others are where they were, a block of the
-- file is in use just if it is one still, and no other block changes.
pub record Shrinks (gone : ℕ → Bool) (fs : Fs) (sv : Inode) (fs' : Fs) (sv' : Inode) : Type 0 where
  pub valid : IsValid fs'.freemap
  pub nbits : fs'.freemap.nbits ≡ fs.freemap.nbits
  pub held : Held fs'.freemap (blocks_of fs' sv')
  pub bits :
      (j : ℕ)
      → j < fs.freemap.nbits
      → bit fs'.freemap j
        ≡ (if mem j (blocks_of fs sv) then mem j (blocks_of fs' sv') else bit fs.freemap j)
  pub fewer : (j : ℕ) → mem j (blocks_of fs sv) ≡ false → mem j (blocks_of fs' sv') ≡ false
  pub entries :
      (f : ℕ)
      → f < sfs_ndirect + sfs_dbperidb
      → block_at fs' sv' f ≡ (if gone f then 0 else block_at fs sv f)
  pub disk : (b : ℕ) → b ≢ sv.indirect → fs'.disk b ≡ fs.disk b

pub Shrinks-trans :
    (p q : ℕ → Bool) (fs : Fs) (sv : Inode) (fs1 : Fs) (sv1 : Inode) (fs2 : Fs) (sv2 : Inode)
    → sv1.indirect ≡ sv.indirect
    → Shrinks p fs sv fs1 sv1
    → Shrinks q fs1 sv1 fs2 sv2
    → Shrinks (λ f. p f || q f) fs sv fs2 sv2
Shrinks-trans p q fs sv fs1 sv1 fs2 sv2 same_indirect s t = record {
  valid = t.valid;
  nbits = t.nbits ∙ s.nbits;
  held = t.held;
  bits = λ j lt.
      merge (bit fs.freemap j) (bit fs1.freemap j) (bit fs2.freemap j) (mem j (blocks_of fs sv))
        (mem j (blocks_of fs1 sv1)) (mem j (blocks_of fs2 sv2)) (s.bits j lt)
        (t.bits j (omega (arith, lt, s.nbits))) (s.fewer j) (t.fewer j);
  fewer = λ j e. t.fewer j (s.fewer j e);
  entries = λ f lt. both (p f) (q f) _ _ _ (s.entries f lt) (t.entries f lt);
  disk = λ b ne. t.disk b (λ e. ne (e ∙ same_indirect)) ∙ s.disk b ne;
}
  where
    merge :
        (b0 b1 b2 m0 m1 m2 : Bool)
        → b1 ≡ (if m0 then m1 else b0)
        → b2 ≡ (if m1 then m2 else b1)
        → (m0 ≡ false → m1 ≡ false)
        → (m1 ≡ false → m2 ≡ false)
        → b2 ≡ (if m0 then m2 else b0)
    merge b0 b1 b2 m0 m1 m2 e1 e2 f1 f2 = ground (arith, e1, e2, f1, f2)

    both :
        (x y : Bool) (a b c : ℕ)
        → b ≡ (if x then 0 else a)
        → c ≡ (if y then 0 else b)
        → c ≡ (if x || y then 0 else a)
    both x y a b c e1 e2 = ground (arith, e1, e2)

-- The size and the dirty flag say nothing about the blocks.
pub Shrinks-same :
    (p q : ℕ → Bool) (fs : Fs) (sv : Inode) (fs' : Fs) (sv' : Inode) (len : ℕ) (flag : Bool)
    → ((f : ℕ) → f < sfs_ndirect + sfs_dbperidb → p f ≡ q f)
    → Shrinks p fs sv fs' sv'
    → Shrinks q fs sv fs' (record sv' { size = len; dirty = flag })
Shrinks-same p q fs sv fs' sv' len flag e s = record {
  valid = s.valid;
  nbits = s.nbits;
  held = s.held;
  bits = s.bits;
  fewer = s.fewer;
  entries = λ f lt. s.entries f lt ∙ rw (e f lt) refl;
  disk = s.disk;
}

-- Nothing is given up.
pub Shrinks-none :
    (p : ℕ → Bool) (fs : Fs) (sv : Inode)
    → IsValid fs.freemap
    → Held fs.freemap (blocks_of fs sv)
    → ((f : ℕ)
        → f < sfs_ndirect + sfs_dbperidb
        → (if p f then 0 else block_at fs sv f) ≡ block_at fs sv f)
    → Shrinks p fs sv fs sv
Shrinks-none p fs sv v h e = record {
  valid = v;
  nbits = refl;
  held = h;
  bits = λ j lt.
      stay (mem j (blocks_of fs sv)) (bit fs.freemap j) (Held-mem fs.freemap (blocks_of fs sv) j h);
  fewer = λ j z. z;
  entries = λ f lt. sym (e f lt);
  disk = λ b ne. refl;
}
  where
    stay : (m b : Bool) → (m ≡ true → b ≡ true) → b ≡ (if m then m else b)
    stay m b f = ground (arith, f)
