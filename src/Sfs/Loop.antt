-- ===== src/Sfs/Loop.antt =====
-- The two loops of `sfs_truncate` against the set of the blocks that the list of entries holds.
use cse.Base.{
  ℕ, ◌+◌, ◌≡◌, ◌≢◌, ◌⊎◌, inl, inr, refl, Bool, true, false, ◌||◌, List, [], ◌∷◌, ◌++◌, arith,
  ℕ_discrete, Bool-cases, not-==, eq→==,
}
use cse.Base.Outcome.{ok}
use cse.Bitmap.Spec.{IsValid}
use cse.Sfs.{Fs, bfree}
use cse.Sfs.Truncate.{discard, discard_loop}
use cse.Sfs.Held.{nonzero, Held, Held-Changes, bfree-Changes}
use cse.Sfs.Discard.{Discards, stays_zero, stays, goes}

module _ (past : ℕ → Bool) where
  discard_loop_step :
      (fs : Fs) (i block : ℕ) (rest : List ℕ) (fs1 : Fs) (b : ℕ) (dirty : Bool) (fs2 : Fs)
      (kept : List ℕ) (dirty2 : Bool)
      → discard fs (past i) block ≡ ok (fs1, b, dirty)
      → discard_loop fs1 past (i + 1) rest ≡ ok (fs2, kept, dirty2)
      → discard_loop fs past i (block ∷ rest) ≡ ok (fs2, b ∷ kept, dirty || dirty2)
  unfolding discard_loop
  discard_loop_step fs i block rest fs1 b dirty fs2 kept dirty2 e e2 = ground (arith, e, e2)

  discard-keep :
      (fs : Fs) (i block : ℕ)
      → (block ≡ 0) ⊎ (past i ≡ false)
      → discard fs (past i) block ≡ ok (fs, block, false)
  unfolding discard
  discard-keep fs i block (inl z) = ground (arith, z)
  discard-keep fs i block (inr f) = ground (arith, f)

  discard-free :
      (fs fs1 : Fs) (i block : ℕ)
      → block ≢ 0
      → past i ≡ true
      → bfree fs block ≡ ok fs1
      → discard fs (past i) block ≡ ok (fs1, 0, true)
  unfolding discard
  discard-free fs fs1 i block nz t e = ground (arith, nz, t, e)

  -- The loop on different blocks in use, and on `ys` beside them.
  pub discard_loop-Discards :
      (fs : Fs) (i : ℕ) (xs ys : List ℕ)
      → IsValid fs.freemap
      → Held fs.freemap (nonzero xs ++ ys)
      → (fs' : Fs) × (kept : List ℕ) × (dirty : Bool) × (discard_loop fs past i xs
          ≡ ok (fs', kept, dirty))
        × Discards fs past i xs ys fs' kept dirty
  unfolding discard_loop
  discard_loop-Discards fs i [] ys v h = (
    fs,
    [],
    false,
    refl,
    record {
      valid = v;
      nbits = refl;
      disk = refl;
      device = refl;
      held = h;
      entries = λ k. elim (Bool-cases (past (i + k))) [ inl t ↦ rw t refl | inr f ↦ rw f refl ];
      same_length = refl;
      bits = λ j lt. refl;
      fewer = λ j e. refl;
      clean = λ e. refl;
    },
  )
  discard_loop-Discards fs i (block ∷ rest) ys v h = elim (ℕ_discrete block 0) [
    | yes z ↦
        (let h' : Held fs.freemap (nonzero rest ++ ys) = rw (eq→== {a = block} z) at h in
          let (fs2, kept, dirty, e, d) = discard_loop-Discards fs (i + 1) rest ys v h' in
          (
            fs2,
            block ∷ kept,
            dirty,
            discard_loop_step fs i block rest fs block false fs2 kept dirty
                (discard-keep fs i block (inl z)) e,
            stays_zero fs past i block rest ys fs2 kept dirty z d,
          ))
    | no nz ↦
        (let h' : Held fs.freemap (block ∷ (nonzero rest ++ ys)) = rw (not-== nz) at h in
          elim (Bool-cases (past i)) [
            | inr keep ↦
                (let (fs2, kept, dirty, e, d) = discard_loop-Discards fs (i + 1) rest ys v h'.3 in
                  (
                    fs2,
                    block ∷ kept,
                    dirty,
                    discard_loop_step fs i block rest fs block false fs2 kept dirty
                        (discard-keep fs i block (inr keep)) e,
                    stays fs past i block rest ys fs2 kept dirty nz keep h' d,
                  ))
            | inl drop ↦
                (let (c, freed, ch) = bfree-Changes fs block v h'.0 h'.1 in
                  let (fs2, kept, dirty, e, d) =
                    discard_loop-Discards (record fs { freemap = c; freemapdirty = true }) (i + 1)
                      rest ys ch.valid
                      (Held-Changes fs.freemap c block (nonzero rest ++ ys) v ch h'.2 h'.3) in
                  (
                    fs2,
                    0 ∷ kept,
                    true,
                    discard_loop_step fs i block rest _ 0 true fs2 kept dirty
                        (discard-free fs _ i block nz drop freed) e,
                    goes fs past i block rest ys fs2 kept dirty c nz drop v ch h' d,
                  ))
          ])
  ]
