-- ===== src/Sfs/Phase.antt =====
-- The second phase of `sfs_truncate`, on the indirect block.
use cse.Base.{
  ◌^◌, ℕ, zero, suc, ◌+◌, ◌-◌, ◌<◌, ◌≡◌, ◌≢◌, ◌⊎◌, inl, inr, refl, ◌∙◌, sym, ap, Bool, true, false,
  List, [], ◌∷◌, ltb, ◌==◌, if◌then◌else◌, get_or, arith, ℕ_discrete, dec_lt, Bool-cases, not-==,
  eq→==, lt→ltb, not-lt→ltb,
}
use cse.Base.Outcome.{Outcome, ok, err, panic, Errno}
use cse.Bitmap.Spec.{IsValid}
use cse.Sfs.{
  Fs, Inode, sector-same, Answer, done, invalid, failed, rw_result, after_write, sfs_ndirect,
  sfs_dbperidb, bfree,
}
use cse.Sfs.Map.{block_at}
use cse.Sfs.Truncate.{discard_loop, hasnonzero, put_back, truncate_indirect}
use cse.Sfs.Held.{nonzero, Held, bfree-Changes, Held-turn}
use cse.Sfs.Discard.{Discards}
use cse.Sfs.Loop.{discard_loop-Discards}
use cse.Sfs.Cut.{blocks_of, Shrinks, Shrinks-none}
use cse.Sfs.Resize.{behind, stored-Shrinks, emptied-Shrinks}

hasnonzero-false :
    (xs : List ℕ) → hasnonzero xs ≡ false → (nonzero xs ≡ []) × ((k : ℕ) → get_or xs k 0 ≡ 0)
hasnonzero-false [] e = (refl, λ k. refl)
hasnonzero-false (x ∷ xs) e =
    let z : x ≡ 0 = ground (arith, e) in
    let more = hasnonzero-false xs (ground (arith, e)) in (rw (eq→== z) more.0, at xs x z more.1)
  where
    at :
        (xs : List ℕ) (x : ℕ)
        → x ≡ 0
        → ((k : ℕ) → get_or xs k 0 ≡ 0)
        → (k : ℕ) → get_or (x ∷ xs) k 0 ≡ 0
    at xs x z f zero = z
    at xs x z f (suc k) = f k

module _ (fs : Fs) (sv : Inode) (idblock : ℕ) (idbuf : List ℕ) where
  put_back-freed :
      (dirty : Bool) (fs1 : Fs)
      → hasnonzero idbuf ≡ false
      → bfree fs idblock ≡ ok fs1
      → put_back fs sv idblock idbuf dirty
        ≡ ok (fs1, record sv { indirect = 0; dirty = true }, ok tt)
  unfolding put_back
  put_back-freed dirty fs1 z e = ground (arith, z, e)

  abbrev stored : Fs
  stored = record fs { disk = λ b. if b == idblock then idbuf else fs.disk b }

  put_back-written :
      (a : Answer)
      → idblock < 2 ^ 23
      → hasnonzero idbuf ≡ true
      → fs.device true idblock ≡ a
      → put_back fs sv idblock idbuf true
        ≡ (let (fs1, w) = after_write fs stored (rw_result a) in ok (fs1, sv, w))
  unfolding put_back
  put_back-written a small z e = rw (z, sector-same idblock small, e) refl

  put_back-clean : hasnonzero idbuf ≡ true → put_back fs sv idblock idbuf false ≡ ok (fs, sv, ok tt)
  unfolding put_back
  put_back-clean z = rw z refl

-- The limit of the second loop.
abbrev pub above : ℕ → ℕ → Bool
above blocklen j = ltb blocklen (sfs_ndirect + j)

-- The indirect block is not written back: the blocks are given up in the map, as if it were written with
-- the entries that are left, and the disk is as before.
abbrev pub Stale : (gone : ℕ → Bool) → Answer → Fs → Inode → (fs' : Fs) → (sv' : Inode) → Type 0
Stale gone a fs sv fs' sv' =
    (fs.device true sv.indirect ≡ a)
    × (fs'.disk ≡ fs.disk)
    × (sv'.size ≡ sv.size)
    × (kept : List ℕ) × Shrinks gone fs sv
        (record fs' { disk = λ b. if b == sv.indirect then kept else fs'.disk b }) sv'

-- The second phase: it ends with the blocks behind the limit given up, or cannot read the indirect
-- block, or cannot write it back.
abbrev pub Phase : ℕ → Fs → Inode → Outcome (Fs × Inode × Outcome (Unit {0})) → Type 0
Phase blocklen fs sv (ok (fs', sv', ok _)) = Shrinks (behind (above blocklen)) fs sv fs' sv'
Phase blocklen fs sv (ok (fs', sv', err e)) =
    ((fs.device false sv.indirect ≡ failed e) × (fs' ≡ fs) × (sv' ≡ sv))
    ⊎ Stale (behind (above blocklen)) (failed e) fs sv fs' sv'
Phase blocklen fs sv (ok (fs', sv', panic)) = Stale (behind (above blocklen)) invalid fs sv fs' sv'
Phase blocklen fs sv (err e) = ⊥
Phase blocklen fs sv panic = fs.device false sv.indirect ≡ invalid

module _ (fs : Fs) (sv : Inode) (blocklen : ℕ) (v : IsValid fs.freemap)
    (h : Held fs.freemap (blocks_of fs sv)) (small : sv.indirect < 2 ^ 23) where
  skipped :
      (ltb blocklen (sfs_ndirect + sfs_dbperidb - 1) ≡ false) ⊎ (sv.indirect ≡ 0)
      → truncate_indirect fs sv blocklen ≡ ok (fs, sv, ok tt)
  unfolding truncate_indirect
  skipped (inl e) = ground (arith, e)
  skipped (inr z) = ground (arith, z)

  unread :
      ltb blocklen (sfs_ndirect + sfs_dbperidb - 1) ≡ true
      → sv.indirect ≢ 0
      → (x : Errno) → fs.device false sv.indirect ≡ failed x
      → truncate_indirect fs sv blocklen ≡ ok (fs, sv, err x)
  unfolding truncate_indirect
  unread e nz x b = ground (arith, e, nz, b, sector-same sv.indirect small)

  refused :
      ltb blocklen (sfs_ndirect + sfs_dbperidb - 1) ≡ true
      → sv.indirect ≢ 0
      → fs.device false sv.indirect ≡ invalid
      → truncate_indirect fs sv blocklen ≡ panic
  unfolding truncate_indirect
  refused e nz b = ground (arith, e, nz, b, sector-same sv.indirect small)

  read_in :
      (fs2 : Fs) (kept : List ℕ) (dirty : Bool)
      → ltb blocklen (sfs_ndirect + sfs_dbperidb - 1) ≡ true
      → sv.indirect ≢ 0
      → fs.device false sv.indirect ≡ done
      → discard_loop fs (above blocklen) 0 (fs.disk sv.indirect) ≡ ok (fs2, kept, dirty)
      → truncate_indirect fs sv blocklen ≡ put_back fs2 sv sv.indirect kept dirty
  unfolding truncate_indirect
  read_in fs2 kept dirty e nz b l = ground (arith, e, nz, b, l, sector-same sv.indirect small)

  without : sv.indirect ≡ 0 → (f : ℕ) → (behind (above blocklen) f ≡ false) ⊎ (block_at fs sv f ≡ 0)
  without z f = elim (dec_lt f sfs_ndirect) [
    | yes low ↦ inl (rw (lt→ltb f sfs_ndirect low) refl)
    | no high ↦ inr (rw (not-lt→ltb f sfs_ndirect high, eq→== z) refl)
  ]

  near_all :
      ltb blocklen (sfs_ndirect + sfs_dbperidb - 1) ≡ false
      → (f : ℕ) → f < sfs_ndirect + sfs_dbperidb
      → behind (above blocklen) f ≡ false
  near_all far f lt = ground (arith, far)

  nothing :
      (f : ℕ)
      → (behind (above blocklen) f ≡ false) ⊎ (block_at fs sv f ≡ 0)
      → (if behind (above blocklen) f then 0 else block_at fs sv f) ≡ block_at fs sv f
  nothing f (inl e) = rw e refl
  nothing f (inr z) =
      rw z (elim (Bool-cases (behind (above blocklen) f)) [ inl t ↦ rw t refl | inr t ↦ rw t refl ])

  module _ (nz : sv.indirect ≢ 0) (fs2 : Fs) (kept : List ℕ) where
    put_back_lem :
        (dirty : Bool)
        → Discards fs
            (above blocklen)
            0
            (fs.disk sv.indirect)
            (sv.indirect ∷ nonzero sv.direct)
            fs2
            kept
            dirty
        → (hasnonzero kept ≡ true) ⊎ (hasnonzero kept ≡ false)
        → Phase blocklen fs sv (put_back fs2 sv sv.indirect kept dirty)
    put_back_lem true d (inl some_left) = written (fs.device true sv.indirect) refl
      where
        shrinks : Shrinks (behind (above blocklen)) fs sv (stored fs2 sv sv.indirect kept) sv
        shrinks =
            stored-Shrinks fs sv (above blocklen) fs2 kept true nz d _ refl
              (rw (eq→== {a = sv.indirect} refl) refl)
              (λ b ne. rw (not-== ne) (ap (λ g. g b) d.disk))

        answered : (a : Answer) → fs.device true sv.indirect ≡ a → fs2.device true sv.indirect ≡ a
        answered a e = ap (λ g. g true sv.indirect) d.device ∙ e

        written :
            (a : Answer)
            → fs.device true sv.indirect ≡ a
            → Phase blocklen fs sv (put_back fs2 sv sv.indirect kept true)
        written done e =
            rw (put_back-written fs2 sv sv.indirect kept done small some_left (answered done e))
              shrinks
        written invalid e =
            rw
              (put_back-written fs2 sv sv.indirect kept invalid small some_left
                (answered invalid e))
              (e, d.disk, refl, kept, shrinks)
        written (failed x) e =
            rw (put_back-written fs2 sv sv.indirect kept (failed x) small some_left (answered _ e))
              (inr (e, d.disk, refl, kept, shrinks))
    put_back_lem false d (inl some_left) = rw (put_back-clean fs2 sv sv.indirect kept some_left) (
        stored-Shrinks fs sv (above blocklen) fs2 kept false nz d fs2 refl
          (ap (λ g. g sv.indirect) d.disk ∙ sym (d.clean refl)) (λ b ne. ap (λ g. g b) d.disk))
    put_back_lem dirty d (inr none_left) =
        let (empty, zeroed) = hasnonzero-false kept none_left in
        let (lt, used, apart, more) = rw empty at d.held in
        let (c, freed, ch) = bfree-Changes fs2 sv.indirect d.valid lt used in
        rw (put_back-freed fs2 sv sv.indirect kept dirty _ none_left freed)
          (emptied-Shrinks fs sv (above blocklen) fs2 kept dirty nz d _ true empty zeroed ch d.disk)

  pub truncate_indirect-Phase : Phase blocklen fs sv (truncate_indirect fs sv blocklen)
  truncate_indirect-Phase = elim (ℕ_discrete sv.indirect 0) [
    | yes z ↦ rw (skipped (inr z)) (Shrinks-none _ fs sv v h (λ f lt. nothing f (without z f)))
    | no nz ↦ elim (Bool-cases (ltb blocklen (sfs_ndirect + sfs_dbperidb - 1))) [
      | inr far ↦
          rw (skipped (inl far))
            (Shrinks-none _ fs sv v h (λ f lt. nothing f (inl (near_all far f lt))))
      | inl near ↦ phase nz near (fs.device false sv.indirect) refl
    ]
  ]
    where
      phase :
          sv.indirect ≢ 0
          → ltb blocklen (sfs_ndirect + sfs_dbperidb - 1) ≡ true
          → (a : Answer) → fs.device false sv.indirect ≡ a
          → Phase blocklen fs sv (truncate_indirect fs sv blocklen)
      phase nz near (failed x) b = rw (unread near nz x b) (inl (b, refl, refl))
      phase nz near invalid b = rw (refused near nz b) b
      phase nz near done good =
          (let turned =
              Held-turn fs.freemap sv.indirect (nonzero sv.direct) (nonzero (fs.disk sv.indirect))
                (rw (not-== nz) at h) in
            let (fs2, kept, dirty, e, d) =
              discard_loop-Discards (above blocklen) fs 0 (fs.disk sv.indirect)
                (sv.indirect ∷ nonzero sv.direct) v turned in
            rw (read_in fs2 kept dirty near nz good e)
              (put_back_lem nz fs2 kept dirty d (Bool-cases (hasnonzero kept))))
