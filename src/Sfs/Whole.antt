-- ===== src/Sfs/Whole.antt =====
-- `sfs_truncate` from its two phases.
use cse.Base.{ℕ, ◌≡◌, ◌⊎◌, Bool, true, false, ◌&&◌, ltb, leb, if◌then◌else◌}
use cse.Base.Outcome.{Outcome, ok, err, panic}
use cse.Sfs.{Fs, Inode, invalid, failed, sfs_ndirect}
use cse.Sfs.Truncate.{blocks_for}
use cse.Sfs.Held.{Held}
use cse.Sfs.Cut.{Shrinks}
use cse.Sfs.Phase.{Phase, Stale}

-- The file blocks that a truncation to `blocklen` blocks gives up.
abbrev pub given_up : ℕ → ℕ → Bool
given_up blocklen f = if ltb f sfs_ndirect then leb blocklen f else ltb blocklen f

abbrev pub Truncates : ℕ → Fs → Inode → Outcome (Fs × Inode × Outcome (Unit {0})) → Type 0
Truncates len fs sv (ok (fs', sv', ok _)) =
    (sv'.size ≡ len) × (sv'.dirty ≡ true) × Shrinks (given_up (blocks_for len)) fs sv fs' sv'
Truncates len fs sv (ok (fs', sv', err e)) =
    ((fs.device false sv.indirect ≡ failed e)
      × (sv'.size ≡ sv.size)
      × Shrinks (λ f. ltb f sfs_ndirect && leb (blocks_for len) f) fs sv fs' sv')
    ⊎ Stale (given_up (blocks_for len)) (failed e) fs sv fs' sv'
Truncates len fs sv (ok (fs', sv', panic)) = Stale (given_up (blocks_for len)) invalid fs sv fs' sv'
Truncates len fs sv (err e) = ⊥
Truncates len fs sv panic = fs.device false sv.indirect ≡ invalid
