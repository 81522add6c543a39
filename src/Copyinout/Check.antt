-- ===== src/Copyinout/Check.antt =====
-- `copycheck`: which part of a block lies in user space.
use Prim.Native.Nat.{min}
use cse.Base.{ℕ, ◌+◌, ◌-◌, ◌^◌, ◌≤◌, ◌<◌, ◌≡◌, ◌⊎◌, arith}
use cse.Base.Outcome.{Outcome, ok, err, panic, efault}
use cse.Copyinout.{usertop, copycheck}

-- The bytes of the block up to the first of the kernel; EFAULT for a block that starts in the
-- kernel or runs past the end of the address space.
abbrev pub Checks : ℕ → ℕ → Outcome ℕ → Type 0
Checks bot len (ok stoplen) =
    (bot + stoplen ≤ usertop) × (0 < stoplen) × (stoplen ≡ min len (usertop - bot))
Checks bot len (err e) = (e ≡ efault) × ((usertop ≤ bot) ⊎ (2 ^ 32 < bot + len))
Checks bot len panic = ⊥

-- For a block that is not empty, `copycheck` answers the number of its bytes below USERTOP, or
-- EFAULT where the block starts at or above USERTOP or wraps round the address space.
pub copycheck-Checks :
    (bot len : ℕ) → bot < 2 ^ 32 → len < 2 ^ 32 → 0 < len → Checks bot len (copycheck bot len)
unfolding copycheck
copycheck-Checks bot len hb hl pos = ground arith

-- An empty block is refused at every address but 0, and there its answer is not 0.
pub copycheck-zero :
    (bot : ℕ) → bot < 2 ^ 32 → (copycheck bot 0 ≡ err efault) ⊎ (copycheck bot 0 ≡ ok usertop)
unfolding copycheck
copycheck-zero bot hb = ground arith
