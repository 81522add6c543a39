-- ===== src/Base/Range.antt =====
-- Facts over a small range of numbers, checked value by value.
use cse.Base.{ℕ, zero, suc, ◌<◌, ◌≡◌, Bool, true, ◌&&◌, arith}

unfoldable pub all_below : ℕ → (ℕ → Bool) → Bool
all_below zero p = true
all_below (suc n) p = p n && all_below n p

pub all_below-elim : (n : ℕ) (p : ℕ → Bool) (x : ℕ) → all_below n p ≡ true → x < n → p x ≡ true
unfolding all_below
all_below-elim zero p x h lt = absurd (omega arith)
all_below-elim (suc n) p x h lt = ground (arith, all_below-elim n p x)
