-- ===== src/Queue/Tests.antt =====
-- queue.c at small rings, and the theorems at inputs that meet their hypotheses.
use cse.Base.{ℕ, ◌≡◌, refl, Bool, true, false, [], ◌∷◌, arith}
use cse.Base.Outcome.{ok, err, enomem}
use cse.Queue.{Queue, addtail, grow, preallocate, remhead}
use cse.Queue.Grow.{Holds}
use cse.Queue.Refine.{Appends, addtail-Appends, add_all, preallocate-add_all}

abbrev junk : ℕ → ℕ
junk n = 77

abbrev plenty : ℕ → Bool
plenty n = true

abbrev scarce : ℕ → Bool
scarce n = false

-- 5, 6 and 7, round the end of a ring of four places.
abbrev full : Queue ℕ
full = record { size = 4; nextwrite = 1; nextread = 2; entries = 7 ∷ 77 ∷ 5 ∷ 6 ∷ [] }

full-Holds : Holds 0 (5 ∷ 6 ∷ 7 ∷ []) full
full-Holds = record { valid = omega arith; items = refl }

-- 5 and 6 in a ring of four.
abbrev roomy : Queue ℕ
roomy = record { size = 4; nextwrite = 0; nextread = 2; entries = 7 ∷ 77 ∷ 5 ∷ 6 ∷ [] }

roomy-Holds : Holds 0 (5 ∷ 6 ∷ []) roomy
roomy-Holds = record { valid = omega arith; items = refl }

add_roomy : addtail junk 2 scarce roomy 7 ≡ ok full
unfolding addtail
add_roomy = refl

add_full :
    addtail junk 2 plenty full 8
    ≡ ok (record {
      size = 8;
      nextwrite = 4;
      nextread = 0;
      entries = 5 ∷ 6 ∷ 7 ∷ 8 ∷ 77 ∷ 77 ∷ 77 ∷ 77 ∷ [];
    })
unfolding addtail grow
add_full = refl

add_no_memory : addtail junk 2 scarce full 8 ≡ err enomem
unfolding addtail grow
add_no_memory = refl

remove_full : remhead full ≡ ok (5, record full { nextread = 3 })
unfolding remhead
remove_full = refl

addtail-Appends_example : Appends 0 (5 ∷ 6 ∷ 7 ∷ []) 8 false true (addtail junk 2 plenty full 8)
addtail-Appends_example =
    addtail-Appends 0 junk plenty (5 ∷ 6 ∷ 7 ∷ []) full 8 full-Holds (omega arith)

preallocate-add_all_example :
    (q1 q2 : Queue ℕ) × (preallocate junk plenty full 6 ≡ ok q1)
    × Holds 0 (5 ∷ 6 ∷ 7 ∷ []) q1
    × (add_all 0 junk scarce q1 (8 ∷ 9 ∷ []) ≡ ok q2)
    × Holds 0 (5 ∷ 6 ∷ 7 ∷ 8 ∷ 9 ∷ []) q2
preallocate-add_all_example =
    preallocate-add_all 0 junk plenty scarce 6 (5 ∷ 6 ∷ 7 ∷ []) (8 ∷ 9 ∷ []) full full-Holds refl
      (omega arith) (omega arith)
