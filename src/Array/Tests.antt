-- ===== src/Array/Tests.antt =====
-- array.c on small arrays, and the theorems at inputs that meet their hypotheses.
use cse.Base.{ℕ, zero, suc, ◌<◌, ◌≡◌, refl, true, some, [], ◌∷◌, get_elem?, arith}
use cse.Base.Outcome.{ok}
use cse.Base.Blocks.{fresh_block, copy_items, memmove_down}
use cse.Array.{Array, grow_max, preallocate, setsize, add, remove}
use cse.Array.Grow.{Holds, Adds, add-Adds}
use cse.Array.Items.{Changes, without, remove-Changes}

abbrev junk : ℕ → ℕ
junk n = 77

-- Three pointers in a block for four, and two that fill theirs.
abbrev three : Array ℕ
three = record { num = 3; max = 4; v = some (5 ∷ 6 ∷ 7 ∷ 77 ∷ []) }

abbrev full : Array ℕ
full = record { num = 2; max = 2; v = some (5 ∷ 6 ∷ []) }

item_three :
    (i : ℕ)
    → i < 3
    → get_elem? {A = ℕ} (5 ∷ 6 ∷ 7 ∷ 77 ∷ []) i ≡ get_elem? {A = ℕ} (5 ∷ 6 ∷ 7 ∷ []) i
item_three zero h = refl
item_three (suc zero) h = refl
item_three (suc (suc zero)) h = refl
item_three (suc (suc (suc i))) h = absurd (omega arith)

three-Holds : Holds (5 ∷ 6 ∷ 7 ∷ []) three
three-Holds = record {
  count = refl;
  fits = omega arith;
  small = omega arith;
  full_block = refl;
  item = item_three;
}

full-Holds : Holds (5 ∷ 6 ∷ []) full
full-Holds = record {
  count = refl;
  fits = omega arith;
  small = omega arith;
  full_block = refl;
  item = λ i h. refl;
}

add-full :
    add junk true full 8
    ≡ ok (record { num = 3; max = 6; v = some (5 ∷ 6 ∷ 8 ∷ 77 ∷ 77 ∷ 77 ∷ []) })
unfolding add setsize preallocate grow_max copy_items fresh_block
add-full = refl

remove-three : remove three 0 ≡ ok (record { num = 2; max = 4; v = some (6 ∷ 7 ∷ 7 ∷ 77 ∷ []) })
unfolding remove memmove_down
remove-three = refl

setsize_zero : setsize junk true full 0 ≡ ok (record { num = 0; max = 2; v = some (5 ∷ 6 ∷ []) })
unfolding setsize preallocate
setsize_zero = refl

add-Adds_example : Adds (5 ∷ 6 ∷ []) 8 full true (add junk true full 8)
add-Adds_example = add-Adds junk true (5 ∷ 6 ∷ []) full 8 full-Holds (omega arith)

remove-Changes_example :
    Changes (5 ∷ 6 ∷ 7 ∷ []) 1 (without 1 (5 ∷ 6 ∷ 7 ∷ [])) three (remove three 1)
remove-Changes_example = remove-Changes (5 ∷ 6 ∷ 7 ∷ []) three 1 three-Holds
