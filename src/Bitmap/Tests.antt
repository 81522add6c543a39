-- ===== src/Bitmap/Tests.antt =====
-- bitmap.c at small bitmaps, and the theorems at inputs that meet their hypotheses.
use cse.Base.{◌≡◌, refl, true, false, none, some, [], ◌∷◌, arith}
use cse.Base.Outcome.{ok, err, panic, enospc}
use cse.Bitmap.{Bitmap, mark_from, create, alloc, mark}
use cse.Bitmap.Spec.{IsValid, Allocates}
use cse.Bitmap.Create.{partial-IsFresh}
use cse.Bitmap.Alloc.{alloc-Allocates}

-- Ten bits, all clear; the six bits past them are in use.
abbrev ten : Bitmap
ten = record { nbits = 10; v = 0 ∷ 252 ∷ [] }

abbrev ten_marked : Bitmap
ten_marked = record { nbits = 10; v = 16 ∷ 252 ∷ [] }

create-ten : create true true 10 ≡ ok (some ten)
unfolding create
create-ten = refl

create_no_memory : create true false 10 ≡ ok none
unfolding create
create_no_memory = refl

alloc-ten : alloc ten ≡ ok (record { nbits = 10; v = 1 ∷ 252 ∷ [] }, 0)
unfolding alloc
alloc-ten = refl

alloc_last :
    alloc (record { nbits = 10; v = 255 ∷ 253 ∷ [] })
    ≡ ok (record { nbits = 10; v = 255 ∷ 255 ∷ [] }, 9)
unfolding alloc
alloc_last = refl

alloc_full : alloc (record { nbits = 10; v = 255 ∷ 255 ∷ [] }) ≡ err enospc
unfolding alloc
alloc_full = refl

mark_four : mark ten 4 ≡ ok ten_marked
unfolding mark
mark_four = refl

mark_twice : mark ten_marked 4 ≡ panic
unfolding mark
mark_twice = refl

mark_past_end : mark ten 10 ≡ panic
unfolding mark
mark_past_end = refl

ten-IsValid : IsValid ten
unfolding mark_from
ten-IsValid = (partial-IsFresh 10 (omega arith) (omega arith)).valid

alloc-Allocates_example : Allocates ten (alloc ten)
alloc-Allocates_example = alloc-Allocates ten ten-IsValid
