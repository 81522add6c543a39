-- ===== src/Copyinout/Tests.antt =====
-- copyinout.c at a small user memory, and the theorems at inputs that meet their hypotheses.
use cse.Base.{◌≡◌, refl, true, false, none, some, [], ◌∷◌, arith, ◌==◌, if◌then◌else◌}
use cse.Base.Outcome.{ok, err, efault, enametoolong}
use cse.Copyinout.{
  copycheck, Machine, read_block, copystr_loop, copystr, copyin, copyout, copyinstr,
}
use cse.Copyinout.Blocks.{CopiesIn, CopiesOut, copyin-CopiesIn, copyout-CopiesOut, copyin-zero}
use cse.Copyinout.Strings.{CopiesString, copyinstr-CopiesString}

-- "hi" with its null at 0x1000, "x" at the last byte of user space, nothing else mapped.
abbrev small : Machine
small = record {
  byte = λ a.
      if a == 0x1000
      then some b'h'
      else if a == 0x1001
      then some b'i'
      else if a == 0x1002
      then some 0
      else if a == 0x7fff_ffff
      then some b'x'
      else none;
  writable = λ a. true;
  badfaultfunc = false;
}

check_across : copycheck 0x7fff_fff0 0x100 ≡ ok 0x10
unfolding copycheck
check_across = refl

check_wraps : copycheck 0x7fff_fff0 0xf000_0000 ≡ err efault
unfolding copycheck
check_wraps = refl

copyin_two : (copyin small 0x1000 2).1 ≡ ok (b'h' ∷ b'i' ∷ [])
unfolding copyin copycheck read_block
copyin_two = refl

copyin_unmapped : (copyin small 0x1000 4).1 ≡ err efault
unfolding copyin copycheck read_block
copyin_unmapped = refl

string_ends : (copyinstr small 0x1000 8).1 ≡ ok (b'h' ∷ b'i' ∷ 0 ∷ [])
unfolding copyinstr copycheck copystr copystr_loop
string_ends = refl

string_too_long : (copyinstr small 0x1000 2).1 ≡ err enametoolong
unfolding copyinstr copycheck copystr copystr_loop
string_too_long = refl

string_into_kernel : (copyinstr small 0x7fff_ffff 8).1 ≡ err efault
unfolding copyinstr copycheck copystr copystr_loop
string_into_kernel = refl

copyin-CopiesIn_example : CopiesIn small 0x1000 2 (copyin small 0x1000 2).1
copyin-CopiesIn_example = copyin-CopiesIn small 0x1000 2 (omega arith) (omega arith) (omega arith)

copyout-CopiesOut_example : CopiesOut small (1 ∷ 2 ∷ []) 0x1000 (copyout small (1 ∷ 2 ∷ []) 0x1000)
copyout-CopiesOut_example =
    copyout-CopiesOut small (1 ∷ 2 ∷ []) 0x1000 refl (omega arith) (omega arith) (omega arith)

copyinstr-CopiesString_example : CopiesString small.byte 0x1000 8 (copyinstr small 0x1000 8).1
copyinstr-CopiesString_example =
    copyinstr-CopiesString small 0x1000 8 (omega arith) (omega arith) (omega arith)

copyin-zero_example :
    (copyin small 0x1000 0 ≡ (small, err efault)) × (copyout small [] 0x1000 ≡ (small, err efault))
copyin-zero_example = copyin-zero small 0x1000 (omega arith)
