-- ===== src/Base/Outcome.antt =====
-- What a kernel function answers: os161/kern/include/kern/errno.h, and the panics.
-- A failed `assert` panics, and so does an access outside a block of memory.
use cse.Base.{Bool, true, false}

-- The error codes, in the order of their numbers, from 1.
pub data Errno : Type 0 where
  einval efault enametoolong enomem eio enoent enotdir eisdir eexist exdev : Errno
  eagain espipe eunimp enxio enodev ebusy eioctl enotempty erange enospc : Errno
  emfile enfile enosys enoexec e2big ebadf : Errno

pub data Outcome {ℓ} (A : Type ℓ) : Type ℓ where
  ok : A → Outcome A
  err : Errno → Outcome A
  panic : Outcome A

infixl 5 ◌>>=◌ ◌>>◌
abbrev pub ◌>>=◌ {ℓ κ} : {A : Type ℓ} {B : Type κ} → Outcome A → (A → Outcome B) → Outcome B
ok a >>= f = f a
err e >>= f = err e
panic >>= f = panic

abbrev pub ◌>>◌ {ℓ} : {B : Type ℓ} → Outcome (Unit {0}) → Outcome B → Outcome B
m >> k = m >>= λ _. k

-- `assert` of os161/kern/include/lib.h.
abbrev pub assert : Bool → Outcome (Unit {0})
assert true = ok tt
assert false = panic

-- `assert(result == 0)` on the error code that a call returned.
abbrev pub must {ℓ} : {A : Type ℓ} → Outcome A → Outcome A
must (ok a) = ok a
must (err e) = panic
must panic = panic
