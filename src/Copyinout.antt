-- ===== src/Copyinout.antt =====
-- os161/kern/lib/copyinout.c: copying between user memory and the kernel.
-- User memory answers each access: an address that holds no byte, or cannot be written, faults, and
-- a fault with `pcb_badfaultfunc` set goes to `copyfail`, which returns to the `setjmp` (`faulted`).
-- A fault without it is fatal. What a fault leaves in a kernel buffer is not modelled.
pub mod Check
pub mod Strings
pub mod Blocks
mod Tests
use cse.Base.{
  ℕ, zero, suc, ◌+◌, ◌-◌, ◌%◌, ◌^◌, Bool, true, false, ◌&&◌, Option, none, some, List, [], ◌∷◌, ltb,
  leb, ◌==◌, if◌then◌else◌, length,
}
use cse.Base.Outcome.{Outcome, ok, err, panic, Errno, efault, enametoolong, ◌>>=◌}

-- `USERTOP` of os161/kern/arch/mips/include/vm.h.
abbrev pub usertop : ℕ
usertop = 0x8000_0000

-- Addresses and lengths are 32 bits. The result is `stoplen`.
unfoldable pub copycheck : ℕ → ℕ → Outcome ℕ
copycheck bot len =
    let top = (bot + len + 2 ^ 32 - 1) % 2 ^ 32 in
    if ltb top bot
    then err efault
    else if leb usertop bot
    then err efault
    else if leb usertop top
    then ok (usertop - bot)
    else ok len

-- What the kernel sees of the machine: the bytes of user memory, which of them can be written, and
-- whether `curthread->t_pcb.pcb_badfaultfunc` is `copyfail`.
pub record Machine : Type 0 where
  pub byte : ℕ → Option ℕ
  pub writable : ℕ → Bool
  pub badfaultfunc : Bool

-- The end of an access to user memory: done, or a fault.
pub data Access (A : Type 0) : Type 0 where
  done : A → Access A
  fault : Access A

-- `memcpy` out of user memory.
unfoldable pub read_block : Machine → ℕ → ℕ → Access (List ℕ)
read_block m src zero = done []
read_block m src (suc n) =
    let rest = read_block m (src + 1) n in
    elim (m.byte src) [
      | none ↦ fault
      | some c ↦ elim rest [ done cs ↦ done (c ∷ cs) | fault ↦ fault ]
    ]

abbrev pub poke : Machine → ℕ → ℕ → Machine
poke m a c = record m { byte = λ b. if a == b then some c else m.byte b }

abbrev pub present : Option ℕ → Bool
present none = false
present (some c) = true

-- `memcpy` into user memory; the bytes before a fault are written.
unfoldable pub write_block : Machine → ℕ → List ℕ → Machine × Access (Unit {0})
write_block m dest [] = (m, done tt)
write_block m dest (c ∷ cs) =
    let rest = write_block (poke m dest c) (dest + 1) cs in
    if present (m.byte dest) && m.writable dest then rest else (m, fault)

-- `setjmp` and `copyfail`: a fault with the handler set makes the call return EFAULT.
abbrev pub faulted : {A : Type 0} → Machine → Outcome A
faulted m = if m.badfaultfunc then err efault else panic

abbrev pub set_handler : Machine → Bool → Machine
set_handler m f = record m { badfaultfunc = f }

unfoldable pub copyin : Machine → ℕ → ℕ → Machine × Outcome (List ℕ)
copyin m usersrc len = elim (copycheck usersrc len) [
  | ok stoplen ↦
      if stoplen == len
      then (let m1 = set_handler m true in
          elim (read_block m1 usersrc len) [
            | done dest ↦ (set_handler m1 false, ok dest)
            | fault ↦ (set_handler m1 false, faulted m1)
          ])
      else (m, err efault)
  | err e ↦ (m, err e)
  | panic ↦ (m, panic)
]

unfoldable pub copyout : Machine → List ℕ → ℕ → Machine × Outcome (Unit {0})
copyout m src userdest =
    let len = length src in
    elim (copycheck userdest len) [
      | ok stoplen ↦
          if stoplen == len
          then (let (m1, r) = write_block (set_handler m true) userdest src in
              elim r [
                | done _ ↦ (set_handler m1 false, ok tt)
                | fault ↦ (set_handler m1 false, faulted m1)
              ])
          else (m, err efault)
      | err e ↦ (m, err e)
      | panic ↦ (m, panic)
    ]

-- `copystr` out of user memory, from index `i` on with `n` rounds left before `maxlen` or
-- `stoplen`: the string with its null, or the error code. `gotlen` is the string's length.
unfoldable pub copystr_loop : Machine → (src n : ℕ) → Errno → Access (Outcome (List ℕ))
copystr_loop m src zero e = done (err e)
copystr_loop m src (suc n) e =
    let rest = copystr_loop m (src + 1) n e in
    elim (m.byte src) [
      | none ↦ fault
      | some c ↦ if c == 0 then done (ok (0 ∷ [])) else elim rest [
        | done (ok cs) ↦ done (ok (c ∷ cs))
        | done (err x) ↦ done (err x)
        | done panic ↦ done panic
        | fault ↦ fault
      ]
    ]

unfoldable pub copystr : Machine → (src maxlen stoplen : ℕ) → Access (Outcome (List ℕ))
copystr m src maxlen stoplen =
    if ltb stoplen maxlen
    then copystr_loop m src stoplen efault
    else copystr_loop m src maxlen enametoolong

unfoldable pub copyinstr : Machine → (usersrc len : ℕ) → Machine × Outcome (List ℕ)
copyinstr m usersrc len = elim (copycheck usersrc len) [
  | ok stoplen ↦
      (let m1 = set_handler m true in
        elim (copystr m1 usersrc len stoplen) [
          | done result ↦ (set_handler m1 false, result)
          | fault ↦ (set_handler m1 false, faulted m1)
        ])
  | err e ↦ (m, err e)
  | panic ↦ (m, panic)
]
