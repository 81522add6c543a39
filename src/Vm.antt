-- ===== src/Vm.antt =====
-- os161/kern/arch/mips/mips/ram.c and dumbvm.c: physical memory, address spaces and page faults.
-- Addresses are 32 bits. Physical memory is a function from addresses to bytes; KSEG0, through which
-- the kernel reaches it, is left out. The TLB is the list of its entries, in the order of their slots.
pub mod Frames
pub mod Fault
pub mod Copy
mod Tests
use Prim.Native.Nat.{bit_and, bit_or}
use cse.Base.{
  ℕ, zero, suc, ◌+◌, ◌-◌, ◌*◌, ◌/◌, ◌%◌, ◌^◌, Bool, true, false, ◌&&◌, not, Option, none, some,
  List, [], ◌∷◌, ltb, leb, ◌==◌, if◌then◌else◌,
}
use cse.Base.Outcome.{Outcome, ok, err, panic, einval, efault, enomem, eunimp, ◌>>=◌, ◌>>◌, assert}

abbrev pub page_size : ℕ
page_size = 4096

-- `addr & PAGE_FRAME`
abbrev pub page_frame : ℕ → ℕ
page_frame a = a - a % page_size

-- `firstpaddr` and `lastpaddr`.
pub record Ram : Type 0 where
  pub first : ℕ
  pub last : ℕ

-- The address 0 means that there is no memory.
unfoldable pub ram_stealmem : Ram → ℕ → ℕ × Ram
ram_stealmem r npages =
    let size = npages * page_size % 2 ^ 32 in
    if ltb r.last ((r.first + size) % 2 ^ 32)
    then (0, r)
    else (r.first, record r { first = (r.first + size) % 2 ^ 32 })

pub ram_getsize : Ram → ℕ × ℕ × Ram
ram_getsize r = (r.first, r.last, record { first = 0; last = 0 })

pub ram_getavail : Ram → ℕ
ram_getavail r = (r.last + 2 ^ 32 - r.first) % 2 ^ 32

-- `getppages` turns interrupts off round `ram_stealmem`.
abbrev pub getppages : Ram → ℕ → ℕ × Ram
getppages r npages = ram_stealmem r npages

-- `PADDR_TO_KVADDR` adds the base of KSEG0; 0 is a failure.
unfoldable pub alloc_kpages : Ram → ℕ → ℕ × Ram
alloc_kpages r npages =
    let (pa, r') = getppages r npages in
    if pa == 0 then (0, r') else ((pa + 0x8000_0000) % 2 ^ 32, r')

pub record Addrspace : Type 0 where
  pub vbase1 : ℕ
  pub pbase1 : ℕ
  pub npages1 : ℕ
  pub vbase2 : ℕ
  pub pbase2 : ℕ
  pub npages2 : ℕ
  pub stackpbase : ℕ

abbrev pub stackpages : ℕ
stackpages = 12

abbrev pub userstack : ℕ
userstack = 0x8000_0000

abbrev pub as_create : Addrspace
as_create = record {
  vbase1 = 0;
  pbase1 = 0;
  npages1 = 0;
  vbase2 = 0;
  pbase2 = 0;
  npages2 = 0;
  stackpbase = 0;
}

unfoldable pub as_define_region : Addrspace → (vaddr sz : ℕ) → Outcome Addrspace
as_define_region a vaddr sz =
    let sz1 = (sz + vaddr % page_size) % 2 ^ 32 in
    let sz2 = page_frame ((sz1 + page_size - 1) % 2 ^ 32) in
    let npages = sz2 / page_size in
    let base = page_frame vaddr in
    if a.vbase1 == 0
    then ok (record a { vbase1 = base; npages1 = npages })
    else if a.vbase2 == 0
    then ok (record a { vbase2 = base; npages2 = npages })
    else err eunimp

-- The frames that were taken before a failure stay taken.
unfoldable pub as_prepare_load : Ram → Addrspace → Ram × Outcome Addrspace
as_prepare_load r a =
    let (p1, r1) = getppages r a.npages1 in
    let (p2, r2) = getppages r1 a.npages2 in
    let (ps, r3) = getppages r2 stackpages in
    if not (a.pbase1 == 0 && a.pbase2 == 0 && a.stackpbase == 0)
    then (r, panic)
    else if p1 == 0
    then (r1, err enomem)
    else if p2 == 0
    then (r2, err enomem)
    else if ps == 0
    then (r3, err enomem)
    else (r3, ok (record a { pbase1 = p1; pbase2 = p2; stackpbase = ps }))

-- The answer is the initial stack pointer.
pub as_define_stack : Addrspace → Outcome ℕ
as_define_stack a = do assert (not (a.stackpbase == 0)); ok userstack

pub record Entry : Type 0 where
  pub ehi : ℕ
  pub elo : ℕ

abbrev pub tlblo_dirty : ℕ
tlblo_dirty = 0x400

abbrev pub tlblo_valid : ℕ
tlblo_valid = 0x200

-- `as_activate`: all `n` slots from slot `i` on become invalid.
pub as_activate : ℕ → ℕ → List Entry
as_activate zero i = []
as_activate (suc n) i = record { ehi = (0x80000 + i) * 2 ^ 12; elo = 0 } ∷ as_activate n (i + 1)

-- The loop over the TLB: the first slot that is not valid takes the entry.
unfoldable pub tlb_fill : Entry → List Entry → Option (List Entry)
tlb_fill new [] = none
tlb_fill new (e ∷ es) =
    let rest = tlb_fill new es in
    let kept : Option (List Entry) = elim rest [ none ↦ none | some es' ↦ some (e ∷ es') ] in
    if bit_and e.elo tlblo_valid == 0 then some (new ∷ es) else kept

-- Which physical page the chain of tests finds; `none` where it ends in EFAULT.
unfoldable pub find_page : Addrspace → ℕ → Option ℕ
find_page a addr =
    let vtop1 = (a.vbase1 + a.npages1 * page_size) % 2 ^ 32 in
    let vtop2 = (a.vbase2 + a.npages2 * page_size) % 2 ^ 32 in
    let stackbase = userstack - stackpages * page_size in
    if leb a.vbase1 addr && ltb addr vtop1
    then some ((addr - a.vbase1 + a.pbase1) % 2 ^ 32)
    else if leb a.vbase2 addr && ltb addr vtop2
    then some ((addr - a.vbase2 + a.pbase2) % 2 ^ 32)
    else if leb stackbase addr && ltb addr userstack
    then some ((addr - stackbase + a.stackpbase) % 2 ^ 32)
    else none

-- The assertions that the address space has been set up.
unfoldable pub set_up : Addrspace → Bool
set_up a =
    not (a.vbase1 == 0)
    && not (a.pbase1 == 0)
    && not (a.npages1 == 0)
    && not (a.vbase2 == 0)
    && not (a.pbase2 == 0)
    && not (a.npages2 == 0)
    && not (a.stackpbase == 0)
    && (page_frame a.vbase1 == a.vbase1)
    && (page_frame a.pbase1 == a.pbase1)
    && (page_frame a.vbase2 == a.vbase2)
    && (page_frame a.pbase2 == a.pbase2)
    && (page_frame a.stackpbase == a.stackpbase)

pub data Faulttype : Type 0 where
  vm_fault_read vm_fault_write vm_fault_readonly other : Faulttype

-- A fault that may be served; `none` is a thread without an address space.
unfoldable pub serve : Option Addrspace → ℕ → List Entry → Outcome (List Entry)
serve none addr tlb = err efault
serve (some a) addr tlb = do
  assert (set_up a)
  elim (find_page a addr) [
    | none ↦ err efault
    | some paddr ↦ (do
      assert (page_frame paddr == paddr)
      elim (tlb_fill (record { ehi = addr; elo = bit_or (bit_or paddr tlblo_dirty) tlblo_valid })
          tlb) [ none ↦ err efault | some tlb' ↦ ok tlb' ])
  ]

unfoldable pub vm_fault : Faulttype → ℕ → Option Addrspace → List Entry → Outcome (List Entry)
vm_fault vm_fault_read faultaddress as_ tlb = serve as_ (page_frame faultaddress) tlb
vm_fault vm_fault_write faultaddress as_ tlb = serve as_ (page_frame faultaddress) tlb
vm_fault vm_fault_readonly faultaddress as_ tlb = panic
vm_fault other faultaddress as_ tlb = err einval

-- `memmove` of `n` bytes of physical memory.
abbrev pub move_bytes : (ℕ → ℕ) → (dst src n : ℕ) → ℕ → ℕ
move_bytes m dst src n a = if leb dst a && ltb a (dst + n) then m (src + (a - dst)) else m a

-- The new space before it has frames: the regions are copied.
abbrev pub outline : Addrspace → Addrspace
outline old = record as_create {
  vbase1 = old.vbase1;
  npages1 = old.npages1;
  vbase2 = old.vbase2;
  npages2 = old.npages2;
}

-- The flag says whether the `kmalloc` of `as_create` succeeds.
unfoldable pub as_copy : Bool → Ram → (ℕ → ℕ) → Addrspace → Ram × (ℕ → ℕ) × Outcome Addrspace
as_copy false r m old = (r, m, err enomem)
as_copy true r m old =
    let (r', prepared) = as_prepare_load r (outline old) in
    elim prepared [
      | ok new ↦ (
        r',
        move_bytes
            (move_bytes (move_bytes m new.pbase1 old.pbase1 (old.npages1 * page_size % 2 ^ 32))
              new.pbase2 old.pbase2 (old.npages2 * page_size % 2 ^ 32))
            new.stackpbase old.stackpbase (stackpages * page_size),
        ok new,
      )
      | err e ↦ (r', m, err enomem)
      | panic ↦ (r', m, panic)
    ]
