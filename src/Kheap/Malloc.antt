-- ===== src/Kheap/Malloc.antt =====
-- `kmalloc`: what it hands out.
use cse.Base.{
  ℕ, ◌+◌, ◌-◌, ◌*◌, ◌/◌, ◌%◌, ◌^◌, ◌<◌, ◌≡◌, ◌⊎◌, refl, true, List, arith, mem, not-==, not-lt→ltb,
}
use cse.Base.Outcome.{Outcome, ok, err, panic}
use cse.Vm.{Ram, alloc_kpages, ram_stealmem}
use cse.Vm.Frames.{Sane}
use cse.Kheap.{Heap, page_size, is_used, blocktype, kmalloc}
use cse.Kheap.Invariant.{HeapOk}
use cse.Kheap.Hand.{Hands}

-- No page of the kind has a free block, and none can be made: all pagerefs are in use, or physical
-- memory is full.
abbrev pub Exhausted : Heap → ℕ → Type 0
Exhausted h sz =
    ((b i : ℕ) → blocktype sz ≡ ok b → mem i (h.sizebases b) ≡ true → (h.refs i).nfree ≡ 0)
    × (((i : ℕ) → i < 256 → is_used h.inuse i ≡ true) ⊎ (h.ram.last < h.ram.first + page_size))

-- A new block is handed out, or the answer is NULL.
abbrev pub Mallocs : Heap → (free live : ℕ → List ℕ) → ℕ → Outcome (ℕ × Heap) → Type 0
Mallocs h free live sz (ok (p, h')) =
    ((p ≡ 0) × HeapOk h' free live × Exhausted h sz) ⊎ Hands h live sz p h'
Mallocs h free live sz (err e) = ⊥
Mallocs h free live sz panic = ⊥

alloc_kpages-none : (r : Ram) → Sane r → alloc_kpages r 0 ≡ (r.first + 0x8000_0000, r)
unfolding alloc_kpages ram_stealmem
alloc_kpages-none r s =
    let e : (r.first + 0 * page_size % 2 ^ 32) % 2 ^ 32 ≡ r.first =
      omega (arith, s.small, s.in_order) in
    let e2 : (r.first + 0x8000_0000) % 2 ^ 32 ≡ r.first + 0x8000_0000 =
      omega (arith, s.small, s.in_order) in
    rw
      (
        e,
        not-lt→ltb r.last r.first (omega (arith, s.in_order)),
        not-== {a = r.first} {b = 0} (omega (arith, s.first_pos)),
        e2,
      )
      refl

-- A size of more than 2^32 - 4096 bytes wraps to less than a page: `kmalloc` asks for no page at all and
-- answers the address of the next page, which it does not take.
pub kmalloc-wraps :
    (h : Heap) (sz : ℕ)
    → Sane h.ram
    → 2 ^ 32 - 4096 < sz
    → sz < 2 ^ 32
    → kmalloc h sz ≡ ok (h.ram.first + 0x8000_0000, h)
unfolding kmalloc
kmalloc-wraps h sz s big lt =
    let none_asked : (sz + page_size - 1) % 2 ^ 32 / page_size ≡ 0 = omega (arith, big, lt) in
    rw (none_asked, alloc_kpages-none h.ram s) (ground (arith, big))
