-- ===== src/Vm/Fault.antt =====
-- `vm_fault`: which page a fault maps, and in which slot of the TLB.
use Prim.Native.Nat.{bit_and, bit_or}
use cse.Base.{
  ℕ, ◌+◌, ◌-◌, ◌*◌, ◌%◌, ◌^◌, ◌≤◌, ◌<◌, ◌≡◌, ◌≢◌, refl, ◌⊎◌, inl, inr, arith, true, Option, none,
  some, List, [], ◌∷◌, ◌==◌, ℕ_discrete, eq→==, not-==,
}
use cse.Base.Outcome.{Outcome, ok, err, panic, efault, einval, ◌>>◌, assert}
use cse.Vm.{
  page_size, page_frame, Addrspace, stackpages, userstack, Entry, tlblo_dirty, tlblo_valid,
  tlb_fill, find_page, set_up, serve, vm_fault, Faulttype, vm_fault_read, vm_fault_write,
  vm_fault_readonly, other,
}

-- A region of `n` pages at `vbase`, with its frames at `pbase`: whole pages below 2^31.
pub record Region (vbase pbase n : ℕ) : Type 0 where
  pub vpos : vbase ≢ 0
  pub ppos : pbase ≢ 0
  pub some_pages : n ≢ 0
  pub valigned : vbase % page_size ≡ 0
  pub paligned : pbase % page_size ≡ 0
  pub vsmall : vbase + n * page_size ≤ userstack
  pub psmall : pbase + n * page_size ≤ 2 ^ 29

abbrev pub stackbase : ℕ
stackbase = userstack - stackpages * page_size

-- An address space that has been loaded.
pub record Loaded (a : Addrspace) : Type 0 where
  pub region1 : Region a.vbase1 a.pbase1 a.npages1
  pub region2 : Region a.vbase2 a.pbase2 a.npages2
  pub stack : Region stackbase a.stackpbase stackpages

-- The page at `addr` of the region is the page at `paddr` of its frames.
abbrev pub Maps : (vbase pbase n addr paddr : ℕ) → Type 0
Maps vbase pbase n addr paddr =
    (vbase ≤ addr) × (addr < vbase + n * page_size) × (paddr ≡ pbase + (addr - vbase))

abbrev pub MapsIn : Addrspace → ℕ → ℕ → Type 0
MapsIn a addr paddr =
    Maps a.vbase1 a.pbase1 a.npages1 addr paddr
    ⊎ (Maps a.vbase2 a.pbase2 a.npages2 addr paddr
        ⊎ Maps stackbase a.stackpbase stackpages addr paddr)

-- An address outside the three regions.
abbrev pub Outside : Addrspace → ℕ → Type 0
Outside a addr =
    ¬ ((a.vbase1 ≤ addr) × (addr < a.vbase1 + a.npages1 * page_size))
    × ¬ ((a.vbase2 ≤ addr) × (addr < a.vbase2 + a.npages2 * page_size))
    × ¬ ((stackbase ≤ addr) × (addr < userstack))

abbrev pub Finds : Addrspace → ℕ → Option ℕ → Type 0
Finds a addr (some paddr) = MapsIn a addr paddr × (paddr % page_size ≡ 0) × (paddr < 2 ^ 29)
Finds a addr none = Outside a addr

set_up-Loaded : (a : Addrspace) → Loaded a → set_up a ≡ true
unfolding set_up
set_up-Loaded a h = ground (
  arith, h.region1.vpos, h.region1.ppos, h.region1.some_pages, h.region1.valigned,
  h.region1.paligned, h.region2.vpos, h.region2.ppos, h.region2.some_pages, h.region2.valigned,
  h.region2.paligned, h.stack.ppos, h.stack.paligned,
)

find_page-Finds :
    (a : Addrspace) (addr : ℕ) → Loaded a → addr % page_size ≡ 0 → Finds a addr (find_page a addr)
unfolding find_page
find_page-Finds a addr h al = ground (
  arith, al, h.region1.vsmall, h.region1.psmall, h.region1.valigned, h.region1.paligned,
  h.region2.vsmall, h.region2.psmall, h.region2.valigned, h.region2.paligned, h.stack.psmall,
  h.stack.paligned,
)

-- The first invalid slot takes the entry.
pub data Fills (new : Entry) : List Entry → List Entry → Type 0 where
  here :
      (e : Entry) (es : List Entry) → bit_and e.elo tlblo_valid ≡ 0 → Fills new (e ∷ es) (new ∷ es)
  there :
      (e : Entry) (es fs : List Entry)
      → bit_and e.elo tlblo_valid ≢ 0
      → Fills new es fs
      → Fills new (e ∷ es) (e ∷ fs)

abbrev pub Full : List Entry → Type 0
Full [] = Unit {0}
Full (e ∷ es) = (bit_and e.elo tlblo_valid ≢ 0) × Full es

abbrev pub Filled : Entry → List Entry → Option (List Entry) → Type 0
Filled new tlb (some tlb') = Fills new tlb tlb'
Filled new tlb none = Full tlb

tlb_fill-Filled : (new : Entry) (tlb : List Entry) → Filled new tlb (tlb_fill new tlb)
unfolding tlb_fill
tlb_fill-Filled new [] = tt
tlb_fill-Filled new (e ∷ es) = elim (ℕ_discrete (bit_and e.elo tlblo_valid) 0) [
  | yes z ↦ rw (eq→== z) (here e es z)
  | no nz ↦ rw (not-== nz) (kept (tlb_fill new es) (tlb_fill-Filled new es) nz)
]
  where
    kept :
        (r : Option (List Entry))
        → Filled new es r
        → bit_and e.elo tlblo_valid ≢ 0
        → Filled new
            (e ∷ es)
            (elim r as (λ x. Option (List Entry)) [ none ↦ none | some es' ↦ some (e ∷ es') ])
    kept none full nz = (nz, full)
    kept (some fs) f nz = there e es fs nz f

abbrev pub entry : ℕ → ℕ → Entry
entry addr paddr = record { ehi = addr; elo = bit_or (bit_or paddr tlblo_dirty) tlblo_valid }

-- What a fault that may be served answers, at the page `addr`.
abbrev pub Serves : Addrspace → ℕ → List Entry → Outcome (List Entry) → Type 0
Serves a addr tlb (ok tlb') =
    (paddr : ℕ) × MapsIn a addr paddr × (paddr % page_size ≡ 0) × Fills (entry addr paddr) tlb tlb'
Serves a addr tlb (err e) = (e ≡ efault) × (Outside a addr ⊎ Full tlb)
Serves a addr tlb panic = ⊥

abbrev pub Answers : Faulttype → Addrspace → ℕ → List Entry → Outcome (List Entry) → Type 0
Answers vm_fault_read a addr tlb r = Serves a addr tlb r
Answers vm_fault_write a addr tlb r = Serves a addr tlb r
Answers vm_fault_readonly a addr tlb r = r ≡ panic
Answers other a addr tlb r = r ≡ err einval

module _ (a : Addrspace) (h : Loaded a) (tlb : List Entry) where
  serve_step :
      (addr : ℕ) (p : Option ℕ)
      → find_page a addr ≡ p
      → Finds a addr p
      → Serves a addr tlb (serve (some a) addr tlb)
  unfolding serve
  serve_step addr none e out = rw (set_up-Loaded a h, e) (refl, inl out)
  serve_step addr (some paddr) e (maps, al, small) =
      rw (set_up-Loaded a h, e, aligned)
        (fill (tlb_fill (entry addr paddr) tlb) (tlb_fill-Filled (entry addr paddr) tlb))
    where
      aligned : page_frame paddr ≡ paddr
      aligned = omega (arith, al)

      fill :
          (r : Option (List Entry))
          → Filled (entry addr paddr) tlb r
          → Serves a addr tlb (
              assert (paddr == paddr)
              >> elim r as (λ x. Outcome (List Entry)) [ none ↦ err efault | some tlb' ↦ ok tlb' ])
      fill none full = rw (eq→== {a = paddr} refl) (refl, inr full)
      fill (some tlb') f = rw (eq→== {a = paddr} refl) (paddr, maps, al, f)

  -- In an address space that has been loaded a read or a write in one of the regions maps the page to
  -- its frame, in the first invalid slot of the TLB; it answers EFAULT only outside the regions or
  -- where every slot is valid. A write to a page that is not writable panics, and an unknown fault is
  -- refused. No assertion fails.
  pub vm_fault-Answers :
      (t : Faulttype) (addr : ℕ) → Answers t a (page_frame addr) tlb (vm_fault t addr (some a) tlb)
  unfolding vm_fault
  vm_fault-Answers vm_fault_read addr =
      serve_step (page_frame addr) (find_page a (page_frame addr)) refl
        (find_page-Finds a (page_frame addr) h (omega arith))
  vm_fault-Answers vm_fault_write addr =
      serve_step (page_frame addr) (find_page a (page_frame addr)) refl
        (find_page-Finds a (page_frame addr) h (omega arith))
  vm_fault-Answers vm_fault_readonly addr = refl
  vm_fault-Answers other addr = refl
