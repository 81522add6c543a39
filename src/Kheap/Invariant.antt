-- ===== src/Kheap/Invariant.antt =====
-- The invariant of the heap.
use cse.Base.{
  ℕ, ◌+◌, ◌-◌, ◌%◌, ◌≤◌, ◌<◌, ◌≡◌, ◌≢◌, refl, ◌∙◌, sym, ap, true, List, length, arith, ℕ_discrete,
  mem, not-==, eq→==,
}
use cse.Kheap.{Heap, Pageref, page_size, pr_pageaddr, pr_blocktype, put, is_used}
use cse.Kheap.Refs.{Words}
use cse.Kheap.Place.{Distinct}
use cse.Kheap.Page.{PageOk}
use cse.Vm.Frames.{Sane}

-- Page `i` has the free blocks `free i`, and `live i` are handed out. The pages are different pages of
-- physical memory that `ram` does not offer again, and each list by size has pages of its size.
pub record HeapOk (h : Heap) (free live : ℕ → List ℕ) : Type 0 where
  pub words : Words h.inuse
  pub refs_many : length h.inuse ≡ 8
  pub distinct : Distinct h.allbase
  pub page : (i : ℕ) → mem i h.allbase ≡ true → PageOk h.memory (h.refs i) (free i) (live i)
  pub used : (i : ℕ) → mem i h.allbase ≡ true → (i < 256) × (is_used h.inuse i ≡ true)
  pub below :
      (i : ℕ)
      → mem i h.allbase ≡ true
      → pr_pageaddr (h.refs i) + page_size ≤ h.ram.first + 0x8000_0000
  pub different :
      (i j : ℕ)
      → mem i h.allbase ≡ true
      → mem j h.allbase ≡ true
      → i ≢ j
      → pr_pageaddr (h.refs i) ≢ pr_pageaddr (h.refs j)
  pub sized : (b : ℕ) → b < 8 → Distinct (h.sizebases b)
  pub listed :
      (b i : ℕ)
      → b < 8
      → mem i (h.sizebases b) ≡ true
      → (mem i h.allbase ≡ true) × (pr_blocktype (h.refs i) ≡ b)
  pub sane : Sane h.ram
  pub aligned : h.ram.first % page_size ≡ 0

module _ (h : Heap) (free live : ℕ → List ℕ) (i : ℕ) (s : HeapOk h free live)
    (here : mem i h.allbase ≡ true) (p : Pageref) (memory : ℕ → ℕ) (f l : List ℕ)
    (same : p.pageaddr_and_blocktype ≡ (h.refs i).pageaddr_and_blocktype)
    (page_i : PageOk memory p f l)
    (others : (j : ℕ)
      → mem j h.allbase ≡ true
      → j ≢ i
      → PageOk memory (h.refs j) (free j) (live j)) where
  still : (j : ℕ) → (put h.refs i p j).pageaddr_and_blocktype ≡ (h.refs j).pageaddr_and_blocktype
  still j = elim (ℕ_discrete j i) [
    | yes e ↦ rw (eq→== e) (same ∙ ap (λ k. (h.refs k).pageaddr_and_blocktype) (sym e))
    | no ne ↦ rw (not-== ne) refl
  ]

  page_at :
      (j : ℕ)
      → mem j h.allbase ≡ true
      → PageOk memory (put h.refs i p j) (put free i f j) (put live i l j)
  page_at j e = elim (ℕ_discrete j i) [
    | yes at_i ↦ rw (eq→== at_i) page_i
    | no ne ↦ rw (not-== ne) (others j e ne)
  ]

  addr : (j : ℕ) → pr_pageaddr (put h.refs i p j) ≡ pr_pageaddr (h.refs j)
  addr j = ap (λ x. x - x % page_size) (still j)

  -- The invariant when one page and its blocks change.
  pub HeapOk-page :
      HeapOk (record h { refs = put h.refs i p; memory = memory }) (put free i f) (put live i l)
  HeapOk-page = record {
    words = s.words;
    refs_many = s.refs_many;
    distinct = s.distinct;
    page = page_at;
    used = s.used;
    below = λ j e. omega (arith, addr j, s.below j e);
    different = λ j k ej ek ne z. s.different j k ej ek ne (sym (addr j) ∙ z ∙ addr k);
    sized = s.sized;
    listed = λ b j lt e.
        ((s.listed b j lt e).0, ap (λ x. x % page_size) (still j) ∙ (s.listed b j lt e).1);
    sane = s.sane;
    aligned = s.aligned;
  }
