-- ===== src/Kheap/Free.antt =====
-- os161/kern/lib/kheap.c: `kfree`.
use cse.Base.{
  ℕ, zero, suc, ◌+◌, ◌-◌, ◌/◌, ◌%◌, ◌^◌, ◌&&◌, ◌||◌, not, Option, none, some, List, [], ◌∷◌, ltb,
  leb, ◌==◌, if◌then◌else◌,
}
use cse.Base.Outcome.{Outcome, ok, panic, ◌>>=◌, ◌>>◌, assert}
use cse.Kheap.{
  Heap, Pageref, page_size, size_of, invalid_offset, pr_pageaddr, pr_blocktype, put, freepageref,
}

-- A loop over a list of pagerefs that unlinks the first one that is `pr`.
abbrev pub unlink : ℕ → List ℕ → List ℕ
unlink pr [] = []
unlink pr (guy ∷ rest) = if guy == pr then rest else guy ∷ unlink pr rest

unfoldable pub remove_lists : Heap → ℕ → ℕ → Outcome Heap
remove_lists h pr blktype = do
  assert (ltb blktype 8)
  ok (record h {
    sizebases = put h.sizebases blktype (unlink pr (h.sizebases blktype));
    allbase = unlink pr h.allbase;
  })

-- The loop of `fill_deadbeef` on `n` words.
unfoldable pub fill_loop : (n ptr : ℕ) → (ℕ → ℕ) → ℕ → ℕ
fill_loop zero ptr memory = memory
fill_loop (suc n) ptr memory = fill_loop n (ptr + 4) (put memory ptr 0xdead_beef)

abbrev pub fill_deadbeef : (ℕ → ℕ) → (vptr len : ℕ) → ℕ → ℕ
fill_deadbeef memory vptr len = fill_loop (len / 4) vptr memory

-- The loop of `subpage_kfree`: the page that the address lies in.
unfoldable pub find_owner : (ℕ → Pageref) → ℕ → List ℕ → Outcome (Option ℕ)
find_owner refs ptraddr [] = ok none
find_owner refs ptraddr (pr ∷ rest) =
    let more = find_owner refs ptraddr rest in
    let prpage = pr_pageaddr (refs pr) in
    assert (ltb (pr_blocktype (refs pr)) 8)
    >> (if leb prpage ptraddr && ltb ptraddr ((prpage + page_size) % 2 ^ 32)
        then ok (some pr)
        else more)

-- `free_kpages` does nothing.
unfoldable pub release : Heap → (pr blktype : ℕ) → Outcome Heap
release h pr blktype = do
  h1 ← remove_lists h pr blktype
  inuse ← freepageref h1.inuse pr
  ok (record h1 { inuse = inuse })

-- The rest of `subpage_kfree`, with the page found.
unfoldable pub free_block : Heap → (pr ptr : ℕ) → Outcome Heap
free_block h pr ptr =
    let p = h.refs pr in
    let prpage = pr_pageaddr p in
    let size = size_of (pr_blocktype p) in
    let offset = ptr - prpage in
    let filled = fill_deadbeef h.memory ptr size in
    let next = (if p.freelist_offset == invalid_offset then 0 else prpage + p.freelist_offset) in
    let nfree = (p.nfree + 1) % 2 ^ 16 in
    let h1 = record h {
      memory = put filled ptr next;
      refs = put h.refs pr (record p { freelist_offset = offset; nfree = nfree });
    } in
    if leb page_size offset || not (offset % size == 0)
    then panic
    else assert (leb nfree (page_size / size))
      >> (if nfree == page_size / size then release h1 pr (pr_blocktype p) else ok h1)

-- `none` is the answer -1: the address lies in no page of the heap.
unfoldable pub subpage_kfree : Heap → ℕ → Outcome (Option Heap)
subpage_kfree h ptr = do
  owner ← find_owner h.refs ptr h.allbase
  elim owner [ none ↦ ok none | some pr ↦ free_block h pr ptr >>= λ h1. ok (some h1) ]

unfoldable pub kfree : Heap → ℕ → Outcome Heap
kfree h ptr =
    let freed : Outcome Heap = subpage_kfree h ptr >>= λ r. elim r [
      | none ↦ assert (ptr % page_size == 0) >> ok h
      | some h1 ↦ ok h1
    ] in
    if ptr == 0 then ok h else freed
