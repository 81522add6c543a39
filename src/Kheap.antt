-- ===== src/Kheap.antt =====
-- os161/kern/lib/kheap.c: the kernel's heap, `kmalloc` and `kfree`, over the pages of dumbvm.c.
-- A pageref is its index in `pagerefs`, and the lists through `next_samesize` and `next_all` are lists
-- of indices. Memory gives the word at an address, in which a free block keeps the address of the
-- next one; 0 is NULL. The checks under SLOW and SLOWER, which are undefined, are left out.
pub mod Free
pub mod Refs
pub mod Place
pub mod Page
pub mod Invariant
pub mod Fresh
pub mod Hand
pub mod Pages
pub mod Search
pub mod Grow
pub mod Malloc
pub mod Release
pub mod Owner
pub mod Kfree
mod Tests
use cse.Base.{
  ℕ, zero, suc, ◌+◌, ◌-◌, ◌*◌, ◌/◌, ◌%◌, ◌^◌, Bool, true, false, ◌&&◌, ◌||◌, not, Option, none,
  some, List, [], ◌∷◌, ltb, leb, ◌==◌, if◌then◌else◌, get_or, set,
}
use cse.Base.Outcome.{Outcome, ok, err, panic, ◌>>=◌, ◌>>◌, assert}
use cse.Vm.{Ram, alloc_kpages}

abbrev pub page_size : ℕ
page_size = 4096

abbrev pub sizes : List ℕ
sizes = 16 ∷ 32 ∷ 64 ∷ 128 ∷ 256 ∷ 512 ∷ 1024 ∷ 2048 ∷ []

abbrev pub size_of : ℕ → ℕ
size_of blktype = get_or sizes blktype 1

abbrev pub invalid_offset : ℕ
invalid_offset = 0xffff

pub record Pageref : Type 0 where
  pub pageaddr_and_blocktype : ℕ
  pub freelist_offset : ℕ  -- u_int16_t
  pub nfree : ℕ  -- u_int16_t

abbrev pub pr_pageaddr : Pageref → ℕ
pr_pageaddr pr = pr.pageaddr_and_blocktype - pr.pageaddr_and_blocktype % page_size

abbrev pub pr_blocktype : Pageref → ℕ
pr_blocktype pr = pr.pageaddr_and_blocktype % page_size

abbrev pub mkpab : ℕ → ℕ → ℕ
mkpab pa blk = pa - pa % page_size + blk % page_size

-- A word of `pagerefs_inuse` is the list of its 32 bits, the lowest first.
pub record Heap : Type 0 where
  pub refs : ℕ → Pageref
  pub inuse : List (List Bool)
  pub sizebases : ℕ → List ℕ
  pub allbase : List ℕ
  pub memory : ℕ → ℕ
  pub ram : Ram

-- An array, or memory, with one place written.
abbrev pub put {ℓ} : {A : Type ℓ} → (ℕ → A) → ℕ → A → ℕ → A
put f i x j = if j == i then x else f j

abbrev pub all_ones : List Bool → Bool
all_ones [] = true
all_ones (b ∷ bs) = b && all_ones bs

-- The inner loop of `allocpageref`: the first clear bit of a word.
abbrev pub clear_bit : List Bool → Option ℕ
clear_bit [] = none
clear_bit (true ∷ bs) = elim (clear_bit bs) [ none ↦ none | some j ↦ some (suc j) ]
clear_bit (false ∷ bs) = some 0

-- What the inner loop does with the bit; without one, the `assert(0)` behind it.
abbrev pub take_ref :
    ℕ → List Bool → List (List Bool) → Option ℕ → Outcome (Option (ℕ × List (List Bool)))
take_ref i w ws none = panic
take_ref i w ws (some j) = ok (some (i * 32 + j, set w j true ∷ ws))

-- The array with a word in front, of which the loop did not take a bit.
abbrev pub with_word : List Bool → Option (ℕ × List (List Bool)) → Option (ℕ × List (List Bool))
with_word w none = none
with_word w (some (p, ws)) = some (p, w ∷ ws)

-- The outer loop, from word `i` on; `ok none` is NULL.
unfoldable pub ref_loop : ℕ → List (List Bool) → Outcome (Option (ℕ × List (List Bool)))
ref_loop i [] = ok none
ref_loop i (w ∷ ws) =
    let rest = ref_loop (i + 1) ws >>= λ r. ok (with_word w r) in
    if all_ones w then rest else take_ref i w ws (clear_bit w)

abbrev pub allocpageref : List (List Bool) → Outcome (Option (ℕ × List (List Bool)))
allocpageref inuse = ref_loop 0 inuse

-- Bit `p` of the array.
abbrev pub is_used : List (List Bool) → ℕ → Bool
is_used inuse p = get_or (get_or inuse (p / 32) []) (p % 32) false

unfoldable pub freepageref : List (List Bool) → ℕ → Outcome (List (List Bool))
freepageref inuse p = do
  assert (ltb p 256)
  assert (is_used inuse p)
  ok (set inuse (p / 32) (set (get_or inuse (p / 32) []) (p % 32) false))

-- The loop of `blocktype`, from index `i` on.
abbrev pub blocktype_loop : ℕ → List ℕ → ℕ → Outcome ℕ
blocktype_loop i [] sz = panic
blocktype_loop i (s ∷ ss) sz = if leb sz s then ok i else blocktype_loop (suc i) ss sz

abbrev pub blocktype : ℕ → Outcome ℕ
blocktype sz = blocktype_loop 0 sizes sz

-- The loop of `subpage_kmalloc`: the first page of the size with a free block.
unfoldable pub find_page : (ℕ → Pageref) → ℕ → List ℕ → Outcome (Option ℕ)
find_page refs blktype [] = ok none
find_page refs blktype (pr ∷ rest) =
    let more = find_page refs blktype rest in
    assert (pr_blocktype (refs pr) == blktype)
    >> (if ltb 0 (refs pr).nfree then ok (some pr) else more)

-- From `doalloc` on: the first free block of the page `pr`.
unfoldable pub doalloc : Heap → ℕ → Outcome (ℕ × Heap)
doalloc h pr = do
  let p = h.refs pr
  assert (ltb p.freelist_offset page_size)
  let prpage = pr_pageaddr p
  let fla = prpage + p.freelist_offset
  let next = h.memory fla
  let left = p.nfree - 1
  let offset = (next + 2 ^ 32 - prpage) % 2 ^ 32
  new ←
      (if not (next == 0)
        then assert (ltb 0 left) >> assert (ltb offset page_size) >> ok offset
        else assert (left == 0) >> ok invalid_offset)
  ok (fla, record h { refs = put h.refs pr (record p { freelist_offset = new; nfree = left }) })

-- The loop that links `n` blocks, from block `i` on, each to the one before it.
unfoldable pub link_loop : (n i size fla : ℕ) → (ℕ → ℕ) → Outcome (ℕ → ℕ)
link_loop zero i size fla memory = ok memory
link_loop (suc n) i size fla memory = do
  assert (not (fla + i * size == fla + (i - 1) * size))
  link_loop n (suc i) size fla (put memory (fla + i * size) (fla + (i - 1) * size))

-- A fresh page in the lists, with the page's pageref `pr`.
unfoldable pub new_page : Heap → (blktype pr prpage : ℕ) → Outcome Heap
new_page h blktype pr prpage = do
  let size = size_of blktype
  let nfree = page_size / size
  memory ← link_loop (nfree - 1) 1 size prpage (put h.memory prpage 0)
  ok (record h {
    refs = put h.refs pr (record {
      pageaddr_and_blocktype = mkpab prpage blktype;
      freelist_offset = (nfree - 1) * size;
      nfree = nfree;
    });
    sizebases = put h.sizebases blktype (pr ∷ h.sizebases blktype);
    allbase = pr ∷ h.allbase;
    memory = memory;
  })

-- A page more, where all the pages of the size are full: without a pageref or a page the answer is
-- NULL.
unfoldable pub grow : Heap → ℕ → Outcome (ℕ × Heap)
grow h blktype = allocpageref h.inuse >>= λ r. elim r [
  | none ↦ ok (0, h)
  | some (pr, inuse) ↦
      (let (prpage, ram) = alloc_kpages h.ram 1 in
        if prpage == 0
        then (freepageref inuse pr >>= λ back. ok (0, record h { inuse = back; ram = ram }))
        else (new_page (record h { inuse = inuse; ram = ram }) blktype pr prpage >>= λ h1.
            doalloc h1 pr))
]

unfoldable pub subpage_kmalloc : Heap → ℕ → Outcome (ℕ × Heap)
subpage_kmalloc h sz = do
  blktype ← blocktype sz
  found ← find_page h.refs blktype (h.sizebases blktype)
  elim found [ none ↦ grow h blktype | some pr ↦ doalloc h pr ]

-- A size_t has 32 bits, and the sum wraps.
unfoldable pub kmalloc : Heap → ℕ → Outcome (ℕ × Heap)
kmalloc h sz =
    let (address, ram) = alloc_kpages h.ram ((sz + page_size - 1) % 2 ^ 32 / page_size) in
    if leb 2048 sz then ok (address, record h { ram = ram }) else subpage_kmalloc h sz
