-- ===== src/Kheap/Page.antt =====
-- One page of the heap: the invariant of its pageref, and what an allocation and a free do to it.
use cse.Base.{
  ℕ, zero, suc, ◌+◌, ◌-◌, ◌*◌, ◌/◌, ◌%◌, ◌^◌, ◌<◌, ◌≡◌, ◌≢◌, inl, inr, refl, ◌∙◌, true, false, not,
  ◌&&◌, List, [], ◌∷◌, ◌==◌, if◌then◌else◌, length, arith, ℕ_discrete, mem, not-==, eq→==, lt→ltb,
}
use cse.Base.Outcome.{ok}
use cse.Kheap.{
  Heap, Pageref, page_size, size_of, invalid_offset, pr_pageaddr, pr_blocktype, put, doalloc,
}
use cse.Kheap.Free.{unlink, fill_loop, fill_deadbeef}
use cse.Kheap.Place.{
  Placed, Chain, Chain-same, InPage, Placed-mem, Outside, other_block, unlink-mem, length-unlink,
  Placed-Distinct, Placed-unlink, page_multiple,
}

-- The address of the first free block.
abbrev pub first_free : Pageref → ℕ
first_free p = if p.freelist_offset == invalid_offset then 0 else pr_pageaddr p + p.freelist_offset

-- The page is cut into the blocks `free`, chained in this order, and the blocks `live`, which are
-- handed out.
pub record PageOk (memory : ℕ → ℕ) (p : Pageref) (free live : List ℕ) : Type 0 where
  pub kind : pr_blocktype p < 8
  pub page_pos : 0 < pr_pageaddr p
  pub page_end : pr_pageaddr p + page_size < 2 ^ 32
  pub chain : Chain memory (first_free p) free
  pub free_placed : Placed (pr_pageaddr p) (size_of (pr_blocktype p)) free
  pub live_placed : Placed (pr_pageaddr p) (size_of (pr_blocktype p)) live
  pub apart : (x : ℕ) → mem x free ≡ true → mem x live ≡ false
  pub count : p.nfree ≡ length free
  pub total : length free + length live ≡ page_size / size_of (pr_blocktype p)

module _ (memory : ℕ → ℕ) (p : Pageref) (x : ℕ) (f live : List ℕ)
    (h : PageOk memory p (x ∷ f) live) where
  pub first_at : (pr_pageaddr p + p.freelist_offset ≡ x) × (p.freelist_offset < page_size)
  first_at = elim (ℕ_discrete p.freelist_offset invalid_offset) [
    | yes e ↦ absurd (omega (arith, rw (eq→== e) at h.chain.0, h.free_placed.0, h.page_pos))
    | no ne ↦
        (let e : pr_pageaddr p + p.freelist_offset ≡ x = rw (not-== ne) at h.chain.0 in
          (e, omega (arith, e, h.free_placed.1)))
  ]

  -- The page once its first free block is handed out.
  pub taken-PageOk :
      (new : ℕ)
      → Chain memory (if new == invalid_offset then 0 else pr_pageaddr p + new) f
      → PageOk memory (record p { freelist_offset = new; nfree = p.nfree - 1 }) f (x ∷ live)
  taken-PageOk new c = record {
    kind = h.kind;
    page_pos = h.page_pos;
    page_end = h.page_end;
    chain = c;
    free_placed = placed.4;
    live_placed = (placed.0, placed.1, placed.2, h.apart x (ground arith), h.live_placed);
    apart = λ y e. ground (arith, e, h.apart y, placed.3);
    count = omega (arith, h.count);
    total = omega (arith, h.total);
  }
    where
      placed : Placed (pr_pageaddr p) (size_of (pr_blocktype p)) (x ∷ f)
      placed = h.free_placed

module _ (h : Heap) (pr : ℕ) (x : ℕ) where
  doalloc-last :
      (h.refs pr).freelist_offset < page_size
      → pr_pageaddr (h.refs pr) + (h.refs pr).freelist_offset ≡ x
      → h.memory x ≡ 0
      → (h.refs pr).nfree ≡ 1
      → doalloc h pr
        ≡ ok (
          x,
          record h {
            refs = put h.refs pr (record (h.refs pr) {
              freelist_offset = invalid_offset;
              nfree = (h.refs pr).nfree - 1;
            });
          },
        )
  unfolding doalloc
  doalloc-last lt e next one = rw (lt→ltb _ page_size lt, e, next, one) refl

  doalloc-more :
      (y : ℕ)
      → (h.refs pr).freelist_offset < page_size
      → pr_pageaddr (h.refs pr) + (h.refs pr).freelist_offset ≡ x
      → h.memory x ≡ y
      → y ≢ 0
      → 0 < (h.refs pr).nfree - 1
      → (y + 2 ^ 32 - pr_pageaddr (h.refs pr)) % 2 ^ 32 ≡ y - pr_pageaddr (h.refs pr)
      → y - pr_pageaddr (h.refs pr) < page_size
      → doalloc h pr
        ≡ ok (
          x,
          record h {
            refs = put h.refs pr (record (h.refs pr) {
              freelist_offset = y - pr_pageaddr (h.refs pr);
              nfree = (h.refs pr).nfree - 1;
            });
          },
        )
  unfolding doalloc
  doalloc-more y lt e next nz left wrap inside =
      rw
        (
          lt→ltb _ page_size lt,
          e,
          next,
          not-== nz,
          lt→ltb 0 _ left,
          wrap,
          lt→ltb _ page_size inside,
        )
        refl

-- `doalloc` hands out the first free block of the page, and none of its assertions fails.
pub doalloc-PageOk :
    (h : Heap) (pr x : ℕ) (f live : List ℕ)
    → PageOk h.memory (h.refs pr) (x ∷ f) live
    → (p : Pageref) × (doalloc h pr ≡ ok (x, record h { refs = put h.refs pr p }))
      × (p.pageaddr_and_blocktype ≡ (h.refs pr).pageaddr_and_blocktype)
      × PageOk h.memory p f (x ∷ live)
doalloc-PageOk h pr x [] live s =
    let (e, lt) = first_at h.memory (h.refs pr) x [] live s in
    (
      _,
      doalloc-last h pr x lt e s.chain.1 s.count,
      refl,
      taken-PageOk h.memory (h.refs pr) x [] live s invalid_offset refl,
    )
doalloc-PageOk h pr x (y ∷ g) live s =
    let (e, lt) = first_at h.memory (h.refs pr) x (y ∷ g) live s in
    let (lo, hi, aligned, away, more) = s.free_placed.4 in
    let inside : y - pr_pageaddr (h.refs pr) < page_size = omega (arith, lo, hi) in
    (
      _,
      doalloc-more h pr x y lt e s.chain.1.0 (λ z. omega (arith, z, lo, s.page_pos))
          (omega (arith, s.count)) (omega (arith, lo, hi, s.page_end)) inside,
      refl,
      taken-PageOk h.memory (h.refs pr) x (y ∷ g) live s (y - pr_pageaddr (h.refs pr)) (
          rw (not-== {a = y - pr_pageaddr (h.refs pr)} {b = invalid_offset} (omega (arith, inside)))
            (omega (arith, lo), s.chain.1.1)),
    )

-- Memory after the block was filled and linked to `next`.
abbrev pub cleared : (ℕ → ℕ) → (x size next : ℕ) → ℕ → ℕ
cleared memory x size next = put (fill_deadbeef memory x size) x next

fill_loop-Outside :
    (n ptr : ℕ) (memory : ℕ → ℕ) (a : ℕ)
    → Outside ptr (n * 4) a
    → fill_loop n ptr memory a ≡ memory a
unfolding fill_loop
fill_loop-Outside zero ptr memory a out = refl
fill_loop-Outside (suc n) ptr memory a (inl lt) =
    fill_loop-Outside n (ptr + 4) _ a (inl (omega (arith, lt)))
    ∙ rw (not-== {a = a} {b = ptr} (omega (arith, lt))) refl
fill_loop-Outside (suc n) ptr memory a (inr ge) =
    fill_loop-Outside n (ptr + 4) _ a (inr (omega (arith, ge)))
    ∙ rw (not-== {a = a} {b = ptr} (omega (arith, ge))) refl

pub size_words : (b : ℕ) → b < 8 → (size_of b / 4 * 4 ≡ size_of b) × (0 < size_of b)
size_words zero lt = (refl, omega arith)
size_words (suc zero) lt = (refl, omega arith)
size_words (suc (suc zero)) lt = (refl, omega arith)
size_words (suc (suc (suc zero))) lt = (refl, omega arith)
size_words (suc (suc (suc (suc zero)))) lt = (refl, omega arith)
size_words (suc (suc (suc (suc (suc zero))))) lt = (refl, omega arith)
size_words (suc (suc (suc (suc (suc (suc zero)))))) lt = (refl, omega arith)
size_words (suc (suc (suc (suc (suc (suc (suc zero))))))) lt = (refl, omega arith)
size_words (suc (suc (suc (suc (suc (suc (suc (suc b)))))))) lt = absurd (omega (arith, lt))

pub cleared-Outside :
    (memory : ℕ → ℕ) (b x next a : ℕ)
    → b < 8
    → Outside x (size_of b) a
    → cleared memory x (size_of b) next a ≡ memory a
cleared-Outside memory b x next a lt out =
    rw (not-== {a = a} {b = x} (away out))
      (fill_loop-Outside (size_of b / 4) x memory a (rw (size_words b lt).0 out))
  where
    away : Outside x (size_of b) a → a ≢ x
    away (inl below) e = omega (arith, below, e)
    away (inr above) e = omega (arith, above, e, (size_words b lt).1)

-- The page once the block `x` is given back.
pub freed-PageOk :
    (memory : ℕ → ℕ) (p : Pageref) (x : ℕ) (free live : List ℕ)
    → PageOk memory p free live
    → mem x live ≡ true
    → PageOk
        (cleared memory x (size_of (pr_blocktype p)) (first_free p))
        (record p { freelist_offset = x - pr_pageaddr p; nfree = (p.nfree + 1) % 2 ^ 16 })
        (x ∷ free)
        (unlink x live)
freed-PageOk memory p x free live h here = record {
  kind = h.kind;
  page_pos = h.page_pos;
  page_end = h.page_end;
  chain = (
    rw (not-== {a = x - pr_pageaddr p} {b = invalid_offset} (omega (arith, place.1)))
        (omega (arith, place.0)),
    rw (eq→== {a = x} refl) (
        Chain-same memory _ (first_free p) free
          (λ y e. cleared-Outside memory (pr_blocktype p) x (first_free p) y h.kind (
            other_block (pr_blocktype p) (pr_pageaddr p) x y h.kind place
              (Placed-mem _ _ free y h.free_placed e) (λ same. ground (arith, same, e, fresh))))
          h.chain),
  );
  free_placed = (place.0, place.1, place.2, fresh, h.free_placed);
  live_placed = Placed-unlink _ _ x live h.live_placed;
  apart = λ y e. left y ∙ ground (arith, e, h.apart y);
  count = omega (arith, h.count, room);
  total = omega (arith, h.total, room);
}
  where
    place : InPage (pr_pageaddr p) (size_of (pr_blocktype p)) x
    place = Placed-mem _ _ live x h.live_placed here

    fresh : mem x free ≡ false
    fresh = ground (arith, here, h.apart x)

    left : (y : ℕ) → mem y (unlink x live) ≡ (mem y live && not (y == x))
    left y = unlink-mem x live y (Placed-Distinct _ _ live h.live_placed)

    room :
        (suc (length (unlink x live)) ≡ length live) × (page_size / size_of (pr_blocktype p) < 257)
    room = (length-unlink x live here, (page_multiple (pr_blocktype p) h.kind).1)
