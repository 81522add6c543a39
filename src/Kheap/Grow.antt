-- ===== src/Kheap/Grow.antt =====
-- `subpage_kmalloc` where no page of the size has a free block.
use cse.Base.{
  ℕ, zero, suc, ◌+◌, ◌-◌, ◌/◌, ◌≤◌, ◌<◌, ◌≡◌, ◌≢◌, ◌⊎◌, inl, inr, refl, ◌∙◌, sym, Bool, true, false,
  Option, none, some, List, [], ◌∷◌, arith, ℕ_discrete, mem, not-==, eq→==,
}
use cse.Base.Outcome.{Outcome, ok, err, panic}
use cse.Vm.{Ram, alloc_kpages}
use cse.Vm.Frames.{Sane}
use cse.Kheap.{
  Heap, page_size, size_of, pr_pageaddr, pr_blocktype, put, is_used, allocpageref, freepageref,
  new_page, doalloc, grow, link_loop,
}
use cse.Kheap.Refs.{Updates, Takes, allocpageref-Takes, freepageref-Updates}
use cse.Kheap.Invariant.{HeapOk}
use cse.Kheap.Fresh.{blocks, many, fresh_ref, fresh_addr, fresh-PageOk}
use cse.Kheap.Hand.{Live, Hands, doalloc-Hands}
use cse.Kheap.Pages.{alloc_kpages-one, grown, HeapOk-new}

-- There is a new block, or no page can be made: all pagerefs are in use, or physical memory is full.
abbrev pub Grows : Heap → (free live : ℕ → List ℕ) → ℕ → Outcome (ℕ × Heap) → Type 0
Grows h free live sz (ok (p, h')) =
    ((p ≡ 0)
      × HeapOk h' free live
      × (((i : ℕ) → i < 256 → is_used h.inuse i ≡ true) ⊎ (h.ram.last < h.ram.first + page_size)))
    ⊎ Hands h live sz p h'
Grows h free live sz (err e) = ⊥
Grows h free live sz panic = ⊥

first_block : (n size page : ℕ) → 1 < n → (x : ℕ) × (f : List ℕ) × (blocks n size page ≡ x ∷ f)
first_block zero size page lt = absurd (omega (arith, lt))
first_block (suc n) size page lt = (_, _, refl)

module _ (h : Heap) (free live : ℕ → List ℕ) (s : HeapOk h free live) (b sz : ℕ) (lt : b < 8)
    (fits : sz ≤ size_of b) where
  grow-full : allocpageref h.inuse ≡ ok none → grow h b ≡ ok (0, h)
  unfolding grow
  grow-full e = rw e refl

  grow-dry :
      (i : ℕ) (inuse back : List (List Bool)) (ram : Ram)
      → allocpageref h.inuse ≡ ok (some (i, inuse))
      → alloc_kpages h.ram 1 ≡ (0, ram)
      → freepageref inuse i ≡ ok back
      → grow h b ≡ ok (0, record h { inuse = back; ram = ram })
  unfolding grow
  grow-dry i inuse back ram e e2 e3 = rw (e, e2, e3) refl

  grow-made :
      (i : ℕ) (inuse : List (List Bool)) (page : ℕ) (ram : Ram) (m : ℕ → ℕ)
      → page ≢ 0
      → allocpageref h.inuse ≡ ok (some (i, inuse))
      → alloc_kpages h.ram 1 ≡ (page, ram)
      → link_loop (page_size / size_of b - 1) 1 (size_of b) page (put h.memory page 0) ≡ ok m
      → grow h b
        ≡ doalloc
            (record h {
              refs = put h.refs i (fresh_ref b page);
              inuse = inuse;
              sizebases = put h.sizebases b (i ∷ h.sizebases b);
              allbase = i ∷ h.allbase;
              memory = m;
              ram = ram;
            })
            i
  unfolding grow new_page
  grow-made i inuse page ram m nz e e2 e3 = rw (e, e2, not-== nz, e3) refl

  -- A pageref taken and given back.
  given_back :
      (i : ℕ) (inuse back : List (List Bool))
      → is_used h.inuse i ≡ false
      → Updates h.inuse i true inuse
      → Updates inuse i false back
      → HeapOk (record h { inuse = back }) free live
  given_back i inuse back unused u d = record {
    words = d.words;
    refs_many = d.same_length ∙ u.same_length ∙ s.refs_many;
    distinct = s.distinct;
    page = s.page;
    used = λ j e. ((s.used j e).0, as_before j ∙ (s.used j e).1);
    below = s.below;
    different = s.different;
    sized = s.sized;
    listed = s.listed;
    sane = s.sane;
    aligned = s.aligned;
  }
    where
      as_before : (j : ℕ) → is_used back j ≡ is_used h.inuse j
      as_before j = ground (arith, d.bits j, u.bits j, unused)

  -- From a heap with a fresh page.
  module _ (i : ℕ) (inuse : List (List Bool)) (ram : Ram) (small : i < 256)
      (unused : is_used h.inuse i ≡ false) (u : Updates h.inuse i true inuse) (sane : Sane ram)
      (next : ram.first ≡ h.ram.first + page_size) where
    new_to_old :
        (j q : ℕ) → mem j (i ∷ h.allbase) ≡ true → mem q (put live i [] j) ≡ true → Live h live q
    new_to_old j q e there = elim (ℕ_discrete j i) [
      | yes at_i ↦ absurd (ground (arith, rw (eq→== at_i) at there))
      | no ne ↦ (j, ground (arith, e, ne), rw (not-== ne) at there)
    ]

    old_to_new :
        (h1 : Heap) (q : ℕ) → h1.allbase ≡ i ∷ h.allbase → Live h live q → Live h1 (put live i []) q
    old_to_new h1 q e (j, hj, there) = (
      j,
      rw e (ground (arith, hj)),
      rw (not-== {a = j} {b = i} (λ at_i. ground (arith, (s.used j hj).1, at_i, unused))) there,
    )

    Hands-old :
        (h1 : Heap) (p : ℕ) (h' : Heap)
        → h1.allbase ≡ i ∷ h.allbase
        → Hands h1 (put live i []) sz p h'
        → Hands h live sz p h'
    Hands-old h1 p h' e g = record {
      free' = g.free';
      live' = g.live';
      invariant = g.invariant;
      pos = g.pos;
      new = λ l. g.new (old_to_new h1 p e l);
      page = g.page;
      here = g.here;
      handed = g.handed;
      fits = g.fits;
      keeps = λ q l. g.keeps q (old_to_new h1 q e l);
      only = λ q l. only q (g.only q l);
    }
      where
        only : (q : ℕ) → (q ≡ p) ⊎ Live h1 (put live i []) q → (q ≡ p) ⊎ Live h live q
        only q (inl at_p) = inl at_p
        only q (inr (j, hj, there)) = inr (new_to_old j q (rw e at hj) there)

    addr :
        (pr_pageaddr (fresh_ref b (h.ram.first + 0x8000_0000)) ≡ h.ram.first + 0x8000_0000)
        × (pr_blocktype (fresh_ref b (h.ram.first + 0x8000_0000)) ≡ b)
    addr =
        fresh_addr b (h.ram.first + 0x8000_0000) lt (omega arith)
          (omega (arith, s.sane.small, s.sane.in_order)) (omega (arith, s.aligned))

    made :
        (m : ℕ → ℕ)
        → link_loop
            (page_size / size_of b - 1)
            1
            (size_of b)
            (h.ram.first + 0x8000_0000)
            (put h.memory (h.ram.first + 0x8000_0000) 0)
          ≡ ok m
        → HeapOk
            (grown h free live s b i lt inuse small unused u ram sane next m)
            (put free i (blocks (page_size / size_of b) (size_of b) (h.ram.first + 0x8000_0000)))
            (put live i [])
        → allocpageref h.inuse ≡ ok (some (i, inuse))
        → alloc_kpages h.ram 1 ≡ (h.ram.first + 0x8000_0000, ram)
        → Grows h free live sz (grow h b)
    made m linked invariant e e2 =
        let (x, f, shape) =
          first_block (page_size / size_of b) (size_of b) (h.ram.first + 0x8000_0000)
            (many b lt).0 in
        let (h', e3, g) =
          doalloc-Hands _ _ _ i sz invariant (ground arith) (rw (eq→== {a = i} refl, addr.1) fits) x
            f (rw (eq→== {a = i} refl) shape) in
        rw (grow-made i inuse (h.ram.first + 0x8000_0000) ram m (omega arith) e e2 linked, e3)
          (inr (Hands-old _ x h' refl g))

    with_page :
        allocpageref h.inuse ≡ ok (some (i, inuse))
        → alloc_kpages h.ram 1 ≡ (h.ram.first + 0x8000_0000, ram)
        → Grows h free live sz (grow h b)
    with_page e e2 =
        let (m, linked, ok_i, kept) =
          fresh-PageOk b (h.ram.first + 0x8000_0000) lt (omega arith)
            (omega (arith, s.sane.small, s.sane.in_order)) (omega (arith, s.aligned)) h.memory in
        made m linked
          (HeapOk-new h free live s b i lt inuse small unused u ram sane next m _ ok_i kept addr) e
          e2

  with_ref :
      (i : ℕ) (inuse : List (List Bool))
      → allocpageref h.inuse ≡ ok (some (i, inuse))
      → i < 256
      → is_used h.inuse i ≡ false
      → Updates h.inuse i true inuse
      → Grows h free live sz (grow h b)
  with_ref i inuse e small unused u = elim (alloc_kpages-one h.ram s.sane) [
    | inr (ram, e2, next, sane) ↦ with_page i inuse ram small unused u sane next e e2
    | inl (e2, dry) ↦
        (let (back, e3, d) =
            freepageref-Updates inuse i u.words (u.same_length ∙ s.refs_many) small
              (u.bits i ∙ rw (eq→== {a = i} refl) refl) in
          rw (grow-dry i inuse back h.ram e e2 e3)
            (inl (refl, given_back i inuse back unused u d, inr dry)))
  ]

  grow_step :
      (r : Outcome (Option (ℕ × List (List Bool))))
      → allocpageref h.inuse ≡ r
      → Takes 0 h.inuse r
      → Grows h free live sz (grow h b)
  grow_step (ok none) e all =
      rw (grow-full e) (inl (refl, s, inl (λ q q_lt. all q (omega (arith, s.refs_many, q_lt)))))
  grow_step (ok (some (p, inuse))) e (k, at_k, k_lt, unused, u) =
      let same : p ≡ k = omega (arith, at_k) in
      with_ref k inuse (rw (sym same) e) (omega (arith, s.refs_many, k_lt)) unused u
  grow_step (err x) e t = absurd t
  grow_step panic e t = absurd t

  pub grow-Grows : Grows h free live sz (grow h b)
  grow-Grows = grow_step (allocpageref h.inuse) refl (allocpageref-Takes h.inuse s.words)
