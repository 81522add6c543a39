-- ===== src/Kheap/Kfree.antt =====
-- `kfree` of a block that `kmalloc` handed out.
use cse.Base.{
  ℕ, suc, ◌+◌, ◌-◌, ◌/◌, ◌%◌, ◌^◌, ◌≤◌, ◌<◌, ◌≡◌, ◌≢◌, ◌⊎◌, inl, inr, refl, ◌∙◌, sym, Bool, true,
  false, ◌&&◌, not, ◌↔◌, some, List, [], ◌∷◌, ◌==◌, if◌then◌else◌, length, arith, mem, not-==,
  eq→==, ℕ_discrete, dec_lt,
}
use cse.Base.Outcome.{Outcome, ok, err, panic}
use cse.Kheap.{Heap, Pageref, page_size, size_of, pr_pageaddr, pr_blocktype, put}
use cse.Kheap.Free.{unlink, find_owner, free_block, release, subpage_kfree, kfree}
use cse.Kheap.Place.{
  InPage, Placed-mem, other_page, unlink-mem, length-unlink, Placed-Distinct, Chain-same,
  page_multiple,
}
use cse.Kheap.Page.{PageOk, first_free, cleared, cleared-Outside, freed-PageOk}
use cse.Kheap.Invariant.{HeapOk, HeapOk-page}
use cse.Kheap.Hand.{Live, two_pages}
use cse.Kheap.Release.{released, release-HeapOk}
use cse.Kheap.Owner.{le→leb, not_le→leb, find_owner-finds}

no_member : (xs : List ℕ) (q : ℕ) → length xs ≡ 0 → mem q xs ≡ true → ⊥
no_member [] q e h = ground (arith, h)
no_member (x ∷ xs) q e h = omega (arith, e)

module _ (h : Heap) (free live : ℕ → List ℕ) (s : HeapOk h free live) (i x : ℕ)
    (here : mem i h.allbase ≡ true) (held : mem x (live i) ≡ true) where
  abbrev p : Pageref
  p = h.refs i

  abbrev size : ℕ
  size = size_of (pr_blocktype p)

  abbrev given : Heap
  given = record h {
    memory = cleared h.memory x size (first_free p);
    refs =
        put h.refs i
          (record p { freelist_offset = x - pr_pageaddr p; nfree = (p.nfree + 1) % 2 ^ 16 });
  }

  place : InPage (pr_pageaddr p) size x
  place = Placed-mem _ _ (live i) x (s.page i here).live_placed held

  -- The pages that the block does not lie in.
  others :
      (j : ℕ)
      → mem j h.allbase ≡ true
      → j ≢ i
      → PageOk (cleared h.memory x size (first_free p)) (h.refs j) (free j) (live j)
  others j hj ne =
      let ok_j = s.page j hj in
      record {
        kind = ok_j.kind;
        page_pos = ok_j.page_pos;
        page_end = ok_j.page_end;
        chain =
            Chain-same h.memory _ _ (free j)
              (λ y e.
                let at_j = Placed-mem _ _ (free j) y ok_j.free_placed e in
                cleared-Outside h.memory (pr_blocktype p) x (first_free p) y (s.page i here).kind (
                  other_page (pr_blocktype p) (pr_pageaddr p) x (pr_pageaddr (h.refs j)) y
                    (s.page i here).kind (omega arith) (omega arith)
                    (λ same. s.different j i hj here ne (sym same)) place at_j.0 at_j.1))
              ok_j.chain;
        free_placed = ok_j.free_placed;
        live_placed = ok_j.live_placed;
        apart = ok_j.apart;
        count = ok_j.count;
        total = ok_j.total;
      }

  given-HeapOk : HeapOk given (put free i (x ∷ free i)) (put live i (unlink x (live i)))
  given-HeapOk =
      HeapOk-page h free live i s here _ _ (x ∷ free i) (unlink x (live i)) refl
        (freed-PageOk h.memory p x (free i) (live i) (s.page i here) held) others

  owner : find_owner h.refs x h.allbase ≡ ok (some i)
  owner =
      find_owner-finds h.refs x i h.allbase
        (λ j hj. ((s.page j hj).kind, omega (arith, (s.page j hj).page_end)))
        (λ j hj ne. outside j hj ne (dec_lt x (pr_pageaddr (h.refs j)))) place.0 place.1 here
    where
      outside :
          (j : ℕ)
          → mem j h.allbase ≡ true
          → j ≢ i
          → Dec (x < pr_pageaddr (h.refs j))
          → (x < pr_pageaddr (h.refs j)) ⊎ (pr_pageaddr (h.refs j) + page_size ≤ x)
      outside j hj ne (yes below) = inl below
      outside j hj ne (no above) =
          inr (omega (arith, above, place.0, place.1, s.different j i hj here ne))

  counted : (suc (length (unlink x (live i))) ≡ length (live i)) × (page_size / size < 257)
  counted = (length-unlink x (live i) held, (page_multiple (pr_blocktype p) (s.page i here).kind).1)

  -- The assertions of the free pass.
  free_block_lem : free_block h i x ≡ (
      if (p.nfree + 1) % 2 ^ 16 == page_size / size
      then release given i (pr_blocktype p)
      else ok given)
  unfolding free_block
  free_block_lem =
      rw
        (
          not_le→leb {a = page_size} {b = x - pr_pageaddr p} (omega (arith, place.0, place.1)),
          eq→== place.2,
          le→leb {a = (p.nfree + 1) % 2 ^ 16} {b = page_size / size}
              (omega (arith, (s.page i here).count, (s.page i here).total, counted)),
        )
        refl

  -- The blocks handed out once the block is given back.
  given-Live : (q : ℕ) → Live given (put live i (unlink x (live i))) q ↔ (Live h live q × (q ≢ x))
  given-Live q = (to, from)
    where
      m : mem q (unlink x (live i)) ≡ (mem q (live i) && not (q == x))
      m = unlink-mem x (live i) q (Placed-Distinct _ _ (live i) (s.page i here).live_placed)

      to : Live given (put live i (unlink x (live i))) q → Live h live q × (q ≢ x)
      to (j, hj, there) = elim (ℕ_discrete j i) [
        | yes at_i ↦
            (let e : mem q (unlink x (live i)) ≡ true = rw (eq→== at_i) at there in
              ((i, here, ground (arith, m, e)), λ at_x. ground (arith, m, e, at_x)))
        | no ne ↦
            (let e : mem q (live j) ≡ true = rw (not-== ne) at there in
              (
                (j, hj, e),
                λ at_x.
                    ground (
                      arith,
                      at_x,
                      e,
                      two_pages h free live i j x s here hj (λ z. ne (sym z)) place,
                    ),
              ))
      ]

      from : Live h live q × (q ≢ x) → Live given (put live i (unlink x (live i))) q
      from ((j, hj, there), ne) = elim (ℕ_discrete j i) [
        | yes at_i ↦ (i, here, rw (eq→== {a = i} refl) (ground (arith, m, ne, rw at_i at there)))
        | no away ↦ (j, hj, rw (not-== away) there)
      ]

  -- Where the last block of the page came back, the page goes.
  abbrev Freed : Heap → Type 0
  Freed h' =
      (free' : ℕ → List ℕ) × (live' : ℕ → List ℕ) × HeapOk h' free' live'
      × ((q : ℕ) → Live h' live' q ↔ (Live h live q × (q ≢ x)))

  kept_page :
      ((p.nfree + 1) % 2 ^ 16 == page_size / size) ≡ false
      → (h' : Heap) × (free_block h i x ≡ ok h') × Freed h'
  kept_page e = (given, free_block_lem ∙ rw e refl, (_, _, given-HeapOk, given-Live))

  emptied : (p.nfree + 1) % 2 ^ 16 ≡ page_size / size → length (unlink x (live i)) ≡ 0
  emptied e = omega (arith, e, (s.page i here).count, (s.page i here).total, counted)

  same_kind : pr_blocktype (given.refs i) ≡ pr_blocktype p
  same_kind = rw (eq→== {a = i} refl) refl

  released_page :
      (p.nfree + 1) % 2 ^ 16 ≡ page_size / size
      → (h' : Heap) × (free_block h i x ≡ ok h') × Freed h'
  released_page e =
      let (inuse, gone, invariant) =
        release-HeapOk given _ _ given-HeapOk i here (pr_blocktype p) same_kind in
      (_, free_block_lem ∙ rw (eq→== e) gone, (_, _, invariant, λ q. (to inuse q, from inuse q)))
    where
      to :
          (inuse : List (List Bool)) (q : ℕ)
          → Live
              (released given _ _ given-HeapOk i here (pr_blocktype p) same_kind inuse)
              (put live i (unlink x (live i)))
              q
          → Live h live q × (q ≢ x)
      to inuse q (j, hj, there) =
          (given-Live q).0 (j, ground (arith, hj, unlink-mem i h.allbase j s.distinct), there)

      from :
          (inuse : List (List Bool)) (q : ℕ)
          → Live h live q × (q ≢ x)
          → Live
              (released given _ _ given-HeapOk i here (pr_blocktype p) same_kind inuse)
              (put live i (unlink x (live i)))
              q
      from inuse q l =
          let (j, hj, there) = (given-Live q).1 l in
          elim (ℕ_discrete j i) [
            | yes at_i ↦
                absurd (no_member (unlink x (live i)) q (emptied e) (rw (eq→== at_i) at there))
            | no ne ↦ (j, ground (arith, hj, ne, unlink-mem i h.allbase j s.distinct), there)
          ]

  freed : (h' : Heap) × (free_block h i x ≡ ok h') × Freed h'
  freed = elim (ℕ_discrete ((p.nfree + 1) % 2 ^ 16) (page_size / size)) [
    | yes e ↦ released_page e
    | no ne ↦ kept_page (not-== ne)
  ]

  kfree_lem : (h' : Heap) → free_block h i x ≡ ok h' → kfree h x ≡ ok h'
  unfolding kfree subpage_kfree
  kfree_lem h' e =
      rw (not-== {a = x} {b = 0} (omega (arith, place.0, (s.page i here).page_pos)), owner, e) refl

-- The block, and no other, is handed out no more.
abbrev pub Frees : Heap → (ℕ → List ℕ) → ℕ → Outcome Heap → Type 0
Frees h live x (ok h') =
    (free' : ℕ → List ℕ) × (live' : ℕ → List ℕ) × HeapOk h' free' live'
    × ((q : ℕ) → Live h' live' q ↔ (Live h live q × (q ≢ x)))
Frees h live x (err e) = ⊥
Frees h live x panic = ⊥

-- `kfree` of a block that is handed out gives just this block back and keeps the invariant of the heap.
-- It does not panic.
pub kfree-Frees :
    (h : Heap) (free live : ℕ → List ℕ) (x : ℕ)
    → HeapOk h free live
    → Live h live x
    → Frees h live x (kfree h x)
kfree-Frees h free live x s (i, here, held) =
    let (h', e, f) = freed h free live s i x here held in
    rw (kfree_lem h free live s i x here held h' e) f
