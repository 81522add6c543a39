-- ===== src/Kheap/Hand.antt =====
-- `doalloc` on the whole heap: a block that was free is handed out.
use cse.Base.{
  ℕ, ◌%◌, ◌≤◌, ◌<◌, ◌≡◌, ◌≢◌, ◌⊎◌, inl, inr, refl, sym, ap, true, false, List, ◌∷◌, arith,
  ℕ_discrete, mem, not-==, eq→==, Bool-cases,
}
use cse.Base.Outcome.{ok}
use cse.Kheap.{Heap, Pageref, page_size, size_of, pr_pageaddr, pr_blocktype, put, doalloc}
use cse.Kheap.Place.{Placed-mem, InPage}
use cse.Kheap.Page.{PageOk, doalloc-PageOk}
use cse.Kheap.Invariant.{HeapOk, HeapOk-page}

-- A block that is handed out.
abbrev pub Live : Heap → (ℕ → List ℕ) → ℕ → Type 0
Live h live q = (j : ℕ) × (mem j h.allbase ≡ true) × (mem q (live j) ≡ true)

-- The block `p`, of at least `sz` bytes, was not handed out and is now, and nothing else changes.
pub record Hands (h : Heap) (live : ℕ → List ℕ) (sz p : ℕ) (h' : Heap) : Type 0 where
  pub free' : ℕ → List ℕ
  pub live' : ℕ → List ℕ
  pub invariant : HeapOk h' free' live'
  pub pos : 0 < p
  pub new : ¬ Live h live p
  pub page : ℕ
  pub here : mem page h'.allbase ≡ true
  pub handed : mem p (live' page) ≡ true
  pub fits : sz ≤ size_of (pr_blocktype (h'.refs page))
  pub keeps : (q : ℕ) → Live h live q → Live h' live' q
  pub only : (q : ℕ) → Live h' live' q → (q ≡ p) ⊎ Live h live q

-- Blocks of two pages are different.
pub two_pages :
    (h : Heap) (free live : ℕ → List ℕ) (i j x : ℕ)
    → HeapOk h free live
    → mem i h.allbase ≡ true
    → mem j h.allbase ≡ true
    → i ≢ j
    → InPage (pr_pageaddr (h.refs i)) (size_of (pr_blocktype (h.refs i))) x
    → mem x (live j) ≡ false
two_pages h free live i j x s hi hj ne at_i = elim (Bool-cases (mem x (live j))) [
  | inr away ↦ away
  | inl there ↦
      (let at_j = Placed-mem _ _ (live j) x (s.page j hj).live_placed there in
        absurd (omega (arith, at_i.0, at_i.1, at_j.0, at_j.1, s.different i j hi hj ne)))
]

module _ (h : Heap) (free live : ℕ → List ℕ) (i sz : ℕ) (s : HeapOk h free live)
    (here : mem i h.allbase ≡ true) (fits : sz ≤ size_of (pr_blocktype (h.refs i))) (x : ℕ)
    (f : List ℕ) (e : free i ≡ x ∷ f) where
  page_i : PageOk h.memory (h.refs i) (x ∷ f) (live i)
  page_i = rw e at (s.page i here)

  handed_out :
      (p : Pageref)
      → p.pageaddr_and_blocktype ≡ (h.refs i).pageaddr_and_blocktype
      → PageOk h.memory p f (x ∷ live i)
      → Hands h live sz x (record h { refs = put h.refs i p })
  handed_out p same ok_i = record {
    free' = put free i f;
    live' = put live i (x ∷ live i);
    invariant =
        HeapOk-page h free live i s here p h.memory f (x ∷ live i) same ok_i
          (λ j hj ne. s.page j hj);
    pos = omega (arith, place.0, page_i.page_pos);
    new = not_live;
    page = i;
    here = here;
    handed = rw (eq→== {a = i} refl) (ground arith);
    fits = rw (eq→== {a = i} refl, ap (λ w. w % page_size) same) fits;
    keeps = λ q at_q. (at_q.0, at_q.1, keep q at_q.0 at_q.2);
    only = λ q at_q. only q at_q.0 at_q.1 (ℕ_discrete at_q.0 i) at_q.2;
  }
    where
      place : InPage (pr_pageaddr (h.refs i)) (size_of (pr_blocktype (h.refs i))) x
      place = Placed-mem _ _ (x ∷ f) x page_i.free_placed (ground arith)

      not_live : ¬ Live h live x
      not_live (j, hj, there) = elim (ℕ_discrete i j) [
        | yes at_i ↦ absurd (ground (arith, page_i.apart x (ground arith), rw (sym at_i) at there))
        | no ne ↦ absurd (ground (arith, two_pages h free live i j x s here hj ne place, there))
      ]

      keep : (q j : ℕ) → mem q (live j) ≡ true → mem q (put live i (x ∷ live i) j) ≡ true
      keep q j there = elim (ℕ_discrete j i) [
        | yes at_i ↦ rw (eq→== at_i) (ground (arith, rw at_i at there))
        | no ne ↦ rw (not-== ne) there
      ]

      only :
          (q j : ℕ)
          → mem j h.allbase ≡ true
          → Dec (j ≡ i)
          → mem q (put live i (x ∷ live i) j) ≡ true
          → (q ≡ x) ⊎ Live h live q
      only q j hj (no ne) there = inr (j, hj, rw (not-== ne) at there)
      only q j hj (yes at_i) there = elim (ℕ_discrete q x) [
        | yes at_x ↦ inl at_x
        | no ne ↦ inr (i, here, ground (arith, ne, rw (eq→== at_i) at there))
      ]

  pub doalloc-Hands : (h' : Heap) × (doalloc h i ≡ ok (x, h')) × Hands h live sz x h'
  doalloc-Hands =
      let (p, e', same, ok_i) = doalloc-PageOk h i x f (live i) page_i in
      (record h { refs = put h.refs i p }, e', handed_out p same ok_i)
