-- ===== src/Kheap/Pages.antt =====
-- A page more for the heap: `alloc_kpages` for one page, and `new_page`.
use cse.Base.{
  ℕ, ◌+◌, ◌%◌, ◌^◌, ◌≤◌, ◌<◌, ◌≡◌, ◌≢◌, ◌⊎◌, inl, inr, refl, ◌∙◌, sym, Bool, true, false, List, [],
  ◌∷◌, ◌==◌, if◌then◌else◌, arith, ℕ_discrete, mem, not-==, eq→==, Bool-cases,
}
use cse.Vm.{Ram, alloc_kpages, ram_stealmem}
use cse.Vm.Frames.{Sane, Steals, ram_stealmem-Steals}
use cse.Kheap.{Heap, page_size, pr_pageaddr, pr_blocktype, put, is_used}
use cse.Kheap.Refs.{Updates}
use cse.Kheap.Place.{Distinct, Placed-mem, Chain-same}
use cse.Kheap.Page.{PageOk}
use cse.Kheap.Invariant.{HeapOk}
use cse.Kheap.Fresh.{fresh_ref}

alloc_kpages_lem :
    (r : Ram) (p : ℕ) (r' : Ram)
    → ram_stealmem r 1 ≡ (p, r')
    → alloc_kpages r 1 ≡ (if p == 0 then (0, r') else ((p + 0x8000_0000) % 2 ^ 32, r'))
unfolding alloc_kpages
alloc_kpages_lem r p r' e = rw e refl

-- The next page of physical memory, or none.
pub alloc_kpages-one :
    (r : Ram)
    → Sane r
    → ((alloc_kpages r 1 ≡ (0, r)) × (r.last < r.first + page_size))
      ⊎ ((r' : Ram) × (alloc_kpages r 1 ≡ (r.first + 0x8000_0000, r'))
          × (r'.first ≡ r.first + page_size)
          × Sane r')
alloc_kpages-one r s = go (ram_stealmem r 1) refl (ram_stealmem-Steals r 1 s (omega arith))
  where
    go :
        (t : ℕ × Ram)
        → ram_stealmem r 1 ≡ t
        → Steals r 1 t
        → ((alloc_kpages r 1 ≡ (0, r)) × (r.last < r.first + page_size))
          ⊎ ((r' : Ram) × (alloc_kpages r 1 ≡ (r.first + 0x8000_0000, r'))
              × (r'.first ≡ r.first + page_size)
              × Sane r')
    go (p, r') e (inl (z, same, full)) =
        inl (alloc_kpages_lem r p r' e ∙ rw (eq→== z, same) refl, full)
    go (p, r') e (inr (at_first, next, last, sane)) =
        let wraps : (p + 0x8000_0000) % 2 ^ 32 ≡ r.first + 0x8000_0000 =
          omega (arith, at_first, s.small, s.in_order) in
        inr (
          r',
          alloc_kpages_lem r p r' e
              ∙ rw (not-== {a = p} {b = 0} (omega (arith, at_first, s.first_pos)), wraps) refl,
          omega (arith, next, at_first),
          sane,
        )

-- The heap with the page `page` in front, under the pageref `i`.
module _ (h : Heap) (free live : ℕ → List ℕ) (s : HeapOk h free live) (b i : ℕ) (lt : b < 8)
    (inuse : List (List Bool)) (small : i < 256) (unused : is_used h.inuse i ≡ false)
    (u : Updates h.inuse i true inuse) (ram : Ram) (sane : Sane ram)
    (next : ram.first ≡ h.ram.first + page_size) where
  abbrev page : ℕ
  page = h.ram.first + 0x8000_0000

  fresh : mem i h.allbase ≡ false
  fresh = elim (Bool-cases (mem i h.allbase)) [
    | inr e ↦ e
    | inl e ↦ absurd (ground (arith, (s.used i e).1, unused))
  ]

  abbrev pub grown : (ℕ → ℕ) → Heap
  grown m = record h {
    refs = put h.refs i (fresh_ref b page);
    inuse = inuse;
    sizebases = put h.sizebases b (i ∷ h.sizebases b);
    allbase = i ∷ h.allbase;
    memory = m;
    ram = ram;
  }

  old_page :
      (m : ℕ → ℕ)
      → ((a : ℕ) → (a < page) ⊎ (page + page_size ≤ a) → m a ≡ h.memory a)
      → (j : ℕ) → mem j h.allbase ≡ true
      → PageOk m (h.refs j) (free j) (live j)
  old_page m kept j hj =
      let ok_j = s.page j hj in
      record {
        kind = ok_j.kind;
        page_pos = ok_j.page_pos;
        page_end = ok_j.page_end;
        chain =
            Chain-same h.memory m _ (free j)
              (λ x e. kept x (
                inl
                  (omega (arith, s.below j hj, (Placed-mem _ _ (free j) x ok_j.free_placed e).1))))
              ok_j.chain;
        free_placed = ok_j.free_placed;
        live_placed = ok_j.live_placed;
        apart = ok_j.apart;
        count = ok_j.count;
        total = ok_j.total;
      }

  -- To see the new page or an old one.
  new_or_old :
      (P : ℕ → Type 0)
      → P i
      → ((j : ℕ) → mem j h.allbase ≡ true → j ≢ i → P j)
      → (j : ℕ) → mem j (i ∷ h.allbase) ≡ true
      → P j
  new_or_old P new old j e = elim (ℕ_discrete j i) [
    | yes at_i ↦ rw (sym at_i) at new
    | no ne ↦ old j (ground (arith, e, ne)) ne
  ]

  module _ (m : ℕ → ℕ) (f : List ℕ) (ok_i : PageOk m (fresh_ref b page) f [])
      (kept : (a : ℕ) → (a < page) ⊎ (page + page_size ≤ a) → m a ≡ h.memory a)
      (addr : (pr_pageaddr (fresh_ref b page) ≡ page) × (pr_blocktype (fresh_ref b page) ≡ b)) where
    not_old : (j : ℕ) → j ≢ i → put h.refs i (fresh_ref b page) j ≡ h.refs j
    not_old j ne = rw (not-== ne) refl

    at_new : put h.refs i (fresh_ref b page) i ≡ fresh_ref b page
    at_new = rw (eq→== {a = i} refl) refl

    in_list :
        (c j : ℕ)
        → c < 8
        → mem j (put h.sizebases b (i ∷ h.sizebases b) c) ≡ true
        → ((j ≡ i) × (c ≡ b)) ⊎ (mem j (h.sizebases c) ≡ true)
    in_list c j c_lt e = elim (ℕ_discrete c b) [
      | no ne ↦ inr (rw (not-== ne) at e)
      | yes at_b ↦
          (let e' : mem j (i ∷ h.sizebases b) ≡ true = rw (eq→== at_b) at e in
            elim (ℕ_discrete j i) [
              | yes at_i ↦ inl (at_i, at_b)
              | no ne ↦
                  (let e2 : mem j (h.sizebases b) ≡ true = ground (arith, e', ne) in
                    inr (rw at_b e2))
            ])
    ]

    old_away : (j : ℕ) → mem j h.allbase ≡ true → pr_pageaddr (h.refs j) ≢ page
    old_away j hj e = omega (arith, e, s.below j hj)

    not_new : (j : ℕ) → mem j h.allbase ≡ true → j ≢ i
    not_new j hj e = absurd (ground (arith, hj, e, fresh))

    away : mem i (h.sizebases b) ≡ false
    away = elim (Bool-cases (mem i (h.sizebases b))) [
      | inr e ↦ e
      | inl e ↦ absurd (ground (arith, (s.listed b i lt e).0, fresh))
    ]

    pub HeapOk-new : HeapOk (grown m) (put free i f) (put live i [])
    HeapOk-new = record {
      words = u.words;
      refs_many = u.same_length ∙ s.refs_many;
      distinct = (fresh, s.distinct);
      page =
          new_or_old
            (λ j. PageOk m (put h.refs i (fresh_ref b page) j) (put free i f j) (put live i [] j))
            (rw (eq→== {a = i} refl) ok_i) (λ j hj ne. rw (not-== ne) (old_page m kept j hj));
      used =
          new_or_old (λ j. (j < 256) × (is_used inuse j ≡ true))
            (small, u.bits i ∙ rw (eq→== {a = i} refl) refl)
            (λ j hj ne. ((s.used j hj).0, u.bits j ∙ rw (not-== ne) (s.used j hj).1));
      below =
          new_or_old
            (λ j.
              pr_pageaddr (put h.refs i (fresh_ref b page) j) + page_size ≤ ram.first + 0x8000_0000)
            (rw at_new (omega (arith, addr.0, next)))
            (λ j hj ne. rw (not_old j ne) (omega (arith, s.below j hj, next)));
      different = λ j k ej ek ne. apart j k ej ek ne (ℕ_discrete j i) (ℕ_discrete k i);
      sized = λ c c_lt. sized c c_lt (ℕ_discrete c b);
      listed = λ c j c_lt e. list c j c_lt (in_list c j c_lt e);
      sane = sane;
      aligned = omega (arith, next, s.aligned);
    }
      where
        sized : (c : ℕ) → c < 8 → Dec (c ≡ b) → Distinct (put h.sizebases b (i ∷ h.sizebases b) c)
        sized c c_lt (no ne) = rw (not-== ne) (s.sized c c_lt)
        sized c c_lt (yes at_b) = rw (eq→== at_b) (away, s.sized b lt)

        apart :
            (j k : ℕ)
            → mem j (i ∷ h.allbase) ≡ true
            → mem k (i ∷ h.allbase) ≡ true
            → j ≢ k
            → Dec (j ≡ i)
            → Dec (k ≡ i)
            → pr_pageaddr (put h.refs i (fresh_ref b page) j)
              ≢ pr_pageaddr (put h.refs i (fresh_ref b page) k)
        apart j k ej ek ne (yes a) (yes c) = absurd (ne (a ∙ sym c))
        apart j k ej ek ne (yes a) (no c) =
            rw (eq→== a, not-== c) (λ z. old_away k (ground (arith, ek, c)) (sym z ∙ addr.0))
        apart j k ej ek ne (no a) (yes c) =
            rw (eq→== c, not-== a) (λ z. old_away j (ground (arith, ej, a)) (z ∙ addr.0))
        apart j k ej ek ne (no a) (no c) =
            rw (not-== a, not-== c)
              (s.different j k (ground (arith, ej, a)) (ground (arith, ek, c)) ne)

        list :
            (c j : ℕ)
            → c < 8
            → ((j ≡ i) × (c ≡ b)) ⊎ (mem j (h.sizebases c) ≡ true)
            → (mem j (i ∷ h.allbase) ≡ true)
              × (pr_blocktype (put h.refs i (fresh_ref b page) j) ≡ c)
        list c j c_lt (inl (at_i, at_b)) =
            (ground (arith, at_i), rw (eq→== at_i) (addr.1 ∙ sym at_b))
        list c j c_lt (inr old) =
            let (hj, kind) = s.listed c j c_lt old in
            (ground (arith, hj), rw (not-== (not_new j hj)) kind)
