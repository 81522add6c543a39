-- ===== src/Kheap/Release.antt =====
-- A page of the heap whose blocks are all free is given up.
use cse.Base.{
  ℕ, ◌<◌, ◌≡◌, ◌≢◌, refl, ◌∙◌, sym, ap, Bool, true, List, arith, mem, not-==, eq→==, lt→ltb,
  ℕ_discrete,
}
use cse.Base.Outcome.{ok}
use cse.Kheap.{Heap, pr_blocktype, put, freepageref}
use cse.Kheap.Free.{unlink, remove_lists, release}
use cse.Kheap.Refs.{freepageref-Updates}
use cse.Kheap.Place.{Distinct, unlink-mem, unlink-Distinct}
use cse.Kheap.Invariant.{HeapOk}

module _ (h : Heap) (free live : ℕ → List ℕ) (s : HeapOk h free live) (i : ℕ)
    (here : mem i h.allbase ≡ true) (b : ℕ) (at_kind : pr_blocktype (h.refs i) ≡ b) where
  small : b < 8
  small = rw at_kind at (s.page i here).kind

  abbrev pub released : List (List Bool) → Heap
  released inuse = record h {
    inuse = inuse;
    sizebases = put h.sizebases b (unlink i (h.sizebases b));
    allbase = unlink i h.allbase;
  }

  release_lem :
      (inuse : List (List Bool))
      → freepageref h.inuse i ≡ ok inuse
      → release h i b ≡ ok (released inuse)
  unfolding release remove_lists
  release_lem inuse e = rw (lt→ltb b 8 small, e) refl

  left : (j : ℕ) → mem j (unlink i h.allbase) ≡ true → (mem j h.allbase ≡ true) × (j ≢ i)
  left j e = (
    ground (arith, e, unlink-mem i h.allbase j s.distinct),
    λ at_i. ground (arith, e, at_i, unlink-mem i h.allbase j s.distinct),
  )

  left_sized :
      (c j : ℕ)
      → c < 8
      → mem j (put h.sizebases b (unlink i (h.sizebases b)) c) ≡ true
      → (mem j (h.sizebases c) ≡ true) × ((j ≡ i) → c ≢ b)
  left_sized c j lt e = elim (ℕ_discrete c b) [
    | no ne ↦ (rw (not-== ne) at e, λ at_i. ne)
    | yes at_b ↦
        (let e' : mem j (unlink i (h.sizebases b)) ≡ true = rw (eq→== at_b) at e in
          let m = unlink-mem i (h.sizebases b) j (s.sized b small) in
          let e2 : mem j (h.sizebases b) ≡ true = ground (arith, e', m) in
          (rw (sym at_b) at e2, λ at_i. absurd (ground (arith, e', m, at_i))))
  ]

  -- The heap without the page.
  pub release-HeapOk :
      (inuse : List (List Bool)) × (release h i b ≡ ok (released inuse))
      × HeapOk (released inuse) free live
  release-HeapOk =
      let (inuse, e, u) =
        freepageref-Updates h.inuse i s.words s.refs_many (s.used i here).0 (s.used i here).1 in
      (
        inuse,
        release_lem inuse e,
        record {
          words = u.words;
          refs_many = u.same_length ∙ s.refs_many;
          distinct = unlink-Distinct i h.allbase s.distinct;
          page = λ j e. s.page j (left j e).0;
          used = λ j e. (
            (s.used j (left j e).0).0,
            u.bits j ∙ rw (not-== (left j e).1) (s.used j (left j e).0).1,
          );
          below = λ j e. s.below j (left j e).0;
          different = λ j k ej ek ne. s.different j k (left j ej).0 (left k ek).0 ne;
          sized = λ c lt. sized c lt (ℕ_discrete c b);
          listed = λ c j lt e. listed c j lt (left_sized c j lt e);
          sane = s.sane;
          aligned = s.aligned;
        },
      )
    where
      sized :
          (c : ℕ) → c < 8 → Dec (c ≡ b) → Distinct (put h.sizebases b (unlink i (h.sizebases b)) c)
      sized c lt (no ne) = rw (not-== ne) (s.sized c lt)
      sized c lt (yes at_b) = rw (eq→== at_b) (unlink-Distinct i (h.sizebases b) (s.sized b small))

      listed :
          (c j : ℕ)
          → c < 8
          → (mem j (h.sizebases c) ≡ true) × ((j ≡ i) → c ≢ b)
          → (mem j (unlink i h.allbase) ≡ true) × (pr_blocktype (h.refs j) ≡ c)
      listed c j lt (e, apart) =
          let (hj, kind) = s.listed c j lt e in
          let ne : j ≢ i =
            λ at_i. apart at_i (sym kind ∙ ap (λ k. pr_blocktype (h.refs k)) at_i ∙ at_kind) in
          (ground (arith, hj, ne, unlink-mem i h.allbase j s.distinct), kind)
