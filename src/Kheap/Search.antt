-- ===== src/Kheap/Search.antt =====
-- The searches of `kmalloc`: the kind of blocks, and a page of the kind with a free block.
use cse.Base.{
  ℕ, zero, suc, ◌+◌, ◌≤◌, ◌<◌, ◌≡◌, ◌⊎◌, inl, inr, refl, ◌∙◌, ap, true, none, some, List, [], ◌∷◌,
  length, get_or, arith, ℕ_discrete, dec_lt, dec_le, mem, eq→==, lt→ltb, not-lt→ltb,
}
use cse.Base.Outcome.{ok}
use cse.Kheap.{Pageref, sizes, size_of, pr_blocktype, blocktype, blocktype_loop, find_page}

-- The kind of the smallest blocks that are large enough.
blocktype_loop-fits :
    (i : ℕ) (ss : List ℕ) (sz k : ℕ)
    → k < length ss
    → sz ≤ get_or ss k 1
    → (j : ℕ) × (blocktype_loop i ss sz ≡ ok (i + j)) × (j < length ss) × (sz ≤ get_or ss j 1)
blocktype_loop-fits i [] sz k lt le = absurd (omega (arith, lt))
blocktype_loop-fits i (s ∷ ss) sz k lt le = elim (dec_le sz s) [
  | yes fits ↦ (let e : i + 0 ≡ i = omega arith in (0, ground (arith, fits, e), omega arith, fits))
  | no over ↦ later (blocktype_loop-fits (suc i) ss sz) k lt le over
]
  where
    later :
        ((k : ℕ)
          → k < length ss
          → sz ≤ get_or ss k 1
          → (j : ℕ) × (blocktype_loop (suc i) ss sz ≡ ok (suc i + j))
            × (j < length ss)
            × (sz ≤ get_or ss j 1))
        → (k : ℕ) → k < suc (length ss)
        → sz ≤ get_or (s ∷ ss) k 1
        → ¬ (sz ≤ s)
        → (j : ℕ) × (blocktype_loop i (s ∷ ss) sz ≡ ok (i + j))
          × (j < suc (length ss))
          × (sz ≤ get_or (s ∷ ss) j 1)
    later more zero lt le over = absurd (over le)
    later more (suc k) lt le over =
        let (j, e, j_lt, fits) = more k (omega (arith, lt)) le in
        let shift : i + suc j ≡ suc i + j = omega arith in
        (suc j, ground (arith, over, e, shift), omega (arith, j_lt), fits)

pub blocktype-fits :
    (sz : ℕ) → sz ≤ 2048 → (b : ℕ) × (blocktype sz ≡ ok b) × (b < 8) × (sz ≤ size_of b)
blocktype-fits sz le =
    let (b, e, lt, fits) = blocktype_loop-fits 0 sizes sz 7 (omega arith) le in
    let z : 0 + b ≡ b = omega arith in (b, e ∙ ap ok z, lt, fits)

pub find_page-cases :
    (refs : ℕ → Pageref) (b : ℕ) (xs : List ℕ)
    → ((i : ℕ) → mem i xs ≡ true → pr_blocktype (refs i) ≡ b)
    → ((find_page refs b xs ≡ ok none) × ((i : ℕ) → mem i xs ≡ true → (refs i).nfree ≡ 0))
      ⊎ ((i : ℕ) × (find_page refs b xs ≡ ok (some i)) × (mem i xs ≡ true) × (0 < (refs i).nfree))
unfolding find_page
find_page-cases refs b [] kinds = inl (refl, λ i e. absurd (ground (arith, e)))
find_page-cases refs b (x ∷ xs) kinds =
    let kind : pr_blocktype (refs x) ≡ b = kinds x (ground arith) in
    elim (dec_lt 0 (refs x).nfree) [
      | yes room ↦ inr (x, rw (eq→== kind, lt→ltb 0 _ room) refl, ground arith, room)
      | no full ↦ elim (find_page-cases refs b xs (λ i e. kinds i (ground (arith, e)))) [
        | inl (e, all) ↦ inl (
          rw (eq→== kind, not-lt→ltb 0 _ full) e,
          λ i h. elim (ℕ_discrete i x) [
            | yes at_x ↦ rw at_x (omega (arith, full))
            | no ne ↦ all i (ground (arith, h, ne))
          ],
        )
        | inr (i, e, there, room) ↦
            inr (i, rw (eq→== kind, not-lt→ltb 0 _ full) e, ground (arith, there), room)
      ]
    ]
