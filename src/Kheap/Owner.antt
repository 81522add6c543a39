-- ===== src/Kheap/Owner.antt =====
-- The search of `subpage_kfree` for the page of an address.
use cse.Base.{
  ℕ, ◌+◌, ◌%◌, ◌^◌, ◌≤◌, ◌<◌, ◌≡◌, ◌≢◌, ◌⊎◌, inl, inr, refl, ◌∙◌, sym, ap, true, false, some, List,
  [], ◌∷◌, leb, arith, mem, lt→ltb, not-lt→ltb, ℕ_discrete,
}
use cse.Base.Outcome.{ok}
use cse.Kheap.{Pageref, page_size, pr_pageaddr, pr_blocktype}
use cse.Kheap.Free.{find_owner}

pub le→leb : {a b : ℕ} → a ≤ b → leb a b ≡ true
le→leb {a} {b} h = ground arith

pub not_le→leb : {a b : ℕ} → b < a → leb a b ≡ false
not_le→leb {a} {b} h = ground arith

module _ (refs : ℕ → Pageref) (x j : ℕ) (xs : List ℕ) (kind : pr_blocktype (refs j) < 8)
    (wrap : (pr_pageaddr (refs j) + page_size) % 2 ^ 32 ≡ pr_pageaddr (refs j) + page_size) where
  hit :
      pr_pageaddr (refs j) ≤ x
      → x < pr_pageaddr (refs j) + page_size
      → find_owner refs x (j ∷ xs) ≡ ok (some j)
  unfolding find_owner
  hit lo hi = rw (lt→ltb _ 8 kind, wrap, le→leb lo, lt→ltb x _ hi) refl

  miss :
      (x < pr_pageaddr (refs j)) ⊎ (pr_pageaddr (refs j) + page_size ≤ x)
      → find_owner refs x (j ∷ xs) ≡ find_owner refs x xs
  unfolding find_owner
  miss (inl below) = rw (lt→ltb _ 8 kind, not_le→leb below) refl
  miss (inr above) =
      rw
        (
          lt→ltb _ 8 kind,
          le→leb {a = pr_pageaddr (refs j)} {b = x} (omega (arith, above)),
          wrap,
          not-lt→ltb x (pr_pageaddr (refs j) + page_size) (omega (arith, above)),
        )
        refl

-- The search among pages of which just `i` has the address.
pub find_owner-finds :
    (refs : ℕ → Pageref) (x i : ℕ) (xs : List ℕ)
    → ((j : ℕ)
        → mem j xs ≡ true
        → (pr_blocktype (refs j) < 8)
          × ((pr_pageaddr (refs j) + page_size) % 2 ^ 32 ≡ pr_pageaddr (refs j) + page_size))
    → ((j : ℕ)
        → mem j xs ≡ true
        → j ≢ i
        → (x < pr_pageaddr (refs j)) ⊎ (pr_pageaddr (refs j) + page_size ≤ x))
    → pr_pageaddr (refs i) ≤ x
    → x < pr_pageaddr (refs i) + page_size
    → mem i xs ≡ true
    → find_owner refs x xs ≡ ok (some i)
unfolding find_owner
find_owner-finds refs x i [] sound apart lo hi here = absurd (ground (arith, here))
find_owner-finds refs x i (j ∷ xs) sound apart lo hi here =
    let (kind, wrap) = sound j (ground arith) in
    elim (ℕ_discrete j i) [
      | yes at_i ↦
          hit refs x j xs kind wrap (rw (sym at_i) at lo) (rw (sym at_i) at hi)
          ∙ ap (λ k. ok (some k)) at_i
      | no ne ↦
          miss refs x j xs kind wrap (apart j (ground arith) ne)
          ∙ find_owner-finds refs x i xs (λ k e. sound k (ground (arith, e)))
              (λ k e. apart k (ground (arith, e))) lo hi (ground (arith, here, ne))
    ]
