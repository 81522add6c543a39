-- ===== src/Kheap/Fresh.antt =====
-- A fresh page of the heap: its blocks, from the last down to the first, form the chain.
use native.Mathlib.Nat.{mul-mod_left}
use cse.Base.{
  ℕ, zero, suc, ◌+◌, ◌-◌, ◌*◌, ◌/◌, ◌%◌, ◌^◌, ◌≤◌, ◌<◌, ◌≡◌, ◌≢◌, ◌⊎◌, inl, inr, refl, ◌∙◌, sym, ap,
  false, List, [], ◌∷◌, length, arith, dec_lt, ℕ_discrete, mem, not-==, eq→==,
}
use cse.Base.Outcome.{ok}
use cse.Kheap.{
  Pageref, page_size, size_of, invalid_offset, pr_pageaddr, pr_blocktype, mkpab, put, link_loop,
}
use cse.Kheap.Place.{Placed, Chain}
use cse.Kheap.Page.{PageOk, first_free, size_words}

-- The first `n` blocks of a page, the last one first.
abbrev pub blocks : (n size page : ℕ) → List ℕ
blocks zero size page = []
blocks (suc n) size page = (page + n * size) ∷ blocks n size page

suc_mul : (n s : ℕ) → suc n * s ≡ n * s + s
suc_mul n s = omega arith

mul_apart : (k n s : ℕ) → k < n → k * s + s ≤ n * s
mul_apart k zero s lt = absurd (omega (arith, lt))
mul_apart k (suc n) s lt = elim (dec_lt k n) [
  | yes below ↦ omega (arith, mul_apart k n s below, suc_mul n s)
  | no above ↦ (let e : k ≡ n = omega (arith, lt, above) in rw e (omega (arith, suc_mul n s)))
]

length-blocks : (n size page : ℕ) → length (blocks n size page) ≡ n
length-blocks zero size page = refl
length-blocks (suc n) size page = ap suc (length-blocks n size page)

module _ (size page : ℕ) (pos : 0 < size) where
  mem-blocks : (n a : ℕ) → page + n * size ≤ a → mem a (blocks n size page) ≡ false
  mem-blocks zero a h = refl
  mem-blocks (suc n) a h =
      rw (not-== {a = a} {b = page + n * size} (omega (arith, h, suc_mul n size, pos)))
        (mem-blocks n a (omega (arith, h, suc_mul n size)))

  blocks-Placed : (n : ℕ) → n * size ≤ page_size → Placed page size (blocks n size page)
  blocks-Placed zero h = tt
  blocks-Placed (suc n) h = (
    omega arith,
    omega (arith, h, suc_mul n size, pos),
    (let e : page + n * size - page ≡ n * size = omega arith in rw e (mul-mod_left n size)),
    mem-blocks n (page + n * size) (omega arith),
    blocks-Placed n (omega (arith, h, suc_mul n size)),
  )

  -- What the links of the blocks are to be.
  prev : ℕ → ℕ
  prev zero = 0
  prev (suc k) = page + k * size

  prev_lem : (n : ℕ) → 1 < n → prev n ≡ page + (n - 1) * size
  unfolding prev
  prev_lem zero lt = absurd (omega (arith, lt))
  prev_lem (suc k) lt = let e : suc k - 1 ≡ k = omega arith in rw e refl

  blocks-Chain :
      (m : ℕ → ℕ) (n : ℕ)
      → ((k : ℕ) → k < n → m (page + k * size) ≡ prev k)
      → Chain m (prev n) (blocks n size page)
  unfolding prev
  blocks-Chain m zero h = refl
  blocks-Chain m (suc n) h =
      (refl, rw (h n (omega arith)) (blocks-Chain m n (λ k lt. h k (omega (arith, lt)))))

  linked :
      (i : ℕ) (m : ℕ → ℕ)
      → ((k : ℕ) → k < suc i → m (page + k * size) ≡ prev k)
      → (k : ℕ) → k < suc (suc i)
      → put m (page + suc i * size) (page + i * size) (page + k * size) ≡ prev k
  unfolding prev
  linked i m h k lt = elim (ℕ_discrete k (suc i)) [
    | yes e ↦ rw (e, eq→== {a = page + suc i * size} refl) refl
    | no ne ↦
        rw
          (not-== {a = page + k * size} {b = page + suc i * size}
            (omega (arith, mul_apart k (suc i) size (omega (arith, lt, ne)), pos)))
          (h k (omega (arith, lt, ne)))
  ]

  -- Past the blocks or before the page.
  abbrev Beyond : ℕ → ℕ → Type 0
  Beyond n a = (a < page) ⊎ (page + n * size ≤ a)

  not_linked : (i n a : ℕ) → Beyond (suc i + suc n) a → a ≢ page + suc i * size
  not_linked i n a (inl lt) e = omega (arith, lt, e)
  not_linked i n a (inr ge) e =
      omega (arith, ge, e, pos, mul_apart (suc i) (suc i + suc n) size (omega arith))

  link_loop_step :
      (n i : ℕ) (m : ℕ → ℕ)
      → link_loop (suc n) (suc i) size page m
        ≡ link_loop n (suc (suc i)) size page (put m (page + suc i * size) (page + i * size))
  unfolding link_loop
  link_loop_step n i m =
      let d : suc i - 1 ≡ i = omega arith in
      rw
        (
          d,
          not-== {a = page + suc i * size} {b = page + i * size}
              (omega (arith, suc_mul i size, pos)),
        )
        refl

  -- The loop links the blocks from `i` on, and touches nothing outside of them.
  link_loop-prev :
      (n i : ℕ) (m : ℕ → ℕ)
      → 0 < i
      → ((k : ℕ) → k < i → m (page + k * size) ≡ prev k)
      → (m' : ℕ → ℕ) × (link_loop n i size page m ≡ ok m')
        × ((k : ℕ) → k < i + n → m' (page + k * size) ≡ prev k)
        × ((a : ℕ) → Beyond (i + n) a → m' a ≡ m a)
  unfolding link_loop prev
  link_loop-prev zero i m ipos h = (m, refl, λ k lt. h k (omega (arith, lt)), λ a out. refl)
  link_loop-prev (suc n) zero m ipos h = absurd (omega (arith, ipos))
  link_loop-prev (suc n) (suc i) m ipos h =
      let shift : suc (suc i) + n ≡ suc i + suc n = omega arith in
      let m1 : ℕ → ℕ = put m (page + suc i * size) (page + i * size) in
      let (m', e, links, outside) =
        link_loop-prev n (suc (suc i)) m1 (omega arith) (linked i m h) in
      (
        m',
        link_loop_step n i m ∙ e,
        λ k lt. links k (omega (arith, lt)),
        λ a out.
            outside a (rw shift out)
            ∙ rw (not-== {a = a} {b = page + suc i * size} (not_linked i n a out)) refl,
      )

-- The pageref of a fresh page.
abbrev pub fresh_ref : (b page : ℕ) → Pageref
fresh_ref b page = record {
  pageaddr_and_blocktype = mkpab page b;
  freelist_offset = (page_size / size_of b - 1) * size_of b;
  nfree = page_size / size_of b;
}

-- The blocks of a page of kind `b`: at least two, they fill the page.
pub many :
    (b : ℕ) → b < 8 → (1 < page_size / size_of b) × (page_size / size_of b * size_of b ≡ page_size)
many zero lt = (omega arith, refl)
many (suc zero) lt = (omega arith, refl)
many (suc (suc zero)) lt = (omega arith, refl)
many (suc (suc (suc zero))) lt = (omega arith, refl)
many (suc (suc (suc (suc zero)))) lt = (omega arith, refl)
many (suc (suc (suc (suc (suc zero))))) lt = (omega arith, refl)
many (suc (suc (suc (suc (suc (suc zero)))))) lt = (omega arith, refl)
many (suc (suc (suc (suc (suc (suc (suc zero))))))) lt = (omega arith, refl)
many (suc (suc (suc (suc (suc (suc (suc (suc b)))))))) lt = absurd (omega (arith, lt))

module _ (b page : ℕ) (lt : b < 8) (page_pos : 0 < page) (page_end : page + page_size < 2 ^ 32)
    (on_page : page % page_size ≡ 0) where
  pub fresh_addr : (pr_pageaddr (fresh_ref b page) ≡ page) × (pr_blocktype (fresh_ref b page) ≡ b)
  fresh_addr = (omega arith, omega arith)

  made :
      (m : ℕ → ℕ)
      → ((k : ℕ)
          → k < page_size / size_of b
          → m (page + k * size_of b) ≡ prev (size_of b) page (size_words b lt).1 k)
      → PageOk m (fresh_ref b page) (blocks (page_size / size_of b) (size_of b) page) []
  made m links = record {
    kind = rw (fresh_addr.1) lt;
    page_pos = rw (fresh_addr.0) page_pos;
    page_end = rw (fresh_addr.0) page_end;
    chain =
        rw (first_link)
          (blocks-Chain (size_of b) page (size_words b lt).1 m (page_size / size_of b) links);
    free_placed =
        rw (fresh_addr.0, fresh_addr.1)
          (blocks-Placed (size_of b) page (size_words b lt).1 (page_size / size_of b)
            (omega (arith, (many b lt).1)));
    live_placed = tt;
    apart = λ x h. refl;
    count = sym (length-blocks (page_size / size_of b) (size_of b) page);
    total =
        rw (fresh_addr.1) (omega (arith, length-blocks (page_size / size_of b) (size_of b) page));
  }
    where
      first_link :
          first_free (fresh_ref b page)
          ≡ prev (size_of b) page (size_words b lt).1 (page_size / size_of b)
      first_link =
          rw
            (
              not-== {a = (page_size / size_of b - 1) * size_of b} {b = invalid_offset}
                  (omega (arith, inside)),
              fresh_addr.0,
            )
            (sym
              (prev_lem (size_of b) page (size_words b lt).1 (page_size / size_of b) (many b lt).0))
        where
          inside : (page_size / size_of b - 1) * size_of b < page_size
          inside = omega (
            arith,
            mul_apart (page_size / size_of b - 1) (page_size / size_of b) (size_of b)
                (omega (arith, (many b lt).0)),
            (many b lt).1,
            (size_words b lt).1,
          )

  -- The loop of `subpage_kmalloc` makes a page of free blocks.
  pub fresh-PageOk :
      (m : ℕ → ℕ)
      → (m' : ℕ → ℕ) × (link_loop (page_size / size_of b - 1) 1 (size_of b) page (put m page 0)
          ≡ ok m')
        × PageOk m' (fresh_ref b page) (blocks (page_size / size_of b) (size_of b) page) []
        × ((a : ℕ) → (a < page) ⊎ (page + page_size ≤ a) → m' a ≡ m a)
  unfolding prev
  fresh-PageOk m =
      let (m', e, links, outside) =
        link_loop-prev (size_of b) page (size_words b lt).1 (page_size / size_of b - 1) 1
          (put m page 0) (omega arith) first in
      (
        m',
        e,
        made m' (λ k h. links k (omega (arith, h))),
        λ a out. outside a (past a out) ∙ kept a out,
      )
    where
      first :
          (k : ℕ)
          → k < 1
          → put m page 0 (page + k * size_of b) ≡ prev (size_of b) page (size_words b lt).1 k
      first zero h =
          (let e : page + 0 * size_of b ≡ page = omega arith in rw (e, eq→== {a = page} refl) refl)
      first (suc k) h = absurd (omega (arith, h))

      past :
          (a : ℕ)
          → (a < page) ⊎ (page + page_size ≤ a)
          → (a < page) ⊎ (page + (1 + (page_size / size_of b - 1)) * size_of b ≤ a)
      past a (inl below) = inl below
      past a (inr above) =
          let e : 1 + (page_size / size_of b - 1) ≡ page_size / size_of b =
            omega (arith, (many b lt).0) in
          inr (rw (e, (many b lt).1) above)

      kept : (a : ℕ) → (a < page) ⊎ (page + page_size ≤ a) → put m page 0 a ≡ m a
      kept a out = rw (not-== {a = a} {b = page} (away out)) refl
        where
          away : (a < page) ⊎ (page + page_size ≤ a) → a ≢ page
          away (inl below) e = omega (arith, below, e)
          away (inr above) e = omega (arith, above, e)
