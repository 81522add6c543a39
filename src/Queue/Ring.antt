-- ===== src/Queue/Ring.antt =====
-- What a ring buffer holds: indices modulo the size, and the run of entries from `nextread` on.
use mathlib.Core.Path.{ap₂}
use native.Mathlib.Nat.{mod-eq_of_lt, mod-eq-sub-mod, mod-add-mod, mod-lt}
use cse.Base.{
  ℕ, zero, suc, ◌+◌, ◌-◌, ◌%◌, ◌^◌, ◌≤◌, ◌<◌, ◌≡◌, refl, ap, ◌≢◌, arith, List, [], ◌∷◌, ◌++◌,
  length, get_or, set, get_or-set, length-append, ltb, if◌then◌else◌, dec_lt,
}
use cse.Queue.{Queue}

-- One turn round the ring at most.
pub wrap : (a n : ℕ) → a < n + n → a % n ≡ (if ltb a n then a else a - n)
wrap a n h = elim (dec_lt a n) [
  | yes p ↦ ground (arith, mod-eq_of_lt {n = a} {m = n} p)
  | no p ↦ ground (
    arith,
    mod-eq-sub-mod {n = a} {m = n} (omega arith),
    mod-eq_of_lt {n = a - n} {m = n} (omega arith),
  )
]

-- Two places less than a turn apart differ.
pub mod-ne : (n h j k : ℕ) → h < n → k < n → j < k → (h + j) % n ≢ (h + k) % n
mod-ne n h j k hh hk lt e = absurd (ground (arith, wrap (h + j) n, wrap (h + k) n, e))

module _ {A : Type 0} where
  -- The `n` entries of `xs` from index `h` on, round a ring of `size`; `d` where `xs` has none.
  abbrev pub window : A → List A → (size h n : ℕ) → List A
  window d xs size h zero = []
  window d xs size h (suc n) = window d xs size h n ++ (get_or xs ((h + n) % size) d ∷ [])

  pub length-window : (d : A) (xs : List A) (size h n : ℕ) → length (window d xs size h n) ≡ n
  length-window d xs size h zero = refl
  length-window d xs size h (suc n) = omega (
    arith,
    length-append (window d xs size h n) (get_or xs ((h + n) % size) d ∷ []),
    length-window d xs size h n,
  )

  -- Entries outside the run do not count.
  pub window-set_outside :
      (d : A) (xs : List A) (size h n i : ℕ) (x : A)
      → i < length xs
      → ((k : ℕ) → k < n → (h + k) % size ≢ i)
      → window d (set xs i x) size h n ≡ window d xs size h n
  window-set_outside d xs size h zero i x hi ne = refl
  window-set_outside d xs size h (suc n) i x hi ne =
      ap₂ (λ l y. l ++ (y ∷ []))
        (window-set_outside d xs size h n i x hi (λ k lt. ne k (omega arith)))
        (ground (arith, get_or-set xs i ((h + n) % size) x d, ne n))

  -- A write just past the run extends it.
  pub window-set_end :
      (d : A) (xs : List A) (size h n : ℕ) (x : A)
      → size ≤ length xs
      → h < size
      → n < size
      → window d (set xs ((h + n) % size) x) size h (suc n) ≡ window d xs size h n ++ (x ∷ [])
  window-set_end d xs size h n x hs hh hn =
      ap₂ (λ l y. l ++ (y ∷ []))
        (window-set_outside d xs size h n ((h + n) % size) x inside
          (λ k lt. mod-ne size h k n hh hn lt))
        (ground (arith, get_or-set xs ((h + n) % size) ((h + n) % size) x d inside))
    where
      inside : (h + n) % size < length xs
      inside = omega (arith, mod-lt (h + n) {m = size} (omega arith))

  -- The first entry, and the rest of the run.
  pub window-cons :
      (d : A) (xs : List A) (size h n : ℕ)
      → window d xs size h (suc n) ≡ get_or xs (h % size) d ∷ window d xs size (h + 1) n
  window-cons d xs size h zero = ap (λ k. get_or xs (k % size) d ∷ []) (omega arith)
  window-cons d xs size h (suc n) =
      ap₂ (λ l k. l ++ (get_or xs (k % size) d ∷ [])) (window-cons d xs size h n) (omega arith)

  pub window-mod :
      (d : A) (xs : List A) (size h n : ℕ) → window d xs size (h % size) n ≡ window d xs size h n
  window-mod d xs size h zero = refl
  window-mod d xs size h (suc n) =
      ap₂ (λ l k. l ++ (get_or xs k d ∷ [])) (window-mod d xs size h n) (mod-add-mod h size n)

-- How many entries the queue holds.
abbrev pub count : {A : Type 0} → Queue A → ℕ
count q = (q.nextwrite + q.size - q.nextread) % q.size

-- The queue's entries, oldest first. (`d` is read nowhere in a valid queue.)
abbrev pub contents : {A : Type 0} → A → Queue A → List A
contents d q = window d q.entries q.size q.nextread (count q)

-- The indices lie in the block, whose size an int holds in bytes.
pub record IsValid {A : Type 0} (q : Queue A) : Type 0 where
  pub small : q.size < 2 ^ 30
  pub full_block : length q.entries ≡ q.size
  pub write_in : q.nextwrite < q.size
  pub read_in : q.nextread < q.size
