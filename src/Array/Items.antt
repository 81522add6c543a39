-- ===== src/Array/Items.antt =====
-- array.c: reading, replacing and removing a pointer.
use cse.Base.{
  ℕ, zero, suc, ◌+◌, ◌-◌, ◌≤◌, ◌<◌, ◌≡◌, refl, ◌∙◌, sym, ap, arith, List, [], ◌∷◌, none, some,
  length, length-set, get_elem?, set, get_elem?-set_self, get_elem?-set_ne, dec_lt, ℕ_discrete,
}
use cse.Base.Outcome.{Outcome, ok, panic}
use cse.Base.Blocks.{load, Copied, memmove_down-Copied}
use cse.Array.{Array, entries, getguy, setguy, remove}
use cse.Array.Grow.{Holds}

-- The list without its entry `i`.
abbrev pub without : {A : Type 0} → ℕ → List A → List A
without i [] = []
without zero (x ∷ xs) = xs
without (suc i) (x ∷ xs) = x ∷ without i xs

module _ {A : Type 0} where
  pub length-without : (i : ℕ) (xs : List A) → i < length xs → length (without i xs) + 1 ≡ length xs
  length-without i [] h = absurd (omega arith)
  length-without zero (x ∷ xs) h = omega arith
  length-without (suc i) (x ∷ xs) h = omega (arith, length-without i xs (omega arith))

  pub get_elem?-without_low :
      (i j : ℕ) (xs : List A) → j < i → get_elem? (without i xs) j ≡ get_elem? xs j
  get_elem?-without_low i j [] h = refl
  get_elem?-without_low zero j (x ∷ xs) h = absurd (omega arith)
  get_elem?-without_low (suc i) zero (x ∷ xs) h = refl
  get_elem?-without_low (suc i) (suc j) (x ∷ xs) h = get_elem?-without_low i j xs (omega arith)

  pub get_elem?-without_high :
      (i j : ℕ) (xs : List A) → i ≤ j → get_elem? (without i xs) j ≡ get_elem? xs (suc j)
  get_elem?-without_high i j [] h = refl
  get_elem?-without_high zero j (x ∷ xs) h = refl
  get_elem?-without_high (suc i) zero (x ∷ xs) h = absurd (omega arith)
  get_elem?-without_high (suc i) (suc j) (x ∷ xs) h = get_elem?-without_high i j xs (omega arith)

  get_elem?-none : (xs : List A) (i : ℕ) → length xs ≤ i → get_elem? xs i ≡ none
  get_elem?-none [] i h = refl
  get_elem?-none (x ∷ xs) zero h = absurd (omega arith)
  get_elem?-none (x ∷ xs) (suc i) h = get_elem?-none xs i (omega arith)

  set_item :
      (xs ys : List A) (i j : ℕ) (x : A)
      → i < length xs
      → i < length ys
      → get_elem? ys j ≡ get_elem? xs j
      → get_elem? (set ys i x) j ≡ get_elem? (set xs i x) j
  set_item xs ys i j x hx hy e = elim (ℕ_discrete i j) [
    | yes same ↦
        ap (get_elem? (set ys i x)) (sym same)
        ∙ get_elem?-set_self ys i x hy
        ∙ sym (get_elem?-set_self xs i x hx)
        ∙ ap (get_elem? (set xs i x)) same
    | no ne ↦ get_elem?-set_ne ys x ne ∙ e ∙ sym (get_elem?-set_ne xs x ne)
  ]

  remove-Holds :
      (xs : List A) (a : Array A) (i : ℕ)
      → Holds xs a
      → i < length xs
      → (a' : Array A) × (remove a i ≡ ok a') × Holds (without i xs) a' × (a'.max ≡ a.max)
  unfolding remove
  remove-Holds xs a i h lt =
      let (out, e, c) =
        memmove_down-Copied (a.num - (i + 1)) (i + 1) i (entries a) (omega arith)
          (omega (arith, h.count, h.fits, h.full_block)) in
      (
        record a { num = a.num - 1; v = some out },
        ground (arith, h.fits, h.count, e),
        record {
          count = omega (arith, h.count, length-without i xs lt);
          fits = omega (arith, h.fits);
          small = h.small;
          full_block = c.length_eq ∙ h.full_block;
          item = λ j jl. at out c j (dec_lt j i) (omega (arith, jl, length-without i xs lt));
        },
        refl,
      )
    where
      at :
          (out : List A)
          → Copied (a.num - (i + 1)) (i + 1) i (entries a) (entries a) out
          → (j : ℕ) → Dec (j < i)
          → j + 1 < length xs
          → get_elem? out j ≡ get_elem? (without i xs) j
      at out c j (yes low) jl =
          c.outside j low ∙ h.item j (omega arith) ∙ sym (get_elem?-without_low i j xs low)
      at out c j (no high) jl =
          ap (get_elem? out) (omega (arith, high))
          ∙ c.inside (j - i) (omega (arith, high, h.count))
          ∙ ap (get_elem? (entries a)) (omega (arith, high))
          ∙ h.item (suc j) (omega (arith, jl))
          ∙ sym (get_elem?-without_high i j xs (omega (arith, high)))

-- What an operation that changes the array answers, at an index of the contents or past them.
abbrev pub Changes :
    {A : Type 0} → List A → ℕ → (after : List A) → Array A → Outcome (Array A) → Type 0
Changes {A} xs i after a r =
    (i < length xs → (a' : Array A) × (r ≡ ok a') × Holds after a' × (a'.max ≡ a.max))
    × (¬ (i < length xs) → r ≡ panic)

module _ {A : Type 0} where
  -- On an array that holds a list `array_getguy` answers the entry of the list, or panics past its
  -- end.
  pub getguy-load : (xs : List A) (a : Array A) (i : ℕ) → Holds xs a → getguy a i ≡ load xs i
  unfolding getguy
  getguy-load xs a i h = elim (dec_lt i (length xs)) [
    | yes lt ↦ ground (arith, h.fits, h.count, h.item i lt)
    | no ge ↦ ground (arith, h.fits, h.count, get_elem?-none xs i (omega arith))
  ]

  -- On an array that holds a list `array_setguy` replaces the entry of the list, or panics past
  -- its end; the block stays as large.
  pub setguy-Changes :
      (xs : List A) (a : Array A) (i : ℕ) (x : A)
      → Holds xs a
      → Changes xs i (set xs i x) a (setguy a i x)
  unfolding setguy
  setguy-Changes xs a i x h = (
    λ lt. (
      record a { v = some (set (entries a) i x) },
      ground (arith, h.fits, h.count, h.full_block),
      record {
        count = h.count ∙ sym (length-set xs i x);
        fits = h.fits;
        small = h.small;
        full_block = length-set (entries a) i x ∙ h.full_block;
        item = λ j jl.
            set_item xs (entries a) i j x lt (omega (arith, h.fits, h.count, h.full_block))
              (h.item j (omega (arith, jl, length-set xs i x)));
      },
      refl,
    ),
    λ ge. ground (arith, h.fits, h.count),
  )

  -- On an array that holds a list `array_remove` takes the entry out of the list and closes the
  -- gap, or panics past its end; the block stays as large.
  pub remove-Changes :
      (xs : List A) (a : Array A) (i : ℕ) → Holds xs a → Changes xs i (without i xs) a (remove a i)
  unfolding remove
  remove-Changes xs a i h = (remove-Holds xs a i h, λ ge. ground (arith, h.fits, h.count))
