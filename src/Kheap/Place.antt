-- ===== src/Kheap/Place.antt =====
-- The blocks of one page of the heap: where they lie, and the chain of the free ones.
use cse.Base.{
  ℕ, zero, suc, ◌+◌, ◌-◌, ◌/◌, ◌%◌, ◌≤◌, ◌<◌, ◌≡◌, ◌≢◌, ◌⊎◌, inl, inr, refl, ap, true, false, not,
  ◌&&◌, List, [], ◌∷◌, ◌==◌, length, arith, ℕ_discrete, dec_lt, mem, not-==, eq→==,
}
use cse.Kheap.{page_size, size_of}
use cse.Kheap.Free.{unlink}

-- Different blocks of `size` bytes of the page.
abbrev pub Placed : (page size : ℕ) → List ℕ → Type 0
Placed page size [] = Unit {0}
Placed page size (x ∷ xs) =
    (page ≤ x)
    × (x < page + page_size)
    × ((x - page) % size ≡ 0)
    × (mem x xs ≡ false)
    × Placed page size xs

-- Each block keeps the address of the next one, and the last keeps 0.
abbrev pub Chain : (ℕ → ℕ) → ℕ → List ℕ → Type 0
Chain memory a [] = a ≡ 0
Chain memory a (x ∷ xs) = (a ≡ x) × Chain memory (memory x) xs

pub Chain-same :
    (m m' : ℕ → ℕ) (a : ℕ) (xs : List ℕ)
    → ((x : ℕ) → mem x xs ≡ true → m' x ≡ m x)
    → Chain m a xs
    → Chain m' a xs
Chain-same m m' a [] e c = c
Chain-same m m' a (x ∷ xs) e (at_x, c) =
    (at_x, rw (e x (ground arith)) (Chain-same m m' (m x) xs (λ y h. e y (ground (arith, h))) c))

-- One block of a page.
abbrev pub InPage : (page size x : ℕ) → Type 0
InPage page size x = (page ≤ x) × (x < page + page_size) × ((x - page) % size ≡ 0)

pub Placed-mem :
    (page size : ℕ) (xs : List ℕ) (x : ℕ)
    → Placed page size xs
    → mem x xs ≡ true
    → InPage page size x
Placed-mem page size [] x p h = absurd (ground (arith, h))
Placed-mem page size (y ∷ xs) x (lo, hi, aligned, away, p) h = elim (ℕ_discrete x y) [
  | yes e ↦ rw e (lo, hi, aligned)
  | no ne ↦ Placed-mem page size xs x p (ground (arith, h, ne))
]

-- The kinds of blocks: two multiples of the size are a block apart, and blocks end with the page.
pub multiples_apart :
    (b x y : ℕ) → b < 8 → x % size_of b ≡ 0 → y % size_of b ≡ 0 → x < y → x + size_of b ≤ y
multiples_apart zero x y lt hx hy h = omega arith
multiples_apart (suc zero) x y lt hx hy h = omega arith
multiples_apart (suc (suc zero)) x y lt hx hy h = omega arith
multiples_apart (suc (suc (suc zero))) x y lt hx hy h = omega arith
multiples_apart (suc (suc (suc (suc zero)))) x y lt hx hy h = omega arith
multiples_apart (suc (suc (suc (suc (suc zero))))) x y lt hx hy h = omega arith
multiples_apart (suc (suc (suc (suc (suc (suc zero)))))) x y lt hx hy h = omega arith
multiples_apart (suc (suc (suc (suc (suc (suc (suc zero))))))) x y lt hx hy h = omega arith
multiples_apart (suc (suc (suc (suc (suc (suc (suc (suc b)))))))) x y lt hx hy h =
    absurd (omega (arith, lt))

pub page_multiple : (b : ℕ) → b < 8 → (page_size % size_of b ≡ 0) × (page_size / size_of b < 257)
page_multiple zero lt = (refl, omega arith)
page_multiple (suc zero) lt = (refl, omega arith)
page_multiple (suc (suc zero)) lt = (refl, omega arith)
page_multiple (suc (suc (suc zero))) lt = (refl, omega arith)
page_multiple (suc (suc (suc (suc zero)))) lt = (refl, omega arith)
page_multiple (suc (suc (suc (suc (suc zero))))) lt = (refl, omega arith)
page_multiple (suc (suc (suc (suc (suc (suc zero)))))) lt = (refl, omega arith)
page_multiple (suc (suc (suc (suc (suc (suc (suc zero))))))) lt = (refl, omega arith)
page_multiple (suc (suc (suc (suc (suc (suc (suc (suc b)))))))) lt = absurd (omega (arith, lt))

-- Outside of a block.
abbrev pub Outside : (x size a : ℕ) → Type 0
Outside x size a = (a < x) ⊎ (x + size ≤ a)

-- Another block of the page.
pub other_block :
    (b page x y : ℕ)
    → b < 8
    → InPage page (size_of b) x
    → InPage page (size_of b) y
    → x ≢ y
    → Outside x (size_of b) y
other_block b page x y lt (xlo, xhi, xa) (ylo, yhi, ya) ne = elim (dec_lt x y) [
  | yes below ↦
      inr (omega (arith, xlo, ylo, multiples_apart b (x - page) (y - page) lt xa ya (omega arith)))
  | no above ↦ inl (omega (arith, above, ne))
]

-- A block of another page.
pub other_page :
    (b page x q y : ℕ)
    → b < 8
    → page % page_size ≡ 0
    → q % page_size ≡ 0
    → page ≢ q
    → InPage page (size_of b) x
    → q ≤ y
    → y < q + page_size
    → Outside x (size_of b) y
other_page b page x q y lt pa qa ne (xlo, xhi, xa) ylo yhi = elim (dec_lt y x) [
  | yes below ↦ inl below
  | no above ↦ inr (
      omega (
        arith,
        xlo,
        ylo,
        yhi,
        pa,
        qa,
        ne,
        above,
        multiples_apart b (x - page) page_size lt xa (page_multiple b lt).0 (omega arith),
      ))
]

-- What `unlink` leaves of different numbers.
abbrev pub Distinct : List ℕ → Type 0
Distinct [] = Unit {0}
Distinct (x ∷ xs) = (mem x xs ≡ false) × Distinct xs

pub unlink-mem :
    (x : ℕ) (xs : List ℕ) (y : ℕ) → Distinct xs → mem y (unlink x xs) ≡ (mem y xs && not (y == x))
unlink-mem x [] y h = refl
unlink-mem x (z ∷ xs) y (away, h) = elim (ℕ_discrete z x) [
  | yes e ↦ ground (arith, e, away)
  | no ne ↦ ground (arith, ne, unlink-mem x xs y h)
]

pub unlink-Distinct : (x : ℕ) (xs : List ℕ) → Distinct xs → Distinct (unlink x xs)
unlink-Distinct x [] h = tt
unlink-Distinct x (z ∷ xs) (away, h) = elim (ℕ_discrete z x) [
  | yes e ↦ rw (eq→== e) h
  | no ne ↦ rw (not-== ne) (ground (arith, unlink-mem x xs z h, away), unlink-Distinct x xs h)
]

pub length-unlink : (x : ℕ) (xs : List ℕ) → mem x xs ≡ true → suc (length (unlink x xs)) ≡ length xs
length-unlink x [] h = absurd (ground (arith, h))
length-unlink x (z ∷ xs) h = elim (ℕ_discrete z x) [
  | yes e ↦ rw (eq→== e) refl
  | no ne ↦ rw (not-== ne) (ap suc (length-unlink x xs (ground (arith, h, ne))))
]

pub Placed-Distinct : (page size : ℕ) (xs : List ℕ) → Placed page size xs → Distinct xs
Placed-Distinct page size [] p = tt
Placed-Distinct page size (x ∷ xs) (lo, hi, aligned, away, p) =
    (away, Placed-Distinct page size xs p)

pub Placed-unlink :
    (page size x : ℕ) (xs : List ℕ) → Placed page size xs → Placed page size (unlink x xs)
Placed-unlink page size x [] p = tt
Placed-unlink page size x (z ∷ xs) (lo, hi, aligned, away, p) = elim (ℕ_discrete z x) [
  | yes e ↦ rw (eq→== e) p
  | no ne ↦ rw (not-== ne) (
    lo,
    hi,
    aligned,
    ground (arith, unlink-mem x xs z (Placed-Distinct page size xs p), away),
    Placed-unlink page size x xs p,
  )
]
