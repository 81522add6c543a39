-- ===== src/Kheap/Tests.antt =====
-- kheap.c on an empty heap and on one with a page of 1024-byte blocks, and the theorems at inputs that
-- meet their hypotheses.
use cse.Base.{
  ℕ, ◌+◌, ◌≡◌, refl, true, false, List, [], ◌∷◌, replicate, arith, mem, ◌==◌, sym, ◌∙◌, ℕ_discrete,
  eq→==, not-==, if◌then◌else◌,
}
use cse.Base.Outcome.{ok}
use cse.Vm.{Ram}
use cse.Kheap.{Heap, kmalloc}
use cse.Kheap.Free.{kfree}
use cse.Kheap.Place.{Distinct}
use cse.Kheap.Invariant.{HeapOk}
use cse.Kheap.Malloc.{kmalloc-wraps}
use cse.Kheap.Kfree.{Frees, kfree-Frees}

abbrev two_pages : Ram
two_pages = record { first = 0x8000; last = 0xa000 }

abbrev empty : Heap
empty = record {
  refs = λ i. record { pageaddr_and_blocktype = 0; freelist_offset = 0; nfree = 0 };
  inuse = replicate 8 (replicate 32 false);
  sizebases = λ b. [];
  allbase = [];
  memory = λ a. 0;
  ram = two_pages;
}

empty-HeapOk : HeapOk empty (λ i. []) (λ i. [])
empty-HeapOk = record {
  words = (refl, (refl, (refl, (refl, (refl, (refl, (refl, (refl, tt))))))));
  refs_many = refl;
  distinct = tt;
  page = λ i e. absurd (ground (arith, e));
  used = λ i e. absurd (ground (arith, e));
  below = λ i e. absurd (ground (arith, e));
  different = λ i j e. absurd (ground (arith, e));
  sized = λ b lt. tt;
  listed = λ b i lt e. absurd (ground (arith, e));
  sane = record { first_pos = omega arith; in_order = omega arith; small = omega arith };
  aligned = refl;
}

-- A page of blocks of 1024 bytes at 0x80008000: the first is handed out, and the others are free.
abbrev started : Heap
started = record empty {
  refs = λ i. record { pageaddr_and_blocktype = 0x8000_8006; freelist_offset = 3072; nfree = 3 };
  inuse = (true ∷ replicate 31 false) ∷ replicate 7 (replicate 32 false);
  sizebases = λ b. if b == 6 then 0 ∷ [] else [];
  allbase = 0 ∷ [];
  memory =
      λ a. if a == 0x8000_8c00 then 0x8000_8800 else if a == 0x8000_8800 then 0x8000_8400 else 0;
  ram = record { first = 0x9000; last = 0xa000 };
}

abbrev first_free : ℕ → List ℕ
first_free i = 0x8000_8c00 ∷ 0x8000_8800 ∷ 0x8000_8400 ∷ []

abbrev handed : ℕ → List ℕ
handed i = 0x8000_8000 ∷ []

started-HeapOk : HeapOk started first_free handed
started-HeapOk = record {
  words = (refl, (refl, (refl, (refl, (refl, (refl, (refl, (refl, tt))))))));
  refs_many = refl;
  distinct = (refl, tt);
  page = λ i e. record {
    kind = omega arith;
    page_pos = omega arith;
    page_end = omega arith;
    chain = (refl, (refl, (refl, refl)));
    free_placed = (
      omega arith,
      omega arith,
      refl,
      refl,
      (omega arith, omega arith, refl, refl, (omega arith, omega arith, refl, refl, tt)),
    );
    live_placed = (omega arith, omega arith, refl, refl, tt);
    apart = λ x e. ground (arith, e);
    count = refl;
    total = refl;
  };
  used = λ i e. let z : i ≡ 0 = only_page i e in rw z (omega arith, refl);
  below = λ i e. omega arith;
  different = λ i j ei ej ne. absurd (ne (only_page i ei ∙ sym (only_page j ej)));
  sized = λ b lt. of_size b (ℕ_discrete b 6);
  listed = λ b i lt e. list b i e (ℕ_discrete b 6);
  sane = record { first_pos = omega arith; in_order = omega arith; small = omega arith };
  aligned = refl;
}
  where
    only_page : (i : ℕ) → mem i (0 ∷ []) ≡ true → i ≡ 0
    only_page i e = ground (arith, e)

    of_size : (b : ℕ) → Dec (b ≡ 6) → Distinct (started.sizebases b)
    of_size b (yes e) = rw (eq→== e) (refl, tt)
    of_size b (no ne) = rw (not-== ne) tt

    list :
        (b i : ℕ)
        → mem i (started.sizebases b) ≡ true
        → Dec (b ≡ 6)
        → (mem i (0 ∷ []) ≡ true) × (6 ≡ b)
    list b i e (yes six) = (rw (eq→== six) at e, sym six)
    list b i e (no ne) = absurd (ground (arith, rw (not-== ne) at e))

kfree-Frees_example : Frees started handed 0x8000_8000 (kfree started 0x8000_8000)
kfree-Frees_example =
    kfree-Frees started first_free handed 0x8000_8000 started-HeapOk (0, refl, refl)

kmalloc-wraps_example : kmalloc empty 0xffff_ffff ≡ ok (empty.ram.first + 0x8000_0000, empty)
kmalloc-wraps_example =
    kmalloc-wraps empty 0xffff_ffff empty-HeapOk.sane (omega arith) (omega arith)
