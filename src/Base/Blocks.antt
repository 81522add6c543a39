-- ===== src/Base/Blocks.antt =====
-- Blocks of memory as lists: an access outside a block is a fault, which panics the kernel.
use cse.Base.{
  ℕ, zero, suc, ◌+◌, ◌*◌, ◌/◌, ◌%◌, ◌^◌, ◌≤◌, ◌<◌, ◌≡◌, refl, ap, arith, none, some, List, [], ◌∷◌,
  ltb, if◌then◌else◌, length, get_elem?, set, length-set, get_elem?-set_self, get_elem?-set_ne, sym,
  ◌∙◌, lt→ltb,
}
use cse.Base.Outcome.{Outcome, ok, panic, ◌>>=◌}

-- The pointers that fit a block of `n * sizeof(void *)` bytes, a product of 32 bits.
abbrev pub pointers : ℕ → ℕ
pointers n = n * 4 % 2 ^ 32 / 4

module _ {A : Type 0} where
  abbrev pub load : List A → ℕ → Outcome A
  load xs i = elim (get_elem? xs i) [ none ↦ panic | some x ↦ ok x ]

  abbrev pub store : List A → ℕ → A → Outcome (List A)
  store xs i x = if ltb i (length xs) then ok (set xs i x) else panic

  -- A block as `kmalloc` hands it out.
  unfoldable pub fresh_block : (ℕ → A) → ℕ → List A
  fresh_block junk zero = []
  fresh_block junk (suc n) = junk n ∷ fresh_block junk n

  pub length-fresh_block : (junk : ℕ → A) (n : ℕ) → length (fresh_block junk n) ≡ n
  unfolding fresh_block
  length-fresh_block junk zero = refl
  length-fresh_block junk (suc n) = ap suc (length-fresh_block junk n)

  -- `for (i = 0; i < n; i++) to[d + i] = from[s + i];`
  unfoldable pub copy_items : (n s d : ℕ) (from to : List A) → Outcome (List A)
  copy_items zero s d from to = ok to
  copy_items (suc n) s d from to = do
    x ← load from s
    to' ← store to d x
    copy_items n (s + 1) (d + 1) from to'

  -- `memmove` of `n` pointers to an earlier place in the same block, which copies upwards.
  unfoldable pub memmove_down : (n s d : ℕ) (v : List A) → Outcome (List A)
  memmove_down zero s d v = ok v
  memmove_down (suc n) s d v = do x ← load v s; v' ← store v d x; memmove_down n (s + 1) (d + 1) v'

  -- The block `to` with `n` entries of `from` put in.
  pub record Copied (n s d : ℕ) (from to out : List A) : Type 0 where
    pub length_eq : length out ≡ length to
    pub inside : (i : ℕ) → i < n → get_elem? out (d + i) ≡ get_elem? from (s + i)
    pub outside : (i : ℕ) → (i < d) → get_elem? out i ≡ get_elem? to i
    pub beyond : (i : ℕ) → d + n ≤ i → get_elem? out i ≡ get_elem? to i

module _ {A : Type 0} where
  pub get_elem?-some : (xs : List A) (i : ℕ) → i < length xs → (x : A) × (get_elem? xs i ≡ some x)
  get_elem?-some [] i h = absurd (omega arith)
  get_elem?-some (x ∷ xs) zero h = (x, refl)
  get_elem?-some (x ∷ xs) (suc i) h = get_elem?-some xs i (omega arith)

  -- One entry more at the front.
  Copied-step :
      (n s d : ℕ) (from from' to out : List A) (x : A)
      → get_elem? from s ≡ some x
      → d < length to
      → ((i : ℕ) → get_elem? from' (s + 1 + i) ≡ get_elem? from (s + 1 + i))
      → Copied n (s + 1) (d + 1) from' (set to d x) out
      → Copied (suc n) s d from to out
  Copied-step n s d from from' to out x e lt same c = record {
    length_eq = c.length_eq ∙ length-set to d x;
    inside = at;
    outside = λ i h. c.outside i (omega arith) ∙ get_elem?-set_ne to x (λ e. omega arith);
    beyond = λ i h. c.beyond i (omega arith) ∙ get_elem?-set_ne to x (λ e. omega arith);
  }
    where
      at : (i : ℕ) → i < suc n → get_elem? out (d + i) ≡ get_elem? from (s + i)
      at zero h =
          ap (get_elem? out) (omega arith)
          ∙ c.outside d (omega arith)
          ∙ get_elem?-set_self to d x lt
          ∙ sym e
          ∙ ap (get_elem? from) (omega arith)
      at (suc i) h =
          ap (get_elem? out) (omega arith)
          ∙ c.inside i (omega arith)
          ∙ same i
          ∙ ap (get_elem? from) (omega arith)

  copy_items_step :
      (n s d : ℕ) (from to : List A) (x : A)
      → get_elem? from s ≡ some x
      → d < length to
      → copy_items (suc n) s d from to ≡ copy_items n (s + 1) (d + 1) from (set to d x)
  unfolding copy_items
  copy_items_step n s d from to x e lt = ground (arith, e, lt→ltb d (length to) lt)

  memmove_down_step :
      (n s d : ℕ) (v : List A) (x : A)
      → get_elem? v s ≡ some x
      → d < length v
      → memmove_down (suc n) s d v ≡ memmove_down n (s + 1) (d + 1) (set v d x)
  unfolding memmove_down
  memmove_down_step n s d v x e lt = ground (arith, e, lt→ltb d (length v) lt)

  -- A copy inside both blocks succeeds.
  pub copy_items-Copied :
      (n s d : ℕ) (from to : List A)
      → s + n ≤ length from
      → d + n ≤ length to
      → (out : List A) × (copy_items n s d from to ≡ ok out) × Copied n s d from to out
  unfolding copy_items
  copy_items-Copied zero s d from to hs hd = (
    to,
    refl,
    record {
      length_eq = refl;
      inside = λ i h. absurd (omega arith);
      outside = λ i h. refl;
      beyond = λ i h. refl;
    },
  )
  copy_items-Copied (suc n) s d from to hs hd =
      let (x, e) = get_elem?-some from s (omega arith) in
      let (out, e', c) =
        copy_items-Copied n (s + 1) (d + 1) from (set to d x) (omega arith)
          (omega (arith, length-set to d x)) in
      (
        out,
        copy_items_step n s d from to x e (omega arith) ∙ e',
        Copied-step n s d from from to out x e (omega arith) (λ i. refl) c,
      )

  -- A move downwards inside the block delivers the old entries.
  pub memmove_down-Copied :
      (n s d : ℕ) (v : List A)
      → d < s
      → s + n ≤ length v
      → (out : List A) × (memmove_down n s d v ≡ ok out) × Copied n s d v v out
  unfolding memmove_down
  memmove_down-Copied zero s d v lt hs = (
    v,
    refl,
    record {
      length_eq = refl;
      inside = λ i h. absurd (omega arith);
      outside = λ i h. refl;
      beyond = λ i h. refl;
    },
  )
  memmove_down-Copied (suc n) s d v lt hs =
      let (x, e) = get_elem?-some v s (omega arith) in
      let (out, e', c) =
        memmove_down-Copied n (s + 1) (d + 1) (set v d x) (omega arith)
          (omega (arith, length-set v d x)) in
      (
        out,
        memmove_down_step n s d v x e (omega arith) ∙ e',
        Copied-step n s d v (set v d x) v out x e (omega arith)
            (λ i. get_elem?-set_ne v x (λ e. omega arith)) c,
      )
