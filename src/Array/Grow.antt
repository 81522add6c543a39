-- ===== src/Array/Grow.antt =====
-- array.c: the contents as a list, and the operations that ask for memory.
use mathlib.Core.List.{append_assoc, append-nil}
use native.Mathlib.Nat.{pow-suc}
use cse.Base.{
  ℕ, zero, suc, ◌+◌, ◌*◌, ◌^◌, ◌≤◌, ◌<◌, ◌≡◌, refl, ◌∙◌, sym, ap, arith, Bool, true, false, List,
  [], ◌∷◌, ◌++◌, none, some, length, length-append, length-set, get_elem?, set, get_elem?-set_self,
  get_elem?-set_ne, lt→ltb, not-lt→ltb, dec_lt, ℕ_discrete,
}
use cse.Base.Outcome.{Outcome, ok, err, panic, enomem, ◌>>=◌}
use cse.Base.Blocks.{pointers, fresh_block, length-fresh_block, copy_items-Copied}
use cse.Array.{Array, entries, grow_max, preallocate, setsize, add, create}

-- The array holds just `xs`.
pub record Holds {A : Type 0} (xs : List A) (a : Array A) : Type 0 where
  pub count : a.num ≡ length xs
  pub fits : a.num ≤ a.max
  pub small : a.max < 2 ^ 30
  pub full_block : length (entries a) ≡ a.max
  pub item : (i : ℕ) → i < length xs → get_elem? (entries a) i ≡ get_elem? xs i

grow_max_step : (f t n : ℕ) → n < t → t < 2 ^ 29 → grow_max (suc f) t n ≡ grow_max f t ((n + 1) * 2)
unfolding grow_max
grow_max_step f t n more bound =
    ground (arith, lt→ltb n t more, lt→ltb ((n + 1) * 2) (2 ^ 31) (omega arith))

-- With enough fuel the loop ends, at a number that is large enough and fits.
grow_max-ok :
    (f t n : ℕ)
    → t < 2 ^ 29
    → n < 2 ^ 30
    → t + 2 ≤ (n + 2) * 2 ^ f
    → (m : ℕ) × (grow_max (suc f) t n ≡ ok m) × (t ≤ m) × (n ≤ m) × (m < 2 ^ 30)
unfolding grow_max
grow_max-ok zero t n bound small reach = (n, ground arith, omega arith, omega arith, omega arith)
grow_max-ok (suc f) t n bound small reach = elim (dec_lt n t) [
  | no done ↦ (n, ground arith, omega arith, omega arith, omega arith)
  | yes more ↦
      let further : t + 2 ≤ ((n + 1) * 2 + 2) * 2 ^ f =
        omega (arith, ap (λ (p : ℕ). n * p) (pow-suc 2 f), pow-suc 2 f) in
      let (m, e, hi, lo, top) = grow_max-ok f t ((n + 1) * 2) bound (omega arith) further in
      (m, grow_max_step (suc f) t n more bound ∙ e, hi, omega arith, top)
]

module _ {A : Type 0} where
  pub get_elem?-append :
      (xs ys : List A) (i : ℕ) → i < length xs → get_elem? (xs ++ ys) i ≡ get_elem? xs i
  get_elem?-append [] ys i h = absurd (omega arith)
  get_elem?-append (x ∷ xs) ys zero h = refl
  get_elem?-append (x ∷ xs) ys (suc i) h = get_elem?-append xs ys i (omega arith)

  pub get_elem?-append_end : (xs : List A) (y : A) → get_elem? (xs ++ (y ∷ [])) (length xs) ≡ some y
  get_elem?-append_end [] y = refl
  get_elem?-append_end (x ∷ xs) y = get_elem?-append_end xs y

module _ {A : Type 0} (junk : ℕ → A) where
  -- `array_create` makes an array that holds nothing, or answers NULL.
  create-Holds : (a : Array A) × (create true ≡ some a) × Holds [] a
  unfolding create
  create-Holds = (
    record { num = 0; max = 0; v = none },
    refl,
    record {
      count = refl;
      fits = omega arith;
      small = omega arith;
      full_block = refl;
      item = λ i h. absurd (omega arith);
    },
  )

  pub preallocate-Holds :
      {xs : List A} {a : Array A} (n : ℕ)
      → Holds xs a
      → n < 2 ^ 29
      → (a' : Array A) × (preallocate junk true a n ≡ ok a')
        × Holds xs a'
        × (n ≤ a'.max)
        × (a.max ≤ a'.max)
  unfolding preallocate
  preallocate-Holds {xs} {a} n h bound =
      let (m, e, hi, lo, top) = grow_max-ok 31 n a.max bound h.small (omega (arith, bound)) in
      let block_length : length (fresh_block junk (pointers m)) ≡ m =
        length-fresh_block junk (pointers m) ∙ omega arith in
      let (out, e', c) =
        copy_items-Copied a.num 0 0 (entries a) (fresh_block junk (pointers m))
          (omega (arith, h.full_block, h.fits)) (omega (arith, h.fits, block_length)) in
      (
        record a { max = m; v = some out },
        ground (arith, h.fits, e, e'),
        record {
          count = h.count;
          fits = omega (arith, h.fits);
          small = top;
          full_block = c.length_eq ∙ block_length;
          item = λ i lt.
              ap (get_elem? out) (omega arith)
              ∙ c.inside i (omega (arith, h.count))
              ∙ ap (get_elem? (entries a)) (omega arith)
              ∙ h.item i lt;
        },
        hi,
        lo,
      )

  pub preallocate-enomem :
      {xs : List A} {a : Array A} (n : ℕ)
      → Holds xs a
      → n < 2 ^ 29
      → preallocate junk false a n ≡ err enomem
  unfolding preallocate
  preallocate-enomem {xs} {a} n h bound =
      let (m, e, hi, lo, top) = grow_max-ok 31 n a.max bound h.small (omega (arith, bound)) in
      ground (arith, h.fits, e)

  setsize_grow :
      (enough : Bool) {xs : List A} {a : Array A} (n : ℕ)
      → Holds xs a
      → a.max < n
      → setsize junk enough a n ≡ (preallocate junk enough a n >>= λ a'. ok (record a' { num = n }))
  unfolding setsize
  setsize_grow enough {xs} {a} n h lt = ground (arith, h.fits, lt→ltb a.max n lt)

  setsize_room :
      (enough : Bool) {xs : List A} {a : Array A} (n : ℕ)
      → Holds xs a
      → n ≤ a.max
      → 0 < n
      → setsize junk enough a n ≡ ok (record a { num = n })
  unfolding setsize
  setsize_room enough {xs} {a} n h le pos = ground (arith, h.fits, not-lt→ltb a.max n (omega arith))

  -- The end of `array_add`: the pointer at the first free place.
  put-Holds :
      {xs : List A} {a : Array A} (x : A)
      → Holds xs a
      → length xs < a.max
      → Holds (xs ++ (x ∷ [])) (record a { num = a.num + 1; v = some (set (entries a) a.num x) })
  put-Holds {xs} {a} x h lt = record {
    count = omega (arith, h.count, length-append xs (x ∷ []));
    fits = omega (arith, h.count);
    small = h.small;
    full_block = length-set (entries a) a.num x ∙ h.full_block;
    item = λ i il. at i (ℕ_discrete i a.num) (omega (arith, il, length-append xs (x ∷ [])));
  }
    where
      at :
          (i : ℕ)
          → Dec (i ≡ a.num)
          → i < length xs + 1
          → get_elem? (set (entries a) a.num x) i ≡ get_elem? (xs ++ (x ∷ [])) i
      at i (yes e) il =
          ap (get_elem? (set (entries a) a.num x)) e
          ∙ get_elem?-set_self (entries a) a.num x (omega (arith, h.count, h.full_block))
          ∙ sym (get_elem?-append_end xs x)
          ∙ ap (get_elem? (xs ++ (x ∷ []))) (omega (arith, h.count, e))
      at i (no ne) il =
          get_elem?-set_ne (entries a) x (λ e. ne (sym e))
          ∙ h.item i (omega (arith, h.count))
          ∙ sym (get_elem?-append xs (x ∷ []) i (omega (arith, h.count)))

-- What `array_add` answers on an array that holds `xs`: the pointer goes to the end, in place or in
-- a larger block. It fails only where the block is full and no memory is found.
abbrev pub Adds : {A : Type 0} → List A → A → Array A → Bool → Outcome (Array A) → Type 0
Adds xs x a enough (ok a') = Holds (xs ++ (x ∷ [])) a' × (a.max ≤ a'.max)
Adds xs x a enough (err e) = (e ≡ enomem) × (enough ≡ false) × (a.max ≡ length xs)
Adds xs x a enough panic = ⊥

module _ {A : Type 0} (junk : ℕ → A) where
  add_after :
      (enough : Bool) {xs : List A} {a a1 : Array A} (x : A)
      → Holds xs a
      → setsize junk enough a (a.num + 1) ≡ ok (record a1 { num = a.num + 1 })
      → Holds xs a1
      → length xs < a1.max
      → a.max ≤ a1.max
      → (a' : Array A) × (add junk enough a x ≡ ok a') × Adds xs x a enough (ok a')
  unfolding add
  add_after enough {xs} {a} {a1} x h e h1 lt more = (
    record a1 { num = a.num + 1; v = some (set (entries a1) a.num x) },
    ground (arith, e, lt→ltb a.num (length (entries a1)) (omega (arith, h.count, h1.full_block))),
    (rw same_num (put-Holds junk x h1 lt), more),
  )
    where
      same_num : a.num ≡ a1.num
      same_num = h.count ∙ sym h1.count

  -- With room the pointer goes in whatever memory is left.
  pub add-room :
      (enough : Bool) {xs : List A} {a : Array A} (x : A)
      → Holds xs a
      → length xs < a.max
      → (a' : Array A) × (add junk enough a x ≡ ok a')
        × Holds (xs ++ (x ∷ [])) a'
        × (a.max ≤ a'.max)
  add-room enough {xs} {a} x h room =
      let (a', e, r) =
        add_after enough x h
          (setsize_room junk enough (a.num + 1) h (omega (arith, h.count)) (omega arith)) h room
          (omega arith) in
      (a', e, r.0, r.1)

  add_enomem :
      {xs : List A} {a : Array A} (x : A)
      → Holds xs a
      → a.max ≤ length xs
      → length xs + 1 < 2 ^ 29
      → add junk false a x ≡ err enomem
  unfolding add
  add_enomem {xs} {a} x h full small = rw (
    setsize_grow junk false (a.num + 1) h (omega (arith, h.count)),
    preallocate-enomem junk (a.num + 1) h (omega (arith, h.count)),
  )

  -- On an array of fewer than 2^29 - 1 pointers `array_add` appends the pointer, and the room that
  -- there is never shrinks. It answers ENOMEM only where the block is full and no memory is found,
  -- and no assertion of the calls that it makes fails.
  pub add-Adds :
      (enough : Bool) (xs : List A) (a : Array A) (x : A)
      → Holds xs a
      → length xs + 1 < 2 ^ 29
      → Adds xs x a enough (add junk enough a x)
  add-Adds enough xs a x h small = elim (dec_lt (length xs) a.max) [
    | yes room ↦
        let (a', e, r) =
          add_after enough x h
            (setsize_room junk enough (a.num + 1) h (omega (arith, h.count)) (omega arith)) h room
            (omega arith) in
        rw e r
    | no full ↦ grown enough refl full
  ]
    where
      grown : (b : Bool) → b ≡ enough → ¬ (length xs < a.max) → Adds xs x a b (add junk b a x)
      grown true eb full =
          let (a1, e1, h1, big, more) =
            preallocate-Holds junk (a.num + 1) h (omega (arith, h.count)) in
          let (a', e, r) =
            add_after true x h
              (setsize_grow junk true (a.num + 1) h (omega (arith, h.count)) ∙ rw e1) h1
              (omega (arith, h.count)) more in
          rw e r
      grown false eb full =
          rw (add_enomem x h (omega arith) small) (refl, refl, omega (arith, h.count, h.fits))

  -- A row of `array_add` calls.
  abbrev pub add_items : Bool → Array A → List A → Outcome (Array A)
  add_items enough a [] = ok a
  add_items enough a (y ∷ ys) = add junk enough a y >>= λ a'. add_items enough a' ys

  add_items-room :
      (enough : Bool) (xs ys : List A) (a : Array A)
      → Holds xs a
      → length xs + length ys ≤ a.max
      → (a' : Array A) × (add_items enough a ys ≡ ok a') × Holds (xs ++ ys) a'
  add_items-room enough xs [] a h le = (a, refl, rw append-nil h)
  add_items-room enough xs (y ∷ ys) a h le =
      let (a1, e1, (h1, more)) =
        add_after enough y h
          (setsize_room junk enough (a.num + 1) h (omega (arith, h.count)) (omega arith)) h
          (omega arith) (omega arith) in
      let (a2, e2, h2) =
        add_items-room enough (xs ++ (y ∷ [])) ys a1 h1
          (omega (arith, length-append xs (y ∷ []), more)) in
      (a2, rw e1 e2, rw append_assoc at h2)

  -- After a successful `array_preallocate(a, n)`, which leaves the contents alone, additions up to
  -- `n` pointers in all succeed whether or not memory is left.
  pub preallocate-add_items :
      (later : Bool) (n : ℕ) (xs ys : List A) (a : Array A)
      → Holds xs a
      → n < 2 ^ 29
      → length xs + length ys ≤ n
      → (a1 a2 : Array A) × (preallocate junk true a n ≡ ok a1)
        × Holds xs a1
        × (add_items later a1 ys ≡ ok a2)
        × Holds (xs ++ ys) a2
  preallocate-add_items later n xs ys a h small few =
      let (a1, e1, h1, big, more) = preallocate-Holds junk n h small in
      let (a2, e2, h2) = add_items-room later xs ys a1 h1 (omega arith) in (a1, a2, e1, h1, e2, h2)
