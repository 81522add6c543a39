-- ===== src/Queue/Refine.antt =====
-- queue.c as a first-in first-out list: what each operation does to the contents, and when it
-- asks for memory.
use mathlib.Core.List.{append_assoc, append-nil}
use native.Mathlib.Nat.{mod_self, mod-lt, mod-eq_of_lt, le_of_lt}
use cse.Base.{
  ℕ, zero, suc, ◌+◌, ◌-◌, ◌%◌, ◌^◌, ◌≤◌, ◌<◌, ◌≡◌, refl, ◌∙◌, sym, ap, ◌≢◌, ◌⊎◌, inl, inr, arith,
  Bool, true, false, List, [], ◌∷◌, ◌++◌, length, length-append, get_or, get_elem?-eq-get_or, ltb,
  lt→ltb, not-lt→ltb, eq→==, dec_lt, Bool-cases, some,
}
use cse.Base.Outcome.{Outcome, ok, err, panic, enomem, ◌>>=◌}
use cse.Queue.{Queue, room, block, create, grow, addtail, preallocate, remhead, put}
use cse.Queue.Ring.{wrap, window, window-cons, window-mod, count}
use cse.Queue.Grow.{
  grow_size-ok, Holds, count-Holds, nextwrite-eq, put-Holds, at_end, addtail-room, move-Holds,
}

module _ {A : Type 0} (d : A) (junk : ℕ → A) where
  length-block : (n : ℕ) → length (block junk n) ≡ n
  unfolding block
  length-block zero = refl
  length-block (suc n) = ap suc (length-block n)

  abbrev fresh : ℕ → Queue A
  fresh n = record { size = n; nextwrite = 0; nextread = 0; entries = block junk (room n) }

  fresh-Holds : (n : ℕ) → 0 < n → n < 2 ^ 30 → Holds d [] (fresh n)
  fresh-Holds n pos small = record {
    valid = record {
      small = small;
      full_block = length-block (room n) ∙ omega arith;
      write_in = pos;
      read_in = pos;
    };
    items = ap (window d (block junk (room n)) n 0) (none_held ∙ refl);
  }
    where
      none_held : (0 + n - 0) % n ≡ 0
      none_held = ap (λ k. k % n) (omega arith) ∙ mod_self n

  -- A queue that `q_create` returns is valid and empty, for any size that a block can have.
  pub create-Holds :
      (n : ℕ)
      → 0 < n
      → n < 2 ^ 30
      → (q : Queue A) × (create junk true true n ≡ some q) × Holds d [] q
  unfolding create
  create-Holds n pos small = (fresh n, refl, fresh-Holds n pos small)

  module _ (n : ℕ) (mem : ℕ → Bool) where
    pub grow-Holds :
        {xs : List A} {q : Queue A} (target : ℕ)
        → Holds d xs q
        → q.size < target
        → target ≤ 2 ^ 29
        → (q' : Queue A) × (grow junk (addtail junk (suc n) mem) true q target ≡ ok q')
          × Holds d xs q'
          × (target ≤ q'.size)
    unfolding grow
    grow-Holds {xs} {q} target h more bound =
        let (m, e, hi, lo, top) =
          grow_size-ok 31 target q.size (omega (arith, h.valid.read_in)) h.valid.small bound
            (omega (arith, h.valid.read_in)) in
        let (q', e', h', s) =
          move-Holds d n mem junk q.entries q.size q.nextread q.nextwrite (count q) (count q) 0
            q.size q.nextread (fresh m) (mod-lt _ (omega (arith, h.valid.read_in)))
            (omega (arith, h.valid.full_block)) h.valid.read_in (nextwrite-eq d h.valid)
            (omega arith) (le_of_lt (mod-lt _ (omega (arith, h.valid.read_in)))) here (omega arith)
            (fresh-Holds m (omega (arith, more)) top) in
        (q', rw e e', rw h.items at h', omega (arith, hi, s))
      where
        here : q.nextread ≡ (q.nextread + 0) % q.size
        here = ground (arith, h.valid.read_in, mod-eq_of_lt {n = q.nextread} {m = q.size})

    pub grow-enomem :
        {xs : List A} {q : Queue A} (target : ℕ)
        → Holds d xs q
        → target ≤ 2 ^ 29
        → grow junk (addtail junk (suc n) mem) false q target ≡ err enomem
    unfolding grow
    grow-enomem {q} target h bound =
        let (m, e, hi, lo, top) =
          grow_size-ok 31 target q.size (omega (arith, h.valid.read_in)) h.valid.small bound
            (omega (arith, h.valid.read_in)) in
        rw e

    -- Without room `q_addtail` grows the queue first.
    addtail-full :
        {xs : List A} {q : Queue A} (x : A)
        → Holds d xs q
        → length xs + 1 ≡ q.size
        → addtail junk (suc n) mem q x ≡ (
            grow junk (addtail junk n mem) (mem n) q (q.size + 1) >>= λ q'.
            put q' x ((q'.nextwrite + 1) % q'.size))
    unfolding addtail
    addtail-full {xs} {q} x h full = rw (lt→ltb 0 q.size (omega arith), at_end d h, eq→== full)

-- What `q_addtail` answers on a queue that holds `xs`: the pointer goes to the end. The call fails
-- only where the ring is full, and no memory is found for a larger one.
abbrev pub Appends :
    {A : Type 0} → A → List A → A → (room enough : Bool) → Outcome (Queue A) → Type 0
Appends d xs x room enough (ok q) = ((room ≡ true) ⊎ (enough ≡ true)) × Holds d (xs ++ (x ∷ [])) q
Appends d xs x room enough (err e) = (e ≡ enomem) × (room ≡ false) × (enough ≡ false)
Appends d xs x room enough panic = ⊥

-- What `q_remhead` answers on a queue that holds the list.
abbrev pub Takes : {A : Type 0} → A → ℕ → List A → Outcome (A × Queue A) → Type 0
Takes {A} d size [] r = r ≡ panic
Takes {A} d size (x ∷ xs) r = (q : Queue A) × (r ≡ ok (x, q)) × Holds d xs q × (q.size ≡ size)

module _ {A : Type 0} (d : A) (junk : ℕ → A) where
  addtail-grow :
      (mem : ℕ → Bool) {xs : List A} {q : Queue A} (x : A)
      → Holds d xs q
      → q.size < 2 ^ 29
      → length xs + 1 ≡ q.size
      → mem 1 ≡ true
      → (q' : Queue A) × (addtail junk 2 mem q x ≡ ok q') × Holds d (xs ++ (x ∷ [])) q'
  addtail-grow mem {xs} {q} x h small full enough =
      let (q1, e1, h1, s1) = grow-Holds d junk 0 mem (q.size + 1) h (omega arith) (omega arith) in
      let (q2, e2, h2, s2) = put-Holds d x h1 (omega (arith, s1)) in
      (q2, addtail-full d junk 1 mem x h full ∙ rw (enough, e1) e2, h2)

  -- On a valid queue of less than 2^29 places `q_addtail` appends the pointer, growing the ring
  -- where it is full. It fails only for want of memory, and no assertion fails, its own or of the
  -- calls that it makes.
  pub addtail-Appends :
      (mem : ℕ → Bool) (xs : List A) (q : Queue A) (x : A)
      → Holds d xs q
      → q.size < 2 ^ 29
      → Appends d xs x (ltb (length xs + 1) q.size) (mem 1) (addtail junk 2 mem q x)
  addtail-Appends mem xs q x h small = elim (dec_lt (length xs + 1) q.size) [
    | yes room ↦
        let (q', e, h', s) = addtail-room d 1 mem junk x h room in
        rw e (inl (lt→ltb (length xs + 1) q.size room), h')
    | no full ↦
        let at_limit : length xs + 1 ≡ q.size = limit full in
        elim (Bool-cases (mem 1)) [
          | inl enough ↦
              let (q', e, h') = addtail-grow mem x h small at_limit enough in rw e (inr enough, h')
          | inr none_left ↦
              rw
                (
                  addtail-full d junk 1 mem x h at_limit,
                  none_left,
                  grow-enomem d junk 0 mem (q.size + 1) h (omega arith),
                )
                (refl, not-lt→ltb (length xs + 1) q.size full, refl)
        ]
  ]
    where
      limit : ¬ (length xs + 1 < q.size) → length xs + 1 ≡ q.size
      limit full = omega (
        arith,
        count-Holds d h,
        mod-lt (q.nextwrite + q.size - q.nextread) {m = q.size} (omega (arith, h.valid.read_in)),
      )

  opened :
      (x : A) (xs : List A) (q : Queue A)
      → Holds d (x ∷ xs) q
      → (get_or q.entries q.nextread d ∷ window d q.entries q.size (q.nextread + 1) (length xs))
        ≡ x ∷ xs
  opened x xs q h =
      ap (λ k. get_or q.entries k d ∷ window d q.entries q.size (q.nextread + 1) (length xs))
        (sym (mod-eq_of_lt h.valid.read_in))
      ∙ sym (window-cons d q.entries q.size q.nextread (length xs))
      ∙ ap (window d q.entries q.size q.nextread) (sym (count-Holds d h))
      ∙ h.items

  counts-down :
      (x : A) (xs : List A) (q : Queue A)
      → Holds d (x ∷ xs) q
      → (q.nextwrite + q.size - (q.nextread + 1) % q.size) % q.size ≡ length xs
  counts-down x xs q h = ground (
    arith,
    h.valid.write_in,
    h.valid.read_in,
    count-Holds d h,
    wrap (q.nextread + 1) q.size,
    wrap (q.nextwrite + q.size - q.nextread) q.size,
    wrap (q.nextwrite + q.size - (q.nextread + 1) % q.size) q.size,
  )

  remhead-cons :
      (x : A) (xs : List A) (q : Queue A)
      → Holds d (x ∷ xs) q
      → (q' : Queue A) × (remhead q ≡ ok (x, q')) × Holds d xs q' × (q'.size ≡ q.size)
  unfolding remhead
  remhead-cons x xs q h = (
    record q { nextread = (q.nextread + 1) % q.size },
    ground (
      arith,
      h.valid.read_in,
      h.valid.full_block,
      not_empty,
      first,
      get_elem?-eq-get_or q.entries q.nextread d,
    ),
    record {
      valid = record {
        small = h.valid.small;
        full_block = h.valid.full_block;
        write_in = h.valid.write_in;
        read_in = mod-lt (q.nextread + 1) (omega (arith, h.valid.read_in));
      };
      items =
          ap (window d q.entries q.size ((q.nextread + 1) % q.size)) (counts-down x xs q h)
          ∙ window-mod d q.entries q.size (q.nextread + 1) (length xs)
          ∙ cc (opened x xs q h);
    },
    refl,
  )
    where
      first : get_or q.entries q.nextread d ≡ x
      first = cc (opened x xs q h)

      not_empty : q.nextwrite ≢ q.nextread
      not_empty e = absurd (
          ground (
            arith,
            h.valid.read_in,
            count-Holds d h,
            wrap (q.nextwrite + q.size - q.nextread) q.size,
            e,
          ))

  remhead-nil : (q : Queue A) → Holds d [] q → remhead q ≡ panic
  unfolding remhead
  remhead-nil q h = ground (arith, h.valid.read_in, drained)
    where
      drained : q.nextwrite ≡ q.nextread
      drained = ground (
        arith,
        h.valid.read_in,
        h.valid.write_in,
        count-Holds d h,
        wrap (q.nextwrite + q.size - q.nextread) q.size,
      )

  -- On a valid queue `q_remhead` takes the first pointer, and leaves the others in order and the
  -- ring as large; on an empty queue it panics.
  pub remhead-Takes : (xs : List A) (q : Queue A) → Holds d xs q → Takes d q.size xs (remhead q)
  remhead-Takes [] q h = remhead-nil q h
  remhead-Takes (x ∷ xs) q h = remhead-cons x xs q h

  -- A row of `q_addtail` calls.
  abbrev pub add_all : (ℕ → Bool) → Queue A → List A → Outcome (Queue A)
  add_all mem q [] = ok q
  add_all mem q (y ∷ ys) = addtail junk 2 mem q y >>= λ q'. add_all mem q' ys

  add_all-room :
      (mem : ℕ → Bool) (xs ys : List A) (q : Queue A)
      → Holds d xs q
      → length xs + length ys < q.size
      → (q' : Queue A) × (add_all mem q ys ≡ ok q') × Holds d (xs ++ ys) q'
  add_all-room mem xs [] q h lt = (q, refl, rw append-nil h)
  add_all-room mem xs (y ∷ ys) q h lt =
      let (q1, e1, h1, s1) = addtail-room d 1 mem junk y h (omega arith) in
      let (q2, e2, h2) =
        add_all-room mem (xs ++ (y ∷ [])) ys q1 h1 (omega (arith, length-append xs (y ∷ []), s1)) in
      (q2, rw e1 e2, rw append_assoc at h2)

  -- For `n` up to 2^29, where there is memory for the ring, `q_preallocate(q, n)` succeeds and leaves the
  -- contents alone, and fewer than `n` pointers in all go into the queue then whatever memory is left.
  pub preallocate-add_all :
      (mem later : ℕ → Bool) (n : ℕ) (xs ys : List A) (q : Queue A)
      → Holds d xs q
      → mem 1 ≡ true
      → n ≤ 2 ^ 29
      → length xs + length ys < n
      → (q1 q2 : Queue A) × (preallocate junk mem q n ≡ ok q1)
        × Holds d xs q1
        × (add_all later q1 ys ≡ ok q2)
        × Holds d (xs ++ ys) q2
  unfolding preallocate
  preallocate-add_all mem later n xs ys q h enough bound few = elim (dec_lt q.size n) [
    | yes small ↦
        let (q1, e1, h1, s1) = grow-Holds d junk 0 mem n h small bound in
        let (q2, e2, h2) = add_all-room later xs ys q1 h1 (omega (arith, s1)) in
        (
          q1,
          q2,
          rw (lt→ltb 0 q.size (omega (arith, h.valid.read_in)), lt→ltb q.size n small, enough) e1,
          h1,
          e2,
          h2,
        )
    | no large ↦
        let (q2, e2, h2) = add_all-room later xs ys q h (omega arith) in
        (
          q,
          q2,
          rw (lt→ltb 0 q.size (omega (arith, h.valid.read_in)), not-lt→ltb q.size n large),
          h,
          e2,
          h2,
        )
  ]
