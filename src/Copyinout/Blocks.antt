-- ===== src/Copyinout/Blocks.antt =====
-- `copyin` and `copyout`: exactly the block, or EFAULT; nothing in the kernel's part of memory
-- changes, and the fault handler is taken down again.
use cse.Base.{
  ℕ, zero, suc, ◌+◌, ◌^◌, ◌≤◌, ◌<◌, ◌≡◌, refl, ◌&&◌, ap, ◌⊎◌, inl, inr, true, false, arith, Option,
  none, some, List, [], ◌∷◌, ◌==◌, if◌then◌else◌, length, Bool-cases, ℕ_discrete, eq→==, not-==,
}
use cse.Base.Outcome.{Outcome, ok, err, panic, efault}
use cse.Copyinout.{
  usertop, copycheck, Machine, Access, done, fault, read_block, write_block, poke, present, faulted,
  set_handler, copyin, copyout,
}
use cse.Copyinout.Check.{Checks, copycheck-Checks, copycheck-zero}

-- User memory holds these bytes from `a` on.
abbrev pub Reads : (ℕ → Option ℕ) → ℕ → List ℕ → Type 0
Reads byte a [] = Unit {0}
Reads byte a (c ∷ cs) = (byte a ≡ some c) × Reads byte (a + 1) cs

-- What `memcpy` reads: the block, or a fault where there is no such block.
abbrev pub ReadBlock : Machine → ℕ → ℕ → Access (List ℕ) → Type 0
ReadBlock m a n (done cs) = (length cs ≡ n) × Reads m.byte a cs
ReadBlock m a n fault = (cs : List ℕ) → length cs ≡ n → ¬ Reads m.byte a cs

read_block-ReadBlock : (m : Machine) (a n : ℕ) → ReadBlock m a n (read_block m a n)
unfolding read_block
read_block-ReadBlock m a zero = (refl, tt)
read_block-ReadBlock m a (suc n) =
    step (m.byte a) (read_block m (a + 1) n) refl (read_block-ReadBlock m (a + 1) n)
  where
    step :
        (o : Option ℕ) (r : Access (List ℕ))
        → m.byte a ≡ o
        → ReadBlock m (a + 1) n r
        → ReadBlock m a
            (suc n)
            (elim o [ none ↦ fault | some c ↦ elim r [ done cs ↦ done (c ∷ cs) | fault ↦ fault ] ])
    step none r e h = λ cs l reads. missing cs l reads e
      where
        missing : (cs : List ℕ) → length cs ≡ suc n → Reads m.byte a cs → m.byte a ≡ none → ⊥
        missing [] l reads e = absurd (omega arith)
        missing (c ∷ cs) l reads e = cc
    step (some c) (done cs) e h = (ap suc h.0, (e, h.1))
    step (some c) fault e h = λ cs l reads. rest cs l reads
      where
        rest : (cs : List ℕ) → length cs ≡ suc n → Reads m.byte a cs → ⊥
        rest [] l reads = absurd (omega arith)
        rest (x ∷ xs) l reads = h xs (omega arith) reads.1

-- What `copyin` answers for a block of `len` bytes.
abbrev pub CopiesIn : Machine → ℕ → ℕ → Outcome (List ℕ) → Type 0
CopiesIn m src len (ok cs) = (src + len ≤ usertop) × (length cs ≡ len) × Reads m.byte src cs
CopiesIn m src len (err e) =
    (e ≡ efault)
    × ((usertop < src + len) ⊎ ((cs : List ℕ) → length cs ≡ len → ¬ Reads m.byte src cs))
CopiesIn m src len panic = ⊥

-- A `copyin` of a block that is not empty succeeds exactly where the block lies below USERTOP and all
-- of it can be read, and then delivers its bytes; otherwise it answers EFAULT.
pub copyin-CopiesIn :
    (m : Machine) (src len : ℕ)
    → src < 2 ^ 32
    → len < 2 ^ 32
    → 0 < len
    → CopiesIn m src len (copyin m src len).1
unfolding copyin
copyin-CopiesIn m src len hs hl pos =
    step (copycheck src len) (read_block (set_handler m true) src len)
      (copycheck-Checks src len hs hl pos) (read_block-ReadBlock (set_handler m true) src len)
  where
    step :
        (c : Outcome ℕ) (r : Access (List ℕ))
        → Checks src len c
        → ReadBlock (set_handler m true) src len r
        → CopiesIn m src len
            (elim c as (λ _. Machine × Outcome (List ℕ)) [
              | ok stoplen ↦
                  if stoplen == len
                  then elim r [
                    | done dest ↦ (set_handler m false, ok dest)
                    | fault ↦ (set_handler m false, err efault)
                  ]
                  else (m, err efault)
              | err e ↦ (m, err e)
              | panic ↦ (m, panic)
            ]).1
    step (ok s) (done cs) h r = elim (ℕ_discrete s len) [
      | yes e ↦ rw (eq→== e) (omega arith, r.0, r.1)
      | no ne ↦ rw (not-== ne) (refl, inl (omega arith))
    ]
    step (ok s) fault h r = elim (ℕ_discrete s len) [
      | yes e ↦ rw (eq→== e) (refl, inr r)
      | no ne ↦ rw (not-== ne) (refl, inl (omega arith))
    ]
    step (err e) r h r' = (h.0, inl (omega arith))
    step panic r h r' = h

-- A byte of the block that cannot be written.
abbrev pub Blocked : Machine → ℕ → ℕ → Type 0
Blocked m dest n =
    (i : ℕ) × (i < n) × ((present (m.byte (dest + i)) && m.writable (dest + i)) ≡ false)

-- What `copyout` leaves behind, on every outcome.
pub record CopiesOut (m : Machine) (src : List ℕ) (dest : ℕ) (out : Machine × Outcome (Unit {0}))
    : Type 0 where
  pub handler : out.0.badfaultfunc ≡ false
  pub kernel : (a : ℕ) → usertop ≤ a → out.0.byte a ≡ m.byte a
  pub outside : (a : ℕ) → (a < dest) ⊎ (dest + length src ≤ a) → out.0.byte a ≡ m.byte a
  pub result :
      ((out.1 ≡ ok tt) × Reads out.0.byte dest src × (dest + length src ≤ usertop))
      ⊎ ((out.1 ≡ err efault) × ((usertop < dest + length src) ⊎ Blocked m dest (length src)))

-- What `memcpy` writes.
record WriteBlock (m : Machine) (dest : ℕ) (cs : List ℕ) (out : Machine × Access (Unit {0}))
    : Type 0 where
  handler : out.0.badfaultfunc ≡ m.badfaultfunc
  outside : (a : ℕ) → (a < dest) ⊎ (dest + length cs ≤ a) → out.0.byte a ≡ m.byte a
  result :
      ((out.1 ≡ done tt) × Reads out.0.byte dest cs)
      ⊎ ((out.1 ≡ fault) × Blocked m dest (length cs))

write_block-WriteBlock :
    (m : Machine) (dest : ℕ) (cs : List ℕ) → WriteBlock m dest cs (write_block m dest cs)
unfolding write_block
write_block-WriteBlock m dest [] = record {
  handler = refl;
  outside = λ a o. refl;
  result = inl (refl, tt);
}
write_block-WriteBlock m dest (c ∷ cs) =
    elim (Bool-cases (present (m.byte dest) && m.writable dest)) [
      | inl good ↦ rw good (later (write_block-WriteBlock (poke m dest c) (dest + 1) cs))
      | inr bad ↦ rw bad (record {
        handler = refl;
        outside = λ a o. refl;
        result = inr (refl, (0, omega arith, ground (arith, bad)));
      })
    ]
  where
    moved :
        (i : ℕ)
        → (present ((poke m dest c).byte (dest + 1 + i)) && m.writable (dest + 1 + i)) ≡ false
        → (present (m.byte (dest + (1 + i))) && m.writable (dest + (1 + i))) ≡ false
    moved i b = ground (arith, b)

    later :
        WriteBlock (poke m dest c) (dest + 1) cs (write_block (poke m dest c) (dest + 1) cs)
        → WriteBlock m dest (c ∷ cs) (write_block (poke m dest c) (dest + 1) cs)
    later w = record {
      handler = w.handler;
      outside = λ a o. ground (arith, w.outside a, o);
      result = elim w.result [
        | inl p ↦ ground (arith, p, w.outside dest)
        | inr (f, (i, lt, b)) ↦ inr (f, (1 + i, omega (arith, lt), moved i b))
      ];
    }

-- Whatever `copyout` answers, the bytes from USERTOP on and outside the block are as before and the
-- fault handler is off. It has written the whole block, which lies below USERTOP; or it answers
-- EFAULT, and then the block reaches past USERTOP or has a byte that cannot be written.
pub copyout-CopiesOut :
    (m : Machine) (src : List ℕ) (dest : ℕ)
    → m.badfaultfunc ≡ false
    → dest < 2 ^ 32
    → length src < 2 ^ 32
    → 0 < length src
    → CopiesOut m src dest (copyout m src dest)
unfolding copyout
copyout-CopiesOut m src dest off hd hl pos =
    step (copycheck dest (length src)) (write_block (set_handler m true) dest src)
      (copycheck-Checks dest (length src) hd hl pos)
      (write_block-WriteBlock (set_handler m true) dest src)
  where
    unchanged :
        (e : Outcome (Unit {0}))
        → e ≡ err efault
        → usertop < dest + length src
        → CopiesOut m src dest (m, e)
    unchanged e h over = record {
      handler = off;
      kernel = λ a lo. refl;
      outside = λ a o. refl;
      result = inr (h, inl over);
    }

    written :
        (m1 : Machine)
        → WriteBlock (set_handler m true) dest src (m1, done tt)
        → Reads m1.byte dest src
    written m1 w = elim w.result [ inl p ↦ p.1 | inr q ↦ cc q.0 ]

    blocked :
        (m1 : Machine)
        → WriteBlock (set_handler m true) dest src (m1, fault)
        → Blocked m dest (length src)
    blocked m1 w = elim w.result [ inl p ↦ cc p.0 | inr q ↦ q.1 ]

    step :
        (c : Outcome ℕ) (w : Machine × Access (Unit {0}))
        → Checks dest (length src) c
        → WriteBlock (set_handler m true) dest src w
        → CopiesOut m src dest (elim c as (λ _. Machine × Outcome (Unit {0})) [
          | ok stoplen ↦
              if stoplen == length src
              then (let (m1, r) = w in
                  elim r [
                    | done _ ↦ (set_handler m1 false, ok tt)
                    | fault ↦ (set_handler m1 false, faulted m1)
                  ])
              else (m, err efault)
          | err e ↦ (m, err e)
          | panic ↦ (m, panic)
        ])
    step (ok s) (m1, done _) h w = elim (ℕ_discrete s (length src)) [
      | yes e ↦ rw (eq→== e) (record {
        handler = refl;
        kernel = λ a lo. w.outside a (inr (omega arith));
        outside = λ a o. w.outside a o;
        result = inl (refl, written m1 w, omega arith);
      })
      | no ne ↦ rw (not-== ne) (unchanged (err efault) refl (omega arith))
    ]
    step (ok s) (m1, fault) h w = elim (ℕ_discrete s (length src)) [
      | yes e ↦ rw (eq→== e) (record {
        handler = refl;
        kernel = λ a lo. w.outside a (inr (omega arith));
        outside = λ a o. w.outside a o;
        result = inr (rw w.handler, inr (blocked m1 w));
      })
      | no ne ↦ rw (not-== ne) (unchanged (err efault) refl (omega arith))
    ]
    step (err e) w h w' = unchanged (err e) (ap err h.0) (omega arith)
    step panic w h w' = absurd h

-- An empty block is never copied, in either direction and at any address: both calls answer EFAULT.
pub copyin-zero :
    (m : Machine) (a : ℕ)
    → a < 2 ^ 32
    → (copyin m a 0 ≡ (m, err efault)) × (copyout m [] a ≡ (m, err efault))
unfolding copyin copyout
copyin-zero m a h = elim (copycheck-zero a h) [
  | inl e ↦ (rw (copyin, e), rw (copyout, e))
  | inr e ↦ (rw (copyin, e), rw (copyout, e))
]
