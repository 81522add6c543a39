-- ===== src/Copyinout/Strings.antt =====
-- `copyinstr`: a string of user memory, with its null, or why there is none.
use cse.Base.{
  ℕ, zero, suc, ◌+◌, ◌-◌, ◌^◌, ◌≤◌, ◌<◌, ◌≡◌, refl, ◌∙◌, ap, ◌≢◌, ◌⊎◌, inl, inr, true, false, arith,
  Option, none, some, List, [], ◌∷◌, ◌++◌, ◌==◌, if◌then◌else◌, length, ℕ_discrete, eq→==, not-==,
  dec_lt, lt→ltb, not-lt→ltb,
}
use cse.Base.Outcome.{Outcome, ok, err, panic, Errno, efault, enametoolong}
use cse.Copyinout.{
  usertop, copycheck, Machine, Access, done, fault, set_handler, copystr_loop, copystr, copyinstr,
}
use cse.Copyinout.Check.{Checks, copycheck-Checks}
use cse.Copyinout.Blocks.{Reads}

abbrev pub NoZero : List ℕ → Type 0
NoZero [] = Unit {0}
NoZero (c ∷ cs) = (c ≢ 0) × NoZero cs

-- The string at `a`, its null included, in at most `n` bytes.
pub record StringAt (byte : ℕ → Option ℕ) (a n : ℕ) (cs : List ℕ) : Type 0 where
  pub body : List ℕ
  pub ends : cs ≡ body ++ (0 ∷ [])
  pub no_zero : NoZero body
  pub reads : Reads byte a cs
  pub fits : length cs ≤ n

-- There are `n` bytes at `a`, none of them null.
abbrev pub Unended : (ℕ → Option ℕ) → ℕ → ℕ → Type 0
Unended byte a n = (cs : List ℕ) × (length cs ≡ n) × NoZero cs × Reads byte a cs

-- The loop of `copystr`, with the error that follows it.
abbrev pub Copies : (ℕ → Option ℕ) → ℕ → ℕ → Errno → Access (Outcome (List ℕ)) → Type 0
Copies byte a n e (done (ok cs)) = StringAt byte a n cs
Copies byte a n e (done (err x)) = (x ≡ e) × Unended byte a n
Copies byte a n e (done panic) = ⊥
Copies byte a n e fault = (k : ℕ) × (k < n) × Unended byte a k × (byte (a + k) ≡ none)

copystr_loop-Copies :
    (m : Machine) (a n : ℕ) (e : Errno) → Copies m.byte a n e (copystr_loop m a n e)
unfolding copystr_loop
copystr_loop-Copies m a zero e = (refl, ([], refl, tt, tt))
copystr_loop-Copies m a (suc n) e =
    step (m.byte a) (copystr_loop m (a + 1) n e) refl (copystr_loop-Copies m (a + 1) n e)
  where
    longer :
        (c : ℕ) (r : Access (Outcome (List ℕ)))
        → m.byte a ≡ some c
        → c ≢ 0
        → Copies m.byte (a + 1) n e r
        → Copies m.byte a (suc n) e (elim r [
          | done (ok cs) ↦ done (ok (c ∷ cs))
          | done (err x) ↦ done (err x)
          | done panic ↦ done panic
          | fault ↦ fault
        ])
    longer c (done (ok cs)) b ne h = record {
      body = c ∷ h.body;
      ends = ap (λ l. c ∷ l) h.ends;
      no_zero = (ne, h.no_zero);
      reads = (b, h.reads);
      fits = omega (arith, h.fits);
    }
    longer c (done (err x)) b ne (same, (cs, l, z, r)) = (same, (c ∷ cs, ap suc l, (ne, z), (b, r)))
    longer c (done panic) b ne h = h
    longer c fault b ne (k, lt, (cs, l, z, r), missing) =
        (suc k, omega arith, (c ∷ cs, ap suc l, (ne, z), (b, r)), ap m.byte (omega arith) ∙ missing)

    step :
        (o : Option ℕ) (r : Access (Outcome (List ℕ)))
        → m.byte a ≡ o
        → Copies m.byte (a + 1) n e r
        → Copies m.byte a (suc n) e (elim o [
          | none ↦ fault
          | some c ↦ if c == 0 then done (ok (0 ∷ [])) else elim r [
            | done (ok cs) ↦ done (ok (c ∷ cs))
            | done (err x) ↦ done (err x)
            | done panic ↦ done panic
            | fault ↦ fault
          ]
        ])
    step none r b h = (0, omega arith, ([], refl, tt, tt), ap m.byte (omega arith) ∙ b)
    step (some c) r b h = elim (ℕ_discrete c 0) [
      | yes z ↦ rw (eq→== z) (record {
        body = [];
        ends = refl;
        no_zero = tt;
        reads = (rw z at b, tt);
        fits = omega arith;
      })
      | no ne ↦ rw (not-== ne) (longer c r b ne h)
    ]

-- A byte of user space that cannot be read, before any null.
abbrev pub Broken : (ℕ → Option ℕ) → ℕ → ℕ → Type 0
Broken byte a len =
    (k : ℕ) × (k < len) × (a + k < usertop) × Unended byte a k × (byte (a + k) ≡ none)

-- No string can be had: the block starts outside user space or wraps, or the bytes before the first
-- null run into the kernel's part or into a byte that cannot be read.
abbrev pub NoString : (ℕ → Option ℕ) → ℕ → ℕ → Type 0
NoString byte a len =
    (usertop ≤ a)
    ⊎ ((2 ^ 32 < a + len)
        ⊎ ((Unended byte a (usertop - a) × (usertop < a + len)) ⊎ Broken byte a len))

-- What `copyinstr` answers for at most `len` bytes: the string, if it ends in user space within
-- `len` bytes; ENAMETOOLONG, if there are `len` bytes in user space and no null among them; EFAULT, if
-- no string can be had.
abbrev pub CopiesString : (ℕ → Option ℕ) → ℕ → ℕ → Outcome (List ℕ) → Type 0
CopiesString byte a len (ok cs) = StringAt byte a len cs × (a + length cs ≤ usertop)
CopiesString byte a len (err e) =
    ((e ≡ enametoolong) × Unended byte a len × (a + len ≤ usertop))
    ⊎ ((e ≡ efault) × NoString byte a len)
CopiesString byte a len panic = ⊥

-- On a block that is not empty `copyinstr` answers the string that starts there, if it ends
-- in user space within `len` bytes; ENAMETOOLONG, if there are `len` bytes in user space with no null; and
-- EFAULT only where the block starts outside user space or wraps, or the bytes before the first null
-- run into the kernel's part or into a byte that cannot be read.
pub copyinstr-CopiesString :
    (m : Machine) (a len : ℕ)
    → a < 2 ^ 32
    → len < 2 ^ 32
    → 0 < len
    → CopiesString m.byte a len (copyinstr m a len).1
unfolding copyinstr copystr
copyinstr-CopiesString m a len ha hl pos = step (copycheck a len) (copycheck-Checks a len ha hl pos)
  where
    inside :
        (n : ℕ)
        → len ≡ n
        → (a + len ≤ usertop)
        → (r : Access (Outcome (List ℕ))) → Copies m.byte a len enametoolong r
        → CopiesString m.byte a len
            (elim r as (λ _. Machine × Outcome (List ℕ)) [
              | done result ↦ (set_handler m false, result)
              | fault ↦ (set_handler m false, err efault)
            ]).1
    inside n e top (done (ok cs)) h = (h, omega (arith, h.fits))
    inside n e top (done (err x)) h = inl (h.0, h.1, top)
    inside n e top (done panic) h = h
    inside n e top fault (k, lt, u, b) = inr (refl, inr (inr (inr (k, lt, omega arith, u, b))))

    across :
        (n : ℕ)
        → a + n ≡ usertop
        → n < len
        → (r : Access (Outcome (List ℕ))) → Copies m.byte a n efault r
        → CopiesString m.byte a len
            (elim r as (λ _. Machine × Outcome (List ℕ)) [
              | done result ↦ (set_handler m false, result)
              | fault ↦ (set_handler m false, err efault)
            ]).1
    across n e top (done (ok cs)) h = (
      record {
        body = h.body;
        ends = h.ends;
        no_zero = h.no_zero;
        reads = h.reads;
        fits = omega (arith, h.fits);
      },
      omega (arith, h.fits),
    )
    across n e top (done (err x)) h =
        let same_n : n ≡ usertop - a = omega arith in
        inr (h.0, inr (inr (inl (rw (← same_n) h.1, omega arith))))
    across n e top (done panic) h = h
    across n e top fault (k, lt, u, b) =
        inr (refl, inr (inr (inr (k, omega arith, omega arith, u, b))))

    step :
        (c : Outcome ℕ)
        → Checks a len c
        → CopiesString m.byte a len
            (elim c as (λ _. Machine × Outcome (List ℕ)) [
              | ok stoplen ↦ elim (copystr (set_handler m true) a len stoplen) [
                | done result ↦ (set_handler m false, result)
                | fault ↦ (set_handler m false, err efault)
              ]
              | err e ↦ (m, err e)
              | panic ↦ (m, panic)
            ]).1
    step (ok s) h = elim (dec_lt s len) [
      | yes short ↦
          rw (lt→ltb s len short)
            (across s (omega arith) short _ (copystr_loop-Copies (set_handler m true) a s efault))
      | no full ↦ rw (not-lt→ltb s len full) (
          inside s (omega arith) (omega arith) _
            (copystr_loop-Copies (set_handler m true) a len enametoolong))
    ]
    step (err e) h = inr (h.0, elim h.1 [ inl k ↦ inl k | inr w ↦ inr (inl w) ])
    step panic h = h
