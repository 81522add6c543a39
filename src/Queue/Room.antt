-- ===== src/Queue/Room.antt =====
-- queue.c: what `q_preallocate` answers.
use cse.Base.{
  ◌+◌, ◌-◌, length, ◌==◌, ℕ, ◌^◌, ◌≤◌, ◌<◌, ◌≡◌, refl, arith, Bool, false, List, lt→ltb, not-lt→ltb,
  dec_lt, Bool-cases, inl, inr,
}
use cse.Base.Outcome.{Outcome, ok, err, panic, enomem}
use cse.Queue.Ring.{wrap}
use cse.Queue.{Queue, empty, preallocate, grow, addtail}
use cse.Queue.Grow.{count-Holds, Holds}
use cse.Queue.Refine.{grow-Holds, grow-enomem}

-- The contents stay and the ring has the size asked for; or it is smaller, and no memory is found.
abbrev pub Preallocates :
    {A : Type 0} → A → List A → ℕ → Queue A → Bool → Outcome (Queue A) → Type 0
Preallocates d xs n q enough (ok q') = Holds d xs q' × (n ≤ q'.size) × (q.size ≤ q'.size)
Preallocates d xs n q enough (err e) = (e ≡ enomem) × (enough ≡ false) × (q.size < n)
Preallocates d xs n q enough panic = ⊥

module _ {A : Type 0} (d : A) (junk : ℕ → A) where
  preallocate-grow :
      (mem : ℕ → Bool) (q : Queue A) (n : ℕ)
      → 0 < q.size
      → q.size < n
      → preallocate junk mem q n ≡ grow junk (addtail junk 1 mem) (mem 1) q n
  unfolding preallocate
  preallocate-grow mem q n pos lt = rw (lt→ltb 0 q.size pos, lt→ltb q.size n lt)

  preallocate-room :
      (mem : ℕ → Bool) (q : Queue A) (n : ℕ)
      → 0 < q.size
      → ¬ (q.size < n)
      → preallocate junk mem q n ≡ ok q
  unfolding preallocate
  preallocate-room mem q n pos ge = rw (lt→ltb 0 q.size pos, not-lt→ltb q.size n ge)

  -- `q_preallocate` keeps the contents and makes the ring at least as large as asked, or fails for
  -- want of memory. No assertion fails.
  pub preallocate-Preallocates :
      (mem : ℕ → Bool) (xs : List A) (q : Queue A) (n : ℕ)
      → Holds d xs q
      → n ≤ 2 ^ 29
      → Preallocates d xs n q (mem 1) (preallocate junk mem q n)
  preallocate-Preallocates mem xs q n h bound = elim (dec_lt q.size n) [
    | yes small ↦ elim (Bool-cases (mem 1)) [
      | inl enough ↦
          let (q', e, h', s) = grow-Holds d junk 0 mem n h small bound in
          rw (preallocate-grow mem q n (omega (arith, h.valid.read_in)) small, enough, e)
            (h', s, omega arith)
      | inr none_left ↦
          rw
            (
              preallocate-grow mem q n (omega (arith, h.valid.read_in)) small,
              none_left,
              grow-enomem d junk 0 mem n h bound,
            )
            (refl, refl, small)
    ]
    | no large ↦
        rw (preallocate-room mem q n (omega (arith, h.valid.read_in)) large)
          (h, omega arith, omega arith)
  ]

  -- The test of `q_empty`.
  pub empty-Holds : (xs : List A) (q : Queue A) → Holds d xs q → empty q ≡ (length xs == 0)
  unfolding empty
  empty-Holds xs q h = ground (
    arith,
    h.valid.read_in,
    h.valid.write_in,
    count-Holds d h,
    wrap (q.nextwrite + q.size - q.nextread) q.size,
  )
