-- ===== src/Vfs/After.antt =====
-- What holds after a call of the layer: in the state it ends in with an answer, and with an error.
use cse.Base.Outcome.{Outcome, ok, err, panic}
use cse.Vfs.{Vfs, M, pure, fail, next, finally, on_error, next_finally, next_on_error, ◌>>=◌}
use cse.Vfs.Vnode.{warn, next_warn}

module _ {W : Type 0} where
  abbrev pub Cases :
      {A : Type 0} (C : Type 0) (Q : A → Vfs W → Type 0) (E : Vfs W → Type 0)
      → Vfs W × Outcome A
      → Type 0
  Cases C Q E (s, ok a) = Q a s
  Cases C Q E (s, err e) = E s
  Cases C Q E (s, panic) = C

  -- `Q` with an answer, `E` with an error, and `C` where it panics.
  pub record After {A : Type 0} (C : Type 0) (Q : A → Vfs W → Type 0) (E : Vfs W → Type 0)
      (r : Vfs W × Outcome A) : Type 0 where
    pub holds : Cases C Q E r

  abbrev pub TotalCases :
      {A : Type 0} (C : Type 0) (Q : Vfs W → Type 0) → Vfs W × Outcome A → Type 0
  TotalCases C Q (s, ok a) = Q s
  TotalCases C Q (s, err e) = ⊥
  TotalCases C Q (s, panic) = C

  -- `Q` with an answer, no error, and `C` where it panics.
  pub record Total {A : Type 0} (C : Type 0) (Q : Vfs W → Type 0) (r : Vfs W × Outcome A)
      : Type 0 where
    pub holds : TotalCases C Q r

  module _ {C A B : Type 0} {Q : A → Vfs W → Type 0} {R : B → Vfs W → Type 0}
      {E : Vfs W → Type 0} where
    next-After :
        (f : A → M W B) (s : Vfs W) (r : Outcome A)
        → After C Q E (s, r)
        → ((a : A) (s1 : Vfs W) → Q a s1 → After C R E (f a s1))
        → After C R E (next s r f)
    next-After f s (ok a) h k = k a s h.holds
    next-After f s (err e) h k = record { holds = h.holds }
    next-After f s panic h k = record { holds = h.holds }

    pub bind-After :
        (m : M W A) (f : A → M W B) (s : Vfs W)
        → After C Q E (m s)
        → ((a : A) (s1 : Vfs W) → Q a s1 → After C R E (f a s1))
        → After C R E ((m >>= f) s)
    bind-After m f s h k = next-After f (m s).0 (m s).1 h k

  module _ {C A B : Type 0} {Q : Vfs W → Type 0} {R : B → Vfs W → Type 0} {E : Vfs W → Type 0} where
    Total-next-After :
        (f : A → M W B) (s : Vfs W) (r : Outcome A)
        → Total C Q (s, r)
        → ((a : A) (s1 : Vfs W) → Q s1 → After C R E (f a s1))
        → After C R E (next s r f)
    Total-next-After f s (ok a) h k = k a s h.holds
    Total-next-After f s (err e) h k = absurd h.holds
    Total-next-After f s panic h k = record { holds = h.holds }

    pub Total-After :
        (m : M W A) (f : A → M W B) (s : Vfs W)
        → Total C Q (m s)
        → ((a : A) (s1 : Vfs W) → Q s1 → After C R E (f a s1))
        → After C R E ((m >>= f) s)
    Total-After m f s h k = Total-next-After f (m s).0 (m s).1 h k

  module _ {C A B : Type 0} {Q R : Vfs W → Type 0} where
    Total-next-Total :
        (f : A → M W B) (s : Vfs W) (r : Outcome A)
        → Total C Q (s, r)
        → ((a : A) (s1 : Vfs W) → Q s1 → Total C R (f a s1))
        → Total C R (next s r f)
    Total-next-Total f s (ok a) h k = k a s h.holds
    Total-next-Total f s (err e) h k = absurd h.holds
    Total-next-Total f s panic h k = record { holds = h.holds }

    pub Total-Total :
        (m : M W A) (f : A → M W B) (s : Vfs W)
        → Total C Q (m s)
        → ((a : A) (s1 : Vfs W) → Q s1 → Total C R (f a s1))
        → Total C R ((m >>= f) s)
    Total-Total m f s h k = Total-next-Total f (m s).0 (m s).1 h k

  module _ {C A : Type 0} {Q R : A → Vfs W → Type 0} {E F : Vfs W → Type 0}
      (k : M W (Unit {0})) where
    next_finally-After :
        (s : Vfs W) (r : Outcome A)
        → After C Q E (s, r)
        → ((a : A) (s1 : Vfs W) → Q a s1 → Total C (R a) (k s1))
        → ((s1 : Vfs W) → E s1 → Total C F (k s1))
        → After C R F (next_finally s r k)
    next_finally-After s (ok a) h good bad =
        Total-After k (λ _. pure a) s (good a s h.holds) (λ _ s1 q. record { holds = q })
    next_finally-After s (err e) h good bad =
        Total-After k (λ _. fail e) s (bad s h.holds) (λ _ s1 q. record { holds = q })
    next_finally-After s panic h good bad = record { holds = h.holds }

    pub finally-After :
        (m : M W A) (s : Vfs W)
        → After C Q E (m s)
        → ((a : A) (s1 : Vfs W) → Q a s1 → Total C (R a) (k s1))
        → ((s1 : Vfs W) → E s1 → Total C F (k s1))
        → After C R F (finally m k s)
    finally-After m s h good bad = next_finally-After (m s).0 (m s).1 h good bad

  module _ {C A : Type 0} {Q : A → Vfs W → Type 0} {E F : Vfs W → Type 0} (k : M W (Unit {0})) where
    next_on_error-After :
        (s : Vfs W) (r : Outcome A)
        → After C Q E (s, r)
        → ((s1 : Vfs W) → E s1 → Total C F (k s1))
        → After C Q F (next_on_error s r k)
    next_on_error-After s (ok a) h bad = record { holds = h.holds }
    next_on_error-After s (err e) h bad =
        Total-After k (λ _. fail e) s (bad s h.holds) (λ _ s1 q. record { holds = q })
    next_on_error-After s panic h bad = record { holds = h.holds }

    pub on_error-After :
        (m : M W A) (s : Vfs W)
        → After C Q E (m s)
        → ((s1 : Vfs W) → E s1 → Total C F (k s1))
        → After C Q F (on_error m k s)
    on_error-After m s h bad = next_on_error-After (m s).0 (m s).1 h bad

  module _ {C : Type 0} {Q : Vfs W → Type 0} where
    next_warn-Total :
        (s : Vfs W) (r : Outcome (Unit {0})) → After C (λ _. Q) Q (s, r) → Total C Q (next_warn s r)
    next_warn-Total s (ok _) h = record { holds = h.holds }
    next_warn-Total s (err e) h = record { holds = h.holds }
    next_warn-Total s panic h = record { holds = h.holds }

    pub warn-Total :
        (m : M W (Unit {0})) (s : Vfs W) → After C (λ _. Q) Q (m s) → Total C Q (warn m s)
    warn-Total m s h = next_warn-Total (m s).0 (m s).1 h

  -- A part that fails where the whole may fail.
  pub weaken-After :
      {C A : Type 0} {Q R : A → Vfs W → Type 0} {E F : Vfs W → Type 0} (r : Vfs W × Outcome A)
      → After C Q E r
      → ((a : A) (s : Vfs W) → Q a s → R a s)
      → ((s : Vfs W) → E s → F s)
      → After C R F r
  weaken-After (s, ok a) h good bad = record { holds = good a s h.holds }
  weaken-After (s, err e) h good bad = record { holds = bad s h.holds }
  weaken-After (s, panic) h good bad = record { holds = h.holds }
