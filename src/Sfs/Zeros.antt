-- ===== src/Sfs/Zeros.antt =====
-- uiomovezeros of os161/kern/userprog/uio.c.
use cse.Base.{
  ℕ, zero, suc, ◌+◌, ◌-◌, ◌^◌, ◌<◌, ◌≤◌, ◌≡◌, refl, ◌∙◌, sym, ap, false, not, ◌∷◌, ◌++◌, arith,
  length, length-drop, take, drop, replicate, dec_lt, lt→ltb, not-lt→ltb,
}
use mathlib.Core.List.{append_assoc, append-nil}
use cse.Base.Outcome.{ok, assert, ◌>>◌}
use cse.Sfs.Io.{Uio, smaller, moved, uiomovezeros_loop, uiomovezeros}
use cse.Sfs.Bytes.{drop-drop}
use cse.Sfs.Partial.{uiomove-once}

-- `n` zeros were moved.
pub record Zeroed (n : ℕ) (u u1 : Uio) : Type 0 where
  pub passed : u1.passed ≡ u.passed ++ replicate n 0
  pub base : u1.base ≡ drop n u.base
  pub offset : u1.offset ≡ u.offset + n
  pub resid : u1.resid ≡ u.resid - n

replicate-sum : (m n : ℕ) → replicate {A = ℕ} m 0 ++ replicate n 0 ≡ replicate (m + n) 0
replicate-sum zero n = ap (λ k. replicate k 0) (omega arith)
replicate-sum (suc m) n =
    let e : suc m + n ≡ suc (m + n) = omega arith in rw e (ap (λ l. 0 ∷ l) (replicate-sum m n))

take-replicate : (m n : ℕ) → m ≤ n → take m (replicate {A = ℕ} n 0) ≡ replicate m 0
take-replicate zero n h = refl
take-replicate (suc m) zero h = absurd (omega (arith, h))
take-replicate (suc m) (suc n) h = ap (λ l. 0 ∷ l) (take-replicate m n (omega (arith, h)))

smaller_le : (a b : ℕ) → (smaller a b ≤ a) × (smaller a b ≤ b)
smaller_le a b = ground arith

smaller-positive : (a b : ℕ) → 0 < a → 0 < b → 0 < smaller a b
smaller-positive a b h k = ground arith

-- A round that moves `amt` zeros, and the rounds behind it.
after_round :
    (amt n : ℕ) (u u1 : Uio)
    → amt ≤ n
    → amt ≤ 16
    → u.writing ≡ false
    → n ≤ u.resid
    → u.resid < 2 ^ 32
    → Zeroed (n - amt) (moved (replicate 16 0) amt u) u1
    → Zeroed n u u1
after_round amt n u u1 le few reading left small z =
    let sum : amt + (n - amt) ≡ n = omega (arith, le) in
    record {
      passed =
          z.passed
          ∙ ap (λ p. (u.passed ++ p) ++ replicate (n - amt) 0)
              (rw reading (take-replicate amt 16 few))
          ∙ append_assoc u.passed (replicate amt 0) (replicate (n - amt) 0)
          ∙ ap (λ l. u.passed ++ l) (replicate-sum amt (n - amt) ∙ ap (λ k. replicate k 0) sum);
      base = z.base ∙ drop-drop u.base amt (n - amt) ∙ ap (λ k. drop k u.base) sum;
      offset = omega (arith, z.offset, le);
      resid = omega (arith, z.resid, le, left, small);
    }

loop-Zeroed :
    (fuel n : ℕ) (u : Uio)
    → n < fuel
    → u.writing ≡ false
    → n ≤ length u.base
    → n ≤ u.resid
    → u.resid < 2 ^ 32
    → (u1 : Uio) × (uiomovezeros_loop fuel n u ≡ ok u1) × Zeroed n u u1
unfolding uiomovezeros_loop
loop-Zeroed zero n u enough reading room left small = absurd (omega (arith, enough))
loop-Zeroed (suc fuel) n u enough reading room left small = elim (dec_lt 0 n) [
  | no done ↦
      let none : n ≡ 0 = omega (arith, done) in
      (
        u,
        rw (not-lt→ltb 0 n done) refl,
        record {
          passed = sym (append-nil u.passed) ∙ ap (λ k. u.passed ++ replicate k 0) (sym none);
          base = ap (λ k. drop k u.base) (sym none);
          offset = omega (arith, none);
          resid = omega (arith, none);
        },
      )
  | yes more ↦
      let (few, le) = smaller_le 16 n in
      let some_bytes = smaller-positive 16 n (omega arith) more in
      let rest =
        loop-Zeroed fuel (n - smaller 16 n) (moved (replicate 16 0) (smaller 16 n) u)
          (omega (arith, enough, some_bytes, le)) reading
          (omega (arith, room, le, length-drop (smaller 16 n) u.base))
          (omega (arith, left, le, small)) (omega arith) in
      (
        rest.0,
        rw
            (
              lt→ltb 0 n more,
              uiomove-once (replicate 16 0) (smaller 16 n) u some_bytes (omega (arith, room, le))
                  (omega (arith, few)) (omega (arith, left, le)),
            )
            rest.1,
        after_round (smaller 16 n) n u rest.0 le few reading left small rest.2,
      )
]

-- Into a buffer with room for `n` bytes `uiomovezeros` moves just `n` zeros and returns: its loop ends
-- within the fuel, and no assertion fails.
pub uiomovezeros-Zeroed :
    (n : ℕ) (u : Uio)
    → u.writing ≡ false
    → n ≤ length u.base
    → n ≤ u.resid
    → u.resid < 2 ^ 32
    → (u1 : Uio) × (uiomovezeros n u ≡ ok u1) × Zeroed n u u1
unfolding uiomovezeros
uiomovezeros-Zeroed n u reading room left small =
    let moves = loop-Zeroed (n + 1) n u (omega arith) reading room left small in
    (moves.0, ap (λ b. assert (not b) >> uiomovezeros_loop (n + 1) n u) reading ∙ moves.1, moves.2)
