-- ===== src/Kheap/Refs.antt =====
-- `allocpageref` and `freepageref` against the set of the pagerefs in use.
use cse.Base.{
  ℕ, zero, suc, ◌+◌, ◌-◌, ◌*◌, ◌/◌, ◌%◌, ◌<◌, ◌≡◌, inl, inr, refl, ◌∙◌, sym, ap, Bool, true, false,
  Option, none, some, List, [], ◌∷◌, ◌==◌, if◌then◌else◌, get_or, set, length, length-set,
  get_or-set, arith, dec_lt, ℕ_discrete, Bool-cases, not-==, eq→==, lt→ltb,
}
use cse.Base.Outcome.{Outcome, ok, err, panic}
use cse.Kheap.{all_ones, clear_bit, ref_loop, with_word, allocpageref, is_used, freepageref}

-- Words of 32 bits.
abbrev pub Words : List (List Bool) → Type 0
Words [] = Unit {0}
Words (w ∷ ws) = (length w ≡ 32) × Words ws

-- The words with bit `p` set to `b`.
pub record Updates (ws : List (List Bool)) (p : ℕ) (b : Bool) (ws' : List (List Bool))
    : Type 0 where
  pub words : Words ws'
  pub same_length : length ws' ≡ length ws
  pub bits : (q : ℕ) → is_used ws' q ≡ (if q == p then b else is_used ws q)

is_used-low :
    (w : List Bool) (ws : List (List Bool)) (q : ℕ) → q < 32 → is_used (w ∷ ws) q ≡ get_or w q false
is_used-low w ws q lt =
    let d : q / 32 ≡ 0 = omega arith in let m : q % 32 ≡ q = omega arith in rw (d, m) refl

is_used-high :
    (w : List Bool) (ws : List (List Bool)) (q : ℕ) → is_used (w ∷ ws) (32 + q) ≡ is_used ws q
is_used-high w ws q =
    let d : (32 + q) / 32 ≡ suc (q / 32) = omega arith in
    let m : (32 + q) % 32 ≡ q % 32 = omega arith in rw (d, m) refl

-- To see a bit of the first word or of the others.
at_word : (P : ℕ → Type 0) (q : ℕ) → (q < 32 → P q) → ((r : ℕ) → P (32 + r)) → P q
at_word P q low high = elim (dec_lt q 32) [
  | yes lt ↦ low lt
  | no ge ↦ (let e : 32 + (q - 32) ≡ q = omega (arith, ge) in rw e at (high (q - 32)))
]

-- A change in the first word.
Updates-here :
    (w : List Bool) (ws : List (List Bool)) (k : ℕ) (b : Bool)
    → Words (w ∷ ws)
    → k < 32
    → Updates (w ∷ ws) k b (set w k b ∷ ws)
Updates-here w ws k b h lt = record {
  words = (length-set w k b ∙ h.0, h.1);
  same_length = refl;
  bits = λ q.
      at_word (λ q. is_used (set w k b ∷ ws) q ≡ (if q == k then b else is_used (w ∷ ws) q)) q
        (λ small.
          is_used-low (set w k b) ws q small
          ∙ ground
              (arith, get_or-set w k q b false (omega (arith, lt, h.0)), is_used-low w ws q small))
        (λ r.
          is_used-high (set w k b) ws r
          ∙ rw (not-== {a = 32 + r} {b = k} (omega arith)) (sym (is_used-high w ws r)));
}

-- A change in a later word.
Updates-there :
    (w : List Bool) (ws ws' : List (List Bool)) (k : ℕ) (b : Bool)
    → length w ≡ 32
    → Updates ws k b ws'
    → Updates (w ∷ ws) (32 + k) b (w ∷ ws')
Updates-there w ws ws' k b e u = record {
  words = (e, u.words);
  same_length = ap suc u.same_length;
  bits = λ q.
      at_word (λ q. is_used (w ∷ ws') q ≡ (if q == 32 + k then b else is_used (w ∷ ws) q)) q
        (λ small.
          is_used-low w ws' q small
          ∙ rw (not-== {a = q} {b = 32 + k} (omega arith)) (sym (is_used-low w ws q small)))
        (λ r. is_used-high w ws' r ∙ u.bits r ∙ moved r (ℕ_discrete r k));
}
  where
    moved :
        (r : ℕ)
        → Dec (r ≡ k)
        → (if r == k then b else is_used ws r)
          ≡ (if 32 + r == 32 + k then b else is_used (w ∷ ws) (32 + r))
    moved r (yes e) = rw (eq→== e, eq→== {a = 32 + r} {b = 32 + k} (omega (arith, e))) refl
    moved r (no ne) =
        rw (not-== ne, not-== {a = 32 + r} {b = 32 + k} (omega (arith, ne)))
          (sym (is_used-high w ws r))

clear_bit-some :
    (w : List Bool)
    → all_ones w ≡ false
    → (j : ℕ) × (clear_bit w ≡ some j) × (j < length w) × (get_or w j false ≡ false)
clear_bit-some [] e = absurd (ground (arith, e))
clear_bit-some (false ∷ w) e = (0, refl, omega arith, refl)
clear_bit-some (true ∷ w) e =
    let (j, found, lt, free) = clear_bit-some w e in (suc j, rw found refl, omega (arith, lt), free)

all_ones-get_or :
    (w : List Bool) (q : ℕ) → all_ones w ≡ true → q < length w → get_or w q false ≡ true
all_ones-get_or [] q e lt = absurd (omega (arith, lt))
all_ones-get_or (b ∷ w) zero e lt = ground (arith, e)
all_ones-get_or (b ∷ w) (suc q) e lt = all_ones-get_or w q (ground (arith, e)) (omega (arith, lt))

-- A bit that was clear is taken, or none is clear.
abbrev pub Takes : ℕ → List (List Bool) → Outcome (Option (ℕ × List (List Bool))) → Type 0
Takes i ws (ok none) = (q : ℕ) → q < 32 * length ws → is_used ws q ≡ true
Takes i ws (ok (some (p, ws'))) =
    (k : ℕ) × (p ≡ i * 32 + k)
    × (k < 32 * length ws)
    × (is_used ws k ≡ false)
    × Updates ws k true ws'
Takes i ws (err e) = ⊥
Takes i ws panic = ⊥

module _ (i : ℕ) (w : List Bool) (ws : List (List Bool)) where
  ref_loop-here :
      (j : ℕ)
      → all_ones w ≡ false
      → clear_bit w ≡ some j
      → ref_loop i (w ∷ ws) ≡ ok (some (i * 32 + j, set w j true ∷ ws))
  unfolding ref_loop
  ref_loop-here j e found = rw (e, found) refl

  ref_loop-there :
      (r : Option (ℕ × List (List Bool)))
      → all_ones w ≡ true
      → ref_loop (i + 1) ws ≡ ok r
      → ref_loop i (w ∷ ws) ≡ ok (with_word w r)
  unfolding ref_loop
  ref_loop-there r e more = rw (e, more) refl

  full_word :
      Words (w ∷ ws)
      → all_ones w ≡ true
      → (r : Outcome (Option (ℕ × List (List Bool)))) → ref_loop (i + 1) ws ≡ r
      → Takes (i + 1) ws r
      → Takes i (w ∷ ws) (ref_loop i (w ∷ ws))
  full_word (len, h) e (ok none) more t = rw (ref_loop-there none e more) (λ q lt.
      at_word (λ q. q < 32 * suc (length ws) → is_used (w ∷ ws) q ≡ true) q
        (λ small lt. is_used-low w ws q small ∙ all_ones-get_or w q e (omega (arith, len, small)))
        (λ r lt. is_used-high w ws r ∙ t r (omega (arith, lt))) lt)
  full_word (len, h) e (ok (some (p, ws'))) more (k, at_k, lt, free, u) =
      rw (ref_loop-there (some (p, ws')) e more) (
        32 + k,
        omega (arith, at_k),
        omega (arith, lt),
        is_used-high w ws k ∙ free,
        Updates-there w ws ws' k true len u,
      )
  full_word h e (err x) more t = absurd t
  full_word h e panic more t = absurd t

ref_loop-Takes : (i : ℕ) (ws : List (List Bool)) → Words ws → Takes i ws (ref_loop i ws)
unfolding ref_loop
ref_loop-Takes i [] h = λ q lt. absurd (omega (arith, lt))
ref_loop-Takes i (w ∷ ws) h = elim (Bool-cases (all_ones w)) [
  | inl full ↦ full_word i w ws h full (ref_loop (i + 1) ws) refl (ref_loop-Takes (i + 1) ws h.1)
  | inr e ↦
      (let (j, found, lt, free) = clear_bit-some w e in
        rw (ref_loop-here i w ws j e found) (
          j,
          refl,
          omega (arith, lt, h.0),
          is_used-low w ws j (omega (arith, lt, h.0)) ∙ free,
          Updates-here w ws j true h (omega (arith, lt, h.0)),
        ))
]

-- `allocpageref` takes a pageref that was free.
pub allocpageref-Takes : (ws : List (List Bool)) → Words ws → Takes 0 ws (allocpageref ws)
allocpageref-Takes ws h = ref_loop-Takes 0 ws h

-- A word of the array replaced.
Updates-word :
    (ws : List (List Bool)) (p : ℕ) (b : Bool)
    → Words ws
    → p / 32 < length ws
    → Updates ws p b (set ws (p / 32) (set (get_or ws (p / 32) []) (p % 32) b))
Updates-word [] p b h lt = absurd (omega (arith, lt))
Updates-word (w ∷ ws) p b h lt =
    at_word
      (λ p.
        p / 32 < suc (length ws)
        → Updates (w ∷ ws) p b
            (set (w ∷ ws) (p / 32) (set (get_or (w ∷ ws) (p / 32) []) (p % 32) b)))
      p
      (λ small inside.
        let d : p / 32 ≡ 0 = omega arith in
        let m : p % 32 ≡ p = omega arith in rw (d, m) (Updates-here w ws p b h small))
      (λ r inside.
        let d : (32 + r) / 32 ≡ suc (r / 32) = omega arith in
        let m : (32 + r) % 32 ≡ r % 32 = omega arith in
        rw (d, m) (Updates-there w ws _ r b h.0 (Updates-word ws r b h.1 (omega (arith, inside)))))
      lt

-- `freepageref` gives back a pageref that is in use.
pub freepageref-Updates :
    (ws : List (List Bool)) (p : ℕ)
    → Words ws
    → length ws ≡ 8
    → p < 256
    → is_used ws p ≡ true
    → (ws' : List (List Bool)) × (freepageref ws p ≡ ok ws') × Updates ws p false ws'
unfolding freepageref
freepageref-Updates ws p h len lt used = (
  set ws (p / 32) (set (get_or ws (p / 32) []) (p % 32) false),
  rw (lt→ltb p 256 lt, used) refl,
  Updates-word ws p false h (omega (arith, len, lt)),
)
