-- ===== src/Queue/Grow.antt =====
-- `q_grow`: how large the new block is, and what the copying loop leaves in it.
use mathlib.Core.Path.{ap₂}
use native.Mathlib.Nat.{pow-suc, mod-lt, mod-add-mod}
use cse.Base.{
  ℕ, zero, suc, ◌+◌, ◌-◌, ◌*◌, ◌%◌, ◌^◌, ◌≤◌, ◌<◌, ◌≡◌, refl, ◌∙◌, sym, ap, ◌≢◌, arith, Bool, List,
  [], ◌∷◌, ◌++◌, length, get_or, set, length-set, get_elem?-eq-get_or, ◌==◌, lt→ltb, not-==, dec_lt,
}
use cse.Base.Outcome.{Outcome, ok}
use cse.Queue.{Queue, grow_size, put, move, addtail}
use cse.Queue.Ring.{wrap, mod-ne, window, length-window, window-set_end, count, contents, IsValid}

grow_size_step :
    (f targetsize nsize : ℕ)
    → 0 < nsize
    → nsize < 2 ^ 30
    → nsize < targetsize
    → grow_size (suc f) targetsize nsize ≡ grow_size f targetsize (nsize * 2)
unfolding grow_size
grow_size_step f t n pos small more = ground arith

-- Doubling reaches the target, and no further than twice the target.
pub grow_size-ok :
    (f targetsize nsize : ℕ)
    → 0 < nsize
    → nsize < 2 ^ 30
    → targetsize ≤ 2 ^ 29
    → targetsize ≤ nsize * 2 ^ f
    → (m : ℕ) × (grow_size (suc f) targetsize nsize ≡ ok m)
      × (targetsize ≤ m)
      × (nsize ≤ m)
      × (m < 2 ^ 30)
unfolding grow_size
grow_size-ok zero t n pos small bound reach =
    (n, ground arith, omega arith, omega arith, omega arith)
grow_size-ok (suc f) t n pos small bound reach = elim (dec_lt n t) [
  | no done ↦ (n, ground arith, omega arith, omega arith, omega arith)
  | yes more ↦
      let doubled : t ≤ n * 2 * 2 ^ f = omega (arith, ap (λ (p : ℕ). n * p) (pow-suc 2 f)) in
      let (m, e, hi, lo, top) =
        grow_size-ok f t (n * 2) (omega arith) (omega arith) bound doubled in
      (m, grow_size_step (suc f) t n pos small more ∙ e, hi, omega arith, top)
]

module _ {A : Type 0} (d : A) where
  -- The queue is valid and holds just `xs`.
  pub record Holds (xs : List A) (q : Queue A) : Type 0 where
    pub valid : IsValid q
    pub items : contents d q ≡ xs

  pub count-Holds : {xs : List A} {q : Queue A} → Holds xs q → count q ≡ length xs
  count-Holds {q} h =
      sym (length-window d q.entries q.size q.nextread (count q)) ∙ ap length h.items

  pub nextwrite-eq : {q : Queue A} → IsValid q → q.nextwrite ≡ (q.nextread + count q) % q.size
  nextwrite-eq {q} v =
      ground
        (arith, wrap (q.nextwrite + q.size - q.nextread) q.size, wrap (q.nextread + count q) q.size)

  pub put-Holds :
      {xs : List A} {q : Queue A} (x : A)
      → Holds xs q
      → length xs + 1 < q.size
      → (q' : Queue A) × (put q x ((q.nextwrite + 1) % q.size) ≡ ok q')
        × Holds (xs ++ (x ∷ [])) q'
        × (q'.size ≡ q.size)
  unfolding put
  put-Holds {xs} {q} x h lt = (
    record q { entries = set q.entries q.nextwrite x; nextwrite = (q.nextwrite + 1) % q.size },
    ground (arith, h.valid.write_in, h.valid.full_block),
    record {
      valid = record {
        small = h.valid.small;
        full_block = length-set q.entries q.nextwrite x ∙ h.valid.full_block;
        write_in = mod-lt (q.nextwrite + 1) (omega (arith, h.valid.read_in));
        read_in = h.valid.read_in;
      };
      items =
          ap₂ (λ i n. window d (set q.entries i x) q.size q.nextread n) (nextwrite-eq h.valid) grown
          ∙ window-set_end d q.entries q.size q.nextread (count q) x
              (omega (arith, h.valid.full_block)) h.valid.read_in (omega (arith, count-Holds h))
          ∙ ap (λ l. l ++ (x ∷ [])) h.items;
    },
    refl,
  )
    where
      grown : ((q.nextwrite + 1) % q.size + q.size - q.nextread) % q.size ≡ suc (count q)
      grown = ground (
        arith,
        h.valid.write_in,
        h.valid.read_in,
        count-Holds h,
        wrap (q.nextwrite + 1) q.size,
        wrap (q.nextwrite + q.size - q.nextread) q.size,
        wrap ((q.nextwrite + 1) % q.size + q.size - q.nextread) q.size,
      )

  -- The test that `q_addtail` makes: is the ring full but for one place?
  pub at_end :
      {xs : List A} {q : Queue A}
      → Holds xs q
      → ((q.nextwrite + 1) % q.size == q.nextread) ≡ (length xs + 1 == q.size)
  at_end {xs} {q} h = ground (
    arith,
    h.valid.write_in,
    h.valid.read_in,
    count-Holds h,
    wrap (q.nextwrite + 1) q.size,
    wrap (q.nextwrite + q.size - q.nextread) q.size,
  )

  -- With room left, `q_addtail` puts the pointer at the end and takes no memory.
  pub addtail-room :
      (n : ℕ) (mem : ℕ → Bool) (junk : ℕ → A) {xs : List A} {q : Queue A} (x : A)
      → Holds xs q
      → length xs + 1 < q.size
      → (q' : Queue A) × (addtail junk (suc n) mem q x ≡ ok q')
        × Holds (xs ++ (x ∷ [])) q'
        × (q'.size ≡ q.size)
  unfolding addtail
  addtail-room n mem junk {xs} {q} x h lt =
      let (q', e, h', s) = put-Holds x h lt in
      (
        q',
        rw
            (
              lt→ltb 0 q.size (omega arith),
              at_end h,
              not-== {a = length xs + 1} {b = q.size} (omega arith),
            )
            e,
        h',
        s,
      )

  -- One round of the loop of `q_grow`.
  move_step :
      (add : Queue A → A → Outcome (Queue A)) (fuel : ℕ) (old : List A) (osize onw i : ℕ)
      (q q' : Queue A)
      → i ≢ onw
      → i < length old
      → add q (get_or old i d) ≡ ok q'
      → move add (suc fuel) old osize onw i q ≡ move add fuel old osize onw ((i + 1) % osize) q'
  unfolding move
  move_step add fuel old osize onw i q q' ne lt e =
      ground (arith, get_elem?-eq-get_or old i d lt, e, ne)

  move_end :
      (add : Queue A → A → Outcome (Queue A)) (fuel : ℕ) (old : List A) (osize onw i : ℕ)
      (q : Queue A)
      → i ≡ onw
      → move add fuel old osize onw i q ≡ ok q
  unfolding move
  move_end add zero old osize onw i q e = ground arith
  move_end add (suc fuel) old osize onw i q e = ground arith

  module _ (n : ℕ) (mem : ℕ → Bool) (junk : ℕ → A) (old : List A) (osize onr onw t : ℕ) where
    -- The loop moves the entries over, with one `q_addtail` that has room for each.
    pub move-Holds :
        (m k fuel i : ℕ) (q : Queue A)
        → t < osize
        → osize ≤ length old
        → onr < osize
        → onw ≡ (onr + t) % osize
        → k + m ≡ t
        → m ≤ fuel
        → i ≡ (onr + k) % osize
        → osize ≤ q.size
        → Holds (window d old osize onr k) q
        → (q' : Queue A) × (move (addtail junk (suc n) mem) fuel old osize onw i q ≡ ok q')
          × Holds (window d old osize onr t) q'
          × (q'.size ≡ q.size)
    move-Holds zero k fuel i q fits block_in hr hw e hf hi hs h =
        let same_k : k ≡ t = omega arith in
        (q, move_end _ fuel old osize onw i q (rw (hi, hw, same_k)), rw same_k at h, refl)
    move-Holds (suc m) k zero i q fits block_in hr hw e hf hi hs h = absurd (omega arith)
    move-Holds (suc m) k (suc fuel) i q fits block_in hr hw e hf hi hs h =
        let (q1, e1, h1, s1) =
          addtail-room n mem junk (get_or old i d) h
            (omega (arith, length-window d old osize onr k)) in
        let (q2, e2, h2, s2) =
          move-Holds m (suc k) fuel ((i + 1) % osize) q1 fits block_in hr hw (omega arith)
            (omega arith) next (omega arith) (rw (← hi) h1) in
        (
          q2,
          move_step _ fuel old osize onw i q q1
                (rw (hi, hw) (mod-ne osize onr k t hr fits (omega arith)))
                (rw hi (omega (arith, mod-lt (onr + k) {m = osize} (omega arith)))) e1
              ∙ e2,
          h2,
          s2 ∙ s1,
        )
      where
        next : (i + 1) % osize ≡ (onr + suc k) % osize
        next = rw (hi, mod-add-mod) (ap (λ x. x % osize) (omega arith))
