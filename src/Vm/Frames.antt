-- ===== src/Vm/Frames.antt =====
-- Physical memory and the regions of an address space: no frame is handed out twice, and a region
-- covers what was asked for.
use cse.Base.{
  ℕ, ◌+◌, ◌-◌, ◌*◌, ◌/◌, ◌%◌, ◌^◌, ◌≤◌, ◌<◌, ◌≡◌, ◌≢◌, refl, ◌⊎◌, inl, inr, arith, dec_lt,
  ℕ_discrete, not-lt→ltb, eq→==, not-==,
}
use cse.Base.Outcome.{Outcome, ok, err, panic, enomem, eunimp}
use cse.Vm.{
  Ram, page_size, page_frame, ram_stealmem, Addrspace, stackpages, as_define_region,
  as_prepare_load,
}

-- Memory as it is after `ram_bootstrap`: less than 2^29 bytes, the first frame taken.
pub record Sane (r : Ram) : Type 0 where
  pub first_pos : 0 < r.first
  pub in_order : r.first ≤ r.last
  pub small : r.last < 2 ^ 29

-- The pages from the first free one on, which are free no more; or 0, where there is no such room.
abbrev pub Steals : Ram → ℕ → ℕ × Ram → Type 0
Steals r n (p, r') =
    ((p ≡ 0) × (r' ≡ r) × (r.last < r.first + n * page_size))
    ⊎ ((p ≡ r.first) × (r'.first ≡ p + n * page_size) × (r'.last ≡ r.last) × Sane r')

-- The pages taken.
abbrev taken : Ram → ℕ → Ram
taken r n = record r { first = r.first + n * page_size }

steal-cases :
    (r : Ram) (n : ℕ)
    → Sane r
    → n < 2 ^ 19
    → ((ram_stealmem r n ≡ (0, r)) × (r.last < r.first + n * page_size))
      ⊎ ((ram_stealmem r n ≡ (r.first, taken r n)) × Sane (taken r n))
unfolding ram_stealmem
steal-cases r n h small = elim (dec_lt r.last (r.first + n * page_size)) [
  | yes over ↦ inl (ground (arith, over, h.small, h.in_order), over)
  | no fits ↦
      let next : (r.first + n * page_size % 2 ^ 32) % 2 ^ 32 ≡ r.first + n * page_size =
        omega (arith, h.small) in
      inr (
        rw (next, not-lt→ltb r.last (r.first + n * page_size) fits),
        record {
          first_pos = omega (arith, h.first_pos);
          in_order = omega (arith, fits);
          small = h.small;
        },
      )
]

-- For less than 2^19 pages `ram_stealmem` takes just the next pages of physical memory, or answers 0
-- where there is no room for them.
pub ram_stealmem-Steals : (r : Ram) (n : ℕ) → Sane r → n < 2 ^ 19 → Steals r n (ram_stealmem r n)
ram_stealmem-Steals r n h small = elim (steal-cases r n h small) [
  | inl (e, over) ↦ rw e (inl (refl, refl, over))
  | inr (e, sane) ↦ rw e (inr (refl, refl, refl, sane))
]

-- The region covers the block, starts less than a page before it and ends less than a page behind
-- it; only the first free of the two regions changes.
abbrev pub Covers : (base npages vaddr sz : ℕ) → Type 0
Covers base npages vaddr sz =
    (base % page_size ≡ 0)
    × (base ≤ vaddr)
    × (vaddr < base + page_size)
    × (vaddr + sz ≤ base + npages * page_size)
    × (base + npages * page_size < vaddr + sz + page_size)

abbrev pub Defines : Addrspace → ℕ → ℕ → Outcome Addrspace → Type 0
Defines a vaddr sz (ok b) =
    ((a.vbase1 ≡ 0)
      × Covers b.vbase1 b.npages1 vaddr sz
      × (b.vbase2 ≡ a.vbase2)
      × (b.npages2 ≡ a.npages2))
    ⊎ ((a.vbase1 ≢ 0)
        × (a.vbase2 ≡ 0)
        × Covers b.vbase2 b.npages2 vaddr sz
        × (b.vbase1 ≡ a.vbase1)
        × (b.npages1 ≡ a.npages1))
Defines a vaddr sz (err e) = (e ≡ eunimp) × (a.vbase1 ≢ 0) × (a.vbase2 ≢ 0)
Defines a vaddr sz panic = ⊥

Covers-self :
    (vaddr sz : ℕ)
    → vaddr + sz + page_size ≤ 2 ^ 32
    → Covers
        (page_frame vaddr)
        (page_frame (((sz + vaddr % page_size) % 2 ^ 32 + page_size - 1) % 2 ^ 32) / page_size)
        vaddr
        sz
Covers-self vaddr sz h = (omega arith, omega arith, omega arith, omega arith, omega arith)

-- A block that ends a page before the end of the address space gets the smallest region of whole
-- pages that covers it, as the first or the second region; a third region is refused.
pub as_define_region-Defines :
    (a : Addrspace) (vaddr sz : ℕ)
    → vaddr + sz + page_size ≤ 2 ^ 32
    → Defines a vaddr sz (as_define_region a vaddr sz)
unfolding as_define_region
as_define_region-Defines a vaddr sz h = elim (ℕ_discrete a.vbase1 0) [
  | yes z ↦ rw (eq→== z) (inl (z, Covers-self vaddr sz h, refl, refl))
  | no nz ↦ elim (ℕ_discrete a.vbase2 0) [
    | yes z ↦ rw (not-== nz, eq→== z) (inr (nz, z, Covers-self vaddr sz h, refl, refl))
    | no nz2 ↦ rw (not-== nz, not-== nz2) (refl, nz, nz2)
  ]
]

-- The calls of `as_prepare_load`, one after the other.
module _ (r : Ram) (a : Addrspace)
    (clear : (a.pbase1 ≡ 0) × (a.pbase2 ≡ 0) × (a.stackpbase ≡ 0)) where
  none_left1 : ram_stealmem r a.npages1 ≡ (0, r) → as_prepare_load r a ≡ (r, err enomem)
  unfolding as_prepare_load
  none_left1 e1 = ground (arith, clear, e1)

  none_left2 :
      r.first ≢ 0
      → ram_stealmem r a.npages1 ≡ (r.first, taken r a.npages1)
      → ram_stealmem (taken r a.npages1) a.npages2 ≡ (0, taken r a.npages1)
      → as_prepare_load r a ≡ (taken r a.npages1, err enomem)
  unfolding as_prepare_load
  none_left2 pos e1 e2 = ground (arith, clear, pos, e1, e2)

  none_left3 :
      r.first ≢ 0
      → ram_stealmem r a.npages1 ≡ (r.first, taken r a.npages1)
      → ram_stealmem (taken r a.npages1) a.npages2
        ≡ (r.first + a.npages1 * page_size, taken (taken r a.npages1) a.npages2)
      → ram_stealmem (taken (taken r a.npages1) a.npages2) stackpages
        ≡ (0, taken (taken r a.npages1) a.npages2)
      → as_prepare_load r a ≡ (taken (taken r a.npages1) a.npages2, err enomem)
  unfolding as_prepare_load
  none_left3 pos e1 e2 e3 = ground (arith, clear, pos, e1, e2, e3)

  prepared :
      r.first ≢ 0
      → ram_stealmem r a.npages1 ≡ (r.first, taken r a.npages1)
      → ram_stealmem (taken r a.npages1) a.npages2
        ≡ (r.first + a.npages1 * page_size, taken (taken r a.npages1) a.npages2)
      → ram_stealmem (taken (taken r a.npages1) a.npages2) stackpages ≡ (
        r.first + a.npages1 * page_size + a.npages2 * page_size,
        taken (taken (taken r a.npages1) a.npages2) stackpages,
      )
      → as_prepare_load r a ≡ (
        taken (taken (taken r a.npages1) a.npages2) stackpages,
        ok (record a {
          pbase1 = r.first;
          pbase2 = r.first + a.npages1 * page_size;
          stackpbase = r.first + a.npages1 * page_size + a.npages2 * page_size;
        }),
      )
  unfolding as_prepare_load
  prepared pos e1 e2 e3 = ground (arith, clear, pos, e1, e2, e3)

-- What `as_prepare_load` answers: frames for the two regions and the stack, one behind the other,
-- all free before; ENOMEM only where there is no room for all of them.
abbrev pub Prepares : Ram → Addrspace → Ram × Outcome Addrspace → Type 0
Prepares r a (r', ok b) =
    (b ≡ record a {
      pbase1 = r.first;
      pbase2 = r.first + a.npages1 * page_size;
      stackpbase = r.first + a.npages1 * page_size + a.npages2 * page_size;
    })
    × (r'.first ≡ r.first + (a.npages1 + a.npages2 + stackpages) * page_size)
    × (r'.last ≡ r.last)
    × Sane r'
Prepares r a (r', err e) =
    (e ≡ enomem) × (r.last < r.first + (a.npages1 + a.npages2 + stackpages) * page_size)
Prepares r a (r', panic) = ⊥

-- For an address space without frames `as_prepare_load` hands out frames that nobody has, for both
-- regions and the stack, or answers ENOMEM where there is no room for them. No assertion fails.
pub as_prepare_load-Prepares :
    (r : Ram) (a : Addrspace)
    → Sane r
    → a.npages1 < 2 ^ 18
    → a.npages2 < 2 ^ 18
    → (a.pbase1 ≡ 0) × (a.pbase2 ≡ 0) × (a.stackpbase ≡ 0)
    → Prepares r a (as_prepare_load r a)
as_prepare_load-Prepares r a h s1 s2 clear = elim (steal-cases r a.npages1 h (omega arith)) [
  | inl (e1, over) ↦ rw (none_left1 r a clear e1) (refl, omega (arith, over))
  | inr (e1, h1) ↦ elim (steal-cases (taken r a.npages1) a.npages2 h1 (omega arith)) [
    | inl (e2, over) ↦
        rw (none_left2 r a clear (omega (arith, h.first_pos)) e1 e2) (refl, omega (arith, over))
    | inr (e2, h2) ↦
        elim (steal-cases (taken (taken r a.npages1) a.npages2) stackpages h2 (omega arith)) [
          | inl (e3, over) ↦
              rw (none_left3 r a clear (omega (arith, h.first_pos)) e1 e2 e3)
                (refl, omega (arith, over))
          | inr (e3, h3) ↦
              rw (prepared r a clear (omega (arith, h.first_pos)) e1 e2 e3)
                (refl, omega arith, refl, h3)
        ]
  ]
]
