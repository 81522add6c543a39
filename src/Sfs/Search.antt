-- ===== src/Sfs/Search.antt =====
-- The search of a directory for a name, against the entries in its slots.
use cse.Base.{
  ℕ, zero, suc, ◌+◌, ◌/◌, ◌%◌, ◌<◌, ◌≡◌, ◌≢◌, ◌⊎◌, inl, inr, refl, ◌∙◌, sym, ap, Bool, true, false,
  ◌&&◌, not, Option, none, some, List, ◌==◌, arith, ℕ_discrete, Bool-cases, not-==, eq→==,
}
use cse.Base.Outcome.{Outcome, ok, err, panic}
use cse.Sfs.{Fs, Inode, sfs_type_dir}
use cse.Sfs.Dir.{Sfd, Found, has_name, note, readdir, findname_loop, dir_nentries, findname}

-- The slot is in use and has the name.
abbrev pub matches : List ℕ → Sfd → Bool
matches name sd = not (sd.ino == 0) && has_name name sd

module _ (entry : ℕ → Sfd) (name : List ℕ) where
  -- The entry of the name among the first `n` slots: there is none, or just this one.
  abbrev pub OnlyEntry : ℕ → Option (ℕ × ℕ) → Type 0
  OnlyEntry n none = (j : ℕ) → j < n → matches name (entry j) ≡ false
  OnlyEntry n (some (ino, k)) =
      (k < n)
      × (matches name (entry k) ≡ true)
      × (ino ≡ (entry k).ino)
      × ((j : ℕ) → j < n → matches name (entry j) ≡ true → j ≡ k)

  -- A free slot among the first `n`, if there is one.
  abbrev pub FreeSlot : ℕ → Option ℕ → Type 0
  FreeSlot n none = (j : ℕ) → j < n → (entry j).ino ≢ 0
  FreeSlot n (some k) = (k < n) × ((entry k).ino ≡ 0)

  abbrev pub Finds : ℕ → Outcome Found → Type 0
  Finds n (ok f) = OnlyEntry n f.entry × FreeSlot n f.emptyslot
  Finds n (err e) = ⊥
  Finds n panic =
      (j : ℕ) × (k : ℕ) × (j < k)
      × (k < n)
      × (matches name (entry j) ≡ true)
      × (matches name (entry k) ≡ true)

  -- One slot more, by what it holds.
  OnlyEntry-other :
      (i : ℕ) (e : Option (ℕ × ℕ))
      → matches name (entry i) ≡ false
      → OnlyEntry i e
      → OnlyEntry (suc i) e
  OnlyEntry-other i none away h = λ j lt. elim (ℕ_discrete j i) [
    | yes at_i ↦ ap (λ k. matches name (entry k)) at_i ∙ away
    | no ne ↦ h j (omega (arith, lt, ne))
  ]
  OnlyEntry-other i (some (ino, k)) away (lt, m, same, only) = (
    omega (arith, lt),
    m,
    same,
    λ j j_lt here. elim (ℕ_discrete j i) [
      | yes at_i ↦ absurd (ground (arith, sym here ∙ ap (λ l. matches name (entry l)) at_i ∙ away))
      | no ne ↦ only j (omega (arith, j_lt, ne)) here
    ],
  )

  FreeSlot-used : (i : ℕ) (e : Option ℕ) → (entry i).ino ≢ 0 → FreeSlot i e → FreeSlot (suc i) e
  FreeSlot-used i none used h = λ j lt. elim (ℕ_discrete j i) [
    | yes at_i ↦ λ z. used (ap (λ k. (entry k).ino) (sym at_i) ∙ z)
    | no ne ↦ h j (omega (arith, lt, ne))
  ]
  FreeSlot-used i (some k) used (lt, z) = (omega (arith, lt), z)

  OnlyEntry-first :
      (i : ℕ)
      → matches name (entry i) ≡ true
      → OnlyEntry i none
      → OnlyEntry (suc i) (some ((entry i).ino, i))
  OnlyEntry-first i here h = (
    omega arith,
    here,
    refl,
    λ j lt there. elim (ℕ_discrete j i) [
      | yes at_i ↦ at_i
      | no ne ↦ absurd (ground (arith, h j (omega (arith, lt, ne)), there))
    ],
  )

  free_slot : (i : ℕ) → (entry i).ino ≡ 0 → matches name (entry i) ≡ false
  free_slot i z = rw (eq→== z) refl

  in_use :
      (i : ℕ) (t : Bool)
      → (entry i).ino ≢ 0
      → has_name name (entry i) ≡ t
      → matches name (entry i) ≡ t
  in_use i t used e = rw (not-== used) e

  -- What `note` does with an entry in use.
  note-named :
      (i : ℕ) (e : Option (ℕ × ℕ)) (s : Option ℕ)
      → (entry i).ino ≢ 0
      → OnlyEntry i e
      → FreeSlot (suc i) s
      → (has_name name (entry i) ≡ true) ⊎ (has_name name (entry i) ≡ false)
      → Finds (suc i) (note name i (entry i) (record { entry = e; emptyslot = s }))
  note-named i none s used only free (inr other) =
      rw (not-== used, other) (OnlyEntry-other i none (in_use i false used other) only, free)
  note-named i (some x) s used only free (inr other) =
      rw (not-== used, other) (OnlyEntry-other i (some x) (in_use i false used other) only, free)
  note-named i none s used only free (inl here) =
      rw (not-== used, here) (OnlyEntry-first i (in_use i true used here) only, free)
  note-named i (some (ino, k)) s used only free (inl here) =
      rw (not-== used, here) (k, i, only.0, omega arith, only.1, in_use i true used here)

  note-Finds :
      (i : ℕ) (e : Option (ℕ × ℕ)) (s : Option ℕ)
      → OnlyEntry i e
      → FreeSlot i s
      → Finds (suc i) (note name i (entry i) (record { entry = e; emptyslot = s }))
  note-Finds i e s only free = elim (ℕ_discrete (entry i).ino 0) [
    | yes z ↦ rw (eq→== z) (OnlyEntry-other i e (free_slot i z) only, (omega arith, z))
    | no used ↦
        note-named i e s used only (FreeSlot-used i s used free)
          (Bool-cases (has_name name (entry i)))
  ]

  -- More slots: two entries of the name stay two.
  Finds-panic : (n m : ℕ) → Finds n panic → Finds (n + m) panic
  Finds-panic n m (j, k, jk, k_lt, mj, mk) = (j, k, jk, omega (arith, k_lt), mj, mk)

  abbrev pub Result : ℕ → Fs → Inode → Fs × Inode × Outcome Found → Type 0
  Result n fs sv (fs', sv', r) = (fs' ≡ fs) × (sv' ≡ sv) × Finds n r

  module _ (fs : Fs) (sv : Inode) where
    loop_ok :
        (n i : ℕ) (f f1 : Found)
        → readdir fs sv i ≡ (fs, sv, ok (entry i))
        → note name i (entry i) f ≡ ok f1
        → findname_loop (suc n) i fs sv name f ≡ findname_loop n (suc i) fs sv name f1
    unfolding findname_loop
    loop_ok n i f f1 e e2 = ground (arith, e, e2)

    loop_panic :
        (n i : ℕ) (f : Found)
        → readdir fs sv i ≡ (fs, sv, ok (entry i))
        → note name i (entry i) f ≡ panic
        → findname_loop (suc n) i fs sv name f ≡ (fs, sv, panic)
    unfolding findname_loop
    loop_panic n i f e e2 = ground (arith, e, e2)

    findname_loop-Finds :
        (n i : ℕ) (e : Option (ℕ × ℕ)) (s : Option ℕ)
        → ((k : ℕ) → k < i + n → readdir fs sv k ≡ (fs, sv, ok (entry k)))
        → OnlyEntry i e
        → FreeSlot i s
        → Result (i + n) fs sv (findname_loop n i fs sv name (record { entry = e; emptyslot = s }))
    unfolding findname_loop
    findname_loop-Finds zero i e s readable only free =
        let z : i + 0 ≡ i = omega arith in rw z (refl, refl, (only, free))
    findname_loop-Finds (suc n) i e s readable only free =
        go (note name i (entry i) (record { entry = e; emptyslot = s })) refl
          (note-Finds i e s only free)
          (λ e1 s1. findname_loop-Finds n (suc i) e1 s1 (λ k lt. readable k (omega (arith, lt))))
      where
        go :
            (r : Outcome Found)
            → note name i (entry i) (record { entry = e; emptyslot = s }) ≡ r
            → Finds (suc i) r
            → ((e1 : Option (ℕ × ℕ)) (s1 : Option ℕ)
                → OnlyEntry (suc i) e1
                → FreeSlot (suc i) s1
                → Result
                    (suc i + n)
                    fs
                    sv
                    (findname_loop n (suc i) fs sv name (record { entry = e1; emptyslot = s1 })))
            → Result
                (i + suc n)
                fs
                sv
                (findname_loop (suc n) i fs sv name (record { entry = e; emptyslot = s }))
        go (ok f) e2 (only, free) more =
            let z : i + suc n ≡ suc i + n = omega arith in
            rw (z, loop_ok n i _ f (readable i (omega arith)) e2)
              (more f.entry f.emptyslot only free)
        go (err x) e2 h more = absurd h
        go panic e2 h more =
            let z : i + suc n ≡ suc i + n = omega arith in
            rw (z, loop_panic n i _ (readable i (omega arith)) e2)
              (refl, refl, Finds-panic (suc i) n h)

    whole_search :
        sv.kind ≡ sfs_type_dir
        → sv.size % 64 ≡ 0
        → findname fs sv name
          ≡ findname_loop (sv.size / 64) 0 fs sv name (record { entry = none; emptyslot = none })
    unfolding findname dir_nentries
    whole_search d e = ground (arith, d, e)

    -- Where the vnode is a directory, the size is a whole number of entries and each slot can be
    -- read without a change of state, `sfs_dir_findname` answers the inode and the slot of the only
    -- entry of the name, or that there is none, and a free slot where there is one. It panics only
    -- where two entries have the name, and changes nothing.
    pub findname-Finds :
        sv.kind ≡ sfs_type_dir
        → sv.size % 64 ≡ 0
        → ((k : ℕ) → k < sv.size / 64 → readdir fs sv k ≡ (fs, sv, ok (entry k)))
        → Result (sv.size / 64) fs sv (findname fs sv name)
    findname-Finds d e readable = rw (whole_search d e) (
        let z : 0 + sv.size / 64 ≡ sv.size / 64 = omega arith in
        rw z at (
          findname_loop-Finds (sv.size / 64) 0 none none (λ k lt. readable k (omega (arith, lt)))
            (λ j lt. absurd (omega (arith, lt))) (λ j lt. absurd (omega (arith, lt)))))
