-- ===== src/Vfs/Starts.antt =====
-- The references of vfs_getroot, getdevice and the two lookups.
use cse.Base.{
  ℕ, arith, ◌≡◌, refl, Bool, true, false, ◌||◌, ◌&&◌, Option, none, some, List, [], ◌∷◌, Bool-cases,
  Option-cases, inl, inr, same_string,
}
use cse.Base.Outcome.{Outcome}
use cse.Vfs.{Name, Knowndev, Vfs, Ops, M, pure, lift, ◌>>◌}
use cse.Vfs.Vnode.{vnode_incref}
use cse.Vfs.Devices.{
  is_set, samestring, assert_set, device_vnode, getroot_device, getroot_entry, getroot_loop,
  vfs_getroot,
}
use cse.Vfs.After.{After, Total-After, weaken-After}
use cse.Vfs.Owns.{Others, Owns, Respects, Valid, AllValid, lift-GivesRoot, vnode_incref-Total}

module _ {W : Type 0} (b : Others) (hs : List (ℕ × Bool)) where
  -- A vnode is handed back with a reference, or nothing is.
  abbrev pub HandsBack : {A : Type 0} (vn : A → ℕ) → Vfs W × Outcome A → Type 0
  HandsBack vn = After b.halts (λ a. Owns b ((vn a, false) ∷ hs)) (Owns b hs)

  abbrev pub Balances : {A : Type 0} → Vfs W × Outcome A → Type 0
  Balances = After b.halts (λ _. Owns b hs) (Owns b hs)

module _ {W : Type 0} {b : Others} {hs : List (ℕ × Bool)} (s : Vfs W) (w : Owns b hs s) where
  pub incref-HandsBack : (v : ℕ) → HandsBack b hs (λ v. v) ((vnode_incref v >> pure v) s)
  incref-HandsBack v =
      Total-After (vnode_incref v) (λ _. pure v) s (vnode_incref-Total v s w)
        (λ _ s1 w1. record { holds = w1 })

  device-HandsBack :
      (kd : Knowndev)
      → is_set kd.kd_device ≡ true
      → HandsBack b hs (λ v. v) (assert_set kd.kd_device (device_vnode kd) s)
  unfolding device_vnode
  device-HandsBack kd there = elim (Option-cases kd.kd_device) [
    | inl e ↦ absurd (ground (arith, there, e))
    | inr (d, e) ↦ simp e (incref-HandsBack kd.kd_vnode)
  ]

  getroot_device-HandsBack :
      (o : Ops W) (kd : Knowndev) (name : Name) (rest : M W ℕ)
      → Valid kd
      → HandsBack b hs (λ v. v) (rest s)
      → (same_string kd.kd_name name ≡ true → (kd.kd_fs ≡ none) × (kd.kd_rawname ≡ none))
      → HandsBack b hs (λ v. v) (getroot_device o kd name rest s)
  unfolding getroot_device
  getroot_device-HandsBack o kd name rest valid others plain =
      elim (Bool-cases (same_string kd.kd_name name)) [
        | inl named ↦
            let (no_fs, no_raw) = plain named in
            rw (named, no_fs, no_raw) (device-HandsBack kd (valid.unmounted no_fs))
        | inr other ↦ elim (Option-cases kd.kd_rawname) [
          | inl e ↦ rw (other, e) others
          | inr (raw, e) ↦ elim (Bool-cases (same_string raw name)) [
            | inl named ↦ rw (other, e, named) (device-HandsBack kd (valid.mountable (rw e refl)))
            | inr not_raw ↦ rw (other, e, not_raw) others
          ]
        ]
      ]

named_or : (a c : Bool) → (a || c) ≡ false → a ≡ false
named_or a c h = ground arith

no_raw : (raw : Option Name) (same : Bool) → same ≡ true → (is_set raw && same) ≡ false → raw ≡ none
no_raw none same p h = refl
no_raw (some r) same p h = ground arith

module _ {W : Type 0} {b : Others} {hs : List (ℕ × Bool)} (o : Ops W)
    (respects : Respects b.halts o) where
  root-HandsBack :
      (s : Vfs W) → Owns b hs s → (fs : ℕ) → HandsBack b hs (λ v. v) (lift (o.getroot fs) s)
  root-HandsBack s w fs =
      weaken-After _ (lift-GivesRoot (o.getroot fs) s w (respects.getroot fs s.nodes))
        (λ _ _ w1. w1) (λ _ none. absurd none)

  getroot_entry-HandsBack :
      (s : Vfs W)
      → Owns b hs s
      → (f : Option ℕ) (kd : Knowndev) (name : Name) (rest : M W ℕ) → kd.kd_fs ≡ f
      → Valid kd
      → HandsBack b hs (λ v. v) (rest s)
      → HandsBack b hs (λ v. v) (getroot_entry o f kd name rest s)
  unfolding getroot_entry
  getroot_entry-HandsBack s w (some fs) kd name rest e valid others =
      let volume = samestring (o.getvolname fs) (some name) in
      elim (Bool-cases (same_string kd.kd_name name || volume)) [
        | inl named ↦ rw named (root-HandsBack s w fs)
        | inr other ↦ rw other (
            getroot_device-HandsBack s w o kd name rest valid others (λ named.
              absurd (ground (arith, named, named_or (same_string kd.kd_name name) volume other))))
      ]
  getroot_entry-HandsBack s w none kd name rest e valid others =
      elim (Bool-cases (is_set kd.kd_rawname && same_string kd.kd_name name)) [
        | inl named ↦ rw named (record { holds = w })
        | inr other ↦ rw other (
            getroot_device-HandsBack s w o kd name rest valid others
              (λ named. (e, no_raw kd.kd_rawname (same_string kd.kd_name name) named other)))
      ]

  getroot_loop-HandsBack :
      (s : Vfs W)
      → Owns b hs s
      → (kds : List Knowndev) (name : Name) → AllValid kds
      → HandsBack b hs (λ v. v) (getroot_loop o kds name s)
  unfolding getroot_loop
  getroot_loop-HandsBack s w [] name valid = record { holds = w }
  getroot_loop-HandsBack s w (kd ∷ kds) name (valid, rest) =
      getroot_entry-HandsBack s w kd.kd_fs kd name (getroot_loop o kds name) refl valid
        (getroot_loop-HandsBack s w kds name rest)

  pub vfs_getroot-HandsBack :
      (s : Vfs W) → Owns b hs s → (name : Name) → HandsBack b hs (λ v. v) (vfs_getroot o name s)
  unfolding vfs_getroot
  vfs_getroot-HandsBack s w name = getroot_loop-HandsBack s w s.knowndevs name w.table
