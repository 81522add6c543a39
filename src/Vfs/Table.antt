-- ===== src/Vfs/Table.antt =====
-- The names in the table of devices: no two entries answer to one name.
use cse.Base.{
  ℕ, zero, suc, ◌+◌, ◌==◌, if◌then◌else◌, Option-cases, ◌≡◌, refl, arith, Bool, true, false, ◌&&◌,
  ◌||◌, Option, none, some, List, [], ◌∷◌, get_elem?, same_string, Bool-cases, inl, inr, ◌∙◌, ap,
}
use mathlib.Core.Option.{some-injective}
use cse.Base.Outcome.{Outcome, ok, err, panic, enodev, enxio}
use cse.Vfs.{Name, Knowndev, Vfs, Ops, M, fail}
use cse.Vfs.Vnode.{vnode_incref}
use cse.Vfs.Devices.{
  is_set, samestring, assert_set, volname, device_vnode, getroot_device, getroot_entry,
  getroot_loop, vfs_getroot,
}

module _ {W : Type 0} (o : Ops W) where
  -- One of the names of the entry.
  abbrev pub names : Knowndev → Name → Bool
  names kd n =
      same_string kd.kd_name n
      || samestring kd.kd_rawname (some n)
      || samestring (volname o kd.kd_fs) (some n)

  abbrev pub some_names : List Knowndev → Name → Bool
  some_names [] n = false
  some_names (kd ∷ kds) n = names kd n || some_names kds n

  abbrev pub Unique : List Knowndev → Type 0
  Unique [] = Unit
  Unique (kd ∷ kds) = ((n : Name) → names kd n ≡ true → some_names kds n ≡ false) × Unique kds

-- The vnode of the device, with one reference more, if the entry has a device.
abbrev pub device_answer : {W : Type 0} → Option ℕ → (vnode : ℕ) → Vfs W → Vfs W × Outcome ℕ
device_answer none vnode s = (s, panic)
device_answer (some dev) vnode s = (
  record s {
    nodes = record (s.nodes) {
      refcount = λ u. if u == vnode then s.nodes.refcount vnode + 1 else s.nodes.refcount u;
    };
  },
  ok vnode,
)

-- What the entry that has the name `n` answers in the state `s`.
pub data Answers {W : Type 0} (o : Ops W) (kd : Knowndev) (n : Name) (s : Vfs W)
    (r : Vfs W × Outcome ℕ) : Type 0 where
  mounted :
      (fs : ℕ)
      → kd.kd_fs ≡ some fs
      → (same_string kd.kd_name n || samestring (o.getvolname fs) (some n)) ≡ true
      → r ≡ (record s { nodes = (o.getroot fs s.nodes).0 }, (o.getroot fs s.nodes).1)
      → Answers o kd n s r
  unmounted :
      same_string kd.kd_name n ≡ true
      → kd.kd_fs ≡ none
      → (raw : Name) → kd.kd_rawname ≡ some raw
      → r ≡ (s, err enxio)
      → Answers o kd n s r
  device :
      same_string kd.kd_name n ≡ true
      → kd.kd_fs ≡ none
      → kd.kd_rawname ≡ none
      → r ≡ device_answer kd.kd_device kd.kd_vnode s
      → Answers o kd n s r
  raw_device :
      same_string kd.kd_name n ≡ false
      → samestring (volname o kd.kd_fs) (some n) ≡ false
      → (raw : Name) → kd.kd_rawname ≡ some raw
      → same_string raw n ≡ true
      → r ≡ device_answer kd.kd_device kd.kd_vnode s
      → Answers o kd n s r

or3_false : (a c d : Bool) → (a || c || d) ≡ false → (a ≡ false) × (c ≡ false) × (d ≡ false)
or3_false a c d h = ground arith

or_none : (a d : Bool) → a ≡ false → d ≡ false → (a || d) ≡ false
or_none a d h k = ground arith

and_none : (a d : Bool) → d ≡ false → (a && d) ≡ false
and_none a d h = ground arith

or_false : (a c : Bool) → (a || c) ≡ false → (a ≡ false) × (c ≡ false)
or_false a c h = ground arith

or_last : (a : Bool) → (a || true) ≡ true
or_last a = ground arith

only_one : (a c : Bool) → (a ≡ true → c ≡ false) → c ≡ true → a ≡ false
only_one true c only there = absurd (ground (arith, only refl, there))
only_one false c only there = refl

module _ {W : Type 0} (o : Ops W) where
  names_there :
      (kds : List Knowndev) (i : ℕ) (kd : Knowndev) (n : Name)
      → get_elem? kds i ≡ some kd
      → names o kd n ≡ true
      → some_names o kds n ≡ true
  names_there [] i kd n e h = absurd (ground (arith, e))
  names_there (k ∷ kds) zero kd n e h = rw (some-injective k kd e, h) refl
  names_there (k ∷ kds) (suc i) kd n e h = rw (names_there kds i kd n e h) (or_last (names o k n))

  -- The same, for an entry with the file system that comes first.
  abbrev named_as : Option ℕ → Knowndev → Name → Bool
  named_as f kd n =
      same_string kd.kd_name n
      || samestring kd.kd_rawname (some n)
      || samestring (volname o f) (some n)

  -- An entry without the name is passed over.
  passed_over :
      (f : Option ℕ) (kd : Knowndev) (n : Name) (rest : M W ℕ) (s : Vfs W)
      → named_as f kd n ≡ false
      → getroot_entry o f kd n rest s ≡ rest s
  unfolding getroot_entry getroot_device
  passed_over none kd n rest s h =
      let (a, c, d) =
        or3_false (same_string kd.kd_name n) (samestring kd.kd_rawname (some n)) false h in
      rw (and_none (is_set kd.kd_rawname) (same_string kd.kd_name n) a, a, c) refl
  passed_over (some fs) kd n rest s h =
      let volume = samestring (o.getvolname fs) (some n) in
      let (a, c, d) =
        or3_false (same_string kd.kd_name n) (samestring kd.kd_rawname (some n)) volume h in
      rw (or_none (same_string kd.kd_name n) volume a d, a, c) refl

  -- What an entry with the name answers does not come from the rest of the loop.
  entry_alone :
      (f : Option ℕ) (kd : Knowndev) (n : Name) (rest rest1 : M W ℕ) (s : Vfs W)
      → named_as f kd n ≡ true
      → getroot_entry o f kd n rest s ≡ getroot_entry o f kd n rest1 s
  unfolding getroot_entry getroot_device
  entry_alone none kd n rest rest1 s h = elim (Bool-cases (same_string kd.kd_name n)) [
    | inl a ↦ rw a refl
    | inr a ↦ elim (Bool-cases (samestring kd.kd_rawname (some n))) [
      | inl c ↦ rw (a, c) refl
      | inr c ↦ absurd (ground (arith, h, a, c))
    ]
  ]
  entry_alone (some fs) kd n rest rest1 s h = elim (Bool-cases (same_string kd.kd_name n)) [
    | inl a ↦ rw a refl
    | inr a ↦ elim (Bool-cases (samestring kd.kd_rawname (some n))) [
      | inl c ↦ rw (a, c) refl
      | inr c ↦
          let d : samestring (o.getvolname fs) (some n) ≡ true = ground (arith, h, a, c) in
          rw (a, d) refl
    ]
  ]

  nobody :
      (kds : List Knowndev) (n : Name) (s : Vfs W)
      → some_names o kds n ≡ false
      → getroot_loop o kds n s ≡ (s, err enodev)
  unfolding getroot_loop
  nobody [] n s h = refl
  nobody (kd ∷ kds) n s h =
      let (a, c) = or_false (names o kd n) (some_names o kds n) h in
      passed_over kd.kd_fs kd n (getroot_loop o kds n) s a ∙ nobody kds n s c

  found :
      (kds : List Knowndev) (i : ℕ) (kd : Knowndev) (n : Name) (s : Vfs W)
      → Unique o kds
      → get_elem? kds i ≡ some kd
      → names o kd n ≡ true
      → getroot_loop o kds n s ≡ getroot_entry o kd.kd_fs kd n (fail enodev) s
  unfolding getroot_loop
  found [] i kd n s u e h = absurd (ground (arith, e))
  found (k ∷ kds) zero kd n s u e h =
      rw (some-injective k kd e)
        (entry_alone kd.kd_fs kd n (getroot_loop o kds n) (fail enodev) s h)
  found (k ∷ kds) (suc i) kd n s (alone, u) e h =
      passed_over k.kd_fs k n (getroot_loop o kds n) s
        (only_one (names o k n) (some_names o kds n) (alone n) (names_there kds i kd n e h))
      ∙ found kds i kd n s u e h

  by_device :
      (kd : Knowndev) (d : Option ℕ) (s : Vfs W)
      → assert_set d (device_vnode kd) s ≡ device_answer d kd.kd_vnode s
  unfolding device_vnode vnode_incref
  by_device kd none s = refl
  by_device kd (some dev) s = refl

  as_unmounted :
      (kd : Knowndev) (n raw : Name) (s : Vfs W)
      → same_string kd.kd_name n ≡ true
      → kd.kd_rawname ≡ some raw
      → getroot_entry o none kd n (fail enodev) s ≡ (s, err enxio)
  unfolding getroot_entry
  as_unmounted kd n raw s a c = ground (arith, a, c)

  as_device :
      (kd : Knowndev) (n : Name) (s : Vfs W)
      → same_string kd.kd_name n ≡ true
      → kd.kd_fs ≡ none
      → kd.kd_rawname ≡ none
      → getroot_entry o none kd n (fail enodev) s ≡ device_answer kd.kd_device kd.kd_vnode s
  unfolding getroot_entry getroot_device
  as_device kd n s a e c = simp (a, c, e, by_device kd kd.kd_device s) refl

  as_raw :
      (f : Option ℕ) (kd : Knowndev) (n raw : Name) (s : Vfs W)
      → same_string kd.kd_name n ≡ false
      → samestring (volname o f) (some n) ≡ false
      → kd.kd_rawname ≡ some raw
      → same_string raw n ≡ true
      → getroot_entry o f kd n (fail enodev) s ≡ device_answer kd.kd_device kd.kd_vnode s
  unfolding getroot_entry getroot_device
  as_raw none kd n raw s a v c r = simp (a, c, r, by_device kd kd.kd_device s) refl
  as_raw (some fs) kd n raw s a v c r = simp (a, v, c, r, by_device kd kd.kd_device s) refl

  -- The entry has no other name.
  raw_only :
      (f : Option ℕ) (kd : Knowndev) (n : Name) (s : Vfs W)
      → kd.kd_fs ≡ f
      → same_string kd.kd_name n ≡ false
      → samestring (volname o f) (some n) ≡ false
      → named_as f kd n ≡ true
      → Answers o kd n s (getroot_entry o f kd n (fail enodev) s)
  raw_only f kd n s e a v h = elim (Option-cases kd.kd_rawname) [
    | inl c ↦ absurd (ground (arith, h, a, v, c))
    | inr (raw, c) ↦
        let r : same_string raw n ≡ true = ground (arith, h, a, v, c) in
        raw_device a (ap (λ g. samestring (volname o g) (some n)) e ∙ v) raw c r
          (as_raw f kd n raw s a v c r)
  ]

  as_mounted :
      (fs : ℕ) (kd : Knowndev) (n : Name) (s : Vfs W)
      → (same_string kd.kd_name n || samestring (o.getvolname fs) (some n)) ≡ true
      → getroot_entry o (some fs) kd n (fail enodev) s
        ≡ (record s { nodes = (o.getroot fs s.nodes).0 }, (o.getroot fs s.nodes).1)
  unfolding getroot_entry
  as_mounted fs kd n s a = rw a refl

  as_entry :
      (f : Option ℕ) (kd : Knowndev) (n : Name) (s : Vfs W)
      → kd.kd_fs ≡ f
      → named_as f kd n ≡ true
      → Answers o kd n s (getroot_entry o f kd n (fail enodev) s)
  as_entry none kd n s e h = elim (Bool-cases (same_string kd.kd_name n)) [
    | inl a ↦ elim (Option-cases kd.kd_rawname) [
      | inl c ↦ device a e c (as_device kd n s a e c)
      | inr (raw, c) ↦ unmounted a e raw c (as_unmounted kd n raw s a c)
    ]
    | inr a ↦ raw_only none kd n s e a refl h
  ]
  as_entry (some fs) kd n s e h =
      let volume = samestring (o.getvolname fs) (some n) in
      elim (Bool-cases (same_string kd.kd_name n || volume)) [
        | inl a ↦ mounted fs e a (as_mounted fs kd n s a)
        | inr a ↦
            let (x, y) = or_false (same_string kd.kd_name n) volume a in
            raw_only (some fs) kd n s e x y h
      ]

  -- In a table in which no two entries share a name `vfs_getroot` answers by the only entry that has the
  -- name, wherever it stands. For the device name or the volume name of a mounted file system that is
  -- its root; for the device name of a device that waits for a mount it is ENXIO; for that of a device
  -- that takes no file system, and for a raw name, it is the vnode of the device with one reference
  -- more, or a panic where the entry has no device. Where no entry has the name it is ENODEV, and
  -- nothing changes.
  pub vfs_getroot-Finds :
      (s : Vfs W) (n : Name)
      → Unique o s.knowndevs
      → ((i : ℕ) (kd : Knowndev)
          → get_elem? s.knowndevs i ≡ some kd
          → names o kd n ≡ true
          → Answers o kd n s (vfs_getroot o n s))
        × (some_names o s.knowndevs n ≡ false → vfs_getroot o n s ≡ (s, err enodev))
  unfolding vfs_getroot
  vfs_getroot-Finds s n u = (
    λ i kd e h. rw (found s.knowndevs i kd n s u e h) (as_entry kd.kd_fs kd n s refl h),
    λ h. nobody s.knowndevs n s h,
  )
