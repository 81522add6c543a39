-- ===== src/Vfs/Adds.antt =====
-- vfs_doadd of vfslist.c: the names of the table stay unique.
use cse.Base.{
  ℕ, ◌≡◌, refl, arith, Bool, true, false, not, ◌&&◌, ◌||◌, Option, none, some, List, [], ◌∷◌, ◌++◌,
  if◌then◌else◌, same_string→eq, same_string_self, Bool-cases, inl, inr, ap, ◌∙◌, ◌⊎◌,
}
use cse.Base.Outcome.{enomem}
use cse.Vfs.{Name, Knowndev, Vfs, Ops, M, fail}
use cse.Vfs.Vnode.{vnode_init}
use cse.Vfs.Devices.{
  Memory, mkrawname, samestring, samestring3, volname, badnames, dev_create_vnode,
}
use cse.Vfs.Mount.{array_add, enter, vfs_doadd}
use cse.Vfs.After.{After, bind-After, weaken-After}
use cse.Vfs.Table.{names, some_names, Unique}

-- Two strings that are the same as a third are the same.
samestring_trans :
    (a c : Option Name) (n : Name)
    → samestring a (some n) ≡ true
    → samestring c (some n) ≡ true
    → samestring a c ≡ true
samestring_trans none c n h k = absurd (ground (arith, h))
samestring_trans (some a) none n h k = absurd (ground (arith, k))
samestring_trans (some a) (some c) n h k =
    rw (same_string→eq a n h, same_string→eq c n k) (same_string_self n)

-- A name of an entry that is the same as none of three others.
three :
    (a1 a2 a3 n1 n2 n3 : Option Name) (n : Name)
    → (samestring3 a3 n1 n2 n3 || samestring3 a2 n1 n2 n3 || samestring3 a1 n1 n2 n3) ≡ false
    → (samestring n1 (some n) || samestring n2 (some n) || samestring n3 (some n)) ≡ true
    → (samestring a1 (some n) || samestring a2 (some n) || samestring a3 (some n)) ≡ false
three a1 a2 a3 n1 n2 n3 n apart named = elim (Bool-cases (samestring n1 (some n))) [
  | inl h ↦ other n1 h (ground (arith, apart)) (ground (arith, apart)) (ground (arith, apart))
  | inr h1 ↦ elim (Bool-cases (samestring n2 (some n))) [
    | inl h ↦ other n2 h (ground (arith, apart)) (ground (arith, apart)) (ground (arith, apart))
    | inr h2 ↦
        other n3 (ground (arith, named, h1, h2)) (ground (arith, apart)) (ground (arith, apart))
          (ground (arith, apart))
  ]
]
  where
    no :
        (a c : Option Name)
        → samestring c (some n) ≡ true
        → samestring a c ≡ false
        → samestring a (some n) ≡ false
    no a c h k = elim (Bool-cases (samestring a (some n))) [
      | inr apart1 ↦ apart1
      | inl same ↦ absurd (ground (arith, k, samestring_trans a c n same h))
    ]

    other :
        (c : Option Name)
        → samestring c (some n) ≡ true
        → samestring a1 c ≡ false
        → samestring a2 c ≡ false
        → samestring a3 c ≡ false
        → (samestring a1 (some n) || samestring a2 (some n) || samestring a3 (some n)) ≡ false
    other c h k1 k2 k3 = rw (no a1 c h k1, no a2 c h k2, no a3 c h k3) refl

module _ {W : Type 0} (o : Ops W) where
  badnames-free :
      (kds : List Knowndev) (kd : Knowndev) (n : Name)
      → badnames o kds (some kd.kd_name) kd.kd_rawname (volname o kd.kd_fs) ≡ false
      → names o kd n ≡ true
      → some_names o kds n ≡ false
  unfolding badnames
  badnames-free [] kd n free named = refl
  badnames-free (k ∷ kds) kd n free named =
      let rest = badnames-free kds kd n (ground (arith, free)) named in
      rw
        (three (some k.kd_name) k.kd_rawname (volname o k.kd_fs) (some kd.kd_name) kd.kd_rawname
          (volname o kd.kd_fs) n (ground (arith, free)) named)
        rest

  some_names-append :
      (kds : List Knowndev) (kd : Knowndev) (n : Name)
      → some_names o (kds ++ (kd ∷ [])) n ≡ (some_names o kds n || names o kd n)
  some_names-append [] kd n = ground arith
  some_names-append (k ∷ kds) kd n = rw (some_names-append kds kd n) (ground arith)

  append-Unique :
      (kds : List Knowndev) (kd : Knowndev)
      → Unique o kds
      → ((n : Name) → names o kd n ≡ true → some_names o kds n ≡ false)
      → Unique o (kds ++ (kd ∷ []))
  append-Unique [] kd u apart = (λ n h. refl, tt)
  append-Unique (k ∷ kds) kd (alone, u) apart = (
    λ n h. rw (some_names-append kds kd n, alone n h) (no_more n h),
    append-Unique kds kd u (λ n h. ground (arith, apart n h)),
  )
    where
      no_more : (n : Name) → names o k n ≡ true → (false || names o kd n) ≡ false
      no_more n h = elim (Bool-cases (names o kd n)) [
        | inr apart1 ↦ rw apart1 refl
        | inl also ↦ absurd (ground (arith, apart n also, h))
      ]

  -- The entry is the last of the table, and the names are still unique.
  abbrev pub Added : Vfs W → Knowndev → Vfs W → Type 0
  Added s kd s1 = (s1.knowndevs ≡ s.knowndevs ++ (kd ∷ [])) × Unique o s1.knowndevs

  enter-Adds :
      (room : Bool) (kd : Knowndev) (s : Vfs W)
      → Unique o s.knowndevs
      → After ⊥ (λ _. Added s kd) (λ s1. s1.knowndevs ≡ s.knowndevs) (enter o room kd s)
  unfolding enter
  enter-Adds room kd s u =
      elim (Bool-cases
        (badnames o s.knowndevs (some kd.kd_name) kd.kd_rawname (volname o kd.kd_fs))) [
          | inl taken ↦ rw taken (record { holds = refl })
          | inr free ↦ rw free (added room free)
        ]
    where
      added :
          (r : Bool)
          → badnames o s.knowndevs (some kd.kd_name) kd.kd_rawname (volname o kd.kd_fs) ≡ false
          → After ⊥ (λ _. Added s kd) (λ s1. s1.knowndevs ≡ s.knowndevs) (array_add r kd s)
      added false free = record { holds = refl }
      added true free = record {
        holds =
            (refl, append-Unique s.knowndevs kd u (λ n h. badnames-free s.knowndevs kd n free h));
      }

  created :
      (m : Memory) (block : ℕ) (s : Vfs W)
      → m.lock ≡ true
      → After ⊥
          (λ v s1. (v ≡ block) × (s1.knowndevs ≡ s.knowndevs))
          (λ s1. s1.knowndevs ≡ s.knowndevs)
          (dev_create_vnode m block s)
  unfolding dev_create_vnode vnode_init
  created m block s locked = elim (Bool-cases m.vnode) [
    | inl there ↦ rw (there, locked) (record { holds = (refl, refl) })
    | inr gone ↦ rw gone (record { holds = refl })
  ]

  -- The entry that `vfs_doadd` makes.
  abbrev pub new_entry : (block : ℕ) → Name → (mountable : Bool) → (dev fs : Option ℕ) → Knowndev
  new_entry block dname mountable dev fs = record {
    kd_name = dname;
    kd_rawname = if mountable then some (mkrawname dname) else none;
    kd_device = dev;
    kd_vnode = block;
    kd_fs = fs;
  }

  enter_later :
      (room : Bool) (kd : Knowndev) (s s1 : Vfs W)
      → Unique o s.knowndevs
      → s1.knowndevs ≡ s.knowndevs
      → After ⊥ (λ _. Added s kd) (λ s2. s2.knowndevs ≡ s.knowndevs) (enter o room kd s1)
  enter_later room kd s s1 u same =
      weaken-After _ (enter-Adds room kd s1 (rw same u))
        (λ _ s2 (e, u2). (e ∙ ap (λ kds. kds ++ (kd ∷ [])) same, u2)) (λ s2 e. e ∙ same)

  -- In a table in which no two entries share a name, `vfs_doadd` puts the new entry last, and still
  -- no two entries share a name, or it fails and leaves the table as it was. It does not panic, if
  -- there is memory for the lock of a vnode.
  pub vfs_doadd-Adds :
      (m : Memory) (block : ℕ) (dname : Name) (mountable : Bool) (dev fs : Option ℕ) (s : Vfs W)
      → m.lock ≡ true
      → Unique o s.knowndevs
      → After ⊥
          (λ _. Added s (new_entry block dname mountable dev fs))
          (λ s1. s1.knowndevs ≡ s.knowndevs)
          (vfs_doadd o m block dname mountable dev fs s)
  unfolding vfs_doadd
  vfs_doadd-Adds m block dname mountable dev fs s locked u =
      elim (Bool-cases (m.name && (not mountable || m.rawname))) [
        | inr no_names ↦ rw no_names (record { holds = refl })
        | inl names_there ↦ rw names_there (
            bind-After (dev_create_vnode m block) finish s (created m block s locked)
              (λ v s1 (e, same). finished v s1 e same (Bool-cases m.kd)))
      ]
    where
      finish : ℕ → M W (Unit {0})
      finish v = if m.kd then enter o m.table (new_entry v dname mountable dev fs) else fail enomem

      finished :
          (v : ℕ) (s1 : Vfs W)
          → v ≡ block
          → s1.knowndevs ≡ s.knowndevs
          → (m.kd ≡ true) ⊎ (m.kd ≡ false)
          → After ⊥
              (λ _. Added s (new_entry block dname mountable dev fs))
              (λ s2. s2.knowndevs ≡ s.knowndevs)
              (finish v s1)
      finished v s1 e same (inr gone) = rw gone (record { holds = same })
      finished v s1 e same (inl there) =
          rw (there, e) (enter_later m.table (new_entry block dname mountable dev fs) s s1 u same)
