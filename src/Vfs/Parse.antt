-- ===== src/Vfs/Parse.antt =====
-- How a path is split: getdevice and vfs_setbootfs of vfslookup.c.
use cse.Base.{
  ℕ, zero, suc, ◌≡◌, refl, arith, Bool, true, false, [], ◌∷◌, ◌++◌, ◌==◌, mem, take, length,
  replicate, ◌≢◌, not-==, eq→==, lt→ltb, ℕ_discrete,
}
use cse.Base.Outcome.{err, einval}
use cse.Vfs.{Name, Vfs, Ops, pure, ◌>>=◌}
use cse.Vfs.Devices.{vfs_getroot}
use cse.Vfs.Lookup.{
  bare, at_colon, at_slash, head, skip_slashes, vfs_getcurdir, getbootfs, root_of, start, getdevice,
}
use cse.Vfs.Current.{strchr, boot_at, vfs_setbootfs}

-- There is no colon and no slash in it.
abbrev pub Plain : Name → Type 0
Plain name = (mem 58 name ≡ false) × (mem 47 name ≡ false)

head-bare : (name : Name) → mem 58 name ≡ false → mem 47 name ≡ false → head name ≡ bare
head-bare [] h k = refl
head-bare (c ∷ cs) h k = ground (arith, head-bare cs)

head-colon :
    (name rest : Name)
    → mem 58 name ≡ false
    → mem 47 name ≡ false
    → head (name ++ (58 ∷ rest)) ≡ at_colon name rest
head-colon [] rest h k = refl
head-colon (c ∷ cs) rest h k = ground (arith, head-colon cs rest)

head-slash :
    (name rest : Name)
    → mem 58 name ≡ false
    → mem 47 name ≡ false
    → head (name ++ (47 ∷ rest)) ≡ at_slash name rest
head-slash [] rest h k = refl
head-slash (c ∷ cs) rest h k = ground (arith, head-slash cs rest)

abbrev pub starts_slash : Name → Bool
starts_slash [] = false
starts_slash (c ∷ cs) = c == 47

skip_slashes-none : (rest : Name) → starts_slash rest ≡ false → skip_slashes rest ≡ rest
skip_slashes-none [] h = refl
skip_slashes-none (c ∷ cs) h = rw h refl

skip_slashes-all :
    (n : ℕ) (rest : Name) → starts_slash rest ≡ false → skip_slashes (replicate n 47 ++ rest) ≡ rest
skip_slashes-all zero rest h = skip_slashes-none rest h
skip_slashes-all (suc n) rest h = skip_slashes-all n rest h

-- Which vnode a path starts from, and with what path from there, where `n` slashes stand before the rest.
pub record Parses {W : Type 0} (o : Ops W) (s : Vfs W) (name : Name) (n : ℕ) (rest : Name)
    : Type 0 where
  pub device :
      name ≢ []
      → getdevice o (name ++ (58 ∷ (replicate n 47 ++ rest))) s
        ≡ (vfs_getroot o name >>= λ vn. pure (vn, rest)) s
  pub relative : getdevice o name s ≡ (vfs_getcurdir >>= λ vn. pure (vn, name)) s
  pub in_directory :
      name ≢ []
      → getdevice o (name ++ (47 ∷ rest)) s
        ≡ (vfs_getcurdir >>= λ vn. pure (vn, name ++ (47 ∷ rest))) s
  pub absolute :
      getdevice o (47 ∷ (replicate n 47 ++ rest)) s ≡ (getbootfs >>= λ vn. pure (vn, rest)) s
  pub in_volume :
      getdevice o (58 ∷ (replicate n 47 ++ rest)) s ≡ (vfs_getcurdir >>= λ vn. root_of o vn rest) s

module _ {W : Type 0} (o : Ops W) where
  -- If the name has no colon and no slash and the rest does not start with a slash, `getdevice` looks a
  -- device name before a colon up and skips the slashes behind the colon; the name alone or before a
  -- slash makes a path from the current directory. A path that starts with a slash is one from the
  -- boot file system, and one with a colon first from the root of that of the current directory.
  pub getdevice-Parses :
      (s : Vfs W) (name : Name) (n : ℕ) (rest : Name)
      → Plain name
      → starts_slash rest ≡ false
      → Parses o s name n rest
  unfolding getdevice start
  getdevice-Parses s [] n rest (no_colon, no_slash) plain = record {
    device = λ h. absurd (h refl);
    relative = refl;
    in_directory = λ h. absurd (h refl);
    absolute = rw (skip_slashes-all n rest plain) refl;
    in_volume = rw (skip_slashes-all n rest plain) refl;
  }
  getdevice-Parses s (c ∷ cs) n rest (no_colon, no_slash) plain = record {
    device = λ _.
        rw
          (
            head-colon (c ∷ cs) (replicate n 47 ++ rest) no_colon no_slash,
            skip_slashes-all n rest plain,
          )
          refl;
    relative = rw (head-bare (c ∷ cs) no_colon no_slash) refl;
    in_directory = λ _. rw (head-slash (c ∷ cs) rest no_colon no_slash) refl;
    absolute = rw (skip_slashes-all n rest plain) refl;
    in_volume = rw (skip_slashes-all n rest plain) refl;
  }

  boot_at-colon :
      (name tmp : Name) (s : Vfs W)
      → mem 58 name ≡ true
      → boot_at o (strchr name 58) tmp s ≡ (s, err einval)
  unfolding boot_at
  boot_at-colon [] tmp s h = absurd (ground (arith, h))
  boot_at-colon (c ∷ cs) tmp s h = elim (ℕ_discrete c 58) [
    | yes e ↦ rw (eq→== e, lt→ltb 0 (length (c ∷ cs)) (omega arith)) refl
    | no ne ↦ rw (not-== ne) (boot_at-colon cs tmp s (ground (arith, h, ne)))
  ]

  -- `vfs_setbootfs` refuses every name with a colon among its first 254 bytes, and changes nothing.
  pub vfs_setbootfs-colon :
      (name : Name) (s : Vfs W)
      → mem 58 (take 254 name) ≡ true
      → vfs_setbootfs o name s ≡ (s, err einval)
  unfolding vfs_setbootfs
  vfs_setbootfs-colon name s h = boot_at-colon (take 254 name) (take 254 name) s h
