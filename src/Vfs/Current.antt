-- ===== src/Vfs/Current.antt =====
-- vfscwd.c and the boot file system of vfslookup.c: the vnodes that a lookup can start from.
use cse.Base.{
  ℕ, ◌/◌, ◌%◌, ◌==◌, Bool, Option, none, some, [], ◌∷◌, ◌++◌, if◌then◌else◌, ltb, take, length,
}
use cse.Base.Outcome.{einval, enotdir}
use cse.Vfs.{Name, Ops, M, pure, fail, lift, finally, ◌>>=◌, ◌>>◌}
use cse.Vfs.Vnode.{vnode_check, vnode_incref, vnode_decref}
use cse.Vfs.Lookup.{vfs_getcurdir, vfs_lookup}

-- `S_ISDIR`: the octal digit 020000 of the mode.
abbrev pub s_isdir : ℕ → Bool
s_isdir mode = mode / 4096 % 8 == 2

-- `strchr`: the string from the byte on.
abbrev pub strchr : Name → (c : ℕ) → Option Name
strchr [] c = none
strchr (a ∷ s) c = if a == c then some (a ∷ s) else strchr s c

module _ {W : Type 0} (o : Ops W) where
  unfoldable pub drop_old : Option ℕ → M W (Unit {0})
  unfolding vnode_decref
  drop_old none = pure tt
  drop_old (some old) = vnode_decref o old

  unfoldable pub set_cwd : Option ℕ → M W (Unit {0})
  unfolding drop_old
  set_cwd dir s = drop_old s.cwd (record s { cwd = dir })

  unfoldable pub set_typed : (dir : ℕ) → (vtype : ℕ) → M W (Unit {0})
  unfolding vnode_incref set_cwd
  set_typed dir vtype =
      if s_isdir vtype then vnode_incref dir >> set_cwd (some dir) else fail enotdir

  unfoldable pub vfs_setcurdir : (dir : ℕ) → M W (Unit {0})
  unfolding vnode_check set_typed
  vfs_setcurdir dir = vnode_check dir >> (lift (o.gettype dir) >>= set_typed dir)

  unfoldable pub vfs_clearcurdir : M W (Unit {0})
  unfolding set_cwd
  vfs_clearcurdir = set_cwd none

  unfoldable pub vfs_chdir : Name → M W (Unit {0})
  unfolding vfs_lookup vfs_setcurdir vnode_decref
  vfs_chdir path = vfs_lookup o path >>= λ vn. finally (vfs_setcurdir vn) (vnode_decref o vn)

  unfoldable pub change_bootfs : Option ℕ → M W (Unit {0})
  unfolding drop_old
  change_bootfs newguy s = drop_old s.bootfs_vnode (record s { bootfs_vnode = newguy })

  unfoldable pub vfs_clearbootfs : M W (Unit {0})
  unfolding change_bootfs
  vfs_clearbootfs = change_bootfs none

  -- What `vfs_setbootfs` does with the path of the file system.
  unfoldable pub boot_from : Name → M W (Unit {0})
  unfolding vfs_chdir vfs_getcurdir change_bootfs
  boot_from path = do vfs_chdir path; newguy ← vfs_getcurdir; change_bootfs (some newguy)

  -- With what `strchr` found.
  unfoldable pub boot_at : (colon : Option Name) → (tmp : Name) → M W (Unit {0})
  unfolding boot_from
  boot_at (some s) tmp = if ltb 0 (length s) then fail einval else boot_from tmp
  boot_at none tmp = boot_from (tmp ++ (58 ∷ []))

  -- `tmp` holds NAME_MAX + 1 = 256 bytes, of which `snprintf` fills at most 254 with the name.
  unfoldable pub vfs_setbootfs : Name → M W (Unit {0})
  unfolding boot_at
  vfs_setbootfs fsname = boot_at (strchr (take 254 fsname) 58) (take 254 fsname)
