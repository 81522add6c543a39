-- ===== src/Vfs/Lookup.antt =====
-- vfslookup.c, from a path to a vnode, and vfs_getcurdir of vfscwd.c, the current directory of the thread
-- that runs.
use cse.Base.{ℕ, ◌==◌, Option, none, some, [], ◌∷◌, if◌then◌else◌}
use cse.Base.Outcome.{ok, panic, einval, enoent}
use cse.Vfs.{Name, Ops, M, pure, fail, lift, finally, ◌>>=◌, ◌>>◌}
use cse.Vfs.Vnode.{vnode_check, vnode_incref, vnode_decref}
use cse.Vfs.Devices.{vfs_getroot}

-- What stands first in a path, a colon or a slash: the part before it, and the part behind it.
pub data Head : Type 0 where
  bare : Head
  at_colon at_slash : (before after : Name) → Head

abbrev pub behind : (c : ℕ) → Head → Head
behind c bare = bare
behind c (at_colon before after) = at_colon (c ∷ before) after
behind c (at_slash before after) = at_slash (c ∷ before) after

-- The loop of `getdevice` over the path; a colon is 58 and a slash is 47.
abbrev pub head : Name → Head
head [] = bare
head (c ∷ cs) =
    if c == 58 then at_colon [] cs else if c == 47 then at_slash [] cs else behind c (head cs)

abbrev pub skip_slashes : Name → Name
skip_slashes [] = []
skip_slashes (c ∷ cs) = if c == 47 then skip_slashes cs else c ∷ cs

-- Which vnode the lookup starts from, and the path from there.
pub data Start : Type 0 where
  from_cwd from_bootfs from_cwd_root : Name → Start
  from_device : (device : Name) → Name → Start

abbrev pub split : Name → Head → Start
split path bare = from_cwd path
split path (at_colon [] after) = from_cwd_root (skip_slashes after)
split path (at_colon (c ∷ cs) after) = from_device (c ∷ cs) (skip_slashes after)
split path (at_slash [] after) = from_bootfs (skip_slashes after)
split path (at_slash (c ∷ cs) after) = from_cwd path

module _ {W : Type 0} where
  -- A new reference to a vnode that may be NULL.
  unfoldable pub reference : Option ℕ → M W ℕ
  unfolding vnode_incref
  reference none = fail enoent
  reference (some v) = vnode_incref v >> pure v

  unfoldable pub vfs_getcurdir : M W ℕ
  unfolding reference
  vfs_getcurdir s = reference s.cwd s

  unfoldable pub getbootfs : M W ℕ
  unfolding reference
  getbootfs s = reference s.bootfs_vnode s

  -- The assertion that there is a file system.
  unfoldable pub the_fs : Option ℕ → M W ℕ
  the_fs none s = (s, panic)
  the_fs (some fs) s = (s, ok fs)

  unfoldable pub fs_of : (vn : ℕ) → M W ℕ
  unfolding the_fs
  fs_of vn s = the_fs (s.nodes.vn_fs vn) s

module _ {W : Type 0} (o : Ops W) where
  -- The root of the file system of a vnode that is held, in its place.
  unfoldable pub root_of : (vn : ℕ) → Name → M W (ℕ × Name)
  unfolding fs_of vnode_decref
  root_of vn path = do
    fs ← fs_of vn
    root ← lift (o.getroot fs)
    vnode_decref o vn
    pure (root, path)

  unfoldable pub start : Start → M W (ℕ × Name)
  unfolding vfs_getcurdir getbootfs vfs_getroot root_of
  start (from_cwd path) = vfs_getcurdir >>= λ vn. pure (vn, path)
  start (from_bootfs path) = getbootfs >>= λ vn. pure (vn, path)
  start (from_cwd_root path) = vfs_getcurdir >>= λ vn. root_of vn path
  start (from_device device path) = vfs_getroot o device >>= λ vn. pure (vn, path)

  unfoldable pub getdevice : Name → M W (ℕ × Name)
  unfolding start
  getdevice path = start (split path (head path))

  unfoldable pub lookparent_from : (ℕ × Name) → M W (ℕ × Name)
  unfolding vnode_check
  lookparent_from (vn, []) = fail einval
  lookparent_from (vn, c ∷ cs) = vnode_check vn >> lift (o.lookparent vn (c ∷ cs))

  unfoldable pub vfs_lookparent : Name → M W (ℕ × Name)
  unfolding vnode_decref getdevice lookparent_from
  vfs_lookparent path =
      getdevice path >>= λ at_vn. finally (lookparent_from at_vn) (vnode_decref o at_vn.0)

  unfoldable pub lookup_from : (ℕ × Name) → M W ℕ
  unfolding vnode_check vnode_decref
  lookup_from (vn, []) = pure vn
  lookup_from (vn, c ∷ cs) =
      finally (vnode_check vn >> lift (o.lookup vn (c ∷ cs))) (vnode_decref o vn)

  unfoldable pub vfs_lookup : Name → M W ℕ
  unfolding getdevice lookup_from
  vfs_lookup path = getdevice path >>= lookup_from
