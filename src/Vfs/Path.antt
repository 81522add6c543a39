-- ===== src/Vfs/Path.antt =====
-- vfspath.c: the operations on paths.
use cse.Base.{ℕ, ◌/◌, ◌%◌, ◌==◌, Bool, true, false, Option, none, some, if◌then◌else◌}
use cse.Base.Outcome.{err, einval, exdev}
use cse.Vfs.{
  Name, Ops, M, Vop, open_op, truncate_op, readlink_op, remove_op, mkdir_op, rmdir_op, symlink_op,
  link_op, rename_op, pure, fail, lift, finally, on_error, ◌>>=◌, ◌>>◌,
}
use cse.Vfs.Vnode.{vnode_check, vnode_decref, vnode_incopen, vnode_decopen}
use cse.Vfs.Lookup.{vfs_lookup, vfs_lookparent}

-- The flags of `open`.
abbrev pub flag : (bit flags : ℕ) → Bool
flag bit flags = flags / bit % 2 == 1

-- Whether the mode writes; no mode but 0, 1 and 2 is known.
abbrev pub can_write : (flags : ℕ) → Option Bool
can_write flags =
    if flags % 4 == 0
    then some false
    else if flags % 4 == 1
    then some true
    else if flags % 4 == 2
    then some true
    else none

-- Both vnodes have a file system, the same one.
abbrev pub same_fs : Option ℕ → Option ℕ → Bool
same_fs (some a) (some b) = a == b
same_fs _ _ = false

module _ {W : Type 0} (o : Ops W) where
  -- `VOP_*` on a vnode, which is checked first.
  unfoldable pub call : (vn : ℕ) → Vop → M W (Unit {0})
  unfolding vnode_check
  call vn op = vnode_check vn >> lift (o.vop op)

  -- An operation on the last name of a path, in the directory that holds it.
  unfoldable pub in_parent : {A : Type 0} → Name → (ℕ → Name → M W A) → M W A
  unfolding vfs_lookparent vnode_decref
  in_parent path f = vfs_lookparent o path >>= λ p. finally (f p.0 p.1) (vnode_decref o p.0)

  unfoldable pub vop_creat : (excl : Bool) → (dir : ℕ) → Name → M W ℕ
  unfolding vnode_check
  vop_creat excl dir name = vnode_check dir >> lift (o.creat dir name excl)

  -- The vnode that `vfs_open` opens.
  unfoldable pub find_or_create : Name → (flags : ℕ) → M W ℕ
  unfolding in_parent vop_creat vfs_lookup
  find_or_create path flags =
      if flag 4 flags then in_parent path (vop_creat (flag 8 flags)) else vfs_lookup o path

  -- What a file that is opened with O_TRUNC gets.
  unfoldable pub truncate_open : (vn : ℕ) → (canwrite : Bool) → M W (Unit {0})
  unfolding call
  truncate_open vn canwrite = if canwrite then call vn (truncate_op vn 0) else fail einval

  unfoldable pub vfs_close : (vn : ℕ) → M W (Unit {0})
  unfolding vnode_decopen vnode_decref
  vfs_close vn = vnode_decopen o vn >> vnode_decref o vn

  unfoldable pub open_vnode : (flags : ℕ) → (canwrite : Bool) → (vn : ℕ) → M W ℕ
  unfolding call vnode_decref vnode_incopen truncate_open vfs_close
  open_vnode flags canwrite vn = do
    on_error (call vn (open_op vn flags)) (vnode_decref o vn)
    vnode_incopen vn
    on_error (if flag 16 flags then truncate_open vn canwrite else pure tt) (vfs_close vn)
    pure vn

  unfoldable pub open_as : (canwrite : Option Bool) → Name → (flags : ℕ) → M W ℕ
  unfolding find_or_create open_vnode
  open_as none path flags = fail einval
  open_as (some canwrite) path flags =
      find_or_create path flags >>= λ vn. open_vnode flags canwrite vn

  unfoldable pub vfs_open : Name → (flags : ℕ) → M W ℕ
  unfolding open_as
  vfs_open path flags = open_as (can_write flags) path flags

  unfoldable pub vfs_remove : Name → M W (Unit {0})
  unfolding in_parent call
  vfs_remove path = in_parent path (λ dir name. call dir (remove_op dir name))

  unfoldable pub vfs_mkdir : Name → M W (Unit {0})
  unfolding in_parent call
  vfs_mkdir path = in_parent path (λ parent name. call parent (mkdir_op parent name))

  unfoldable pub vfs_rmdir : Name → M W (Unit {0})
  unfolding in_parent call
  vfs_rmdir path = in_parent path (λ parent name. call parent (rmdir_op parent name))

  unfoldable pub vfs_symlink : (contents path : Name) → M W (Unit {0})
  unfolding in_parent call
  vfs_symlink contents path =
      in_parent path (λ newdir newname. call newdir (symlink_op newdir newname contents))

  unfoldable pub vfs_readlink : Name → M W (Unit {0})
  unfolding vfs_lookup call vnode_decref
  vfs_readlink path =
      vfs_lookup o path >>= λ vn. finally (call vn (readlink_op vn)) (vnode_decref o vn)

  -- EXDEV, unless the two vnodes are on one file system.
  unfoldable pub on_same_fs : (vn1 vn2 : ℕ) → Vop → M W (Unit {0})
  unfolding call
  on_same_fs vn1 vn2 op s =
      if same_fs (s.nodes.vn_fs vn1) (s.nodes.vn_fs vn2) then call vn2 op s else (s, err exdev)

  -- The second half of `vfs_rename` and `vfs_link`: the old vnode is held.
  unfoldable pub with_new :
      (old : ℕ) → (newpath : Name) → (ℕ → Name → M W (Unit {0})) → M W (Unit {0})
  unfolding vfs_lookparent vnode_decref
  with_new old newpath f = do
    (newdir, newname) ← on_error (vfs_lookparent o newpath) (vnode_decref o old)
    finally (f newdir newname) (vnode_decref o newdir >> vnode_decref o old)

  unfoldable pub vfs_rename : (oldpath newpath : Name) → M W (Unit {0})
  unfolding vfs_lookparent with_new on_same_fs
  vfs_rename oldpath newpath = do
    (olddir, oldname) ← vfs_lookparent o oldpath
    with_new olddir newpath
        (λ newdir newname. on_same_fs newdir olddir (rename_op olddir oldname newdir newname))

  unfoldable pub vfs_link : (oldpath newpath : Name) → M W (Unit {0})
  unfolding vfs_lookup with_new on_same_fs
  vfs_link oldpath newpath = do
    oldfile ← vfs_lookup o oldpath
    with_new oldfile newpath
        (λ newdir newname. on_same_fs oldfile newdir (link_op newdir newname oldfile))
