-- ===== src/Vfs.antt =====
-- The layer above the file systems: os161/kern/fs/vfs, with include/vnode.h and include/fs.h. A vnode,
-- a device and a file system are the numbers of their objects; a string is the list of its bytes.
-- A file system is its table of operations, which work on a state of their own and on the counts
-- of the vnodes. The locks are not here: each call runs alone.
use cse.Base.{ℕ, zero, suc, ◌+◌, Bool, true, false, Option, none, some, List, ◌==◌, if◌then◌else◌}
use cse.Base.Outcome.{Outcome, ok, err, panic, Errno}
pub mod Vnode
pub mod Devices
pub mod Mount
pub mod Lookup
pub mod Current
pub mod Path
pub mod After
pub mod Owns
pub mod Drops
pub mod Starts
pub mod Lookups
pub mod Opens
pub mod Renames
pub mod Currents
pub mod Session
pub mod Table
pub mod Adds
pub mod Mounts
pub mod Unmounts
pub mod Parse
mod Tests

abbrev pub Name : Type 0
Name = List ℕ

-- The counts of the vnodes and the `vn_fs` of each, with the state of the file systems.
pub record Vnodes (W : Type 0) : Type 0 where
  pub refcount : ℕ → ℕ
  pub opencount : ℕ → ℕ
  pub vn_fs : ℕ → Option ℕ
  pub fs_state : W

-- The operations of `struct vnode_ops` that hand back no vnode, with their arguments.
pub data Vop : Type 0 where
  open_op truncate_op : (vn arg : ℕ) → Vop
  close_op readlink_op : (vn : ℕ) → Vop
  remove_op mkdir_op rmdir_op : (dir : ℕ) (name : Name) → Vop
  symlink_op : (dir : ℕ) (contents name : Name) → Vop
  link_op : (dir : ℕ) (name : Name) (file : ℕ) → Vop
  rename_op : (dir1 : ℕ) (name1 : Name) (dir2 : ℕ) (name2 : Name) → Vop

-- `struct vnode_ops` and `struct fs`: what the tables of the file systems answer.
pub record Ops (W : Type 0) : Type 0 where
  pub vop : Vop → Vnodes W → Vnodes W × Outcome (Unit {0})
  pub reclaim : (vn : ℕ) → Vnodes W → Vnodes W × Outcome (Unit {0})
  pub gettype : (vn : ℕ) → Vnodes W → Vnodes W × Outcome ℕ
  pub creat : (dir : ℕ) (name : Name) (excl : Bool) → Vnodes W → Vnodes W × Outcome ℕ
  pub lookup : (dir : ℕ) (path : Name) → Vnodes W → Vnodes W × Outcome ℕ
  pub lookparent : (dir : ℕ) (path : Name) → Vnodes W → Vnodes W × Outcome (ℕ × Name)
  pub getroot : (fs : ℕ) → Vnodes W → Vnodes W × Outcome ℕ
  pub sync : (fs : ℕ) → Vnodes W → Vnodes W × Outcome (Unit {0})
  pub unmount : (fs : ℕ) → Vnodes W → Vnodes W × Outcome (Unit {0})
  pub getvolname : (fs : ℕ) → Option Name

-- `struct knowndev`.
pub record Knowndev : Type 0 where
  pub kd_name : Name
  pub kd_rawname : Option Name
  pub kd_device : Option ℕ
  pub kd_vnode : ℕ
  pub kd_fs : Option ℕ

-- The state of the layer: `cwd` is `t_cwd` of the thread that runs.
pub record Vfs (W : Type 0) : Type 0 where
  pub nodes : Vnodes W
  pub cwd : Option ℕ
  pub bootfs_vnode : Option ℕ
  pub knowndevs : List Knowndev

abbrev pub M : (W A : Type 0) → Type 0
M W A = Vfs W → Vfs W × Outcome A

module _ {W : Type 0} where
  abbrev pub pure : {A : Type 0} → A → M W A
  pure a s = (s, ok a)

  abbrev pub fail : {A : Type 0} → Errno → M W A
  fail e s = (s, err e)

  -- What follows an operation that ended in a state with an answer.
  abbrev pub next : {A B : Type 0} → Vfs W → Outcome A → (A → M W B) → Vfs W × Outcome B
  next s (ok a) f = f a s
  next s (err e) f = (s, err e)
  next s panic f = (s, panic)

  infixl 5 ◌>>=◌ ◌>>◌
  abbrev pub ◌>>=◌ : {A B : Type 0} → M W A → (A → M W B) → M W B
  ◌>>=◌ m f s = let (s1, r) = m s in next s1 r f

  abbrev pub ◌>>◌ : {B : Type 0} → M W (Unit {0}) → M W B → M W B
  m >> k = m >>= λ _. k

  abbrev pub next_finally : {A : Type 0} → Vfs W → Outcome A → M W (Unit {0}) → Vfs W × Outcome A
  next_finally s (ok a) k = (k >> pure a) s
  next_finally s (err e) k = (k >> fail e) s
  next_finally s panic k = (s, panic)

  -- `k` is done whether or not `m` fails, and the answer is that of `m`.
  abbrev pub finally : {A : Type 0} → M W A → M W (Unit {0}) → M W A
  finally m k s = let (s1, r) = m s in next_finally s1 r k

  abbrev pub next_on_error : {A : Type 0} → Vfs W → Outcome A → M W (Unit {0}) → Vfs W × Outcome A
  next_on_error s (ok a) k = (s, ok a)
  next_on_error s (err e) k = (k >> fail e) s
  next_on_error s panic k = (s, panic)

  -- `k` is done where `m` fails.
  abbrev pub on_error : {A : Type 0} → M W A → M W (Unit {0}) → M W A
  on_error m k s = let (s1, r) = m s in next_on_error s1 r k

  -- A call of a file system.
  abbrev pub lift : {A : Type 0} → (Vnodes W → Vnodes W × Outcome A) → M W A
  lift call s = let (n, r) = call s.nodes in (record s { nodes = n }, r)

abbrev pub put {ℓ} : {A : Type ℓ} → (ℕ → A) → (v : ℕ) → A → ℕ → A
put f v a u = if u == v then a else f u
