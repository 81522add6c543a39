-- ===== src/Vfs/Tests.antt =====
-- A file system with one directory and one file, calls on it, and the theorems at inputs that meet
-- their hypotheses.
use cse.Base.{
  same_string→eq, ℕ, ◌+◌, ◌≡◌, refl, arith, Bool, true, false, ◌&&◌, Option, none, some, List, [],
  ◌∷◌, ◌==◌, if◌then◌else◌, get_elem?, eq→==, ap, sym, ◌∙◌, ◌-◌, inl, inr, Bool-cases, ℕ_discrete,
}
use cse.Base.Outcome.{Outcome, ok, err, panic, einval, enodev, ebusy}
use cse.Vfs.{Name, Knowndev, Vnodes, Vfs, Ops, put, ◌>>◌}
use cse.Vfs.Vnode.{
  vnode_kill, vnode_init, vnode_check, vnode_incref, vnode_incopen, vnode_decref, vnode_decopen,
}
use cse.Vfs.Devices.{
  findmount, Memory, is_set, vfs_getroot, getroot_entry, device_vnode, dev_create_vnode, findmount,
  vfs_sync_loop, vfs_sync, getroot_device, getroot_loop, badnames,
}
use cse.Vfs.Mount.{vfs_doadd, vfs_mount, vfs_unmount, vfs_unmountall}
use cse.Vfs.Current.{
  s_isdir, vfs_setbootfs, drop_old, set_cwd, set_typed, vfs_setcurdir, vfs_clearcurdir, vfs_chdir,
  change_bootfs, vfs_clearbootfs, boot_from, boot_at,
}
use cse.Vfs.Path.{
  vfs_open, call, in_parent, vop_creat, find_or_create, truncate_open, vfs_close, open_vnode,
  open_as, vfs_remove, vfs_mkdir, vfs_rmdir, vfs_symlink, vfs_readlink, on_same_fs, with_new,
  vfs_rename, vfs_link,
}
use cse.Vfs.Lookup.{
  reference, vfs_getcurdir, getbootfs, the_fs, fs_of, root_of, start, getdevice, lookparent_from,
  vfs_lookparent, lookup_from, vfs_lookup,
}
use cse.Vfs.After.{After}
use cse.Vfs.Owns.{Same, AtMost, Others, Owns, Respects, Frees, More, one}
use cse.Vfs.Session.{
  Request, open_file, close_file, chdir, setbootfs, rename, remove, run, opens_of, run-Accounts,
  plain, step,
}
use cse.Vfs.Table.{Answers, names, some_names, Unique, vfs_getroot-Finds}
use cse.Vfs.Adds.{Added, new_entry, vfs_doadd-Adds}
use cse.Vfs.Mounts.{mountable, mount-unmount}
use cse.Vfs.Unmounts.{Left, vfs_unmountall-Left}
use cse.Vfs.Parse.{Parses, getdevice-Parses, vfs_setbootfs-colon}

abbrev give : (v : ℕ) → Vnodes ℕ → Vnodes ℕ
give v n = record n {
  refcount = put n.refcount v (n.refcount v + 1);
  vn_fs = if n.refcount v == 0 then put n.vn_fs v (some 7) else n.vn_fs;
}

abbrev mode_if : (directory : Bool) → ℕ
mode_if true = 8192
mode_if false = 4096

-- The root directory is vnode 1 and the file is vnode 2, of file system 7.
abbrev toy : Ops ℕ
toy = record {
  vop = λ op n. (n, ok tt);
  reclaim = λ v n. if v == 1 then (n, err ebusy) else vnode_kill v n;
  gettype = λ v n. (n, ok (mode_if (v == 1 && is_set (n.vn_fs v))));
  creat = λ dir name excl n. (give 2 n, ok 2);
  lookup = λ dir path n. (give 2 n, ok 2);
  lookparent = λ dir path n. (give 1 n, ok (1, path));
  getroot = λ fs n. (give 1 n, ok 1);
  sync = λ fs n. (n, ok tt);
  unmount = λ fs n. (n, ok tt);
  getvolname = λ fs. if fs == 7 then some (118 ∷ []) else none;
}

-- The device `d`, with the raw device `r`, and the table with it and the device `n`.
abbrev disk : Option ℕ → Knowndev
disk = mountable (100 ∷ []) (114 ∷ []) 3 9

abbrev null : Knowndev
null = record {
  kd_name = 110 ∷ [];
  kd_rawname = none;
  kd_device = some 4;
  kd_vnode = 8;
  kd_fs = none;
}

abbrev empty : Option ℕ → Vfs ℕ
empty fs = record {
  nodes = record {
    refcount = λ u. one 9 u + one 8 u;
    opencount = λ u. 0;
    vn_fs = λ u. none;
    fs_state = 0;
  };
  cwd = none;
  bootfs_vnode = none;
  knowndevs = null ∷ disk fs ∷ [];
}

abbrev devices : Others
devices = record {
  refs = λ u. one 9 u + one 8 u;
  opens = λ u. 0;
  within = λ u. omega arith;
  halts = ⊥;
}

empty-Owns : (fs : Option ℕ) → Owns devices [] (empty fs)
empty-Owns fs = record {
  refs = λ u. omega arith;
  spare = λ u. omega arith;
  opens = λ u. omega arith;
  cwd_fs = λ u e. absurd (ground (arith, e));
  table = (
    record { mountable = λ _. refl; unmounted = λ _. refl },
    (record { mountable = λ _. refl; unmounted = λ _. refl }, tt),
  );
}

give-More : (v : ℕ) (n : Vnodes ℕ) → More v n (give v n)
give-More v n = record {
  refs = λ u. ground arith;
  spare = λ u. inl (ground arith);
  opens = λ u few. refl;
  fs = λ u before after. ground arith;
}

-- The file is freed, and the directory keeps its last reference.
toy-reclaim :
    (v : ℕ) (n : Vnodes ℕ) → n.refcount v ≡ 1 → n.opencount v ≡ 0 → Frees ⊥ v n (toy.reclaim v n)
unfolding vnode_kill
toy-reclaim v n last closed = elim (Bool-cases (v == 1)) [
  | inl dir ↦ rw dir (record {
    refs = λ u. ground arith;
    spare = λ u. kept u (ℕ_discrete v u);
    opens = λ u few. refl;
    fs = λ u before after. refl;
  })
  | inr file ↦
      rw (file, eq→== last, eq→== closed)
        (record {
          refs = λ u. ground (arith, last);
          spare = λ u. inl (ground (arith, last));
          opens = λ u few. ground (arith, closed);
          fs = λ u before after. ground (arith, before, after);
        })
]
  where
    kept : (u : ℕ) → Dec (v ≡ u) → AtMost (n.refcount u) (n.refcount u - one v u)
    kept u (yes e) = inr (ground (arith, last, e))
    kept u (no ne) = inl (ground (arith, ne))

abbrev mode_of : Outcome ℕ → ℕ
mode_of (ok m) = m
mode_of (err e) = 0
mode_of panic = 0

toy-directory :
    (f : Bool) (v mode : ℕ) → mode_if (v == 1 && f) ≡ mode → s_isdir mode ≡ true → f ≡ true
toy-directory true v mode e is_dir = refl
toy-directory false v mode e is_dir =
    let file : (v == 1 && false) ≡ false = ground arith in
    let no_dir : s_isdir mode ≡ false = ap s_isdir (sym e) ∙ ap (λ q. s_isdir (mode_if q)) file in
    absurd (ground (arith, is_dir, no_dir))

unchanged : (n : Vnodes ℕ) → Same n n
unchanged n = record {
  refs = λ u. omega arith;
  spare = λ u. inl (omega arith);
  opens = λ u few. refl;
  fs = λ u before after. refl;
}

toy-Respects : Respects ⊥ toy
toy-Respects = record {
  vop = λ op n. unchanged n;
  gettype = λ v n. unchanged n;
  directory = λ v mode n n1 e is_dir.
      let same : n ≡ n1 = ap (λ p. p.0) e in
      ap (λ m. is_set (m.vn_fs v)) (sym same)
      ∙ toy-directory (is_set (n.vn_fs v)) v mode (ap (λ p. mode_of p.1) e) is_dir;
  reclaim = toy-reclaim;
  creat = λ dir name excl n. give-More 2 n;
  lookup = λ dir path n. give-More 2 n;
  lookparent = λ dir path n. give-More 1 n;
  getroot = λ fs n. give-More 1 n;
  sync = λ fs n. unchanged n;
  unmount = λ fs n. unchanged n;
}

-- From the boot file system: a file is made and closed, and the current directory stays.
abbrev calls : List Request
calls =
    setbootfs (100 ∷ [])
    ∷ open_file (47 ∷ 97 ∷ []) 5
    ∷ open_file (97 ∷ []) 0
    ∷ rename (97 ∷ []) (100 ∷ 58 ∷ 98 ∷ [])
    ∷ close_file 0
    ∷ open_file (120 ∷ 58 ∷ []) 0
    ∷ remove (100 ∷ 58 ∷ [])
    ∷ chdir (47 ∷ 97 ∷ [])
    ∷ []

run-Accounts_example :
    After ⊥ (λ files1. Owns devices (opens_of files1)) (λ _. ⊥) (run toy calls [] (empty (some 7)))
run-Accounts_example = run-Accounts toy toy-Respects calls [] (empty (some 7)) (empty-Owns (some 7))

-- What is held after the calls: the directory twice and the file once, open.
calls-counts :
    let s1 = (run toy calls [] (empty (some 7))).0 in
    (s1.nodes.refcount 1 ∷ s1.nodes.refcount 2 ∷ s1.nodes.opencount 2 ∷ []) ≡ (2 ∷ 1 ∷ 1 ∷ [])
unfolding vnode_init vnode_kill vnode_check vnode_incref vnode_incopen vnode_decref vnode_decopen
    device_vnode dev_create_vnode findmount vfs_sync_loop vfs_sync getroot_device getroot_entry
    getroot_loop vfs_getroot badnames reference vfs_getcurdir getbootfs the_fs fs_of root_of start
    getdevice lookparent_from vfs_lookparent lookup_from vfs_lookup drop_old set_cwd set_typed
    vfs_setcurdir vfs_clearcurdir vfs_chdir change_bootfs vfs_clearbootfs boot_from boot_at
    vfs_setbootfs call in_parent vop_creat find_or_create truncate_open vfs_close open_vnode open_as
    vfs_open vfs_remove vfs_mkdir vfs_rmdir vfs_symlink vfs_readlink on_same_fs with_new vfs_rename
    vfs_link plain step run
calls-counts = refl

-- Only `n` is a name of the first entry.
null-alone : (n : Name) → names toy null n ≡ true → some_names toy (disk (some 7) ∷ []) n ≡ false
null-alone n h =
    let e : (110 ∷ []) ≡ n = same_string→eq (110 ∷ []) n (ground (arith, h)) in rw (sym e) refl

empty-Unique : Unique toy (null ∷ disk (some 7) ∷ [])
empty-Unique = (null-alone, (λ n h. refl, tt))

-- The volume name of the file system on the disk.
vfs_getroot-Finds_example :
    ((i : ℕ) (kd : Knowndev)
      → get_elem? (null ∷ disk (some 7) ∷ []) i ≡ some kd
      → names toy kd (118 ∷ []) ≡ true
      → Answers toy kd (118 ∷ []) (empty (some 7)) (vfs_getroot toy (118 ∷ []) (empty (some 7))))
    × (some_names toy (null ∷ disk (some 7) ∷ []) (118 ∷ []) ≡ false
        → vfs_getroot toy (118 ∷ []) (empty (some 7)) ≡ (empty (some 7), err enodev))
vfs_getroot-Finds_example = vfs_getroot-Finds toy (empty (some 7)) (118 ∷ []) empty-Unique

abbrev plenty : Memory
plenty = record { name = true; rawname = true; vnode = true; lock = true; kd = true; table = true }

vfs_doadd-Adds_example :
    After ⊥
      (λ _. Added toy (empty (some 7)) (new_entry toy 20 (101 ∷ []) true (some 5) none))
      (λ s1. s1.knowndevs ≡ null ∷ disk (some 7) ∷ [])
      (vfs_doadd toy plenty 20 (101 ∷ []) true (some 5) none (empty (some 7)))
vfs_doadd-Adds_example =
    vfs_doadd-Adds toy plenty 20 (101 ∷ []) true (some 5) none (empty (some 7)) refl empty-Unique

mount-unmount_example :
    (vfs_mount toy (100 ∷ []) (λ dev n. (n, ok 7)) >> vfs_unmount toy (100 ∷ [])) (empty none)
    ≡ (empty none, ok tt)
unfolding findmount
mount-unmount_example =
    mount-unmount toy (100 ∷ []) (100 ∷ []) (114 ∷ []) 3 9 7 1 (empty none) (λ dev n. (n, ok 7))
      (empty none).nodes (empty none).nodes (empty none).nodes refl refl refl refl refl

vfs_unmountall-Left_example : Left toy (empty (some 7)) (vfs_unmountall toy (empty (some 7)))
vfs_unmountall-Left_example = vfs_unmountall-Left toy (empty (some 7))

getdevice-Parses_example : Parses toy (empty (some 7)) (100 ∷ []) 2 (97 ∷ [])
getdevice-Parses_example =
    getdevice-Parses toy (empty (some 7)) (100 ∷ []) 2 (97 ∷ []) (refl, refl) refl

-- The volume `v:` that holds the boot file system is refused.
vfs_setbootfs-colon_example :
    vfs_setbootfs toy (118 ∷ 58 ∷ []) (empty (some 7)) ≡ (empty (some 7), err einval)
vfs_setbootfs-colon_example = vfs_setbootfs-colon toy (118 ∷ 58 ∷ []) (empty (some 7)) refl
