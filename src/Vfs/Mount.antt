-- ===== src/Vfs/Mount.antt =====
-- vfslist.c: the operations that change the table of devices. A file system is mounted by a function
-- of the device; the blocks that the failing ways out give back are not here.
use cse.Base.{
  ℕ, Bool, false, not, ◌&&◌, ◌||◌, Option, none, some, List, [], ◌∷◌, ◌++◌, if◌then◌else◌,
}
use cse.Base.Outcome.{Outcome, ok, err, panic, einval, enomem, eexist, ebusy}
use cse.Vfs.{Name, Knowndev, Vnodes, Vfs, Ops, M, pure, fail, next, lift, ◌>>=◌, ◌>>◌}
use cse.Vfs.Devices.{
  Memory, is_set, mkrawname, dev_create_vnode, entry, set_fs, findmount, volname, badnames,
  assert_set, next_must,
}

module _ {W : Type 0} where
  abbrev pub array_add : (room : Bool) → Knowndev → M W (Unit {0})
  array_add room kd s =
      if room then (record s { knowndevs = s.knowndevs ++ (kd ∷ []) }, ok tt) else (s, err enomem)

  abbrev pub find : Name → M W ℕ
  unfolding findmount
  find devname s = (s, findmount s.knowndevs 0 devname)

module _ {W : Type 0} (o : Ops W) where
  -- The entry goes in, if none of its names is there.
  unfoldable pub enter : (room : Bool) → Knowndev → M W (Unit {0})
  unfolding badnames
  enter room kd s =
      if badnames o s.knowndevs (some kd.kd_name) kd.kd_rawname (volname o kd.kd_fs)
      then (s, err eexist)
      else array_add room kd s

  -- The number of the vnode is that of the block that `kmalloc` answers for it.
  unfoldable pub vfs_doadd :
      Memory → (block : ℕ) → Name → (mountable : Bool) → (dev fs : Option ℕ) → M W (Unit {0})
  unfolding enter
  vfs_doadd m block dname mountable dev fs =
      let rawname : Option Name = if mountable then some (mkrawname dname) else none in
      if m.name && (not mountable || m.rawname)
      then dev_create_vnode m block >>= (λ vnode.
        if m.kd
        then enter m.table (record {
          kd_name = dname;
          kd_rawname = rawname;
          kd_device = dev;
          kd_vnode = vnode;
          kd_fs = fs;
        })
        else fail enomem)
      else fail enomem

  unfoldable pub vfs_adddev :
      Memory → (block : ℕ) → Name → (dev : ℕ) → (mountable : Bool) → M W (Unit {0})
  unfolding vfs_doadd
  vfs_adddev m block devname dev mountable = vfs_doadd m block devname mountable (some dev) none

  unfoldable pub vfs_addfs : Memory → (block : ℕ) → Name → (fs : ℕ) → M W (Unit {0})
  unfolding vfs_doadd
  vfs_addfs m block devname fs = vfs_doadd m block devname false none (some fs)

  -- `null` is the name 110, 117, 108, 108; its device is the number of the block for it, if there is one.
  unfoldable pub devnull_create : Memory → (dev : Option ℕ) (block : ℕ) → M W (Unit {0})
  unfolding vfs_adddev
  devnull_create m none block s = (s, panic)
  devnull_create m (some dev) block s =
      let (s1, r) = vfs_adddev m block (110 ∷ 117 ∷ 108 ∷ 108 ∷ []) dev false s in next_must s1 r

  -- The table, its lock and that of the boot file system are made first.
  unfoldable pub vfs_bootstrap :
      (table lock bootfs_lock : Bool) → Memory → (dev : Option ℕ) (block : ℕ) → M W (Unit {0})
  unfolding devnull_create
  vfs_bootstrap table lock bootfs_lock m dev block s =
      if table && lock && bootfs_lock
      then devnull_create m dev block (record s { knowndevs = [] })
      else (s, panic)

  -- `mountfunc` sets up the file system on the device.
  unfoldable pub mount_on :
      (mountfunc : ℕ → Vnodes W → Vnodes W × Outcome ℕ) → ℕ → Knowndev → Option ℕ → M W (Unit {0})
  mount_on mountfunc i kd none s = (s, panic)
  mount_on mountfunc i kd (some dev) s = (lift (mountfunc dev) >>= λ fs. set_fs i kd (some fs)) s

  unfoldable pub vfs_mount :
      Name → (mountfunc : ℕ → Vnodes W → Vnodes W × Outcome ℕ) → M W (Unit {0})
  unfolding find mount_on
  vfs_mount devname mountfunc = do
    i ← find devname
    kd ← entry i
    (if is_set kd.kd_fs
        then fail ebusy
        else assert_set kd.kd_rawname (mount_on mountfunc i kd kd.kd_device))

  -- `FSOP_SYNC`, then `FSOP_UNMOUNT`.
  unfoldable pub release : (fs : ℕ) → M W (Unit {0})
  release fs = lift (o.sync fs) >> lift (o.unmount fs)

  unfoldable pub unmount_from : ℕ → Knowndev → Option ℕ → M W (Unit {0})
  unfolding release
  unmount_from i kd none = fail einval
  unmount_from i kd (some fs) =
      assert_set kd.kd_rawname (assert_set kd.kd_device (release fs >> set_fs i kd none))

  unfoldable pub vfs_unmount : Name → M W (Unit {0})
  unfolding find unmount_from
  vfs_unmount devname = do i ← find devname; kd ← entry i; unmount_from i kd kd.kd_fs

  -- The second try of a sync that failed.
  abbrev pub next_sync : Vfs W → Outcome (Unit {0}) → (fs : ℕ) → Vfs W × Outcome (Unit {0})
  next_sync s (ok _) fs = (s, ok tt)
  next_sync s (err _) fs = lift (o.sync fs) s
  next_sync s panic fs = (s, panic)

  -- The entry that is left: every error keeps the file system.
  abbrev pub next_entry : Vfs W → Outcome (Unit {0}) → Knowndev → Vfs W × Outcome Knowndev
  next_entry s (ok _) kd = (s, ok (record kd { kd_fs = none }))
  next_entry s (err _) kd = (s, ok kd)
  next_entry s panic kd = (s, panic)

  -- An entry with a raw name and a file system, or with NULL for one of them.
  unfoldable pub unmount_if : Option Name → Option ℕ → Knowndev → M W Knowndev
  unmount_if none fs kd = pure kd
  unmount_if (some raw) none kd = pure kd
  unmount_if (some raw) (some fs) kd = λ s.
      let (s1, r) = lift (o.sync fs) s in
      let (s2, r2) = next_sync s1 r fs in
      let (s3, r3) = next s2 r2 (λ _. lift (o.unmount fs)) in next_entry s3 r3 kd

  unfoldable pub unmount_entry : Knowndev → M W Knowndev
  unfolding unmount_if
  unmount_entry kd = unmount_if kd.kd_rawname kd.kd_fs kd

  -- The entries as the loop leaves them.
  unfoldable pub unmountall_loop : List Knowndev → M W (List Knowndev)
  unfolding unmount_entry
  unmountall_loop [] = pure []
  unmountall_loop (kd ∷ kds) = do
    kd1 ← unmount_entry kd
    kds1 ← unmountall_loop kds
    pure (kd1 ∷ kds1)

  unfoldable pub vfs_unmountall : M W (Unit {0})
  unfolding unmountall_loop
  vfs_unmountall s =
      let (s1, r) = unmountall_loop s.knowndevs s in
      next s1 r (λ kds s2. (record s2 { knowndevs = kds }, ok tt))
