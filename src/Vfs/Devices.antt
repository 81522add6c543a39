-- ===== src/Vfs/Devices.antt =====
-- vfslist.c, the table of the named devices, with dev_create_vnode of device.c.
use cse.Base.{
  ℕ, ◌+◌, Bool, true, false, ◌&&◌, ◌||◌, Option, none, some, List, [], ◌∷◌, ◌++◌, ◌==◌,
  if◌then◌else◌, get_elem?, set, same_string,
}
use cse.Base.Outcome.{Outcome, ok, err, panic, enomem, enxio, enodev}
use cse.Vfs.{Name, Knowndev, Vfs, Ops, M, pure, fail, next, lift, ◌>>◌}
use cse.Vfs.Vnode.{vnode_init, vnode_incref, warn}

abbrev pub is_set {ℓ} : {A : Type ℓ} → Option A → Bool
is_set none = false
is_set (some _) = true

abbrev pub samestring : Option Name → Option Name → Bool
samestring (some a) (some b) = same_string a b
samestring _ _ = false

abbrev pub samestring3 : (a b c d : Option Name) → Bool
samestring3 a b c d = samestring a b || samestring a c || samestring a d

abbrev pub mkrawname : Name → Name
mkrawname name = name ++ (114 ∷ 97 ∷ 119 ∷ [])

-- What `kmalloc` answers on the way: for the names, the vnode, its lock, the entry and the table.
pub record Memory : Type 0 where
  pub name : Bool
  pub rawname : Bool
  pub vnode : Bool
  pub lock : Bool
  pub kd : Bool
  pub table : Bool

module _ {W : Type 0} where
  abbrev pub assert_set {ℓ} : {A : Type ℓ} {B : Type 0} → Option A → M W B → M W B
  assert_set (some _) m s = m s
  assert_set none m s = (s, panic)

  abbrev pub assert_null {ℓ} : {A : Type ℓ} {B : Type 0} → Option A → M W B → M W B
  assert_null (some _) m s = (s, panic)
  assert_null none m s = m s

  -- A reference to the device.
  unfoldable pub device_vnode : Knowndev → M W ℕ
  unfolding vnode_incref
  device_vnode kd = vnode_incref kd.kd_vnode >> pure kd.kd_vnode

  -- An error is a panic.
  abbrev pub next_must : Vfs W → Outcome (Unit {0}) → Vfs W × Outcome (Unit {0})
  next_must s (ok _) = (s, ok tt)
  next_must s (err _) = (s, panic)
  next_must s panic = (s, panic)

  -- The vnode is NULL where there is no memory; the number is that of the new block.
  unfoldable pub dev_create_vnode : Memory → (block : ℕ) → M W ℕ
  unfolding vnode_init
  dev_create_vnode m block s =
      if m.vnode
      then (let (s1, r) = lift (vnode_init m.lock block none) s in
          let (s2, r2) = next_must s1 r in next s2 r2 (λ _. pure block))
      else (s, err enomem)

  -- The entry of the table, which is there.
  abbrev pub entry : ℕ → M W Knowndev
  entry i s = elim (get_elem? s.knowndevs i) [ some kd ↦ (s, ok kd) | none ↦ (s, panic) ]

  abbrev pub set_fs : ℕ → Knowndev → Option ℕ → M W (Unit {0})
  set_fs i kd fs s = (record s { knowndevs = set s.knowndevs i (record kd { kd_fs = fs }) }, ok tt)

-- The loop of `findmount`: the number of the entry.
unfoldable pub findmount : List Knowndev → (i : ℕ) → Name → Outcome ℕ
findmount [] i devname = err enodev
findmount (kd ∷ kds) i devname =
    let rest = findmount kds (i + 1) devname in
    if is_set kd.kd_rawname && same_string devname kd.kd_name then ok i else rest

-- The name of the first entry with the file system.
unfoldable pub vfs_getdevname : List Knowndev → (fs : ℕ) → Option Name
vfs_getdevname [] fs = none
vfs_getdevname (kd ∷ kds) fs =
    let rest = vfs_getdevname kds fs in
    elim kd.kd_fs [ none ↦ rest | some f ↦ if f == fs then some kd.kd_name else rest ]

module _ {W : Type 0} (o : Ops W) where
  unfoldable pub vfs_sync_loop : List Knowndev → M W (Unit {0})
  vfs_sync_loop [] = pure tt
  vfs_sync_loop (kd ∷ kds) = elim kd.kd_fs [
    | some fs ↦ warn (lift (o.sync fs)) >> vfs_sync_loop kds
    | none ↦ vfs_sync_loop kds
  ]

  unfoldable pub vfs_sync : M W (Unit {0})
  unfolding vfs_sync_loop
  vfs_sync s = vfs_sync_loop s.knowndevs s

  -- The volume name of a file system that is there.
  abbrev pub volname : Option ℕ → Option Name
  volname none = none
  volname (some fs) = o.getvolname fs

  -- The tests on one entry that does not answer as a file system; `rest` is the rest of the loop.
  unfoldable pub getroot_device : Knowndev → Name → M W ℕ → M W ℕ
  unfolding device_vnode
  getroot_device kd devname rest =
      if same_string kd.kd_name devname
      then assert_null kd.kd_fs
          (assert_null kd.kd_rawname (assert_set kd.kd_device (device_vnode kd)))
      else if samestring kd.kd_rawname (some devname)
      then assert_set kd.kd_device (device_vnode kd)
      else rest

  -- One round of the loop, for an entry with the file system that comes first.
  unfoldable pub getroot_entry : (kd_fs : Option ℕ) → Knowndev → Name → M W ℕ → M W ℕ
  unfolding getroot_device
  getroot_entry (some fs) kd devname rest =
      if same_string kd.kd_name devname || samestring (o.getvolname fs) (some devname)
      then lift (o.getroot fs)
      else getroot_device kd devname rest
  getroot_entry none kd devname rest =
      if is_set kd.kd_rawname && same_string kd.kd_name devname
      then fail enxio
      else getroot_device kd devname rest

  unfoldable pub getroot_loop : List Knowndev → Name → M W ℕ
  unfolding getroot_entry
  getroot_loop [] devname = fail enodev
  getroot_loop (kd ∷ kds) devname = getroot_entry kd.kd_fs kd devname (getroot_loop kds devname)

  unfoldable pub vfs_getroot : Name → M W ℕ
  unfolding getroot_loop
  vfs_getroot devname s = getroot_loop s.knowndevs devname s

  unfoldable pub badnames : List Knowndev → (n1 n2 n3 : Option Name) → Bool
  badnames [] n1 n2 n3 = false
  badnames (kd ∷ kds) n1 n2 n3 =
      samestring3 (volname kd.kd_fs) n1 n2 n3
      || samestring3 kd.kd_rawname n1 n2 n3
      || samestring3 (some kd.kd_name) n1 n2 n3
      || badnames kds n1 n2 n3
