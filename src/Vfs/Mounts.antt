-- ===== src/Vfs/Mounts.antt =====
-- vfs_mount, vfs_unmount and vfs_unmountall of vfslist.c.
use cse.Base.{
  ℕ, zero, suc, ◌+◌, ◌≡◌, refl, arith, ap, ◌∙◌, Option, none, some, List, [], ◌∷◌, get_elem?, set,
}
use mathlib.Core.Option.{some-injective}
use cse.Base.Outcome.{Outcome, ok}
use cse.Vfs.{Name, Knowndev, Vnodes, Vfs, Ops, ◌>>◌}
use cse.Vfs.Devices.{findmount}
use cse.Vfs.Mount.{vfs_mount, mount_on, vfs_unmount, unmount_from, release}

-- An entry that can be mounted, with a file system or none.
abbrev pub mountable : (name raw : Name) (dev vn : ℕ) → Option ℕ → Knowndev
mountable name raw dev vn fs = record {
  kd_name = name;
  kd_rawname = some raw;
  kd_device = some dev;
  kd_vnode = vn;
  kd_fs = fs;
}

module _ {name raw : Name} {dev vn : ℕ} where
  findmount-set :
      (kds : List Knowndev) (i j : ℕ) (devname : Name) (f g : Option ℕ)
      → get_elem? kds i ≡ some (mountable name raw dev vn f)
      → findmount (set kds i (mountable name raw dev vn g)) j devname ≡ findmount kds j devname
  unfolding findmount
  findmount-set [] i j devname f g e = refl
  findmount-set (k ∷ kds) zero j devname f g e =
      rw (some-injective k (mountable name raw dev vn f) e) refl
  findmount-set (k ∷ kds) (suc i) j devname f g e =
      rw (findmount-set kds i (j + 1) devname f g e) refl

  set-back :
      (kds : List Knowndev) (i : ℕ) (f g : Option ℕ)
      → get_elem? kds i ≡ some (mountable name raw dev vn f)
      → (get_elem? (set kds i (mountable name raw dev vn g)) i ≡ some (mountable name raw dev vn g))
        × (set (set kds i (mountable name raw dev vn g)) i (mountable name raw dev vn f) ≡ kds)
  set-back [] i f g e = absurd (ground (arith, e))
  set-back (k ∷ kds) zero f g e = (refl, rw (some-injective k (mountable name raw dev vn f) e) refl)
  set-back (k ∷ kds) (suc i) f g e =
      let (there, back) = set-back kds i f g e in (there, ap (λ l. k ∷ l) back)

module _ {W : Type 0} (o : Ops W) (devname name raw : Name) (dev vn fs i : ℕ) where
  mounted :
      (s : Vfs W) (f : ℕ → Vnodes W → Vnodes W × Outcome ℕ) (n : Vnodes W)
      → findmount s.knowndevs 0 devname ≡ ok i
      → get_elem? s.knowndevs i ≡ some (mountable name raw dev vn none)
      → f dev s.nodes ≡ (n, ok fs)
      → vfs_mount o devname f s ≡ (
        record s { nodes = n; knowndevs = set s.knowndevs i (mountable name raw dev vn (some fs)) },
        ok tt,
      )
  unfolding vfs_mount mount_on
  mounted s f n found there sets_up = rw (found, there, sets_up) refl

  unmounted :
      (s : Vfs W) (n1 n2 : Vnodes W)
      → findmount s.knowndevs 0 devname ≡ ok i
      → get_elem? s.knowndevs i ≡ some (mountable name raw dev vn (some fs))
      → o.sync fs s.nodes ≡ (n1, ok tt)
      → o.unmount fs n1 ≡ (n2, ok tt)
      → vfs_unmount o devname s ≡ (
        record s { nodes = n2; knowndevs = set s.knowndevs i (mountable name raw dev vn none) },
        ok tt,
      )
  unfolding vfs_unmount unmount_from release
  unmounted s n1 n2 found there syncs unmounts = rw (found, there, syncs, unmounts) refl

  -- Where `vfs_mount` finds a device with no file system and the file system can be set up, synced and
  -- unmounted, `vfs_unmount` of the device brings back the table as it was; neither fails.
  pub mount-unmount :
      (s : Vfs W) (f : ℕ → Vnodes W → Vnodes W × Outcome ℕ) (n1 n2 n3 : Vnodes W)
      → findmount s.knowndevs 0 devname ≡ ok i
      → get_elem? s.knowndevs i ≡ some (mountable name raw dev vn none)
      → f dev s.nodes ≡ (n1, ok fs)
      → o.sync fs n1 ≡ (n2, ok tt)
      → o.unmount fs n2 ≡ (n3, ok tt)
      → (vfs_mount o devname f >> vfs_unmount o devname) s ≡ (record s { nodes = n3 }, ok tt)
  mount-unmount s f n1 n2 n3 found there sets_up syncs unmounts =
      let (again, back) = set-back s.knowndevs i none (some fs) there in
      rw (mounted s f n1 found there sets_up) (
        unmounted
          (record s {
            nodes = n1;
            knowndevs = set s.knowndevs i (mountable name raw dev vn (some fs));
          })
          n2 n3 (findmount-set s.knowndevs i 0 devname none (some fs) there ∙ found) again syncs
          unmounts
        ∙ ap (λ kds. (record s { nodes = n3; knowndevs = kds }, ok tt)) back)
