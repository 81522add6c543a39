-- ===== src/Vfs/Lookups.antt =====
-- The references of vfs_getcurdir, getdevice and the two lookups.
use cse.Base.{ℕ, arith, ◌≡◌, refl, Bool, true, false, Option, none, some, List, [], ◌∷◌}
use cse.Base.Outcome.{Outcome, einval}
use cse.Vfs.{Name, Vfs, Ops, M, pure, fail, lift, finally, ◌>>=◌, ◌>>◌}
use cse.Vfs.Vnode.{vnode_check, vnode_incref, vnode_decref}
use cse.Vfs.Devices.{is_set, vfs_getroot}
use cse.Vfs.Lookup.{
  Start, from_cwd, from_bootfs, from_cwd_root, from_device, vfs_getcurdir, getbootfs, the_fs, fs_of,
  root_of, reference, start, split, head, getdevice, lookparent_from, vfs_lookparent, lookup_from,
  vfs_lookup,
}
use cse.Vfs.After.{After, bind-After, Total-After, finally-After, weaken-After}
use cse.Vfs.Owns.{Others, Owns, Respects, lift-Gives, lift-GivesRoot, swap-Owns}
use cse.Vfs.Drops.{vnode_decref-Total, checked}
use cse.Vfs.Starts.{HandsBack, incref-HandsBack, vfs_getroot-HandsBack}

module _ {W : Type 0} {b : Others} {hs : List (ℕ × Bool)} (s : Vfs W) (w : Owns b hs s) where
  reference-HandsBack : (v : Option ℕ) → HandsBack b hs (λ v. v) (reference v s)
  unfolding reference
  reference-HandsBack none = record { holds = w }
  reference-HandsBack (some v) = incref-HandsBack s w v

  pub vfs_getcurdir-HandsBack : HandsBack b hs (λ v. v) (vfs_getcurdir s)
  unfolding vfs_getcurdir
  vfs_getcurdir-HandsBack = reference-HandsBack s.cwd

  getbootfs-HandsBack : HandsBack b hs (λ v. v) (getbootfs s)
  unfolding getbootfs
  getbootfs-HandsBack = reference-HandsBack s.bootfs_vnode

  -- A vnode that has a file system is handed back.
  abbrev HandsBackFs : Vfs W × Outcome ℕ → Type 0
  HandsBackFs =
      After b.halts (λ v s1. Owns b ((v, false) ∷ hs) s1 × (is_set (s1.nodes.vn_fs v) ≡ true))
        (Owns b hs)

  reference_fs : (v : Option ℕ) → s.cwd ≡ v → HandsBackFs (reference v s)
  unfolding reference vnode_incref
  reference_fs none e = record { holds = w }
  reference_fs (some v) e = record { holds = ((incref-HandsBack s w v).holds, w.cwd_fs v e) }

  getcurdir_fs : HandsBackFs (vfs_getcurdir s)
  unfolding vfs_getcurdir
  getcurdir_fs = reference_fs s.cwd refl

  the_fs-Owns :
      (f : Option ℕ) → is_set f ≡ true → After b.halts (λ _. Owns b hs) (λ _. ⊥) (the_fs f s)
  unfolding the_fs
  the_fs-Owns none h = absurd (ground (arith, h))
  the_fs-Owns (some fs) h = record { holds = w }

  fs_of-Owns :
      (vn : ℕ)
      → is_set (s.nodes.vn_fs vn) ≡ true
      → After b.halts (λ _. Owns b hs) (λ _. ⊥) (fs_of vn s)
  unfolding fs_of
  fs_of-Owns vn h = the_fs-Owns (s.nodes.vn_fs vn) h

module _ {W : Type 0} {b : Others} {hs : List (ℕ × Bool)} where
  with_path :
      (path : Name) (m : M W ℕ) (s : Vfs W)
      → HandsBack b hs (λ v. v) (m s)
      → HandsBack b hs (λ (p : ℕ × Name). p.0) ((m >>= λ vn. pure (vn, path)) s)
  with_path path m s h = bind-After m (λ vn. pure (vn, path)) s h (λ _ s1 w1. record { holds = w1 })

module _ {W : Type 0} {b : Others} {hs : List (ℕ × Bool)} (o : Ops W)
    (respects : Respects b.halts o) where
  root_of-HandsBack :
      (vn : ℕ) (path : Name) (s : Vfs W)
      → Owns b ((vn, false) ∷ hs) s
      → is_set (s.nodes.vn_fs vn) ≡ true
      → HandsBack b hs (λ (p : ℕ × Name). p.0) (root_of o vn path s)
  unfolding root_of
  root_of-HandsBack vn path s w has =
      weaken-After _
        (bind-After (fs_of vn) (λ fs. lift (o.getroot fs) >>= give) s (fs_of-Owns s w vn has)
          (λ fs s1 w1.
            bind-After (lift (o.getroot fs)) give s1
              (lift-GivesRoot (o.getroot fs) s1 w1 (respects.getroot fs s1.nodes))
              (λ root s2 w2.
                Total-After (vnode_decref o vn) (λ _. pure (root, path)) s2
                  (vnode_decref-Total o respects vn s2 (swap-Owns w2))
                  (λ _ s3 w3. record { holds = w3 }))))
        (λ _ _ w1. w1) (λ _ none. absurd none)
    where
      give : ℕ → M W (ℕ × Name)
      give root = vnode_decref o vn >> pure (root, path)

  start-HandsBack :
      (from : Start) (s : Vfs W)
      → Owns b hs s
      → HandsBack b hs (λ (p : ℕ × Name). p.0) (start o from s)
  unfolding start
  start-HandsBack (from_cwd path) s w = with_path path vfs_getcurdir s (vfs_getcurdir-HandsBack s w)
  start-HandsBack (from_bootfs path) s w = with_path path getbootfs s (getbootfs-HandsBack s w)
  start-HandsBack (from_cwd_root path) s w =
      bind-After vfs_getcurdir (λ vn. root_of o vn path) s (getcurdir_fs s w)
        (λ vn s1 (w1, has). root_of-HandsBack vn path s1 w1 has)
  start-HandsBack (from_device device path) s w =
      with_path path (vfs_getroot o device) s (vfs_getroot-HandsBack o respects s w device)

  pub getdevice-HandsBack :
      (path : Name) (s : Vfs W)
      → Owns b hs s
      → HandsBack b hs (λ (p : ℕ × Name). p.0) (getdevice o path s)
  unfolding getdevice
  getdevice-HandsBack path s w = start-HandsBack (split path (head path)) s w

  -- A call on a vnode that is held, which is given up then.
  pub lookparent_from-HandsBack :
      (p : ℕ × Name) (s : Vfs W)
      → Owns b ((p.0, false) ∷ hs) s
      → HandsBack b hs
          (λ (p : ℕ × Name). p.0)
          (finally (lookparent_from o p) (vnode_decref o p.0) s)
  unfolding lookparent_from
  lookparent_from-HandsBack (vn, []) s w =
      finally-After {Q = λ _ _. ⊥} (vnode_decref o vn) (fail einval) s (record { holds = w })
        (λ _ _ none. absurd none) (λ s1 w1. vnode_decref-Total o respects vn s1 w1)
  lookparent_from-HandsBack (vn, c ∷ cs) s w =
      finally-After (vnode_decref o vn) (vnode_check vn >> lift (o.lookparent vn (c ∷ cs))) s
        (rw (checked (lift (o.lookparent vn (c ∷ cs))) w) (
          lift-Gives (λ (p : ℕ × Name). p.0) (o.lookparent vn (c ∷ cs)) s w
            (respects.lookparent vn (c ∷ cs) s.nodes)))
        (λ a s1 w1. vnode_decref-Total o respects vn s1 (swap-Owns w1))
        (λ s1 w1. vnode_decref-Total o respects vn s1 w1)

  -- `vfs_lookparent` keeps every reference but that of the directory it hands back.
  pub vfs_lookparent-HandsBack :
      (path : Name) (s : Vfs W)
      → Owns b hs s
      → HandsBack b hs (λ (p : ℕ × Name). p.0) (vfs_lookparent o path s)
  unfolding vfs_lookparent
  vfs_lookparent-HandsBack path s w =
      bind-After (getdevice o path) (λ p. finally (lookparent_from o p) (vnode_decref o p.0)) s
        (getdevice-HandsBack path s w) (λ p s1 w1. lookparent_from-HandsBack p s1 w1)

  lookup_from-HandsBack :
      (p : ℕ × Name) (s : Vfs W)
      → Owns b ((p.0, false) ∷ hs) s
      → HandsBack b hs (λ v. v) (lookup_from o p s)
  unfolding lookup_from
  lookup_from-HandsBack (vn, []) s w = record { holds = w }
  lookup_from-HandsBack (vn, c ∷ cs) s w =
      finally-After (vnode_decref o vn) (vnode_check vn >> lift (o.lookup vn (c ∷ cs))) s
        (rw (checked (lift (o.lookup vn (c ∷ cs))) w)
          (lift-Gives (λ v. v) (o.lookup vn (c ∷ cs)) s w (respects.lookup vn (c ∷ cs) s.nodes)))
        (λ a s1 w1. vnode_decref-Total o respects vn s1 (swap-Owns w1))
        (λ s1 w1. vnode_decref-Total o respects vn s1 w1)

  -- `vfs_lookup` keeps every reference but that of the vnode it hands back.
  pub vfs_lookup-HandsBack :
      (path : Name) (s : Vfs W) → Owns b hs s → HandsBack b hs (λ v. v) (vfs_lookup o path s)
  unfolding vfs_lookup
  vfs_lookup-HandsBack path s w =
      bind-After (getdevice o path) (lookup_from o) s (getdevice-HandsBack path s w)
        (λ p s1 w1. lookup_from-HandsBack p s1 w1)
