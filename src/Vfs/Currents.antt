-- ===== src/Vfs/Currents.antt =====
-- The references of the operations that change the current directory and the boot file system.
use cse.Base.{
  ℕ, ◌+◌, ◌≡◌, refl, arith, Bool, true, false, Option, none, some, List, [], ◌∷◌, Bool-cases, inl,
  inr, ltb, length, take, ◌++◌, Bool-cases,
}
use cse.Base.Outcome.{Outcome, ok, err, panic}
use cse.Vfs.{Name, Vnodes, Vfs, Ops, next, lift, finally, ◌>>=◌}
use cse.Vfs.Vnode.{vnode_incref, vnode_decref}
use cse.Vfs.Devices.{is_set}
use cse.Vfs.Lookup.{vfs_getcurdir, vfs_lookup}
use cse.Vfs.Current.{
  s_isdir, strchr, drop_old, set_cwd, set_typed, vfs_setcurdir, vfs_clearcurdir, vfs_chdir,
  change_bootfs, vfs_clearbootfs, boot_from, boot_at, vfs_setbootfs,
}
use cse.Vfs.After.{After, Total, bind-After, Total-After, finally-After}
use cse.Vfs.Owns.{Others, Owns, Respects, held, opened, one_of, lift-Leaves, vnode_incref-Total}
use cse.Vfs.Drops.{vnode_decref-Total, checked}
use cse.Vfs.Starts.{Balances}
use cse.Vfs.Lookups.{vfs_getcurdir-HandsBack, vfs_lookup-HandsBack}

abbrev with_old : Option ℕ → List (ℕ × Bool) → List (ℕ × Bool)
with_old none hs = hs
with_old (some v) hs = (v, false) ∷ hs

held-with_old :
    (old : Option ℕ) (hs : List (ℕ × Bool)) (u : ℕ)
    → held (with_old old hs) u ≡ one_of old u + held hs u
held-with_old none hs u = omega arith
held-with_old (some v) hs u = omega arith

opened-with_old :
    (old : Option ℕ) (hs : List (ℕ × Bool)) (u : ℕ) → opened (with_old old hs) u ≡ opened hs u
opened-with_old none hs u = omega arith
opened-with_old (some v) hs u = omega arith

module _ {W : Type 0} {b : Others} {hs : List (ℕ × Bool)} (o : Ops W)
    (respects : Respects b.halts o) where
  pub Total-Balances :
      (r : Vfs W × Outcome (Unit {0})) → Total b.halts (Owns b hs) r → Balances b hs r
  Total-Balances (s, ok _) h = record { holds = h.holds }
  Total-Balances (s, err e) h = absurd h.holds
  Total-Balances (s, panic) h = record { holds = h.holds }

  old-Total :
      (old : Option ℕ) (s : Vfs W)
      → Owns b (with_old old hs) s
      → Total b.halts (Owns b hs) (drop_old o old s)
  unfolding drop_old
  old-Total none s w = record { holds = w }
  old-Total (some v) s w = vnode_decref-Total o respects v s w

  -- The old directory is given up once the new one is in place.
  set_cwd-Total :
      (v : ℕ) (s : Vfs W)
      → Owns b ((v, false) ∷ hs) s
      → is_set (s.nodes.vn_fs v) ≡ true
      → Total b.halts (Owns b hs) (set_cwd o (some v) s)
  unfolding set_cwd
  set_cwd-Total v s w has =
      old-Total s.cwd (record s { cwd = some v })
        (record {
          refs = λ u. omega (arith, w.refs u, held-with_old s.cwd hs u);
          spare = λ u. omega (arith, w.spare u, held-with_old s.cwd hs u);
          opens = λ u. omega (arith, w.opens u, opened-with_old s.cwd hs u);
          cwd_fs = λ u e. ground (arith, has, e);
          table = w.table;
        })

  pub vfs_clearcurdir-Total :
      (s : Vfs W) → Owns b hs s → Total b.halts (Owns b hs) (vfs_clearcurdir o s)
  unfolding vfs_clearcurdir set_cwd
  vfs_clearcurdir-Total s w =
      old-Total s.cwd (record s { cwd = none })
        (record {
          refs = λ u. omega (arith, w.refs u, held-with_old s.cwd hs u);
          spare = λ u. omega (arith, w.spare u, held-with_old s.cwd hs u);
          opens = λ u. omega (arith, w.opens u, opened-with_old s.cwd hs u);
          cwd_fs = λ u e. absurd (ground (arith, e));
          table = w.table;
        })

  change_bootfs-Total :
      (v : ℕ) (s : Vfs W)
      → Owns b ((v, false) ∷ hs) s
      → Total b.halts (Owns b hs) (change_bootfs o (some v) s)
  unfolding change_bootfs
  change_bootfs-Total v s w =
      old-Total s.bootfs_vnode (record s { bootfs_vnode = some v })
        (record {
          refs = λ u. omega (arith, w.refs u, held-with_old s.bootfs_vnode hs u);
          spare = λ u. omega (arith, w.spare u, held-with_old s.bootfs_vnode hs u);
          opens = λ u. omega (arith, w.opens u, opened-with_old s.bootfs_vnode hs u);
          cwd_fs = w.cwd_fs;
          table = w.table;
        })

  pub vfs_clearbootfs-Total :
      (s : Vfs W) → Owns b hs s → Total b.halts (Owns b hs) (vfs_clearbootfs o s)
  unfolding vfs_clearbootfs change_bootfs
  vfs_clearbootfs-Total s w =
      old-Total s.bootfs_vnode (record s { bootfs_vnode = none })
        (record {
          refs = λ u. omega (arith, w.refs u, held-with_old s.bootfs_vnode hs u);
          spare = λ u. omega (arith, w.spare u, held-with_old s.bootfs_vnode hs u);
          opens = λ u. omega (arith, w.opens u, opened-with_old s.bootfs_vnode hs u);
          cwd_fs = w.cwd_fs;
          table = w.table;
        })

module _ {W : Type 0} {b : Others} (o : Ops W) (respects : Respects b.halts o) where
  module _ (hs : List (ℕ × Bool)) where
    incref_fs :
        (dir : ℕ) (s : Vfs W)
        → Owns b ((dir, false) ∷ hs) s
        → is_set (s.nodes.vn_fs dir) ≡ true
        → Total b.halts
            (λ s1.
              Owns b ((dir, false) ∷ (dir, false) ∷ hs) s1 × (is_set (s1.nodes.vn_fs dir) ≡ true))
            (vnode_incref dir s)
    unfolding vnode_incref
    incref_fs dir s w has = record { holds = ((vnode_incref-Total dir s w).holds, has) }

    set_typed-Balances :
        (dir mode : ℕ) (s : Vfs W)
        → Owns b ((dir, false) ∷ hs) s
        → (s_isdir mode ≡ true → is_set (s.nodes.vn_fs dir) ≡ true)
        → Balances b ((dir, false) ∷ hs) (set_typed o dir mode s)
    unfolding set_typed
    set_typed-Balances dir mode s w has = elim (Bool-cases (s_isdir mode)) [
      | inr file ↦ rw file (record { holds = w })
      | inl is_dir ↦ rw is_dir (
          Total-After (vnode_incref dir) (λ _. set_cwd o (some dir)) s
            (incref_fs dir s w (has is_dir))
            (λ _ s1 (w1, has1).
              Total-Balances o respects _ (set_cwd-Total o respects dir s1 w1 has1)))
    ]

    typed-Balances :
        (dir : ℕ) (s : Vfs W) (n : Vnodes W) (r : Outcome ℕ)
        → o.gettype dir s.nodes ≡ (n, r)
        → After b.halts
            (λ _. Owns b ((dir, false) ∷ hs))
            (Owns b ((dir, false) ∷ hs))
            (record s { nodes = n }, r)
        → Balances b ((dir, false) ∷ hs) (next (record s { nodes = n }) r (set_typed o dir))
    typed-Balances dir s n (ok mode) e w =
        set_typed-Balances dir mode (record s { nodes = n }) w.holds
          (λ is_dir. respects.directory dir mode s.nodes n e is_dir)
    typed-Balances dir s n (err c) e w = record { holds = w.holds }
    typed-Balances dir s n panic e w = record { holds = w.holds }

    vfs_setcurdir-Balances :
        (dir : ℕ) (s : Vfs W)
        → Owns b ((dir, false) ∷ hs) s
        → Balances b ((dir, false) ∷ hs) (vfs_setcurdir o dir s)
    unfolding vfs_setcurdir
    vfs_setcurdir-Balances dir s w = rw (checked (lift (o.gettype dir) >>= set_typed o dir) w) (
        typed-Balances dir s (o.gettype dir s.nodes).0 (o.gettype dir s.nodes).1 refl
          (lift-Leaves (o.gettype dir) s w (respects.gettype dir s.nodes)))

  module _ {hs : List (ℕ × Bool)} where
    pub vfs_chdir-Balances :
        (path : Name) (s : Vfs W) → Owns b hs s → Balances b hs (vfs_chdir o path s)
    unfolding vfs_chdir
    vfs_chdir-Balances path s w =
        bind-After (vfs_lookup o path) (λ vn. finally (vfs_setcurdir o vn) (vnode_decref o vn)) s
          (vfs_lookup-HandsBack o respects path s w)
          (λ vn s1 w1.
            finally-After (vnode_decref o vn) (vfs_setcurdir o vn) s1
              (vfs_setcurdir-Balances hs vn s1 w1)
              (λ _ s2 w2. vnode_decref-Total o respects vn s2 w2)
              (λ s2 w2. vnode_decref-Total o respects vn s2 w2))

    boot_from-Balances :
        (path : Name) (s : Vfs W) → Owns b hs s → Balances b hs (boot_from o path s)
    unfolding boot_from
    boot_from-Balances path s w =
        bind-After (vfs_chdir o path)
          (λ _. vfs_getcurdir >>= λ newguy. change_bootfs o (some newguy)) s
          (vfs_chdir-Balances path s w)
          (λ _ s1 w1.
            bind-After vfs_getcurdir (λ newguy. change_bootfs o (some newguy)) s1
              (vfs_getcurdir-HandsBack s1 w1)
              (λ newguy s2 w2.
                Total-Balances o respects _ (change_bootfs-Total o respects newguy s2 w2)))

    boot_at-Balances :
        (colon : Option Name) (tmp : Name) (s : Vfs W)
        → Owns b hs s
        → Balances b hs (boot_at o colon tmp s)
    unfolding boot_at
    boot_at-Balances none tmp s w = boot_from-Balances (tmp ++ (58 ∷ [])) s w
    boot_at-Balances (some rest) tmp s w = elim (Bool-cases (ltb 0 (length rest))) [
      | inl more ↦ rw more (record { holds = w })
      | inr empty ↦ rw empty (boot_from-Balances tmp s w)
    ]

    pub vfs_setbootfs-Balances :
        (fsname : Name) (s : Vfs W) → Owns b hs s → Balances b hs (vfs_setbootfs o fsname s)
    unfolding vfs_setbootfs
    vfs_setbootfs-Balances fsname s w =
        boot_at-Balances (strchr (take 254 fsname) 58) (take 254 fsname) s w
