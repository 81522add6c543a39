-- ===== src/Vfs/Renames.antt =====
-- The references of the operations on two paths.
use cse.Base.{ℕ, Bool, false, List, ◌∷◌, Bool-cases, inl, inr}
use cse.Base.Outcome.{Outcome, ok, err, panic}
use cse.Vfs.{Name, Vfs, Ops, M, Vop, readlink_op, link_op, rename_op, finally, on_error, ◌>>◌}
use cse.Vfs.Vnode.{vnode_decref}
use cse.Vfs.Lookup.{vfs_lookup, vfs_lookparent}
use cse.Vfs.Path.{call, same_fs, vfs_readlink, on_same_fs, with_new, vfs_rename, vfs_link}
use cse.Vfs.After.{Total, bind-After, Total-Total, finally-After, on_error-After}
use cse.Vfs.Owns.{Others, Owns, Respects, swap-Owns}
use cse.Vfs.Drops.{vnode_decref-Total}
use cse.Vfs.Starts.{Balances}
use cse.Vfs.Lookups.{vfs_lookup-HandsBack, vfs_lookparent-HandsBack}
use cse.Vfs.Opens.{call-Balances}

module _ {W : Type 0} {b : Others} (o : Ops W) (respects : Respects b.halts o) where
  -- Two vnodes that are held are given back.
  both-Total :
      (hs : List (ℕ × Bool)) (u v : ℕ) (s : Vfs W)
      → Owns b ((u, false) ∷ (v, false) ∷ hs) s
      → Total b.halts (Owns b hs) ((vnode_decref o u >> vnode_decref o v) s)
  both-Total hs u v s w =
      Total-Total (vnode_decref o u) (λ _. vnode_decref o v) s (vnode_decref-Total o respects u s w)
        (λ _ s1 w1. vnode_decref-Total o respects v s1 w1)

  on_same_fs-Balances :
      (hs : List (ℕ × Bool)) (u v : ℕ) (op : Vop) (s : Vfs W)
      → Owns b ((v, false) ∷ hs) s
      → Balances b ((v, false) ∷ hs) (on_same_fs o u v op s)
  unfolding on_same_fs
  on_same_fs-Balances hs u v op s w =
      elim (Bool-cases (same_fs (s.nodes.vn_fs u) (s.nodes.vn_fs v))) [
        | inl one_fs ↦ rw one_fs (call-Balances o respects hs v false op s w)
        | inr apart ↦ rw apart (record { holds = w })
      ]

  module _ {hs : List (ℕ × Bool)} where
    with_new-Balances :
        (old : ℕ) (newpath : Name) (f : ℕ → Name → M W (Unit {0})) (s : Vfs W)
        → Owns b ((old, false) ∷ hs) s
        → ((dir : ℕ) (name : Name) (s1 : Vfs W)
            → Owns b ((dir, false) ∷ (old, false) ∷ hs) s1
            → Balances b ((dir, false) ∷ (old, false) ∷ hs) (f dir name s1))
        → Balances b hs (with_new o old newpath f s)
    unfolding with_new
    with_new-Balances old newpath f s w inner =
        bind-After (on_error (vfs_lookparent o newpath) (vnode_decref o old))
          (λ p. finally (f p.0 p.1) (vnode_decref o p.0 >> vnode_decref o old)) s
          (on_error-After (vnode_decref o old) (vfs_lookparent o newpath) s
            (vfs_lookparent-HandsBack o respects newpath s w)
            (λ s1 w1. vnode_decref-Total o respects old s1 w1))
          (λ p s1 w1.
            finally-After (vnode_decref o p.0 >> vnode_decref o old) (f p.0 p.1) s1
              (inner p.0 p.1 s1 w1) (λ _ s2 w2. both-Total hs p.0 old s2 w2)
              (λ s2 w2. both-Total hs p.0 old s2 w2))

    swapped :
        (u v : ℕ) (r : Vfs W × Outcome (Unit {0}))
        → Balances b ((u, false) ∷ (v, false) ∷ hs) r
        → Balances b ((v, false) ∷ (u, false) ∷ hs) r
    swapped u v (s, ok _) h = record { holds = swap-Owns h.holds }
    swapped u v (s, err e) h = record { holds = swap-Owns h.holds }
    swapped u v (s, panic) h = record { holds = h.holds }

    pub vfs_rename-Balances :
        (oldpath newpath : Name) (s : Vfs W)
        → Owns b hs s
        → Balances b hs (vfs_rename o oldpath newpath s)
    unfolding vfs_rename
    vfs_rename-Balances oldpath newpath s w =
        bind-After (vfs_lookparent o oldpath)
          (λ p.
            with_new o p.0 newpath
              (λ newdir newname. on_same_fs o newdir p.0 (rename_op p.0 p.1 newdir newname)))
          s (vfs_lookparent-HandsBack o respects oldpath s w)
          (λ p s1 w1.
            with_new-Balances p.0 newpath
              (λ newdir newname. on_same_fs o newdir p.0 (rename_op p.0 p.1 newdir newname)) s1 w1
              (λ newdir newname s2 w2. swapped p.0 newdir _ (
                on_same_fs-Balances ((newdir, false) ∷ hs) newdir p.0
                  (rename_op p.0 p.1 newdir newname) s2 (swap-Owns w2))))

    pub vfs_link-Balances :
        (oldpath newpath : Name) (s : Vfs W)
        → Owns b hs s
        → Balances b hs (vfs_link o oldpath newpath s)
    unfolding vfs_link
    vfs_link-Balances oldpath newpath s w =
        bind-After (vfs_lookup o oldpath)
          (λ old.
            with_new o old newpath
              (λ newdir newname. on_same_fs o old newdir (link_op newdir newname old)))
          s (vfs_lookup-HandsBack o respects oldpath s w)
          (λ old s1 w1.
            with_new-Balances old newpath
              (λ newdir newname. on_same_fs o old newdir (link_op newdir newname old)) s1 w1
              (λ newdir newname s2 w2.
                on_same_fs-Balances ((old, false) ∷ hs) old newdir (link_op newdir newname old) s2
                  w2))

    pub vfs_readlink-Balances :
        (path : Name) (s : Vfs W) → Owns b hs s → Balances b hs (vfs_readlink o path s)
    unfolding vfs_readlink
    vfs_readlink-Balances path s w =
        bind-After (vfs_lookup o path)
          (λ vn. finally (call o vn (readlink_op vn)) (vnode_decref o vn)) s
          (vfs_lookup-HandsBack o respects path s w)
          (λ vn s1 w1.
            finally-After (vnode_decref o vn) (call o vn (readlink_op vn)) s1
              (call-Balances o respects hs vn false (readlink_op vn) s1 w1)
              (λ _ s2 w2. vnode_decref-Total o respects vn s2 w2)
              (λ s2 w2. vnode_decref-Total o respects vn s2 w2))
