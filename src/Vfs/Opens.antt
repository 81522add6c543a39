-- ===== src/Vfs/Opens.antt =====
-- The references of the operations on paths.
use cse.Base.{
  ℕ, Bool, true, false, Option, none, some, List, ◌∷◌, if◌then◌else◌, Bool-cases, inl, inr,
}
use cse.Base.Outcome.{Outcome}
use cse.Vfs.{Name, Vfs, Ops, M, Vop, open_op, truncate_op, pure, lift, finally, on_error, ◌>>◌}
use cse.Vfs.Vnode.{vnode_decref, vnode_incopen, vnode_decopen}
use cse.Vfs.Lookup.{vfs_lookparent}
use cse.Vfs.Path.{
  flag, can_write, call, in_parent, vop_creat, find_or_create, truncate_open, vfs_close, open_vnode,
  open_as, vfs_open,
}
use cse.Vfs.After.{
  After, Total, bind-After, Total-After, Total-Total, finally-After, on_error-After,
}
use cse.Vfs.Owns.{Others, Owns, Respects, lift-Gives, lift-Leaves, swap-Owns, vnode_incopen-Total}
use cse.Vfs.Drops.{vnode_decref-Total, vnode_decopen-Total, checked}
use cse.Vfs.Starts.{HandsBack, Balances}
use cse.Vfs.Lookups.{vfs_lookup-HandsBack, vfs_lookparent-HandsBack}

-- An open vnode is handed back, or nothing is.
abbrev pub HandsBackOpen : {W : Type 0} → Others → List (ℕ × Bool) → Vfs W × Outcome ℕ → Type 0
HandsBackOpen b hs = After b.halts (λ v. Owns b ((v, true) ∷ hs)) (Owns b hs)

module _ {W : Type 0} {b : Others} (o : Ops W) (respects : Respects b.halts o) where
  pub call-Balances :
      (hs : List (ℕ × Bool)) (vn : ℕ) (x : Bool) (op : Vop) (s : Vfs W)
      → Owns b ((vn, x) ∷ hs) s
      → Balances b ((vn, x) ∷ hs) (call o vn op s)
  unfolding call
  call-Balances hs vn x op s w =
      rw (checked (lift (o.vop op)) w) (lift-Leaves (o.vop op) s w (respects.vop op s.nodes))

  -- `vfs_close` gives back the reference of an open vnode, and closes it.
  pub vfs_close-Total :
      (hs : List (ℕ × Bool)) (vn : ℕ) (s : Vfs W)
      → Owns b ((vn, true) ∷ hs) s
      → Total b.halts (Owns b hs) (vfs_close o vn s)
  unfolding vfs_close
  vfs_close-Total hs vn s w =
      Total-Total (vnode_decopen o vn) (λ _. vnode_decref o vn) s
        (vnode_decopen-Total o respects vn s w) (λ _ s1 w1. vnode_decref-Total o respects vn s1 w1)

  module _ {hs : List (ℕ × Bool)} where
    pub in_parent-Balances :
        (path : Name) (f : ℕ → Name → M W (Unit {0})) (s : Vfs W)
        → Owns b hs s
        → ((dir : ℕ) (name : Name) (s1 : Vfs W)
            → Owns b ((dir, false) ∷ hs) s1
            → Balances b ((dir, false) ∷ hs) (f dir name s1))
        → Balances b hs (in_parent o path f s)
    unfolding in_parent
    in_parent-Balances path f s w inner =
        bind-After (vfs_lookparent o path) (λ p. finally (f p.0 p.1) (vnode_decref o p.0)) s
          (vfs_lookparent-HandsBack o respects path s w)
          (λ p s1 w1.
            finally-After (vnode_decref o p.0) (f p.0 p.1) s1 (inner p.0 p.1 s1 w1)
              (λ _ s2 w2. vnode_decref-Total o respects p.0 s2 w2)
              (λ s2 w2. vnode_decref-Total o respects p.0 s2 w2))

    create-HandsBack :
        (path : Name) (excl : Bool) (s : Vfs W)
        → Owns b hs s
        → HandsBack b hs (λ v. v) (in_parent o path (vop_creat o excl) s)
    unfolding in_parent vop_creat
    create-HandsBack path excl s w =
        bind-After (vfs_lookparent o path)
          (λ p. finally (vop_creat o excl p.0 p.1) (vnode_decref o p.0)) s
          (vfs_lookparent-HandsBack o respects path s w)
          (λ p s1 w1.
            finally-After (vnode_decref o p.0) (vop_creat o excl p.0 p.1) s1
              (rw (checked (lift (o.creat p.0 p.1 excl)) w1) (
                lift-Gives (λ v. v) (o.creat p.0 p.1 excl) s1 w1
                  (respects.creat p.0 p.1 excl s1.nodes)))
              (λ _ s2 w2. vnode_decref-Total o respects p.0 s2 (swap-Owns w2))
              (λ s2 w2. vnode_decref-Total o respects p.0 s2 w2))

    find_or_create-HandsBack :
        (path : Name) (flags : ℕ) (s : Vfs W)
        → Owns b hs s
        → HandsBack b hs (λ v. v) (find_or_create o path flags s)
    unfolding find_or_create
    find_or_create-HandsBack path flags s w = elim (Bool-cases (flag 4 flags)) [
      | inl creat ↦ rw creat (create-HandsBack path (flag 8 flags) s w)
      | inr plain ↦ rw plain (vfs_lookup-HandsBack o respects path s w)
    ]

    truncate_open-Balances :
        (vn : ℕ) (canwrite : Bool) (s : Vfs W)
        → Owns b ((vn, true) ∷ hs) s
        → Balances b ((vn, true) ∷ hs) (truncate_open o vn canwrite s)
    unfolding truncate_open
    truncate_open-Balances vn true s w = call-Balances hs vn true (truncate_op vn 0) s w
    truncate_open-Balances vn false s w = record { holds = w }

    maybe_truncate :
        (trunc : Bool) (vn : ℕ) (canwrite : Bool) (s : Vfs W)
        → Owns b ((vn, true) ∷ hs) s
        → Balances b ((vn, true) ∷ hs) ((if trunc then truncate_open o vn canwrite else pure tt) s)
    maybe_truncate true vn canwrite s w = truncate_open-Balances vn canwrite s w
    maybe_truncate false vn canwrite s w = record { holds = w }

    open_vnode-HandsBackOpen :
        (flags : ℕ) (canwrite : Bool) (vn : ℕ) (s : Vfs W)
        → Owns b ((vn, false) ∷ hs) s
        → HandsBackOpen b hs (open_vnode o flags canwrite vn s)
    unfolding open_vnode
    open_vnode-HandsBackOpen flags canwrite vn s w =
        bind-After opened (λ _. vnode_incopen vn >> finish) s
          (on_error-After (vnode_decref o vn) (call o vn (open_op vn flags)) s
            (call-Balances hs vn false (open_op vn flags) s w)
            (λ s1 w1. vnode_decref-Total o respects vn s1 w1))
          (λ _ s1 w1.
            Total-After (vnode_incopen vn) (λ _. finish) s1 (vnode_incopen-Total vn s1 w1)
              (λ _ s2 w2.
                bind-After truncated (λ _. pure vn) s2
                  (on_error-After (vfs_close o vn)
                    (if flag 16 flags then truncate_open o vn canwrite else pure tt) s2
                    (maybe_truncate (flag 16 flags) vn canwrite s2 w2)
                    (λ s3 w3. vfs_close-Total hs vn s3 w3))
                  (λ _ s3 w3. record { holds = w3 })))
      where
        opened : M W (Unit {0})
        opened = on_error (call o vn (open_op vn flags)) (vnode_decref o vn)

        truncated : M W (Unit {0})
        truncated =
            on_error (if flag 16 flags then truncate_open o vn canwrite else pure tt)
              (vfs_close o vn)

        finish : M W ℕ
        finish = truncated >> pure vn

    open_as-HandsBack :
        (canwrite : Option Bool) (path : Name) (flags : ℕ) (s : Vfs W)
        → Owns b hs s
        → HandsBackOpen b hs (open_as o canwrite path flags s)
    unfolding open_as
    open_as-HandsBack none path flags s w = record { holds = w }
    open_as-HandsBack (some canwrite) path flags s w =
        bind-After (find_or_create o path flags) (λ vn. open_vnode o flags canwrite vn) s
          (find_or_create-HandsBack path flags s w)
          (λ vn s1 w1. open_vnode-HandsBackOpen flags canwrite vn s1 w1)

    pub vfs_open-HandsBack :
        (path : Name) (flags : ℕ) (s : Vfs W)
        → Owns b hs s
        → HandsBackOpen b hs (vfs_open o path flags s)
    unfolding vfs_open
    vfs_open-HandsBack path flags s w = open_as-HandsBack (can_write flags) path flags s w
